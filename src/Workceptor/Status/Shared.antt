-- ===== src/Workceptor/Status/Shared.antt =====
-- The status file as a register that two processes share: the node, and the process of the unit.
use receptor.Prelude.{
  ◌≡◌, refl, sym, ap, ◌∙◌, Bool, true, false, none, some, List, [], ◌∷◌, ◌++◌, All, arith, Bytes,
}
use mathlib.Core.Path.{subst}
use receptor.Workceptor.State.{StatusFileData, Codec, no_fault}
use receptor.Workceptor.Status.{File, Change, update_full_status, rewrite, update_opened}

-- The specification: a register, and changes of it.
abbrev pub changes : List (StatusFileData → StatusFileData) → StatusFileData → StatusFileData
changes [] v = v
changes (f ∷ fs) v = changes fs (f v)

-- The two copies in memory, and the file.
pub record Shared : Type 0 where
  pub node : StatusFileData
  pub worker : StatusFileData
  pub file : File

-- An update by the node or by the worker.
abbrev pub Update : Type 0
Update = Bool × (StatusFileData → StatusFileData)

unfoldable pub update_by : Codec → Update → Shared → Shared
update_by c (true, f) s =
    let st = update_full_status c no_fault (λ v. some (f v)) s.node s.file in
    record s { node = st.memory; file = st.file }
update_by c (false, f) s =
    let st = update_full_status c no_fault (λ v. some (f v)) s.worker s.file in
    record s { worker = st.memory; file = st.file }

unfoldable pub updates : Codec → List Update → Shared → Shared
unfolding update_by
updates c [] s = s
updates c (u ∷ us) s = updates c us (update_by c u s)

abbrev pub functions : List Update → List (StatusFileData → StatusFileData)
functions [] = []
functions ((who, f) ∷ us) = f ∷ functions us

opened-loaded :
    (c : Codec) (change : Change) (m v : StatusFileData) (t : Bytes)
    → c.unmarshal (t ++ (10 ∷ [])) m ≡ (v, true)
    → update_opened c no_fault change m (t ++ (10 ∷ []))
      ≡ rewrite c no_fault change v (t ++ (10 ∷ []))
unfolding update_opened
opened-loaded c change m v [] e = ground (arith, e)
opened-loaded c change m v (b ∷ t) e = ground (arith, e)

rewritten :
    (c : Codec) (change : Change) (v w : StatusFileData) (old text : Bytes)
    → change v ≡ some w
    → c.marshal w ≡ some text
    → rewrite c no_fault change v old
      ≡ record { memory = w; file = some (text ++ (10 ∷ [])); error = none }
unfolding rewrite
rewritten c change v w old text h e = ground (arith, h, e)

module _ (c : Codec) (K : StatusFileData → Type 0) where
  -- The codec reads back what it wrote, for the statuses that have the property, into any of them.
  pub record IsFaithful : Type 0 where
    pub text : StatusFileData → Bytes
    pub writes : (v : StatusFileData) → K v → c.marshal v ≡ some (text v)
    pub reads : (v r : StatusFileData) → K v → K r → c.unmarshal (text v ++ (10 ∷ [])) r ≡ (v, true)

  module _ (faithful : IsFaithful) where
    -- The file holds the value.
    abbrev pub Holds : File → StatusFileData → Type 0
    Holds file v = file ≡ some (faithful.text v ++ (10 ∷ []))

    pub update-change :
        (change : Change) (m v w : StatusFileData)
        → K m
        → K v
        → K w
        → change v ≡ some w
        → update_full_status c no_fault change m (some (faithful.text v ++ (10 ∷ [])))
          ≡ record { memory = w; file = some (faithful.text w ++ (10 ∷ [])); error = none }
    unfolding update_full_status
    update-change change m v w km kv kw e =
        opened-loaded c change m v (faithful.text v) (faithful.reads v m kv km)
        ∙ rewritten c change v w (faithful.text v ++ (10 ∷ [])) (faithful.text w) e
            (faithful.writes w kw)

    pub updated :
        (f : StatusFileData → StatusFileData) (m v : StatusFileData)
        → K m
        → K v
        → K (f v)
        → update_full_status c no_fault (λ w. some (f w)) m (some (faithful.text v ++ (10 ∷ [])))
          ≡ record { memory = f v; file = some (faithful.text (f v) ++ (10 ∷ [])); error = none }
    updated f m v km kv kf = update-change (λ w. some (f w)) m v (f v) km kv kf refl

    -- What holds of the shared state when the register has the value.
    pub record Represents (s : Shared) (v : StatusFileData) : Type 0 where
      pub proper : K v
      pub node_proper : K s.node
      pub worker_proper : K s.worker
      pub file_holds : Holds s.file v

    abbrev pub KeepsAll : List Update → Type 0
    KeepsAll = All (λ u. (v : StatusFileData) → K v → K (u.1 v))

    step_refines :
        (u : Update) (s : Shared) (v : StatusFileData)
        → ((w : StatusFileData) → K w → K (u.1 w))
        → Represents s v
        → Represents (update_by c u s) (u.1 v)
    unfolding update_by
    step_refines (true, f) s v keeps r =
        let e =
          ap (update_full_status c no_fault (λ w. some (f w)) s.node) r.file_holds
          ∙ updated f s.node v r.node_proper r.proper (keeps v r.proper) in
        record {
          proper = keeps v r.proper;
          node_proper = subst K (sym (ap (λ st. st.memory) e)) (keeps v r.proper);
          worker_proper = r.worker_proper;
          file_holds = ap (λ st. st.file) e;
        }
    step_refines (false, f) s v keeps r =
        let e =
          ap (update_full_status c no_fault (λ w. some (f w)) s.worker) r.file_holds
          ∙ updated f s.worker v r.worker_proper r.proper (keeps v r.proper) in
        record {
          proper = keeps v r.proper;
          node_proper = r.node_proper;
          worker_proper = subst K (sym (ap (λ st. st.memory) e)) (keeps v r.proper);
          file_holds = ap (λ st. st.file) e;
        }

    -- The status file is a register that the node and the worker share: whatever updates they make,
    -- in whatever order, each starts from what the last one left, whoever made it, so that none is
    -- lost; the file then holds the value that the changes make of the first one, one after another.
    -- The conditions: no update meets a fault, and the JSON codec reads back what it wrote for the
    -- statuses that have a property which the changes keep.
    pub updates-Represents :
        (us : List Update) (s : Shared) (v : StatusFileData)
        → KeepsAll us
        → Represents s v
        → Represents (updates c us s) (changes (functions us) v)
    unfolding updates
    updates-Represents [] s v keeps r = r
    updates-Represents ((who, f) ∷ us) s v (keep, keeps) r =
        updates-Represents us (update_by c (who, f) s) (f v) keeps
          (step_refines (who, f) s v keep r)
