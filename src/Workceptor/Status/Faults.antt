-- ===== src/Workceptor/Status/Faults.antt =====
-- What a failed write of the status file does to the updates that follow.
use receptor.Prelude.{ℕ, ◌≡◌, ap, ◌∙◌, true, false, some, List, [], ◌∷◌, ◌++◌, arith, take, Bytes}
use receptor.Workceptor.State.{StatusFileData, Codec, write_fails, not_written}
use receptor.Workceptor.Status.{Change, update_full_status, update_opened, rewrite}
use receptor.Workceptor.Status.Shared.{Shared, Update, update_by, updates}

-- A text that the codec reads into no status.
abbrev pub IsBroken : Codec → Bytes → Type 0
IsBroken c text = (r : StatusFileData) → (c.unmarshal text r).1 ≡ false

-- An update whose write fails leaves that much of the text.
pub torn :
    (c : Codec) (n : ℕ) (change : Change) (sfd v changed : StatusFileData) (b : ℕ)
    (old text : Bytes)
    → c.unmarshal (b ∷ old) sfd ≡ (v, true)
    → change v ≡ some changed
    → c.marshal changed ≡ some text
    → update_full_status c (write_fails n) change sfd (some (b ∷ old)) ≡ record {
      memory = changed;
      file = some (take n (text ++ (10 ∷ [])));
      error = some not_written;
    }
unfolding update_full_status update_opened rewrite
torn c n change sfd v changed b old text l e m = ground (arith, l, e, m)

update_by-IsBroken :
    (c : Codec) (u : Update) (s : Shared) (b : ℕ) (text : Bytes)
    → IsBroken c (b ∷ text)
    → s.file ≡ some (b ∷ text)
    → (update_by c u s).file ≡ some (b ∷ text)
unfolding update_by update_full_status update_opened
update_by-IsBroken c (true, f) s b text broken e = ground (arith, e, broken s.node)
update_by-IsBroken c (false, f) s b text broken e = ground (arith, e, broken s.worker)

still :
    (c : Codec) (us : List Update) (s : Shared) (b : ℕ) (text : Bytes)
    → IsBroken c (b ∷ text)
    → s.file ≡ some (b ∷ text)
    → (updates c us s).file ≡ some (b ∷ text)
unfolding updates
still c [] s b text broken e = e
still c (u ∷ us) s b text broken e =
    still c us (update_by c u s) b text broken (update_by-IsBroken c u s b text broken e)

-- Once a write of the status file has failed after some bytes, and what it left is no JSON text of
-- a status, the file stays as it is: no later update, by the node or by the worker, repairs it.
pub updates-IsBroken :
    (c : Codec) (n : ℕ) (change : Change) (s : Shared) (v changed : StatusFileData) (b : ℕ)
    (old text : Bytes) (left : ℕ) (rest : Bytes) (us : List Update)
    → s.file ≡ some (b ∷ old)
    → c.unmarshal (b ∷ old) s.node ≡ (v, true)
    → change v ≡ some changed
    → c.marshal changed ≡ some text
    → take n (text ++ (10 ∷ [])) ≡ left ∷ rest
    → IsBroken c (left ∷ rest)
    → let st = update_full_status c (write_fails n) change s.node s.file in
      (updates c us (record s { node = st.memory; file = st.file })).file ≡ some (left ∷ rest)
updates-IsBroken c n change s v changed b old text left rest us e l ch m t broken =
    let file : (update_full_status c (write_fails n) change s.node s.file).file
        ≡ some (left ∷ rest) =
      ap (λ st. st.file)
        (ap (update_full_status c (write_fails n) change s.node) e
          ∙ torn c n change s.node v changed b old text l ch m)
      ∙ ap some t in
    still c us
      (record s {
        node = (update_full_status c (write_fails n) change s.node s.file).memory;
        file = (update_full_status c (write_fails n) change s.node s.file).file;
      })
      left rest broken file
