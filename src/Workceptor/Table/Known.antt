-- ===== src/Workceptor/Table/Known.antt =====
-- How a scan, and the registration of a type of work, make units known.
use receptor.Prelude.{
  ◌≡◌, refl, sym, ap, ◌∙◌, true, false, ◌&&◌, none, some, List, [], ◌∷◌, ◌++◌, codes, arith,
  if◌then◌else◌, Bytes, In, same, same_iff, same→eq, same_refl, Bool-cases, Option-cases, inl, inr,
}
use mathlib.Core.Path.{subst}
use receptor.Prelude.Map.{Map, lookup, insert, delete, has_key, keys, lookup-delete, lookup-insert}
use receptor.Workceptor.Status.{File}
use receptor.Workceptor.Table.{
  WorkUnit, WorkType, Workceptor, bring_up, worker_for, scan_for_unit, scan_units, scan_for_units,
  forget_unknown, register_worker,
}

module _ {U : Type 0} (ops : WorkUnit U) (read_type : File → Bytes) where
  -- What a scan keeps: the active units, and the type that a unit becomes.
  record Keeps (ident : Bytes) (w w' : Workceptor U) : Type 0 where
    types : w'.work_types ≡ w.work_types
    active : lookup ident w'.active_units ≡ lookup ident w.active_units
    placed : lookup ident w'.dirs ≡ lookup ident w.dirs

  scan-other :
      (ident j : Bytes) (w : Workceptor U)
      → same j ident ≡ false
      → (w' : Workceptor U) × (scan_for_unit ops read_type false j w ≡ some w') × Keeps ident w w'
  unfolding scan_for_unit
  scan-other ident j w h = elim (Option-cases (lookup j w.dirs)) [
    | inl d ↦ (w, ground (arith, d), record { types = refl; active = refl; placed = refl })
    | inr (none, d) ↦ elim (Option-cases (lookup j w.active_units)) [
      | inr (u, a) ↦
          (w, ground (arith, d, a), record { types = refl; active = refl; placed = refl })
      | inl a ↦ (w, ground (arith, d, a), record { types = refl; active = refl; placed = refl })
    ]
    | inr (some text, d) ↦ elim (Option-cases (lookup j w.active_units)) [
      | inr (u, a) ↦
          (w, ground (arith, d, a), record { types = refl; active = refl; placed = refl })
      | inl a ↦
          let (worker, file) =
            bring_up ops read_type (some text) (worker_for ops read_type j (some text) w) in
          let w' : Workceptor U = record w {
            active_units = insert j worker w.active_units;
            dirs = insert j file w.dirs;
          } in
          (
            w',
            ground (arith, d, a),
            record {
              types = refl;
              active = ground (arith, h, lookup-insert j ident worker w.active_units);
              placed = ground (arith, h, lookup-insert j ident file w.dirs);
            },
          )
    ]
  ]

  scan-active :
      (ident : Bytes) (u : U) (w : Workceptor U)
      → lookup ident w.active_units ≡ some u
      → scan_for_unit ops read_type false ident w ≡ some w
  unfolding scan_for_unit
  scan-active ident u w a = elim (Option-cases (lookup ident w.dirs)) [
    | inl d ↦ ground (arith, d)
    | inr (file, d) ↦ ground (arith, d, a)
  ]

  -- The unit that a scan makes of a directory with that status file.
  abbrev pub brought_up : Bytes → Bytes → Workceptor U → U
  brought_up ident text w =
      (bring_up ops read_type (some text) (worker_for ops read_type ident (some text) w)).0

  scan-adopts :
      (ident text : Bytes) (w : Workceptor U)
      → lookup ident w.active_units ≡ none
      → lookup ident w.dirs ≡ some (some text)
      → (w' : Workceptor U) × (scan_for_unit ops read_type false ident w ≡ some w')
        × (lookup ident w'.active_units ≡ some (brought_up ident text w))
  unfolding scan_for_unit
  scan-adopts ident text w a d =
      let (worker, file) =
        bring_up ops read_type (some text) (worker_for ops read_type ident (some text) w) in
      let w' : Workceptor U = record w {
        active_units = insert ident worker w.active_units;
        dirs = insert ident file w.dirs;
      } in
      (
        w',
        ground (arith, a, d),
        ground (arith, same_refl ident, lookup-insert ident ident worker w.active_units),
      )

  scan_units-first :
      (j : Bytes) (idents : List Bytes) (w w' : Workceptor U)
      → scan_for_unit ops read_type false j w ≡ some w'
      → scan_units ops read_type (j ∷ idents) w ≡ scan_units ops read_type idents w'
  unfolding scan_units
  scan_units-first j idents w w' e = ground (arith, e)

  scan_units-active :
      (ident : Bytes) (u : U) (idents : List Bytes) (w : Workceptor U)
      → lookup ident w.active_units ≡ some u
      → (w' : Workceptor U) × (scan_units ops read_type idents w ≡ some w')
        × (lookup ident w'.active_units ≡ some u)
  unfolding scan_units
  scan_units-active ident u [] w a = (w, refl, a)
  scan_units-active ident u (j ∷ idents) w a = elim (Bool-cases (same j ident)) [
    | inl e ↦
        let first =
          scan-active j u w
            (subst (λ i. lookup i w.active_units ≡ some u) (sym (same→eq j ident e)) a) in
        let (w2, run, found) = scan_units-active ident u idents w a in
        (w2, scan_units-first j idents w w first ∙ run, found)
    | inr e ↦
        let (w1, first, keeps) = scan-other ident j w e in
        let (w2, run, found) = scan_units-active ident u idents w1 (keeps.active ∙ a) in
        (w2, scan_units-first j idents w w1 first ∙ run, found)
  ]

  worker_for-types :
      (ident text : Bytes) (w w' : Workceptor U)
      → w'.work_types ≡ w.work_types
      → worker_for ops read_type ident (some text) w' ≡ worker_for ops read_type ident (some text) w
  unfolding worker_for
  worker_for-types ident text w w' e =
      ap
        (λ types. elim (lookup (read_type (some text)) types) [
          | some wt ↦ wt.new_worker ident (read_type (some text))
          | none ↦ ops.unknown ident (read_type (some text))
        ])
        e

  worker_for-new :
      (ident text work_type : Bytes) (wt : WorkType U) (types : Map (WorkType U)) (w : Workceptor U)
      → read_type (some text) ≡ work_type
      → w.work_types ≡ insert work_type wt types
      → worker_for ops read_type ident (some text) w ≡ wt.new_worker ident work_type
  unfolding worker_for
  worker_for-new ident text work_type wt types w r e =
      ground (arith, r, e, lookup-insert work_type work_type wt types, same_refl work_type)

  scan_units-adopts :
      (ident text : Bytes) (idents : List Bytes) (w : Workceptor U)
      → In ident idents
      → lookup ident w.active_units ≡ none
      → lookup ident w.dirs ≡ some (some text)
      → (w' : Workceptor U) × (scan_units ops read_type idents w ≡ some w')
        × (lookup ident w'.active_units ≡ some (brought_up ident text w))
  scan_units-adopts ident text [] w i a d = absurd i
  scan_units-adopts ident text (j ∷ idents) w i a d = elim (Bool-cases (same j ident)) [
    | inl e ↦
        let same_name = sym (same→eq j ident e) in
        let (w1, first, found) =
          scan-adopts j text w (subst (λ i. lookup i w.active_units ≡ none) same_name a)
            (subst (λ i. lookup i w.dirs ≡ some (some text)) same_name d) in
        let (w2, run, still) = scan_units-active ident (brought_up ident text w) idents w1 (
          subst (λ i. lookup i w1.active_units ≡ some (brought_up i text w)) (sym same_name)
            found) in
        (w2, scan_units-first j idents w w1 first ∙ run, still)
    | inr e ↦
        let (w1, first, keeps) = scan-other ident j w e in
        let later : In ident idents = elim i [
          | inl h ↦ absurd (ground (arith, e, h, same_refl ident))
          | inr l ↦ l
        ] in
        let (w2, run, found) =
          scan_units-adopts ident text idents w1 later (keeps.active ∙ a) (keeps.placed ∙ d) in
        (
          w2,
          scan_units-first j idents w w1 first ∙ run,
          found
              ∙ ap (λ u. some (bring_up ops read_type (some text) u).0)
                  (worker_for-types ident text w w1 keeps.types),
        )
  ]

  -- Names in the directories.
  keys-In :
      (ident : Bytes) (file : File) (dirs : Map File)
      → lookup ident dirs ≡ some file
      → In ident (keys dirs)
  unfolding lookup
  keys-In ident file [] e = absurd (ground (arith, e))
  keys-In ident file ((j, f) ∷ dirs) e = elim (Bool-cases (same j ident)) [
    | inl h ↦ inl (same→eq j ident h)
    | inr h ↦ inr (keys-In ident file dirs (ground (arith, e, h)))
  ]

  forget_unknown-none :
      (work_type ident : Bytes) (units left : Map U)
      → lookup ident left ≡ none
      → lookup ident (forget_unknown ops read_type work_type units left) ≡ none
  unfolding forget_unknown
  forget_unknown-none work_type ident [] left e = e
  forget_unknown-none work_type ident ((j, u) ∷ units) left e =
      forget_unknown-none work_type ident units
        (if ops.is_unknown u && same (ops.work_type u) work_type then delete j left else left)
        (ground (arith, e, lookup-delete j ident left))

  forget_unknown-forgets :
      (work_type ident : Bytes) (u : U) (units left : Map U)
      → lookup ident units ≡ some u
      → ops.is_unknown u ≡ true
      → ops.work_type u ≡ work_type
      → lookup ident (forget_unknown ops read_type work_type units left) ≡ none
  unfolding forget_unknown lookup
  forget_unknown-forgets work_type ident u [] left e k t = absurd (ground (arith, e))
  forget_unknown-forgets work_type ident u ((j, v) ∷ units) left e k t =
      elim (Bool-cases (same j ident)) [
        | inl h ↦
            forget_unknown-none work_type ident units
              (if ops.is_unknown v && same (ops.work_type v) work_type then delete j left else left)
              (ground (
                arith,
                e,
                h,
                k,
                t,
                same_iff (ops.work_type v) work_type,
                lookup-delete j ident left,
              ))
        | inr h ↦
            forget_unknown-forgets work_type ident u units
              (if ops.is_unknown v && same (ops.work_type v) work_type then delete j left else left)
              (ground (arith, e, h)) k t
      ]

  -- Once its type of work is registered, a unit that was unknown is one of that type, loaded from
  -- its status file and restarted: the registration ends, and the unit is active. The conditions:
  -- the type was not registered, the active unit is an unknown one of that type, and its directory
  -- has a status file with that type.
  pub register_worker-known :
      (work_type ident text : Bytes) (u : U) (wt : WorkType U) (w : Workceptor U)
      → has_key work_type w.work_types ≡ false
      → lookup ident w.active_units ≡ some u
      → ops.is_unknown u ≡ true
      → ops.work_type u ≡ work_type
      → lookup ident w.dirs ≡ some (some text)
      → read_type (some text) ≡ work_type
      → (w' : Workceptor U) × (register_worker ops read_type work_type wt w ≡ some (w', true))
        × (lookup ident w'.active_units
            ≡ some (bring_up ops read_type (some text) (wt.new_worker ident work_type)).0)
  unfolding register_worker scan_for_units
  register_worker-known work_type ident text u wt w n a k t d r =
      let commands =
        if same work_type (codes "remote")
        then w.work_commands
        else w.work_commands ++ ((work_type, wt.verify_signature) ∷ []) in
      let known : Workceptor U = record w {
        work_types = insert work_type wt w.work_types;
        work_commands = commands;
        active_units = forget_unknown ops read_type work_type w.active_units w.active_units;
      } in
      let (w', run, found) =
        scan_units-adopts ident text (keys w.dirs) known (keys-In ident (some text) w.dirs d)
          (forget_unknown-forgets work_type ident u w.active_units w.active_units a k t) d in
      (
        w',
        ground (arith, n, run),
        found
            ∙ ap (λ v. some (bring_up ops read_type (some text) v).0)
                (worker_for-new ident text work_type wt w.work_types known r refl),
      )
