-- ===== src/Workceptor/Table.antt =====
-- The table of work units (workceptor.go): the registered types of work, the units that the node
-- knows, and their directories. A function that would wait for ever gives no result.
pub mod Locked
pub mod Allocation
pub mod Known
pub mod Releasing
pub mod Examples
use receptor.Prelude.{
  ℕ, zero, suc, Bool, true, false, not, ◌&&◌, ◌||◌, Option, none, some, List, [], ◌∷◌, ◌++◌,
  if◌then◌else◌, Bytes, same, codes,
}
use receptor.Prelude.Map.{Map, lookup, insert, delete, has_key, keys}
use receptor.Workceptor.Status.{File}

-- How a restart comes out.
pub data Restarted : Type 0 where
  restarted is_pending not_restarted : Restarted

-- What the table knows of its units: the WorkUnit interface. A status file is none if it does not
-- exist.
pub record WorkUnit (U : Type 0) : Type 0 where
  pub set_from_params : Map Bytes → U → U × Bool
  pub save : U → File × Bool
  pub load : File → U → U × Bool
  pub restart : File → U → (U × File) × Restarted
  pub mark_failed : File → U → U × File  -- `UpdateBasicStatus`
  pub work_type : U → Bytes
  pub is_unknown : U → Bool
  pub unknown : Bytes → Bytes → U  -- `newUnknownWorker`, of an identifier and a type

-- `workType`
pub record WorkType (U : Type 0) : Type 0 where
  pub new_worker : Bytes → Bytes → U
  pub verify_signature : Bool

-- The fields of Workceptor, with the unit directories and the status file in each.
pub record Workceptor (U : Type 0) : Type 0 where
  pub work_types : Map (WorkType U)
  pub active_units : Map U
  pub dirs : Map File
  pub work_commands : List (Bytes × Bool)  -- those added to the netceptor

pub data Generated : Type 0 where
  generated : Bytes → Generated
  in_use : Generated
  not_made : Generated  -- the directory

-- `generateUnitID`, with the identifiers that the random strings make: none if all of them are taken
-- and the loop goes on; and with whether the directory can be made. It has no status file then.
pub generate_unit_id :
    {U : Type 0} → Bool → List Bytes → Bytes → Workceptor U → Option (Generated × Workceptor U)
generate_unit_id makes_dir [] work_unit_id w = none
generate_unit_id makes_dir (drawn ∷ draws) work_unit_id w =
    let given = not (same work_unit_id []) in
    let ident = if given then work_unit_id else drawn in
    let again = generate_unit_id makes_dir draws work_unit_id w in
    if given && has_key ident w.dirs
    then some (in_use, w)
    else if has_key ident w.active_units
    then again
    else if has_key ident w.dirs
    then again
    else if makes_dir
    then some (generated ident, record w { dirs = insert ident none w.dirs })
    else some (not_made, w)

pub data Allocated (U : Type 0) : Type 0 where
  allocated : Bytes → U → Allocated U
  unknown_work_type id_in_use not_created : Allocated U

module _ {U : Type 0} (ops : WorkUnit U) (read_type : File → Bytes) where
  -- What `AllocateUnit` does with a unit that accepts its parameters, or not, and whose status is
  -- saved, or not.
  abbrev pub settle : Bool → Bool → Bytes → U → File → Workceptor U → Allocated U × Workceptor U
  settle false saved ident worker file w = (not_created, w)
  settle true false ident worker file w =
      (not_created, record w { dirs = insert ident file w.dirs })
  settle true true ident worker file w = (
    allocated ident worker,
    record w { dirs = insert ident file w.dirs; active_units = insert ident worker w.active_units },
  )

  -- `AllocateUnit` after the identifier.
  pub create : WorkType U → Bytes → Bytes → Map Bytes → Workceptor U → Allocated U × Workceptor U
  create wt work_type ident params w =
      let (worker, accepted) = ops.set_from_params params (wt.new_worker ident work_type) in
      let (file, saved) = ops.save worker in settle accepted saved ident worker file w

  -- `AllocateUnit`
  pub allocate_unit :
      Bool
      → List Bytes
      → Bytes
      → Bytes
      → Map Bytes
      → Workceptor U
      → Option (Allocated U × Workceptor U)
  unfolding create
  allocate_unit makes_dir draws work_type work_unit_id params w =
      elim (lookup work_type w.work_types) [
        | none ↦ some (unknown_work_type, w)
        | some wt ↦ elim (generate_unit_id makes_dir draws work_unit_id w) [
          | none ↦ none
          | some (in_use, w') ↦ some (id_in_use, w')
          | some (not_made, w') ↦ some (not_created, w')
          | some (generated ident, w') ↦ some (create wt work_type ident params w')
        ]
      ]

  -- A unit of `scanForUnit` when its status file is there: loaded, and restarted.
  pub bring_up : File → U → U × File
  bring_up file worker =
      let (loaded, ok) = ops.load file worker in
      let (worker1, file1) = if ok then (loaded, file) else ops.mark_failed file loaded in
      let ((worker2, file2), outcome) = ops.restart file1 worker1 in
      elim outcome [
        | restarted ↦ (worker2, file2)
        | is_pending ↦ (worker2, file2)
        | not_restarted ↦ ops.mark_failed file2 worker2
      ]

  -- The worker that `scanForUnit` makes for a directory.
  pub worker_for : Bytes → File → Workceptor U → U
  worker_for ident file w = elim (lookup (read_type file) w.work_types) [
    | some wt ↦ wt.new_worker ident (read_type file)
    | none ↦ ops.unknown ident (read_type file)
  ]

  -- `scanForUnit`, with whether its caller holds the read lock of the active units: it then waits for
  -- ever when it takes the write lock.
  pub scan_for_unit : Bool → Bytes → Workceptor U → Option (Workceptor U)
  unfolding worker_for bring_up
  scan_for_unit held ident w = elim (lookup ident w.dirs) [
    | none ↦ some w
    | some file ↦ elim (lookup ident w.active_units) [
      | some worker ↦ some w
      | none ↦ elim file [
        | none ↦ some w
        | some text ↦
            let (worker, file') = bring_up (some text) (worker_for ident (some text) w) in
            if held
            then none
            else some (record w {
              active_units = insert ident worker w.active_units;
              dirs = insert ident file' w.dirs;
            })
      ]
    ]
  ]

  -- The loop of `scanForUnits`
  pub scan_units : List Bytes → Workceptor U → Option (Workceptor U)
  unfolding scan_for_unit
  scan_units [] w = some w
  scan_units (ident ∷ idents) w = elim (scan_for_unit false ident w) [
    | none ↦ none
    | some w' ↦ scan_units idents w'
  ]

  -- `scanForUnits`
  pub scan_for_units : Workceptor U → Option (Workceptor U)
  unfolding scan_units
  scan_for_units w = scan_units (keys w.dirs) w

  -- `findUnit`: none for an unknown unit.
  pub find_unit : Bytes → Workceptor U → Option (Option U × Workceptor U)
  unfolding scan_for_unit
  find_unit ident w = elim (lookup ident w.active_units) [
    | some worker ↦ some (some worker, w)
    | none ↦ elim (scan_for_unit true ident w) [
      | none ↦ none
      | some w' ↦ some (lookup ident w'.active_units, w')
    ]
  ]

  -- The loop of `RegisterWorker` over the active units, which deletes the unknown ones of the type.
  pub forget_unknown : Bytes → Map U → Map U → Map U
  forget_unknown work_type [] units = units
  forget_unknown work_type ((ident, worker) ∷ rest) units = forget_unknown work_type rest (
      if ops.is_unknown worker && same (ops.work_type worker) work_type
      then delete ident units
      else units)

  -- `RegisterWorker`; false if the type is registered.
  pub register_worker : Bytes → WorkType U → Workceptor U → Option (Workceptor U × Bool)
  unfolding forget_unknown scan_for_units
  register_worker work_type wt w =
      if has_key work_type w.work_types
      then some (w, false)
      else (let commands =
            if same work_type (codes "remote")
            then w.work_commands
            else w.work_commands ++ ((work_type, wt.verify_signature) ∷ []) in
          let known = record w {
            work_types = insert work_type wt w.work_types;
            work_commands = commands;
            active_units = forget_unknown work_type w.active_units w.active_units;
          } in
          elim (scan_for_units known) [ none ↦ none | some w' ↦ some (w', true) ])

-- What `RemoveAll` does to the directory of a unit: it removes it, or fails and leaves this.
pub data Removal : Type 0 where
  removed : Removal
  left : File → Removal

abbrev pub after_removal : Bytes → Removal → Map File → Map File
after_removal ident removed dirs = delete ident dirs
after_removal ident (left file) dirs = if has_key ident dirs then insert ident file dirs else dirs

abbrev pub succeeds : Removal → Bool
succeeds removed = true
succeeds (left file) = false

-- The loop of `BaseWorkUnit.Release`, when one attempt more than this is left, with what the
-- removals do; false on an error.
pub removals : Bool → (ℕ → Removal) → ℕ → Bytes → Map File → Map File × Bool
removals force removal zero ident dirs =
    (after_removal ident (removal 0) dirs, force || succeeds (removal 0))
removals force removal (suc n) ident dirs =
    let dirs' = after_removal ident (removal (suc n)) dirs in
    let again = removals force removal n ident dirs' in
    if force || succeeds (removal (suc n)) then (dirs', true) else again

-- `BaseWorkUnit.Release`
pub release : {U : Type 0} → Bool → (ℕ → Removal) → Bytes → Workceptor U → Workceptor U × Bool
unfolding removals
release force removal ident w =
    let (dirs', ok) = removals force removal 2 ident w.dirs in
    let w' = record w { dirs = dirs' } in
    if ok then (record w' { active_units = delete ident w.active_units }, true) else (w', false)
