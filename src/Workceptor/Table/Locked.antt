-- ===== src/Workceptor/Table/Locked.antt =====
-- Where the table waits for ever.
use receptor.Prelude.{
  ℕ, ◌≡◌, refl, Bool, true, false, none, some, List, [], ◌∷◌, arith, Bytes, same, same_refl,
}
use receptor.Prelude.Map.{Map, lookup, has_key, lookup-delete, lookup-insert}
use receptor.Workceptor.Status.{File}
use receptor.Workceptor.Table.{
  WorkUnit, Workceptor, Removal, left, removals, release, generate_unit_id, allocate_unit,
  scan_for_unit, find_unit,
}

find_unit-waits :
    {U : Type 0} (ops : WorkUnit U) (read_type : File → Bytes) (ident text : Bytes)
    (w : Workceptor U)
    → lookup ident w.active_units ≡ none
    → lookup ident w.dirs ≡ some (some text)
    → find_unit ops read_type ident w ≡ none
unfolding find_unit scan_for_unit
find_unit-waits ops read_type ident text w a d = ground (arith, a, d)

forced :
    {U : Type 0} (ident text : Bytes) (removal : ℕ → Removal) (w : Workceptor U)
    → has_key ident w.dirs ≡ true
    → removal 2 ≡ left (some text)
    → (lookup ident (release true removal ident w).0.active_units ≡ none)
      × (lookup ident (release true removal ident w).0.dirs ≡ some (some text))
unfolding release removals
forced ident text removal w h r = (
  ground (arith, lookup-delete ident ident w.active_units, same_refl ident),
  ground (arith, h, r, lookup-insert ident ident (some text) w.dirs, same_refl ident),
)

-- After a release by force whose removal of the directory failed and left its status file, every
-- search for the unit waits for ever, for a lock that it holds itself: the condition is that the
-- directory was there.
pub release-find_unit :
    {U : Type 0} (ops : WorkUnit U) (read_type : File → Bytes) (ident text : Bytes)
    (removal : ℕ → Removal) (w : Workceptor U)
    → has_key ident w.dirs ≡ true
    → removal 2 ≡ left (some text)
    → find_unit ops read_type ident (release true removal ident w).0 ≡ none
release-find_unit ops read_type ident text removal w h r =
    let (inactive, there) = forced ident text removal w h r in
    find_unit-waits ops read_type ident text (release true removal ident w).0 inactive there

generate_unit_id-loops :
    {U : Type 0} (makes_dir : Bool) (draws : List Bytes) (work_unit_id : Bytes) (w : Workceptor U)
    → same work_unit_id [] ≡ false
    → has_key work_unit_id w.dirs ≡ false
    → has_key work_unit_id w.active_units ≡ true
    → generate_unit_id makes_dir draws work_unit_id w ≡ none
unfolding generate_unit_id
generate_unit_id-loops makes_dir [] work_unit_id w g d a = refl
generate_unit_id-loops makes_dir (drawn ∷ draws) work_unit_id w g d a =
    ground (arith, g, d, a, generate_unit_id-loops makes_dir draws work_unit_id w g d a)

-- To allocate a unit with an identifier that is given, is active, and has no directory never ends,
-- whatever random strings come: the conditions are that the type of work is registered, and that
-- the identifier is not empty.
pub allocate_unit-loops :
    {U : Type 0} (ops : WorkUnit U) (read_type : File → Bytes) (makes_dir : Bool)
    (draws : List Bytes) (work_type work_unit_id : Bytes) (params : Map Bytes) (w : Workceptor U)
    → has_key work_type w.work_types ≡ true
    → same work_unit_id [] ≡ false
    → has_key work_unit_id w.dirs ≡ false
    → has_key work_unit_id w.active_units ≡ true
    → allocate_unit ops read_type makes_dir draws work_type work_unit_id params w ≡ none
unfolding allocate_unit
allocate_unit-loops ops read_type makes_dir draws work_type work_unit_id params w t g d a =
    ground (arith, t, generate_unit_id-loops makes_dir draws work_unit_id w g d a)
