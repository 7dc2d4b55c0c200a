-- ===== src/Workceptor/Table/Allocation.antt =====
-- What AllocateUnit makes.
use receptor.Prelude.{
  ◌≡◌, refl, ap, Bool, true, false, Option, none, some, List, [], ◌∷◌, arith, Bytes, same,
  Option-cases, ◌⊎◌, inl, inr,
}
use mathlib.Core.Path.{subst}
use receptor.Prelude.Map.{Map, lookup, insert, has_key}
use receptor.Workceptor.Status.{File}
use receptor.Workceptor.Table.{
  WorkUnit, WorkType, Workceptor, Generated, generated, in_use, not_made, generate_unit_id,
  Allocated, allocated, unknown_work_type, id_in_use, not_created, settle, create, allocate_unit,
}

-- What a generated identifier is.
pub record IsFree {U : Type 0} (ident work_unit_id : Bytes) (w w' : Workceptor U) : Type 0 where
  pub inactive : has_key ident w.active_units ≡ false
  pub unplaced : has_key ident w.dirs ≡ false
  pub as_given : (same work_unit_id [] ≡ true) ⊎ (ident ≡ work_unit_id)
  pub same_units : w'.active_units ≡ w.active_units
  pub made : w'.dirs ≡ insert ident none w.dirs

draw :
    {U : Type 0} (makes_dir : Bool) (drawn : Bytes) (draws : List Bytes)
    (work_unit_id ident : Bytes) (w w' : Workceptor U)
    → generate_unit_id makes_dir (drawn ∷ draws) work_unit_id w ≡ some (generated ident, w')
    → (generate_unit_id makes_dir draws work_unit_id w ≡ some (generated ident, w'))
      ⊎ ((has_key ident w.active_units ≡ false)
          × (has_key ident w.dirs ≡ false)
          × (same work_unit_id [] ≡ true ⊎ ident ≡ work_unit_id)
          × (w'.active_units ≡ w.active_units)
          × (w'.dirs ≡ insert ident none w.dirs))
unfolding generate_unit_id
draw makes_dir drawn draws work_unit_id ident w w' e = ground (arith, e)

generate_unit_id-IsFree :
    {U : Type 0} (makes_dir : Bool) (draws : List Bytes) (work_unit_id ident : Bytes)
    (w w' : Workceptor U)
    → generate_unit_id makes_dir draws work_unit_id w ≡ some (generated ident, w')
    → IsFree ident work_unit_id w w'
unfolding generate_unit_id
generate_unit_id-IsFree makes_dir [] work_unit_id ident w w' e = absurd (ground (arith, e))
generate_unit_id-IsFree makes_dir (drawn ∷ draws) work_unit_id ident w w' e =
    elim (draw makes_dir drawn draws work_unit_id ident w w' e) [
      | inl later ↦ generate_unit_id-IsFree makes_dir draws work_unit_id ident w w' later
      | inr (inactive, unplaced, as_given, same_units, made) ↦ record {
        inactive = inactive;
        unplaced = unplaced;
        as_given = as_given;
        same_units = same_units;
        made = made;
      }
    ]

generated-cases :
    {U : Type 0} (o : Option (Generated × Workceptor U))
    → (o ≡ none)
      ⊎ ((w : Workceptor U) × (o ≡ some (in_use, w)))
      ⊎ ((w : Workceptor U) × (o ≡ some (not_made, w)))
      ⊎ ((ident : Bytes) × (w : Workceptor U) × (o ≡ some (generated ident, w)))
generated-cases none = inl refl
generated-cases (some (in_use, w)) = inr (inl (w, refl))
generated-cases (some (not_made, w)) = inr (inr (inl (w, refl)))
generated-cases (some (generated ident, w)) = inr (inr (inr (ident, w, refl)))

in_use-same :
    {U : Type 0} (makes_dir : Bool) (draws : List Bytes) (work_unit_id : Bytes)
    (w w' : Workceptor U)
    → generate_unit_id makes_dir draws work_unit_id w ≡ some (in_use, w')
    → w' ≡ w
unfolding generate_unit_id
in_use-same makes_dir [] work_unit_id w w' e = absurd (ground (arith, e))
in_use-same makes_dir (drawn ∷ draws) work_unit_id w w' e =
    ground (arith, e, in_use-same makes_dir draws work_unit_id w w')

not_made-same :
    {U : Type 0} (makes_dir : Bool) (draws : List Bytes) (work_unit_id : Bytes)
    (w w' : Workceptor U)
    → generate_unit_id makes_dir draws work_unit_id w ≡ some (not_made, w')
    → w' ≡ w
unfolding generate_unit_id
not_made-same makes_dir [] work_unit_id w w' e = absurd (ground (arith, e))
not_made-same makes_dir (drawn ∷ draws) work_unit_id w w' e =
    ground (arith, e, not_made-same makes_dir draws work_unit_id w w')

-- What an allocation has made: a unit whose identifier was free and is the one that was given, if
-- any, or nothing but a directory.
abbrev pub IsMade : {U : Type 0} → Bytes → Allocated U → Workceptor U → Workceptor U → Type 0
IsMade work_unit_id (allocated ident worker) w w' =
    (has_key ident w.active_units ≡ false)
    × (has_key ident w.dirs ≡ false)
    × (same work_unit_id [] ≡ true ⊎ ident ≡ work_unit_id)
    × (w'.active_units ≡ insert ident worker w.active_units)
IsMade work_unit_id unknown_work_type w w' = w' ≡ w
IsMade work_unit_id id_in_use w w' = w' ≡ w
IsMade work_unit_id not_created w w' = w'.active_units ≡ w.active_units

module _ {U : Type 0} (ops : WorkUnit U) (read_type : File → Bytes) where
  settle-IsMade :
      (accepted saved : Bool) (ident work_unit_id : Bytes) (worker : U) (file : File)
      (w w1 : Workceptor U)
      → IsFree ident work_unit_id w w1
      → IsMade work_unit_id
          (settle ops read_type accepted saved ident worker file w1).0
          w
          (settle ops read_type accepted saved ident worker file w1).1
  settle-IsMade false saved ident work_unit_id worker file w w1 free = free.same_units
  settle-IsMade true false ident work_unit_id worker file w w1 free = free.same_units
  settle-IsMade true true ident work_unit_id worker file w w1 free =
      (free.inactive, free.unplaced, free.as_given, ap (insert ident worker) free.same_units)

  create-IsMade :
      (wt : WorkType U) (work_type ident work_unit_id : Bytes) (params : Map Bytes)
      (w w1 : Workceptor U)
      → IsFree ident work_unit_id w w1
      → IsMade work_unit_id
          (create ops read_type wt work_type ident params w1).0
          w
          (create ops read_type wt work_type ident params w1).1
  unfolding create
  create-IsMade wt work_type ident work_unit_id params w w1 free =
      let (worker, accepted) = ops.set_from_params params (wt.new_worker ident work_type) in
      let (file, saved) = ops.save worker in
      settle-IsMade accepted saved ident work_unit_id worker file w w1 free

  -- A unit that AllocateUnit makes has an identifier that no active unit and no directory had, the
  -- one that was asked for if there was one, and is added to the active units, which are otherwise
  -- as they were; an allocation that is refused leaves the active units as they were, and when the
  -- type of work is unknown or the identifier is in use it leaves everything as it was.
  pub allocate_unit-IsMade :
      (makes_dir : Bool) (draws : List Bytes) (work_type work_unit_id : Bytes) (params : Map Bytes)
      (w w' : Workceptor U) (a : Allocated U)
      → allocate_unit ops read_type makes_dir draws work_type work_unit_id params w ≡ some (a, w')
      → IsMade work_unit_id a w w'
  unfolding allocate_unit
  allocate_unit-IsMade makes_dir draws work_type work_unit_id params w w' a e =
      elim (Option-cases (lookup work_type w.work_types)) [
        | inl o ↦
            let x : Allocated U × Workceptor U = (unknown_work_type, w) in
            let r : x ≡ (a, w') = ground (arith, e, o) in
            subst (λ r. IsMade work_unit_id r.0 w r.1) r refl
        | inr (wt, o) ↦ elim (generated-cases (generate_unit_id makes_dir draws work_unit_id w)) [
          | inl g ↦ absurd (ground (arith, e, o, g))
          | inr (inl (w1, g)) ↦
              let x : Allocated U × Workceptor U = (id_in_use, w1) in
              let r : x ≡ (a, w') = ground (arith, e, o, g) in
              subst (λ r. IsMade work_unit_id r.0 w r.1) r
                (in_use-same makes_dir draws work_unit_id w w1 g)
          | inr (inr (inl (w1, g))) ↦
              let x : Allocated U × Workceptor U = (not_created, w1) in
              let r : x ≡ (a, w') = ground (arith, e, o, g) in
              subst (λ r. IsMade work_unit_id r.0 w r.1) r
                (ap (λ v. v.active_units) (not_made-same makes_dir draws work_unit_id w w1 g))
          | inr (inr (inr (ident, w1, g))) ↦
              let r : create ops read_type wt work_type ident params w1 ≡ (a, w') =
                ground (arith, e, o, g) in
              subst (λ r. IsMade work_unit_id r.0 w r.1) r
                (create-IsMade wt work_type ident work_unit_id params w w1
                  (generate_unit_id-IsFree makes_dir draws work_unit_id ident w w1 g))
        ]
      ]
