-- ===== src/Workceptor/Table/Releasing.antt =====
-- What a release leaves of a unit.
use receptor.Prelude.{
  ℕ, zero, suc, ◌≡◌, refl, Bool, true, false, none, arith, Bytes, same, same_refl, Bool-cases, ◌⊎◌,
  inl, inr,
}
use receptor.Prelude.Map.{Map, lookup, has_key, lookup-delete, lookup-insert}
use receptor.Workceptor.Status.{File}
use receptor.Workceptor.Table.{
  Workceptor, Removal, removed, left, after_removal, succeeds, removals, release,
}

-- Other directories stay as they are.
after_removal-other :
    (ident j : Bytes) (r : Removal) (dirs : Map File)
    → same ident j ≡ false
    → lookup j (after_removal ident r dirs) ≡ lookup j dirs
after_removal-other ident j removed dirs h = ground (arith, h, lookup-delete ident j dirs)
after_removal-other ident j (left file) dirs h = elim (Bool-cases (has_key ident dirs)) [
  | inl e ↦ ground (arith, h, e, lookup-insert ident j file dirs)
  | inr e ↦ ground (arith, e)
]

removals-other :
    (force : Bool) (removal : ℕ → Removal) (n : ℕ) (ident j : Bytes) (dirs : Map File)
    → same ident j ≡ false
    → lookup j (removals force removal n ident dirs).0 ≡ lookup j dirs
unfolding removals
removals-other force removal zero ident j dirs h = after_removal-other ident j (removal 0) dirs h
removals-other force removal (suc n) ident j dirs h = ground (
  arith,
  after_removal-other ident j (removal (suc n)) dirs h,
  removals-other force removal n ident j (after_removal ident (removal (suc n)) dirs) h,
)

Removal-cases : (r : Removal) → (r ≡ removed) ⊎ ((file : File) × (r ≡ left file))
Removal-cases removed = inl refl
Removal-cases (left file) = inr (file, refl)

after_removal-gone :
    (ident : Bytes) (r : Removal) (dirs : Map File)
    → succeeds r ≡ true
    → lookup ident (after_removal ident r dirs) ≡ none
after_removal-gone ident removed dirs h =
    ground (arith, lookup-delete ident ident dirs, same_refl ident)
after_removal-gone ident (left file) dirs h = absurd (ground (arith, h))

removals-gone :
    (removal : ℕ → Removal) (n : ℕ) (ident : Bytes) (dirs : Map File)
    → (removals false removal n ident dirs).1 ≡ true
    → lookup ident (removals false removal n ident dirs).0 ≡ none
unfolding removals
removals-gone removal zero ident dirs h = after_removal-gone ident (removal 0) dirs h
removals-gone removal (suc n) ident dirs h = elim (Bool-cases (succeeds (removal (suc n)))) [
  | inl e ↦ ground (arith, e, after_removal-gone ident (removal (suc n)) dirs e)
  | inr e ↦
      let later =
        removals-gone removal n ident (after_removal ident (removal (suc n)) dirs)
          (ground (arith, e, h)) in
      ground (arith, e, later)
]

three_failures :
    (removal : ℕ → Removal) (ident : Bytes) (dirs : Map File)
    → (removals false removal 2 ident dirs).1 ≡ false
    → (succeeds (removal 2) ≡ false)
      × (succeeds (removal 1) ≡ false)
      × (succeeds (removal 0) ≡ false)
unfolding removals
three_failures removal ident dirs h = (ground (arith, h), ground (arith, h), ground (arith, h))

-- A release without force removes the directory of the unit and then forgets the unit, or it
-- reports an error after three removals have failed, and the unit stays active.
pub release-unforced :
    {U : Type 0} (removal : ℕ → Removal) (ident : Bytes) (w : Workceptor U)
    → (((release false removal ident w).1 ≡ true)
        × (lookup ident (release false removal ident w).0.dirs ≡ none)
        × (lookup ident (release false removal ident w).0.active_units ≡ none))
      ⊎ (((release false removal ident w).1 ≡ false)
          × ((release false removal ident w).0.active_units ≡ w.active_units)
          × (succeeds (removal 2) ≡ false)
          × (succeeds (removal 1) ≡ false)
          × (succeeds (removal 0) ≡ false))
unfolding release
release-unforced removal ident w = elim (Bool-cases (removals false removal 2 ident w.dirs).1) [
  | inl e ↦ inl (
    ground (arith, e),
    ground (arith, e, removals-gone removal 2 ident w.dirs e),
    ground (arith, e, lookup-delete ident ident w.active_units, same_refl ident),
  )
  | inr e ↦
      let (third, second, first) = three_failures removal ident w.dirs e in
      inr (ground (arith, e), ground (arith, e), third, second, first)
]

-- A release leaves the other units and their directories as they are.
pub release-other :
    {U : Type 0} (force : Bool) (removal : ℕ → Removal) (ident j : Bytes) (w : Workceptor U)
    → same ident j ≡ false
    → (lookup j (release force removal ident w).0.dirs ≡ lookup j w.dirs)
      × (lookup j (release force removal ident w).0.active_units ≡ lookup j w.active_units)
unfolding release
release-other force removal ident j w h =
    elim (Bool-cases (removals force removal 2 ident w.dirs).1) [
      | inl e ↦ (
        ground (arith, e, removals-other force removal 2 ident j w.dirs h),
        ground (arith, e, h, lookup-delete ident j w.active_units),
      )
      | inr e ↦
          (ground (arith, e, removals-other force removal 2 ident j w.dirs h), ground (arith, e))
    ]
