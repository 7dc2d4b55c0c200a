-- ===== src/Prelude/Map.antt =====
-- Go maps with string keys, as association lists. Go's iteration order is unspecified: the
-- theorems hold for every list, so for every order.
use mathlib.Core.Path.{◌≡◌, refl}
use mathlib.Core.Bool.{Bool, true, false}
use mathlib.Core.Option.{Option, none, some}
use mathlib.Core.List.{List, [], ◌∷◌, map}
use native.Mathlib.Omega.{arith}
use receptor.Prelude.Tests.{if◌then◌else◌}
use receptor.Prelude.Strings.{Bytes, same, same_iff}

abbrev pub Map {ℓ} : Type ℓ → Type ℓ
Map V = List (Bytes × V)

module _ {ℓ} {V : Type ℓ} where
  -- `v, ok := m[k]`
  unfoldable pub lookup : Bytes → Map V → Option V
  lookup k [] = none
  lookup k ((j, v) ∷ m) = if same j k then some v else lookup k m

  -- `m[k] = v`
  unfoldable pub insert : Bytes → V → Map V → Map V
  insert k v [] = (k, v) ∷ []
  insert k v ((j, w) ∷ m) = if same j k then (k, v) ∷ m else (j, w) ∷ insert k v m

  -- `delete(m, k)`
  unfoldable pub delete : Bytes → Map V → Map V
  delete k [] = []
  delete k ((j, w) ∷ m) = let rest = delete k m in if same j k then rest else (j, w) ∷ rest

  pub lookup-insert :
      (k j : Bytes) (v : V) (m : Map V)
      → lookup j (insert k v m) ≡ (if same k j then some v else lookup j m)
  unfolding lookup insert
  lookup-insert k j v [] = refl
  lookup-insert k j v ((i, w) ∷ m) =
      ground (arith, same_iff k j, same_iff i k, same_iff i j, lookup-insert k j v m)

  pub lookup-delete :
      (k j : Bytes) (m : Map V) → lookup j (delete k m) ≡ (if same k j then none else lookup j m)
  unfolding lookup delete
  lookup-delete k j [] = ground arith
  lookup-delete k j ((i, w) ∷ m) =
      ground (arith, same_iff k j, same_iff i k, same_iff i j, lookup-delete k j m)

-- `m[k]`, which is the zero value `d` on a missing key.
unfoldable pub lookup_or {ℓ} : {V : Type ℓ} → V → Bytes → Map V → V
lookup_or d k m = elim (lookup k m) [ none ↦ d | some v ↦ v ]

abbrev pub keys {ℓ} : {V : Type ℓ} → Map V → List Bytes
keys = map (λ e. e.0)

pub lookup_or-insert {ℓ} :
    {V : Type ℓ} (d : V) (k j : Bytes) (v : V) (m : Map V)
    → lookup_or d j (insert k v m) ≡ (if same k j then v else lookup_or d j m)
unfolding lookup_or
lookup_or-insert d k j v m = ground (arith, lookup-insert k j v m)

-- `_, ok := m[k]`
abbrev pub has_key {ℓ} : {V : Type ℓ} → Bytes → Map V → Bool
has_key k m = elim (lookup k m) [ none ↦ false | some _ ↦ true ]

pub has_key-insert {ℓ} :
    {V : Type ℓ} (k j : Bytes) (v : V) (m : Map V)
    → has_key j (insert k v m) ≡ (if same k j then true else has_key j m)
has_key-insert k j v m = ground (arith, lookup-insert k j v m)

pub lookup_or-none {ℓ} :
    {V : Type ℓ} (d : V) (k : Bytes) (m : Map V) → has_key k m ≡ false → lookup_or d k m ≡ d
unfolding lookup_or
lookup_or-none d k m h = ground arith
