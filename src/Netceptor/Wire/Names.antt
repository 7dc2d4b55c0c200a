-- ===== src/Netceptor/Wire/Names.antt =====
-- The table of name hashes: what `AddNameHash` keeps and what `GetNameFromHash` then finds.
use receptor.Prelude.{ℕ, ◌≡◌, refl, inl, inr, some, List, [], ◌∷◌, arith, Bytes, Option-cases}
use receptor.Netceptor.State.{Netceptor, External}
use receptor.Netceptor.Wire.{find_hash, add_hash, add_name_hash, get_name_from_hash, resolve}

pub find_hash-add_hash :
    (h k : ℕ) (n m : Bytes) (table : List (ℕ × Bytes))
    → find_hash h table ≡ some m
    → find_hash h (add_hash k n table) ≡ some m
unfolding find_hash add_hash
find_hash-add_hash h k n m table e = ground arith

-- Every entry of the table stands under the hash of its name.
abbrev pub IsHashed : External → List (ℕ × Bytes) → Type 0
IsHashed x [] = Unit {0}
IsHashed x ((h, n) ∷ table) = (x.hash n ≡ h) × IsHashed x table

pub find_hash-hash :
    (x : External) (h : ℕ) (n : Bytes) (table : List (ℕ × Bytes))
    → IsHashed x table
    → find_hash h table ≡ some n
    → x.hash n ≡ h
unfolding find_hash
find_hash-hash x h n [] v e = ground arith
find_hash-hash x h n ((k, m) ∷ table) v e = ground (arith, find_hash-hash x h n table v.1)

-- `AddNameHash` keeps every entry under the hash of its name, and loses no name that a hash found
-- before. Afterwards the hash that it returns finds some name with that hash: the name itself,
-- "localhost" being the node, unless another name of the same hash was there first.
pub add_name_hash-IsHashed :
    (x : External) (name : Bytes) (s : Netceptor)
    → IsHashed x s.name_hashes
    → IsHashed x (add_name_hash x name s).0.name_hashes
      × ((h : ℕ) (m : Bytes)
          → get_name_from_hash h s ≡ some m
          → get_name_from_hash h (add_name_hash x name s).0 ≡ some m)
      × ((n : Bytes) × (get_name_from_hash (add_name_hash x name s).1 (add_name_hash x name s).0
            ≡ some n)
          × (x.hash n ≡ x.hash (resolve s.node_id name)))
unfolding add_name_hash get_name_from_hash add_hash find_hash
add_name_hash-IsHashed x name s v =
    elim (Option-cases (find_hash (x.hash (resolve s.node_id name)) s.name_hashes)) [
      | inl new ↦ (
        ground arith,
        (λ h m e. find_hash-add_hash h _ _ m _ e),
        (resolve s.node_id name, ground arith, refl),
      )
      | inr (n, old) ↦ (
        ground arith,
        (λ h m e. find_hash-add_hash h _ _ m _ e),
        (n, ground arith, find_hash-hash x _ n _ v old),
      )
    ]
