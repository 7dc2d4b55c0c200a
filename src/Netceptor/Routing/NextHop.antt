-- ===== src/Netceptor/Routing/NextHop.antt =====
-- From a destination back to its next hop, and the table of next hops.
use receptor.Prelude.{
  In, ℕ, zero, suc, ◌+◌, ◌≤◌, ◌<◌, ◌≡◌, refl, sym, ◌≢◌, ◌⊎◌, inl, inr, Bool, true, false, Option,
  some, List, [], ◌∷◌, arith, if◌then◌else◌, Bytes, same, same_iff, same_ne, same_refl, same→eq,
  Bool-cases,
}
use receptor.Prelude.Map.{Map, lookup, insert, has_key, lookup-insert}
use receptor.Netceptor.Routing.Queue.{PriorityQueue, QueueLaws, mem}
use receptor.Netceptor.Routing.{
  Costs, edges, Search, cost_of, prev_of, Walk, via, nowhere, out_of_fuel, walk, make_table,
}
use receptor.Netceptor.Routing.Invariant.{IsNode, Inv}
use mathlib.Core.Path.{subst}

-- A path from `u` through known nodes, with the sum of its costs.
pub data Route (known : Costs) (u : Bytes) : Bytes → ℕ → Type 0 where
  here : (n : ℕ) → n ≡ 0 → Route known u u n
  more :
      {v : Bytes} {w : ℕ} (x : Bytes) (e n : ℕ)
      → Route known u v w
      → In (x, e) (edges known v)
      → has_key x known ≡ true
      → n ≡ w + e
      → Route known u x n

pub Route-prepend :
    (known : Costs) (u h : Bytes) (e : ℕ)
    → In (h, e) (edges known u)
    → has_key h known ≡ true
    → {d : Bytes} {w : ℕ} → Route known h d w
    → (n : ℕ) → n ≡ e + w
    → Route known u d n
Route-prepend known u h e i key (here w p) n q = more h e n (here 0 refl) i key (omega arith)
Route-prepend known u h e i key (more {w = w'} x e' m r i' key' p) n q =
    more x e' n (Route-prepend known u h e i key r (e + w') refl) i' key' (omega arith)

abbrev pub found : Walk → Option Bytes → Option Bytes
found (via h) o = some h
found nowhere o = o
found out_of_fuel o = o

abbrev pub finds : Walk → Bool
finds (via h) = true
finds nowhere = true
finds out_of_fuel = false

-- The table has the next hop of each destination that has one.
abbrev pub Tabled : (Bytes → Walk) → List Bytes → Map Bytes → Type 0
Tabled find dests table =
    (t : Map Bytes) × (make_table find dests table ≡ some t)
    × ((d : Bytes)
        → lookup d t ≡ (if mem d dests then found (find d) (lookup d table) else lookup d table))

Tabled-∷ :
    (find : Bytes → Walk) (k : Bytes) (dests : List Bytes) (table : Map Bytes) (r : Walk)
    → find k ≡ r
    → finds r ≡ true
    → ((t : Map Bytes) → Tabled find dests t)
    → Tabled find (k ∷ dests) table
unfolding make_table mem
Tabled-∷ find k dests table (via h) e f next =
    let (t, made, has) = next (insert k h table) in
    (t, ground arith, λ d. ground (arith, has d, lookup-insert k d h table, same_iff k d))
Tabled-∷ find k dests table nowhere e f next =
    let (t, made, has) = next table in (t, ground arith, λ d. ground (arith, has d, same_iff k d))
Tabled-∷ find k dests table out_of_fuel e f next = cc

pub make_table-Tabled :
    (find : Bytes → Walk) (dests : List Bytes) (table : Map Bytes)
    → ((d : Bytes) → finds (find d) ≡ true)
    → Tabled find dests table
make_table-Tabled find [] table ends = (table, unfold make_table in refl, λ d. unfold mem in refl)
make_table-Tabled find (k ∷ dests) table ends =
    Tabled-∷ find k dests table (find k) refl (ends k) (λ t. make_table-Tabled find dests t ends)

module _ (pq : PriorityQueue) (laws : QueueLaws pq) (max_cost : ℕ) (self : Bytes) (known : Costs)
    (positive : (u v : Bytes) (e : ℕ) → In (v, e) (edges known u) → 1 ≤ e) (named : self ≢ [])
    (nodes_named : has_key [] known ≡ false) (st : Search pq)
    (inv : Inv pq laws max_cost self known st)
    (empty : (u : Bytes) → pq.has u st.queue ≡ false) where
  -- No path is cheaper than the cost found.
  pub cost-least : {v : Bytes} {w : ℕ} → Route known self v w → cost_of st.cost v ≤ w
  cost-least (here n p) = omega (arith, inv.base.source)
  cost-least (more {v} x e n r i key p) =
      omega (arith, inv.relaxed v (empty v) x e i key, cost-least r)

  -- What the walk from `p` finds: the first edge of a path to `p` no dearer than the cost found; or
  -- nothing, for the source, or where no path was found.
  abbrev pub Finds : Bytes → Walk → Type 0
  Finds p (via h) =
      (e : ℕ) × (w : ℕ) × In (h, e) (edges known self)
      × (has_key h known ≡ true)
      × Route known h p w
      × (e + w ≤ cost_of st.cost p)
  Finds p nowhere = (p ≡ self) ⊎ ((cost_of st.cost p ≡ max_cost) ⊎ (has_key p known ≡ false))
  Finds p out_of_fuel = ⊥

  -- One step back along an edge that is not from the source.
  Finds-back :
      (p u : Bytes) (e : ℕ)
      → In (p, e) (edges known u)
      → has_key p known ≡ true
      → has_key u known ≡ true
      → u ≢ self
      → cost_of st.cost u + e ≤ cost_of st.cost p
      → (r : Walk) → Finds u r
      → Finds p r
  Finds-back p u e i key key_u ne less (via h) (e', w, i', key', r, le) =
      (e', w + e, i', key', more p e (w + e) r i key refl, omega arith)
  Finds-back p u e i key key_u ne less nowhere (inl s) = absurd (ne s)
  Finds-back p u e i key key_u ne less nowhere (inr (inl s)) =
      absurd (omega (arith, inv.base.bounded p, positive u p e i))
  Finds-back p u e i key key_u ne less nowhere (inr (inr s)) = absurd (ground arith)
  Finds-back p u e i key key_u ne less out_of_fuel f = f

  walk-suc :
      (fuel : ℕ) (p : Bytes)
      → walk (suc fuel) self st.prev p ≡ (
          if same (prev_of st.prev p) self
          then via p
          else if same (prev_of st.prev p) []
          then nowhere
          else walk fuel self st.prev (prev_of st.prev p))
  unfolding walk
  walk-suc fuel p = refl

  onward :
      {fuel : ℕ} (p : Bytes) (e : ℕ)
      → In (p, e) (edges known (prev_of st.prev p))
      → has_key p known ≡ true
      → cost_of st.cost (prev_of st.prev p) + e ≤ cost_of st.cost p
      → same (prev_of st.prev p) self ≡ false
      → IsNode pq laws max_cost self known (prev_of st.prev p)
      → cost_of st.cost p < suc fuel
      → (cost_of st.cost (prev_of st.prev p) < fuel
          → Finds (prev_of st.prev p) (walk fuel self st.prev (prev_of st.prev p)))
      → Finds p (
          if same (prev_of st.prev p) []
          then nowhere
          else walk fuel self st.prev (prev_of st.prev p))
  onward p e i key less n (inl s) h next =
      absurd (ground (arith, same_iff (prev_of st.prev p) self))
  onward {fuel} p e i key less n (inr key_u) h next =
      let blank : prev_of st.prev p ≢ [] =
        λ q. ground (arith, subst (λ u. has_key u known ≡ true) q key_u) in
      let ne : prev_of st.prev p ≢ self = λ q. ground (arith, same_iff (prev_of st.prev p) self) in
      rw (same_ne (prev_of st.prev p) [] blank) (
        Finds-back p (prev_of st.prev p) e i key key_u ne less _
          (next (omega (arith, positive (prev_of st.prev p) p e i))))

  pub walk-Finds :
      (fuel : ℕ) (p : Bytes) → cost_of st.cost p < fuel → Finds p (walk fuel self st.prev p)
  walk-Finds zero p h = elim h [ ]
  walk-Finds (suc fuel) p h = elim (inv.base.back p) [
    | inl (none_yet, why) ↦
        rw (walk-suc fuel p, none_yet, same_ne [] self (λ e. named (sym e)), same_refl []) why
    | inr (e, i, key, ok, less) ↦ elim (Bool-cases (same (prev_of st.prev p) self)) [
      | inl s ↦
          rw (walk-suc fuel p, s)
            (
              e,
              0,
              subst (λ u. In (p, e) (edges known u)) (same→eq _ _ s) i,
              key,
              here 0 refl,
              omega arith,
            )
      | inr n ↦
          rw (walk-suc fuel p, n)
            (onward p e i key less n ok h (λ less'. walk-Finds fuel (prev_of st.prev p) less'))
    ]
  ]
