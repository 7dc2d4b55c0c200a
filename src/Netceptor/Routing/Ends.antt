-- ===== src/Netceptor/Routing/Ends.antt =====
-- The search begins with its invariant, ends within its fuel, and ends with an empty queue.
use mathlib.Core.Path.{subst}
use mathlib.Core.Option.{some-injective}
use receptor.Prelude.{
  In, ℕ, zero, suc, ◌+◌, ◌≤◌, ◌<◌, ◌≡◌, refl, sym, ◌∙◌, inl, inr, true, false, none, some, List, [],
  ◌∷◌, arith, if◌then◌else◌, Bytes, same, same_iff, same_refl, Option-cases,
}
use receptor.Prelude.Map.{
  Map, lookup, lookup_or, insert, keys, has_key, lookup_or-insert, lookup_or-none, has_key-insert,
}
use receptor.Netceptor.Routing.Queue.{PriorityQueue, QueueLaws, mem}
use receptor.Netceptor.Routing.{
  Costs, edges, Search, cost_of, prev_of, start_from, start, relax_edge, relax_edges, search_loop,
  total, measure,
}
use receptor.Netceptor.Routing.Invariant.{IsRelaxed, Inv, Inv-turn}

module _ (pq : PriorityQueue) (known : Costs) where
  search_loop-none :
      (fuel : ℕ) (st : Search pq)
      → pq.pop st.queue ≡ none
      → search_loop pq known (suc fuel) st ≡ some st
  unfolding search_loop
  search_loop-none fuel st p = ground arith

  search_loop-some :
      (fuel : ℕ) (st : Search pq) (node : Bytes) (rest : pq.Queue)
      → pq.pop st.queue ≡ some (node, rest)
      → search_loop pq known (suc fuel) st
        ≡ search_loop pq known fuel
            (relax_edges pq node (edges known node) (record st { queue = rest }))
  unfolding search_loop
  search_loop-some fuel st node rest p = ground arith

  module _ (laws : QueueLaws pq) (max_cost : ℕ) (self : Bytes) where
    abbrev Kept : Search pq → Type 0
    Kept st = Inv pq laws max_cost self known st

    -- The search ends with the invariant and an empty queue.
    pub Inv-search_loop :
        (fuel : ℕ) (st last : Search pq)
        → Kept st
        → search_loop pq known fuel st ≡ some last
        → Kept last × ((u : Bytes) → pq.has u last.queue ≡ false)
    Inv-search_loop zero st last inv e = absurd (unfold search_loop in cc)
    Inv-search_loop (suc fuel) st last inv e = elim (Option-cases (pq.pop st.queue)) [
      | inl p ↦
          subst (λ z. Kept z × ((u : Bytes) → pq.has u z.queue ≡ false))
            (some-injective st last (sym (search_loop-none fuel st p) ∙ e))
            (inv, λ u. laws.has-pop_none st.queue u p)
      | inr ((node, rest), p) ↦
          Inv-search_loop fuel _ last (Inv-turn pq laws max_cost self known st node rest inv p)
            (sym (search_loop-some fuel st node rest p) ∙ e)
    ]

pub mem-keys : (j : Bytes) (known : Costs) → mem j (keys known) ≡ has_key j known
unfolding mem lookup
mem-keys j [] = refl
mem-keys j ((k, m) ∷ known) = ground (arith, mem-keys j known)

module _ (pq : PriorityQueue) (laws : QueueLaws pq) (max_cost : ℕ) (self : Bytes) where
  abbrev started : List Bytes → Search pq → Search pq
  started = start_from pq max_cost self

  abbrev first_cost : Bytes → ℕ
  first_cost j = if same j self then 0 else max_cost

  abbrev with_node : Bytes → Search pq → Search pq
  with_node k st = record {
    queue = pq.insert k (first_cost k) st.queue;
    cost = insert k (first_cost k) st.cost;
    prev = insert k [] st.prev;
  }

  has_key-started :
      (ks : List Bytes) (st : Search pq) (j : Bytes)
      → has_key j (started ks st).cost ≡ (if mem j ks then true else has_key j st.cost)
  unfolding start_from mem
  has_key-started [] st j = refl
  has_key-started (k ∷ ks) st j =
      ground
        (arith, has_key-started ks (with_node k st) j, has_key-insert k j (first_cost k) st.cost)

  cost-started :
      (ks : List Bytes) (st : Search pq) (j : Bytes)
      → cost_of (started ks st).cost j ≡ (if mem j ks then first_cost j else cost_of st.cost j)
  unfolding start_from mem
  cost-started [] st j = refl
  cost-started (k ∷ ks) st j = ground (
    arith,
    cost-started ks (with_node k st) j,
    lookup_or-insert 0 k j (first_cost k) st.cost,
    same_iff k j,
  )

  prev-started :
      (ks : List Bytes) (st : Search pq) (j : Bytes)
      → prev_of st.prev j ≡ []
      → prev_of (started ks st).prev j ≡ []
  unfolding start_from
  prev-started [] st j h = h
  prev-started (k ∷ ks) st j h =
      prev-started ks (with_node k st) j (ground (arith, lookup_or-insert [] k j [] st.prev))

  has-started :
      (ks : List Bytes) (st : Search pq) (j : Bytes)
      → pq.has j (started ks st).queue ≡ (if mem j ks then true else pq.has j st.queue)
  unfolding start_from mem
  has-started [] st j = refl
  has-started (k ∷ ks) st j =
      ground (arith, has-started ks (with_node k st) j, laws.has-insert j k (first_cost k) st.queue)

  module _ (known : Costs) where
    abbrev begin : Search pq
    begin = record { queue = pq.insert self 0 pq.empty; cost = []; prev = [] }

    edges-none : (u : Bytes) → has_key u known ≡ false → edges known u ≡ []
    unfolding edges
    edges-none u h = lookup_or-none [] u known h

    has-start :
        (u : Bytes)
        → pq.has u (start pq max_cost self known).queue
          ≡ (if has_key u known then true else same self u)
    unfolding start
    has-start u = ground (
      arith,
      has-started (keys known) begin u,
      mem-keys u known,
      laws.has-insert u self 0 pq.empty,
      laws.has-empty u,
    )

    cost-start :
        (u : Bytes)
        → cost_of (start pq max_cost self known).cost u
          ≡ (if has_key u known then first_cost u else 0)
    unfolding start lookup_or lookup
    cost-start u = ground (arith, cost-started (keys known) begin u, mem-keys u known)

    domain-start : (u : Bytes) → has_key u (start pq max_cost self known).cost ≡ has_key u known
    unfolding start lookup
    domain-start u = ground (arith, has_key-started (keys known) begin u, mem-keys u known)

    prev-start : (u : Bytes) → prev_of (start pq max_cost self known).prev u ≡ []
    unfolding start lookup_or lookup
    prev-start u = prev-started (keys known) begin u refl

    IsRelaxed-start :
        (u : Bytes)
        → pq.has u (start pq max_cost self known).queue ≡ false
        → IsRelaxed pq laws max_cost self known (start pq max_cost self known) u
    IsRelaxed-start u q v e i key =
        let unknown : has_key u known ≡ false = ground (arith, has-start u) in
        absurd (subst (In (v, e)) (edges-none u unknown) i)

    -- Before the search every node is in the queue, and no path is known but the empty one.
    pub Inv-start : Inv pq laws max_cost self known (start pq max_cost self known)
    Inv-start = record {
      base = record {
        source = ground (arith, cost-start self, same_refl self);
        bounded = λ v. ground (arith, cost-start v);
        domain = domain-start;
        queued = λ u q. ground (arith, has-start u, same_iff self u);
        back = λ v. inl (prev-start v, ground (arith, cost-start v, same_iff v self));
      };
      relaxed = IsRelaxed-start;
    }

total-insert :
    (k : Bytes) (c p : ℕ) (m : Map ℕ) → lookup k m ≡ some c → total (insert k p m) + c ≡ total m + p
unfolding total lookup insert
total-insert k c p [] e = cc
total-insert k c p ((j, d) ∷ m) e = ground (arith, total-insert k c p m)

cost-lookup : (k : Bytes) (m : Map ℕ) → 0 < cost_of m k → lookup k m ≡ some (cost_of m k)
unfolding lookup_or
cost-lookup k m h = ground arith

module _ (pq : PriorityQueue) (laws : QueueLaws pq) (max_cost : ℕ) where
  measure-relax_edge :
      (node v : Bytes) (e : ℕ) (st : Search pq)
      → measure pq max_cost (relax_edge pq node (v, e) st) ≤ measure pq max_cost st
  unfolding relax_edge measure
  measure-relax_edge node v e st =
      let path = cost_of st.cost node + e in
      ground (
        arith,
        total-insert v (cost_of st.cost v) path st.cost,
        cost-lookup v st.cost,
        laws.len-insert v path st.queue,
      )

  measure-relax_edges :
      (node : Bytes) (es : Map ℕ) (st : Search pq)
      → measure pq max_cost (relax_edges pq node es st) ≤ measure pq max_cost st
  unfolding relax_edges
  measure-relax_edges node [] st = omega arith
  measure-relax_edges node ((v, e) ∷ es) st = omega (
    arith,
    measure-relax_edges node es (relax_edge pq node (v, e) st),
    measure-relax_edge node v e st,
  )

  measure-pop :
      (st : Search pq) (node : Bytes) (rest : pq.Queue)
      → pq.pop st.queue ≡ some (node, rest)
      → measure pq max_cost (record st { queue = rest }) < measure pq max_cost st
  unfolding measure
  measure-pop st node rest p = omega (arith, laws.len-pop st.queue rest node p)

  -- Each turn takes an element from the queue, and puts one back only where a cost falls.
  pub search_loop_total :
      (known : Costs) (fuel : ℕ) (st : Search pq)
      → measure pq max_cost st < fuel
      → (last : Search pq) × (search_loop pq known fuel st ≡ some last)
  search_loop_total known zero st h = elim h [ ]
  search_loop_total known (suc fuel) st h = elim (Option-cases (pq.pop st.queue)) [
    | inl p ↦ (st, search_loop-none pq known fuel st p)
    | inr ((node, rest), p) ↦
        let found =
          search_loop_total known fuel
            (relax_edges pq node (edges known node) (record st { queue = rest }))
            (omega (
              arith,
              measure-relax_edges node (edges known node) (record st { queue = rest }),
              measure-pop st node rest p,
            )) in
        (found.0, search_loop-some pq known fuel st node rest p ∙ found.1)
  ]
