-- ===== src/Netceptor/Routing/Invariant.antt =====
-- What the search keeps, whatever order the queue has.
use receptor.Prelude.{
  In, ℕ, ◌+◌, ◌≤◌, ◌<◌, ◌≡◌, refl, sym, ◌∙◌, ◌≢◌, ◌⊎◌, inl, inr, true, false, some, [], ◌∷◌, arith,
  ltb, if◌then◌else◌, Bytes, same, same_iff, same_refl, same→eq, Bool-cases,
}
use mathlib.Core.Path.{subst}
use receptor.Prelude.Map.{Map, insert, has_key, lookup_or-insert, lookup_or-none, has_key-insert}
use receptor.Netceptor.Routing.Queue.{PriorityQueue, QueueLaws}
use receptor.Netceptor.Routing.{Costs, edges, Search, cost_of, prev_of, relax_edge, relax_edges}

module _ (pq : PriorityQueue) (laws : QueueLaws pq) (max_cost : ℕ) (self : Bytes)
    (known : Costs) where
  -- The source, or a node whose connections are known.
  abbrev pub IsNode : Bytes → Type 0
  IsNode u = (u ≡ self) ⊎ (has_key u known ≡ true)

  -- The last edge of the best path to `v` found so far.
  abbrev pub Last : Search pq → Bytes → Type 0
  Last st v =
      (e : ℕ) × In (v, e) (edges known (prev_of st.prev v))
      × (has_key v known ≡ true)
      × IsNode (prev_of st.prev v)
      × (cost_of st.cost (prev_of st.prev v) + e ≤ cost_of st.cost v)

  -- There is no path to `v` yet, or `v` is the source.
  abbrev pub Start : Search pq → Bytes → Type 0
  Start st v =
      (prev_of st.prev v ≡ [])
      × ((v ≡ self) ⊎ ((cost_of st.cost v ≡ max_cost) ⊎ (has_key v known ≡ false)))

  pub record Base (st : Search pq) : Type 0 where
    pub source : cost_of st.cost self ≡ 0
    pub bounded : (v : Bytes) → cost_of st.cost v ≤ max_cost
    pub domain : (v : Bytes) → has_key v st.cost ≡ has_key v known
    pub queued : (u : Bytes) → pq.has u st.queue ≡ true → IsNode u
    pub back : (v : Bytes) → Start st v ⊎ Last st v

  -- No edge out of `u` gives a better path.
  abbrev pub IsRelaxed : Search pq → Bytes → Type 0
  IsRelaxed st u =
      (v : Bytes) (e : ℕ)
      → In (v, e) (edges known u)
      → has_key v known ≡ true
      → cost_of st.cost v ≤ cost_of st.cost u + e

  -- Between two turns of the outer loop.
  pub record Inv (st : Search pq) : Type 0 where
    pub base : Base st
    pub relaxed : (u : Bytes) → pq.has u st.queue ≡ false → IsRelaxed st u

  -- Within the loop over the edges of `node`, with `rest` to come.
  record Mid (node : Bytes) (rest : Map ℕ) (st : Search pq) : Type 0 where
    base : Base st
    is_node : IsNode node
    relaxed : (u : Bytes) → u ≢ node → pq.has u st.queue ≡ false → IsRelaxed st u
    part :
        (v : Bytes) (e : ℕ)
        → In (v, e) (edges known node)
        → has_key v known ≡ true
        → In (v, e) rest ⊎ (cost_of st.cost v ≤ cost_of st.cost node + e)
    coming : (v : Bytes) (e : ℕ) → In (v, e) rest → In (v, e) (edges known node)

  module _ (node v : Bytes) (e : ℕ) (rest : Map ℕ) (st : Search pq)
      (m : Mid node ((v, e) ∷ rest) st) where
    abbrev path_cost : ℕ
    path_cost = cost_of st.cost node + e

    -- The state after `v` got a better path.
    abbrev better : Search pq
    better = record {
      queue = pq.insert v path_cost st.queue;
      cost = insert v path_cost st.cost;
      prev = insert v node st.prev;
    }

    cost-better :
        (j : Bytes) → cost_of better.cost j ≡ (if same v j then path_cost else cost_of st.cost j)
    cost-better j = lookup_or-insert 0 v j path_cost st.cost

    prev-better :
        (j : Bytes) → prev_of better.prev j ≡ (if same v j then node else prev_of st.prev j)
    prev-better j = lookup_or-insert [] v j node st.prev

    has_v : path_cost < cost_of st.cost v → has_key v known ≡ true
    has_v h = elim (Bool-cases (has_key v st.cost)) [
      | inl y ↦ sym (m.base.domain v) ∙ y
      | inr n ↦ absurd (omega (arith, lookup_or-none 0 v st.cost n))
    ]

    cost-better-le :
        path_cost < cost_of st.cost v → (u : Bytes) → cost_of better.cost u ≤ cost_of st.cost u
    cost-better-le h u = ground (arith, cost-better u, same_iff v u)

    Last-better : path_cost < cost_of st.cost v → Last better v
    Last-better h =
        let from : prev_of better.prev v ≡ node = ground (arith, prev-better v, same_refl v) in
        let less : cost_of better.cost node + e ≤ cost_of better.cost v =
          ground (arith, cost-better-le h node, cost-better v, same_refl v) in
        (e, rw from (m.coming v e (inl refl)), has_v h, rw from m.is_node, rw from less)

    Last-keeps :
        path_cost < cost_of st.cost v → (j : Bytes) → same v j ≡ false → Last st j → Last better j
    Last-keeps h j ne (e', edge, key, ok, less) =
        let from : prev_of better.prev j ≡ prev_of st.prev j = ground (arith, prev-better j) in
        let less' : cost_of better.cost (prev_of st.prev j) + e' ≤ cost_of better.cost j =
          ground (arith, cost-better-le h (prev_of st.prev j), cost-better j) in
        (e', rw from edge, key, rw from ok, rw from less')

    back-better : path_cost < cost_of st.cost v → (j : Bytes) → Start better j ⊎ Last better j
    back-better h j = elim (Bool-cases (same v j)) [
      | inl e ↦ inr (subst (Last better) (same→eq v j e) (Last-better h))
      | inr ne ↦ elim (m.base.back j) [
        | inl s ↦ inl (ground (arith, prev-better j, cost-better j))
        | inr l ↦ inr (Last-keeps h j ne l)
      ]
    ]

    Base-better : path_cost < cost_of st.cost v → Base better
    Base-better h = record {
      source = ground (arith, cost-better self, m.base.source, same_iff v self);
      bounded = λ j. ground (arith, cost-better j, m.base.bounded j, m.base.bounded v);
      domain = λ j.
          ground
            (arith, has_key-insert v j path_cost st.cost, m.base.domain j, has_v h, same_iff v j);
      queued = λ u q.
          ground
            (arith, laws.has-insert u v path_cost st.queue, m.base.queued u, has_v h, same_iff v u);
      back = back-better h;
    }

    cost-node : path_cost < cost_of st.cost v → cost_of better.cost node ≡ cost_of st.cost node
    cost-node h = ground (arith, cost-better node, same_iff v node)

    unqueued :
        (u : Bytes)
        → pq.has u better.queue ≡ false
        → (same v u ≡ false) × (pq.has u st.queue ≡ false)
    unqueued u q = ground (arith, laws.has-insert u v path_cost st.queue)

    part-better :
        path_cost < cost_of st.cost v
        → (w : Bytes) (d : ℕ)
        → In (w, d) ((v, e) ∷ rest) ⊎ (cost_of st.cost w ≤ cost_of st.cost node + d)
        → In (w, d) rest ⊎ (cost_of better.cost w ≤ cost_of better.cost node + d)
    part-better h w d (inl (inl p)) = inr (ground (arith, cost-node h, cost-better v, same_refl v))
    part-better h w d (inl (inr i)) = inl i
    part-better h w d (inr le) = inr (omega (arith, cost-node h, cost-better-le h w))

    part-same :
        cost_of st.cost v ≤ path_cost
        → (w : Bytes) (d : ℕ)
        → In (w, d) ((v, e) ∷ rest) ⊎ (cost_of st.cost w ≤ cost_of st.cost node + d)
        → In (w, d) rest ⊎ (cost_of st.cost w ≤ cost_of st.cost node + d)
    part-same h w d (inl (inl p)) = inr (ground arith)
    part-same h w d (inl (inr i)) = inl i
    part-same h w d (inr le) = inr le

    IsRelaxed-better :
        path_cost < cost_of st.cost v
        → (u : Bytes) → u ≢ node
        → pq.has u better.queue ≡ false
        → IsRelaxed better u
    IsRelaxed-better h u ne q w d edge key =
        let (other, out) = unqueued u q in
        let old = m.relaxed u ne out w d edge key in
        let same_cost : cost_of better.cost u ≡ cost_of st.cost u = ground (arith, cost-better u) in
        omega (arith, old, same_cost, cost-better-le h w)

    -- The other edges of `node` are as they were, and the one to `v` is done.
    Mid-better : path_cost < cost_of st.cost v → Mid node rest better
    Mid-better h = record {
      base = Base-better h;
      is_node = m.is_node;
      relaxed = IsRelaxed-better h;
      part = λ w d edge key. part-better h w d (m.part w d edge key);
      coming = λ w d i. m.coming w d (inr i);
    }

    Mid-same : cost_of st.cost v ≤ path_cost → Mid node rest st
    Mid-same h = record {
      base = m.base;
      is_node = m.is_node;
      relaxed = m.relaxed;
      part = λ w d edge key. part-same h w d (m.part w d edge key);
      coming = λ w d i. m.coming w d (inr i);
    }

  Mid-relax_edge :
      (node v : Bytes) (e : ℕ) (rest : Map ℕ) (st : Search pq)
      → Mid node ((v, e) ∷ rest) st
      → Mid node rest (relax_edge pq node (v, e) st)
  unfolding relax_edge
  Mid-relax_edge node v e rest st m =
      elim (Bool-cases (ltb (cost_of st.cost node + e) (cost_of st.cost v))) [
        | inl h ↦ rw h (Mid-better node v e rest st m (ground arith))
        | inr h ↦ rw h (Mid-same node v e rest st m (ground arith))
      ]

  Mid-relax_edges :
      (node : Bytes) (rest : Map ℕ) (st : Search pq)
      → Mid node rest st
      → Mid node [] (relax_edges pq node rest st)
  unfolding relax_edges
  Mid-relax_edges node [] st m = m
  Mid-relax_edges node ((v, e) ∷ rest) st m =
      Mid-relax_edges node rest (relax_edge pq node (v, e) st) (Mid-relax_edge node v e rest st m)

  -- A node is taken from the queue.
  Mid-pop :
      (st : Search pq) (node : Bytes) (queue : pq.Queue)
      → Inv st
      → pq.pop st.queue ≡ some (node, queue)
      → Mid node (edges known node) (record st { queue = queue })
  Mid-pop st node queue inv e = record {
    base = record {
      source = inv.base.source;
      bounded = inv.base.bounded;
      domain = inv.base.domain;
      queued = λ u q. queued u q (laws.has-pop st.queue queue node u e);
      back = inv.base.back;
    };
    is_node = inv.base.queued node (laws.has-pop st.queue queue node node e).0;
    relaxed = λ u ne q. inv.relaxed u (out u ne q (laws.has-pop st.queue queue node u e).1);
    part = λ v e' i key. inl i;
    coming = λ v e' i. i;
  }
    where
      queued :
          (u : Bytes)
          → pq.has u queue ≡ true
          → (pq.has node st.queue ≡ true)
            × ((same node u ≡ true) ⊎ (pq.has u queue ≡ pq.has u st.queue))
          → IsNode u
      queued u q (was, inl s) = subst IsNode (same→eq node u s) (inv.base.queued node was)
      queued u q (was, inr s) = inv.base.queued u (sym s ∙ q)

      out :
          (u : Bytes)
          → u ≢ node
          → pq.has u queue ≡ false
          → (same node u ≡ true) ⊎ (pq.has u queue ≡ pq.has u st.queue)
          → pq.has u st.queue ≡ false
      out u ne q (inl s) = absurd (ne (sym (same→eq node u s)))
      out u ne q (inr s) = sym s ∙ q

  Inv-Mid : (node : Bytes) (st : Search pq) → Mid node [] st → Inv st
  Inv-Mid node st m = record { base = m.base; relaxed = relaxed }
    where
      done :
          (v : Bytes) (e : ℕ)
          → ⊥ ⊎ (cost_of st.cost v ≤ cost_of st.cost node + e)
          → cost_of st.cost v ≤ cost_of st.cost node + e
      done v e (inl f) = absurd f
      done v e (inr h) = h

      relaxed : (u : Bytes) → pq.has u st.queue ≡ false → IsRelaxed st u
      relaxed u q = elim (Bool-cases (same node u)) [
        | inl s ↦ subst (IsRelaxed st) (same→eq node u s) (λ v e i key. done v e (m.part v e i key))
        | inr n ↦ m.relaxed u (λ p. ground (arith, same_iff node u)) q
      ]

  -- One turn of the outer loop.
  pub Inv-turn :
      (st : Search pq) (node : Bytes) (queue : pq.Queue)
      → Inv st
      → pq.pop st.queue ≡ some (node, queue)
      → Inv (relax_edges pq node (edges known node) (record st { queue = queue }))
  Inv-turn st node queue inv e =
      Inv-Mid node _ (Mid-relax_edges node (edges known node) _ (Mid-pop st node queue inv e))
