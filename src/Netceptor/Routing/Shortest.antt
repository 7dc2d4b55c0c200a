-- ===== src/Netceptor/Routing/Shortest.antt =====
-- The table of `updateRoutingTable`: least costs, and next hops on the cheapest paths.
use mathlib.Core.Path.{subst}
use mathlib.Core.Option.{some-injective}
use receptor.Prelude.{
  In, ℕ, suc, ◌+◌, ◌≤◌, ◌<◌, ◌≡◌, refl, sym, ap, ◌∙◌, ◌≢◌, inl, inr, true, false, none, some, [],
  arith, if◌then◌else◌, Bytes,
}
use receptor.Prelude.Map.{lookup, keys, has_key}
use receptor.Netceptor.State.{Netceptor}
use receptor.Netceptor.Routing.Queue.{PriorityQueue, QueueLaws}
use receptor.Netceptor.Routing.{
  Costs, edges, Search, cost_of, start, measure, Walk, via, nowhere, out_of_fuel, walk,
  update_routing_table,
}
use receptor.Netceptor.Routing.Invariant.{Inv}
use receptor.Netceptor.Routing.Ends.{mem-keys, Inv-start, Inv-search_loop, search_loop_total}
use receptor.Netceptor.Routing.NextHop.{
  Route, Route-prepend, found, finds, make_table-Tabled, Finds, cost-least, walk-Finds,
}

-- The costs of the connections that a node knows of are positive, and no node has the empty name.
pub record IsSound (s : Netceptor) : Type 0 where
  pub positive : (u v : Bytes) (e : ℕ) → In (v, e) (edges s.known_connection_costs u) → 1 ≤ e
  pub named : s.node_id ≢ []
  pub nodes_named : has_key [] s.known_connection_costs ≡ false

module _ (pq : PriorityQueue) (laws : QueueLaws pq) (max_cost : ℕ) where
  -- Where the new table and costs come from.
  record Computed (s s' : Netceptor) : Type 1 where
    last : Search pq
    inv : Inv pq laws max_cost s.node_id s.known_connection_costs last
    empty : (u : Bytes) → pq.has u last.queue ≡ false
    costs : s'.routing_path_costs ≡ last.cost
    table :
        (d : Bytes)
        → lookup d s'.routing_table ≡ (
            if has_key d s.known_connection_costs
            then found (walk (suc max_cost) s.node_id last.prev d) none
            else none)

  Finds-finds :
      (s : Netceptor) (sound : IsSound s) (last : Search pq)
      (inv : Inv pq laws max_cost s.node_id s.known_connection_costs last)
      (empty : (u : Bytes) → pq.has u last.queue ≡ false) (d : Bytes) (r : Walk)
      → Finds pq laws max_cost s.node_id s.known_connection_costs sound.positive sound.named
          sound.nodes_named last inv empty d r
      → finds r ≡ true
  Finds-finds s sound last inv empty d (via h) f = refl
  Finds-finds s sound last inv empty d nowhere f = refl
  Finds-finds s sound last inv empty d out_of_fuel f = absurd f

  computed :
      (s : Netceptor)
      → IsSound s
      → (s' : Netceptor) × (update_routing_table pq max_cost s ≡ some s') × Computed s s'
  unfolding update_routing_table
  computed s sound =
      let known = s.known_connection_costs in
      let begin = start pq max_cost s.node_id known in
      let ended =
        search_loop_total pq laws max_cost known (suc (measure pq max_cost begin)) begin
          (omega arith) in
      let last = ended.0 in
      let kept =
        Inv-search_loop pq known laws max_cost s.node_id (suc (measure pq max_cost begin)) begin
          last (Inv-start pq laws max_cost s.node_id known) ended.1 in
      let inv = kept.0 in
      let empty = kept.1 in
      let find = walk (suc max_cost) s.node_id last.prev in
      let ends : (d : Bytes) → finds (find d) ≡ true = λ d. Finds-finds s sound last inv empty d _ (
        walk-Finds pq laws max_cost s.node_id known sound.positive sound.named sound.nodes_named
          last inv empty (suc max_cost) d (omega (arith, inv.base.bounded d))) in
      let tabled = make_table-Tabled find (keys known) [] ends in
      (
        record s { routing_table = tabled.0; routing_path_costs = last.cost },
        ground (arith, ended.1, tabled.1),
        record {
          last = last;
          inv = inv;
          empty = empty;
          costs = refl;
          table = λ d. unfold lookup in ground (arith, tabled.2 d, mem-keys d known);
        },
      )

  -- The calculation ends, on every set of known connections whose costs are positive: its fuel is
  -- enough for the loop over the queue, in whatever order the queue gives its elements, and for
  -- the walk back from each destination.
  pub update_routing_table_total :
      (s : Netceptor)
      → IsSound s
      → (s' : Netceptor) × (update_routing_table pq max_cost s ≡ some s')
  update_routing_table_total s sound = let c = computed s sound in (c.0, c.1)

  result :
      (s s' : Netceptor) → IsSound s → update_routing_table pq max_cost s ≡ some s' → Computed s s'
  result s s' sound e =
      let c = computed s sound in subst (Computed s) (some-injective c.0 s' (sym c.1 ∙ e)) c.2

  module _ (s s' : Netceptor) (sound : IsSound s) (c : Computed s s') where
    -- What the walk from `d` found, over the table's costs.
    abbrev Found : Bytes → Walk → Type 0
    Found =
        Finds pq laws max_cost s.node_id s.known_connection_costs sound.positive sound.named
          sound.nodes_named c.last c.inv c.empty

    walked : (d : Bytes) → Found d (walk (suc max_cost) s.node_id c.last.prev d)
    walked d =
        walk-Finds pq laws max_cost s.node_id s.known_connection_costs sound.positive sound.named
          sound.nodes_named c.last c.inv c.empty (suc max_cost) d
          (omega (arith, c.inv.base.bounded d))

    least :
        {d : Bytes} {w : ℕ}
        → Route s.known_connection_costs s.node_id d w
        → cost_of s'.routing_path_costs d ≤ w
    least {d} r = rw c.costs (
        cost-least pq laws max_cost s.node_id s.known_connection_costs sound.positive sound.named
          sound.nodes_named c.last c.inv c.empty r)

    -- The next hop is a neighbour, and the cost in the table is that of a path through it.
    abbrev Leads : Bytes → Bytes → Type 0
    Leads d h =
        (e : ℕ) × (w : ℕ) × In (h, e) (edges s.known_connection_costs s.node_id)
        × Route s.known_connection_costs h d w
        × (cost_of s'.routing_path_costs d ≡ e + w)

    via-Leads : (d h : Bytes) → Found d (via h) → Leads d h
    via-Leads d h (e, w, i, key, r, le) =
        let path = Route-prepend s.known_connection_costs s.node_id h e i key r (e + w) refl in
        (e, w, i, r, omega (arith, least path, ap (λ m. cost_of m d) c.costs))

    some-Leads :
        (d h : Bytes) (r : Walk)
        → Found d r
        → (if has_key d s.known_connection_costs then found r none else none) ≡ some h
        → Leads d h
    some-Leads d h (via g) f e =
        subst (Leads d) (let q : g ≡ h = ground arith in q) (via-Leads d g f)
    some-Leads d h nowhere f e = absurd (ground arith)
    some-Leads d h out_of_fuel f e = absurd f

    reached :
        (d : Bytes) (r : Walk)
        → Found d r
        → has_key d s.known_connection_costs ≡ true
        → d ≢ s.node_id
        → cost_of c.last.cost d < max_cost
        → (h : Bytes) × ((if has_key d s.known_connection_costs then found r none else none)
            ≡ some h)
    reached d (via g) f key ne lt = (g, rw key)
    reached d nowhere (inl p) key ne lt = absurd (ne p)
    reached d nowhere (inr (inl p)) key ne lt = absurd (omega arith)
    reached d nowhere (inr (inr p)) key ne lt = absurd (ground arith)
    reached d out_of_fuel f key ne lt = absurd f

  Route-has_key :
      (known : Costs) (u d : Bytes) (w : ℕ) → Route known u d w → d ≢ u → has_key d known ≡ true
  Route-has_key known u d w (Route.here n p) ne = absurd (ne refl)
  Route-has_key known u d w (Route.more x e n r i key p) ne = key

  -- No path through known nodes is cheaper than the cost in the table.
  pub routing_path_costs-le :
      (s s' : Netceptor)
      → IsSound s
      → update_routing_table pq max_cost s ≡ some s'
      → (dest : Bytes) (w : ℕ) → Route s.known_connection_costs s.node_id dest w
      → cost_of s'.routing_path_costs dest ≤ w
  routing_path_costs-le s s' sound e dest w r = least s s' sound (result s s' sound e) r

  -- The next hop to a destination is a neighbour, from which a path goes on to the destination; with
  -- the connection to the neighbour it costs what the table says, so no path is cheaper.
  pub routing_table-Leads :
      (s s' : Netceptor) (sound : IsSound s)
      → update_routing_table pq max_cost s ≡ some s'
      → (dest next : Bytes) → lookup dest s'.routing_table ≡ some next
      → (e : ℕ) × (w : ℕ) × In (next, e) (edges s.known_connection_costs s.node_id)
        × Route s.known_connection_costs next dest w
        × (cost_of s'.routing_path_costs dest ≡ e + w)
  routing_table-Leads s s' sound e dest next found_it =
      let c = result s s' sound e in
      some-Leads s s' sound c dest next _ (walked s s' sound c dest) (sym (c.table dest) ∙ found_it)

  -- Every other node to which there is a path through known nodes, of a cost below the largest
  -- number, has a next hop.
  pub routing_table_complete :
      (s s' : Netceptor)
      → IsSound s
      → update_routing_table pq max_cost s ≡ some s'
      → (dest : Bytes) (w : ℕ) → Route s.known_connection_costs s.node_id dest w
      → w < max_cost
      → dest ≢ s.node_id
      → (next : Bytes) × (lookup dest s'.routing_table ≡ some next)
  routing_table_complete s s' sound e dest w r small ne =
      let c = result s s' sound e in
      let at =
        reached s s' sound c dest _ (walked s s' sound c dest)
          (Route-has_key s.known_connection_costs s.node_id dest w r ne) ne
          (omega (arith, least s s' sound c r, ap (λ m. cost_of m dest) c.costs)) in
      (at.0, c.table dest ∙ at.1)
