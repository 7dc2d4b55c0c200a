-- ===== src/Netceptor/Routing/Examples.antt =====
-- A mesh of four nodes: the direct connection from a to c is dearer than the way through b, and d
-- is not connected.
use mathlib.Core.Path.{subst}
use receptor.Prelude.{
  In, if◌then◌else◌, ℕ, ◌≤◌, ◌+◌, ◌≡◌, refl, Bool, true, false, some, [], ◌∷◌, arith, Bytes, same,
  inl, inr, All,
}
use receptor.Prelude.Map.{Map, lookup, lookup_or, insert}
use receptor.Netceptor.State.{Netceptor}
use receptor.Netceptor.Examples.{node_a, a, b, c, d}
use receptor.Netceptor.Routing.Queue.{fifo, fifo-laws, mem, snoc}
use receptor.Netceptor.Routing.{Costs, edges, cost_of, update_routing_table}
use receptor.Netceptor.Routing.NextHop.{Route, here, more}
use receptor.Netceptor.Routing.Shortest.{
  IsSound, update_routing_table_total, routing_path_costs-le, routing_table-Leads,
  routing_table_complete,
}

abbrev AllPositive : Costs → Type 0
AllPositive = All (λ m. All (λ e. 1 ≤ e.1) m.1)

edge_positive : (es : Map ℕ) (v : Bytes) (e : ℕ) → All (λ e. 1 ≤ e.1) es → In (v, e) es → 1 ≤ e
edge_positive [] v e h i = absurd i
edge_positive ((w, d) ∷ es) v e h (inl p) = ground arith
edge_positive ((w, d) ∷ es) v e h (inr i) = edge_positive es v e h.1 i

edges-∷ :
    (known : Costs) (k u : Bytes) (es : Map ℕ)
    → edges ((k, es) ∷ known) u ≡ (if same k u then es else edges known u)
unfolding edges lookup_or lookup
edges-∷ known k u es = ground arith

edges_positive :
    (known : Costs) (u v : Bytes) (e : ℕ) → AllPositive known → In (v, e) (edges known u) → 1 ≤ e
edges_positive [] u v e h i = absurd (unfold edges lookup_or lookup in i)
edges_positive ((k, es) ∷ known) u v e h i =
    go (same k u) (edges_positive known u v e h.1) (subst (In (v, e)) (edges-∷ known k u es) i)
  where
    go :
        (here : Bool)
        → (In (v, e) (edges known u) → 1 ≤ e)
        → In (v, e) (if here then es else edges known u)
        → 1 ≤ e
    go true rest i = edge_positive es v e h.0 i
    go false rest i = rest i

node_a-IsSound : IsSound node_a
unfolding same lookup
node_a-IsSound = record {
  positive = λ u v e. edges_positive node_a.known_connection_costs u v e (omega arith);
  named = λ e. cc;
  nodes_named = refl;
}

-- The node after the calculation.
abbrev routed_a : Netceptor
routed_a = record node_a {
  routing_table = (b, b) ∷ (c, b) ∷ [];
  routing_path_costs = (a, 0) ∷ (b, 1) ∷ (c, 2) ∷ (d, 1000) ∷ [];
}

routed_a_lem : update_routing_table fifo 1000 node_a ≡ some routed_a
unfolding update_routing_table mem snoc same lookup lookup_or insert
routed_a_lem = refl

-- The way through b.
a_to_c : Route node_a.known_connection_costs a c 2
unfolding edges lookup_or lookup same
a_to_c = more c 1 2 (more b 1 1 (here 0 refl) (inl refl) refl refl) (inr (inl refl)) refl refl

update_routing_table_total_example :
    (s : Netceptor) × (update_routing_table fifo 1000 node_a ≡ some s)
update_routing_table_total_example =
    update_routing_table_total fifo fifo-laws 1000 node_a node_a-IsSound

routing_path_costs-le_example : cost_of routed_a.routing_path_costs c ≤ 2
routing_path_costs-le_example =
    routing_path_costs-le fifo fifo-laws 1000 node_a routed_a node_a-IsSound routed_a_lem c 2 a_to_c

routing_table-Leads_example :
    (e : ℕ) × (w : ℕ) × In (b, e) (edges node_a.known_connection_costs a)
    × Route node_a.known_connection_costs b c w
    × (cost_of routed_a.routing_path_costs c ≡ e + w)
unfolding lookup same
routing_table-Leads_example =
    routing_table-Leads fifo fifo-laws 1000 node_a routed_a node_a-IsSound routed_a_lem c b refl

routing_table_complete_example : (next : Bytes) × (lookup c routed_a.routing_table ≡ some next)
routing_table_complete_example =
    routing_table_complete fifo fifo-laws 1000 node_a routed_a node_a-IsSound routed_a_lem c 2
      a_to_c (omega arith) (λ e. ground arith)
