-- ===== src/Netceptor/Routing.antt =====
-- `updateRoutingTable` of netceptor.go: the costs of the best paths and the next hops.
-- The loop over the queue and the walk from a destination take fuel. `none` means that the fuel ran
-- out. Costs are exact; `max_cost` is math.MaxFloat64.
pub mod Queue
pub mod Invariant
pub mod Ends
pub mod NextHop
pub mod Shortest
pub mod Examples
use receptor.Prelude.{
  ℕ, zero, suc, ◌+◌, ◌*◌, Option, none, some, List, [], ◌∷◌, ltb, if◌then◌else◌, Bytes, same,
}
use receptor.Prelude.Map.{Map, lookup_or, insert, keys}
use receptor.Netceptor.State.{Netceptor}
use Queue.{PriorityQueue}

abbrev pub Costs : Type 0
Costs = Map (Map ℕ)

-- `s.knownConnectionCosts[node]`
pub edges : Costs → Bytes → Map ℕ
edges known node = lookup_or [] node known

module _ (pq : PriorityQueue) where
  pub record Search : Type 0 where
    pub queue : pq.Queue
    pub cost : Map ℕ
    pub prev : Map Bytes

abbrev pub cost_of : Map ℕ → Bytes → ℕ
cost_of cost node = lookup_or 0 node cost

abbrev pub prev_of : Map Bytes → Bytes → Bytes
prev_of prev node = lookup_or [] node prev

module _ (pq : PriorityQueue) (max_cost : ℕ) (self : Bytes) where
  -- The loop over the known nodes before the search.
  pub start_from : List Bytes → Search pq → Search pq
  start_from [] st = st
  start_from (node ∷ nodes) st =
      let c = if same node self then 0 else max_cost in
      start_from nodes (record {
        queue = pq.insert node c st.queue;
        cost = insert node c st.cost;
        prev = insert node [] st.prev;
      })

  pub start : Costs → Search pq
  unfolding start_from
  start known =
      start_from (keys known) (record { queue = pq.insert self 0 pq.empty; cost = []; prev = [] })

module _ (pq : PriorityQueue) where
  -- One turn of the loop over the neighbours.
  pub relax_edge : Bytes → Bytes × ℕ → Search pq → Search pq
  relax_edge node (neighbor, edge_cost) st =
      let path_cost = cost_of st.cost node + edge_cost in
      if ltb path_cost (cost_of st.cost neighbor)
      then record {
        queue = pq.insert neighbor path_cost st.queue;
        cost = insert neighbor path_cost st.cost;
        prev = insert neighbor node st.prev;
      }
      else st

  pub relax_edges : Bytes → Map ℕ → Search pq → Search pq
  unfolding relax_edge
  relax_edges node [] st = st
  relax_edges node (e ∷ es) st = relax_edges node es (relax_edge node e st)

  -- `for Q.Len() > 0`
  pub search_loop : Costs → ℕ → Search pq → Option (Search pq)
  unfolding relax_edges edges
  search_loop known zero st = none
  search_loop known (suc fuel) st = elim (pq.pop st.queue) [
    | none ↦ some st
    | some (node, rest) ↦
        search_loop known fuel (relax_edges node (edges known node) (record st { queue = rest }))
  ]

-- Where the walk from a destination ends.
pub data Walk : Type 0 where
  via : Bytes → Walk
  nowhere : Walk
  out_of_fuel : Walk

-- The inner loop that builds the table.
pub walk : ℕ → Bytes → Map Bytes → Bytes → Walk
walk zero self prev p = out_of_fuel
walk (suc fuel) self prev p =
    let rest = walk fuel self prev (prev_of prev p) in
    if same (prev_of prev p) self then via p else if same (prev_of prev p) [] then nowhere else rest

-- The table for the destinations that are left.
pub make_table : (Bytes → Walk) → List Bytes → Map Bytes → Option (Map Bytes)
make_table find [] table = some table
make_table find (dest ∷ dests) table = elim (find dest) [
  | via p ↦ make_table find dests (insert dest p table)
  | nowhere ↦ make_table find dests table
  | out_of_fuel ↦ none
]

-- Twice the sum of the costs, and the length of the queue: it falls with every turn of the search.
pub total : Map ℕ → ℕ
total [] = 0
total ((k, c) ∷ m) = c + total m

module _ (pq : PriorityQueue) (max_cost : ℕ) where
  pub measure : Search pq → ℕ
  unfolding total
  measure st = 2 * total st.cost + pq.len st.queue

  -- `updateRoutingTable`, with fuel that is enough for the search and for every walk.
  pub update_routing_table : Netceptor → Option Netceptor
  unfolding start search_loop walk make_table measure
  update_routing_table s =
      let known = s.known_connection_costs in
      let begin = start pq max_cost s.node_id known in
      elim (search_loop pq known (suc (measure begin)) begin) [
        | none ↦ none
        | some st ↦ elim (make_table (walk (suc max_cost) s.node_id st.prev) (keys known) []) [
          | none ↦ none
          | some table ↦ some (record s { routing_table = table; routing_path_costs = st.cost })
        ]
      ]
