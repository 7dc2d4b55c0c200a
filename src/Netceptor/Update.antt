-- ===== src/Netceptor/Update.antt =====
-- Routing updates (netceptor.go): how they are made, sent to all neighbours, and taken in.
-- The time, and the random update id of an update that this node makes, are arguments.
pub mod Accept
pub mod Connections
pub mod Spread
pub mod Examples
use receptor.Prelude.{
  ℕ, ◌+◌, ◌%◌, ◌^◌, Bool, true, false, not, ◌&&◌, ◌||◌, Option, none, some, List, [], ◌∷◌, ◌++◌,
  map, ◌==◌, ltb, leb, if◌then◌else◌, Bytes, same,
}
use receptor.Prelude.Map.{Map, lookup, insert, delete, has_key}
use receptor.Netceptor.State.{
  Netceptor, External, ConnInfo, NodeInfo, RoutingUpdate, Frame, route, Effect, send, request_flood,
  request_table,
}
use receptor.Netceptor.Wire.{add_name_hash}

-- The connections except one, each with the message.
pub flood_to : Map ConnInfo → Frame → Bytes → List Effect
flood_to [] message exclude = []
flood_to ((conn, ci) ∷ conns) message exclude =
    let rest = flood_to conns message exclude in
    if same conn exclude then rest else send conn ci message ∷ rest

-- `flood`. The goroutines that write may do so in any order.
pub flood : Frame → Bytes → Netceptor → List Effect
unfolding flood_to
flood message exclude s = flood_to s.connections message exclude

pub make_routing_update : Bytes → ℕ → Netceptor → Netceptor × RoutingUpdate
make_routing_update fresh suspected s =
    let sequence = (s.sequence + 1) % 2 ^ 64 in
    (
      record s { sequence = sequence },
      record {
        node_id = s.node_id;
        update_id = fresh;
        update_epoch = s.epoch;
        update_sequence = sequence;
        connections = map (λ e. (e.0, e.1.cost)) s.connections;
        forwarding_node = s.node_id;
        suspected_duplicate = suspected;
      },
    )

pub send_routing_update : Bytes → ℕ → Netceptor → Netceptor × List Effect
unfolding make_routing_update flood
send_routing_update fresh suspected s = elim s.connections [
  | [] ↦ (s, [])
  | _ ∷ _ ↦ let (s', ru) = make_routing_update fresh suspected s in (s', flood (route ru) [] s')
]

-- `reflect.DeepEqual` on two maps of costs.
pub agrees : Map ℕ → Map ℕ → Map ℕ → Bool
agrees [] m n = true
agrees ((k, c) ∷ es) m n =
    (elim (lookup k m) [
      | none ↦ elim (lookup k n) [ none ↦ true | some _ ↦ false ]
      | some c ↦ elim (lookup k n) [ none ↦ false | some d ↦ c == d ]
    ])
    && agrees es m n

pub same_costs : Map ℕ → Map ℕ → Bool
unfolding agrees
same_costs m n = agrees m m n && agrees n m n

-- Whether the connections of a node differ from what is known; of an unknown node they do. (A map
-- that is null in the JSON text, which no node sends, is left out.)
pub differs : Map ℕ → Option (Map ℕ) → Bool
unfolding same_costs
differs conns none = true
differs conns (some m) = not (same_costs conns m)

-- The loop that takes a node out of the connections of those that it does not list.
pub prune : Bytes → Bytes → Map ℕ → Map (Map ℕ) → Map (Map ℕ)
prune self node conns [] = []
prune self node conns ((conn, m) ∷ known) =
    (conn, if same conn self || has_key conn conns then m else delete node m)
    ∷ prune self node conns known

pub set_connections : RoutingUpdate → Netceptor → Netceptor
unfolding prune
set_connections ri s = record s {
  known_connection_costs =
      prune s.node_id ri.node_id ri.connections
        (insert ri.node_id ri.connections s.known_connection_costs);
}

-- The end of `handleRoutingUpdate`: the update goes on to the other neighbours.
pub pass_on : RoutingUpdate → Bytes → Netceptor → List Effect
unfolding flood
pass_on ri recv_conn s = flood (route (record ri { forwarding_node = s.node_id })) recv_conn s

-- An update that is news. `known` says whether the node was known.
pub accept_update : External → Bool → RoutingUpdate → Bytes → Netceptor → Netceptor × List Effect
unfolding set_connections pass_on differs
accept_update x known ri recv_conn s =
    let named = if known then s else (add_name_hash x ri.node_id s).0 in
    let noted = record named {
      known_node_info =
          insert ri.node_id (record { epoch = ri.update_epoch; sequence = ri.update_sequence })
            named.known_node_info;
    } in
    let updated = set_connections ri noted in
    let asked = if known then [] else request_flood 0 ∷ [] in
    if differs ri.connections (lookup ri.node_id s.known_connection_costs)
    then (if s.shut_down
        then (updated, asked)
        else (updated, asked ++ (request_table 100_000_000 ∷ pass_on ri recv_conn updated)))
    else (noted, asked ++ pass_on ri recv_conn noted)

-- An update that says which epoch of its node is suspected to be a duplicate.
pub note_duplicate : RoutingUpdate → Netceptor → Netceptor
note_duplicate ri s = elim (lookup ri.node_id s.known_node_info) [
  | none ↦ s
  | some ni ↦
      if ni.epoch == ri.suspected_duplicate
      then record s {
        known_node_info =
            insert ri.node_id (record { epoch = ri.update_epoch; sequence = ri.update_sequence })
              s.known_node_info;
      }
      else s
]

-- Not newer than what is known of the node.
pub is_stale : RoutingUpdate → NodeInfo → Bool
is_stale ri ni =
    ltb ri.update_epoch ni.epoch
    || (ri.update_epoch == ni.epoch && leb ri.update_sequence ni.sequence)

-- An update of another node that was not seen before.
pub take_update : External → RoutingUpdate → Bytes → Netceptor → Netceptor × List Effect
unfolding accept_update is_stale
take_update x ri recv_conn s = elim (lookup ri.node_id s.known_node_info) [
  | some ni ↦ if is_stale ri ni then (s, []) else accept_update x true ri recv_conn s
  | none ↦ if s.shut_down then (s, []) else accept_update x false ri recv_conn s
]

-- An update that has this node's own name.
pub own_update : RoutingUpdate → Bytes → Netceptor → Netceptor × List Effect
unfolding send_routing_update
own_update ri fresh s =
    if ri.update_epoch == s.epoch
    then (s, [])
    else if ri.suspected_duplicate == s.epoch
    then (record s { shut_down = true }, [])
    else if ltb s.epoch ri.update_epoch
    then send_routing_update fresh ri.update_epoch s
    else (s, [])

-- `handleRoutingUpdate`
pub handle_routing_update :
    External → RoutingUpdate → Bytes → ℕ → Bytes → Netceptor → Netceptor × List Effect
unfolding own_update take_update note_duplicate pass_on
handle_routing_update x ri recv_conn now fresh s =
    let seen = record s { seen_updates = insert ri.update_id now s.seen_updates } in
    let doubted = note_duplicate ri seen in
    if same ri.node_id []
    then (s, [])
    else if same ri.node_id s.node_id
    then own_update ri fresh s
    else if has_key ri.update_id s.seen_updates
    then (s, [])
    else if ri.suspected_duplicate == 0
    then take_update x ri recv_conn seen
    else (doubted, pass_on ri recv_conn doubted)
