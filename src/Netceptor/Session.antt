-- ===== src/Netceptor/Session.antt =====
-- The protocol loop of one connection (netceptor.go, `runProtocol`), as a state machine: what each
-- turn of its `select` does to the loop's variables, to the node, and to the wire.
-- The wire hands over bytes; the JSON behind the first byte is decoded by the parameter `Json`.
pub mod Reach
pub mod Ends
pub mod Peers
pub mod Races
pub mod Initial
pub mod Total
pub mod Examples
use receptor.Prelude.{
  ℕ, ◌+◌, Bool, true, false, not, Option, none, some, List, [], ◌∷◌, ◌++◌, ◌==◌, if◌then◌else◌,
  Bytes, same,
}
use receptor.Prelude.Map.{lookup, lookup_or, insert}
use receptor.Netceptor.State.{
  Netceptor, External, ConnInfo, RoutingUpdate, ServiceAdvertisementFull, Effect, request_flood,
  request_table,
}
use receptor.Netceptor.Connection.{
  BackendInfo, remove_connection, send_reject_message, is_allowed, cost_to, set_cost,
}
use receptor.Netceptor.Wire.{add_name_hash, translate_data_to_message}
use receptor.Netceptor.Handle.{handle_message_data}
use receptor.Netceptor.Update.{handle_routing_update}
use receptor.Netceptor.Ads.{handle_service_advertisement}

-- The variables of the loop.
pub record Session : Type 0 where
  pub ci : ConnInfo
  pub connection_cost : ℕ
  pub established : Bool
  pub remote_established : Bool
  pub remote_node_id : Bytes

-- `json.Unmarshal` into a routing update and into a service advertisement.
pub record Json : Type 0 where
  pub routing_update : Bytes → Option RoutingUpdate
  pub service_advertisement : Bytes → Option ServiceAdvertisementFull

-- Where, while a connection is being established, the loop finds that its context has ended.
pub data Interrupt : Type 0 where
  never at_init at_flood at_table : Interrupt

-- Where the requests at the end of a session are cut short, by the end of the backend's context.
pub data Parting : Type 0 where
  undisturbed at_flood_request at_table_request : Parting

-- When things happen in a turn: where it is cut short, and what the other sessions do to the node
-- while the turn holds no lock: before the removal of an ended connection, before the new one is
-- listed in its place, before the costs are known, and in the two waits after that.
pub record Timing : Type 0 where
  pub interrupt : Interrupt
  pub parting : Parting
  pub before_removal : Netceptor → Netceptor
  pub before_listing : Netceptor → Netceptor
  pub before_costs : Netceptor → Netceptor
  pub before_flood : Netceptor → Netceptor
  pub before_table : Netceptor → Netceptor

-- A turn of the loop: a message, or the end of its context.
pub data Event : Type 0 where
  received : Bytes → Timing → Event
  context_done : Timing → Event

pub data Ending : Type 0 where
  rejected_peer peer_rejected closed : Ending

-- What a turn leads to: another turn, the end, or a panic of the node.
pub data Next : Type 0 where
  continues : Session → Next
  returns : Ending → Next
  panics : Next

pub record Turn : Type 0 where
  pub next : Next
  pub node : Netceptor
  pub effects : List Effect

-- The deferred function: a session that was established asks for a flood and for new tables, as far
-- as the backend's context lasts.
pub at_return : Timing → Session → List Effect
at_return tm k =
    if k.established
    then elim tm.parting [
      | undisturbed ↦ request_flood 0 ∷ request_table 0 ∷ []
      | at_flood_request ↦ []
      | at_table_request ↦ request_flood 0 ∷ []
    ]
    else []

-- A return with a rejection of the peer, `sendAndLogConnectionRejection`.
pub reject_peer : Timing → Session → Netceptor → Turn
unfolding send_reject_message at_return
reject_peer tm k s = record {
  next = returns rejected_peer;
  node = s;
  effects = send_reject_message k.remote_node_id k.ci s ++ at_return tm k;
}

pub leave : Timing → Ending → Session → Netceptor → Turn
unfolding at_return
leave tm e k s = record { next = returns e; node = s; effects = at_return tm k }

pub stay : Session → Netceptor → List Effect → Turn
stay k s es = record { next = continues k; node = s; effects = es }

pub connect : External → Session → Netceptor → Netceptor
unfolding set_cost
connect x k s =
    let named = (add_name_hash x k.remote_node_id s).0 in
    record named {
      known_connection_costs =
          set_cost k.remote_node_id s.node_id k.connection_cost
            (set_cost s.node_id k.remote_node_id k.connection_cost named.known_connection_costs);
    }

-- From the entry in `connections` on: the waits, each of which the end of the context interrupts,
-- and in each of which the other sessions go on.
pub establish : External → Timing → Session → Netceptor → Turn
unfolding connect remove_connection leave stay
establish x tm k s =
    let listed =
      tm.before_costs (record s { connections = insert k.remote_node_id k.ci s.connections }) in
    let known = tm.before_flood (connect x k listed) in
    let told = tm.before_table known in
    elim tm.interrupt [
      | at_init ↦ leave tm closed k (remove_connection k.remote_node_id listed)
      | at_flood ↦ leave tm closed k (remove_connection k.remote_node_id known)
      | at_table ↦ record { next = returns closed; node = told; effects = request_flood 0 ∷ [] }
      | never ↦ stay (record k { established = true }) told (request_flood 0 ∷ request_table 0 ∷ [])
    ]

-- The first routing update of a session, whose forwarding node is the peer. The lock is let go of
-- around the removal of an ended connection, and what is listed is not looked at again after it.
pub meet : External → BackendInfo → Timing → RoutingUpdate → Session → Netceptor → Turn
unfolding reject_peer is_allowed cost_to establish remove_connection
meet x bi tm ri k s =
    let n = ri.forwarding_node in
    let named = record k { remote_node_id = n } in
    let cost = cost_to bi n k.connection_cost in
    let priced = record named {
      connection_cost = cost;
      ci = record k.ci { cost = lookup_or k.ci.cost n bi.node_cost };
    } in
    if same n s.node_id
    then reject_peer tm named s
    else if not (is_allowed bi n)
    then reject_peer tm named s
    else elim (lookup n s.connections) [
      | none ↦ establish x tm priced s
      | some existing ↦
          if s.cancelled existing.ident
          then establish x tm priced (tm.before_listing (remove_connection n (tm.before_removal s)))
          else reject_peer tm priced s
    ]

-- A routing update once the session is established.
pub take_route : External → Timing → RoutingUpdate → ℕ → Bytes → Session → Netceptor → Turn
unfolding reject_peer remove_connection stay
take_route x tm ri now fresh k s =
    let gone = reject_peer tm k (remove_connection k.remote_node_id s) in
    let (s', es) = handle_routing_update x ri k.remote_node_id now fresh s in
    if not (same ri.forwarding_node k.remote_node_id)
    then gone
    else if same ri.node_id k.remote_node_id
    then elim (lookup s.node_id ri.connections) [
      | none ↦ if k.remote_established then gone else stay k s []
      | some remote_cost ↦
          if remote_cost == k.connection_cost
          then stay (record k { remote_established = true }) s' es
          else reject_peer tm (record k { remote_established = true })
              (remove_connection k.remote_node_id s)
    ]
    else stay k s' es

-- A data message; its error, if any, is logged.
pub take_data : External → ℕ → Bytes → Session → Netceptor → Option Turn
unfolding stay
take_data x fuel bytes k s = elim (translate_data_to_message bytes s) [
  | none ↦ some (stay k s [])
  | some md ↦ elim (handle_message_data x fuel md s) [
    | none ↦ none
    | some r ↦ some (stay k r.node r.effects)
  ]
]

pub peer_gone : Timing → Session → Netceptor → Turn
unfolding leave remove_connection
peer_gone tm k s = leave tm peer_rejected k (remove_connection k.remote_node_id s)

-- A message, by its first byte, in an established session.
pub take_message :
    External → Json → Timing → ℕ → ℕ → Bytes → ℕ → Bytes → Session → Netceptor → Option Turn
unfolding take_route take_data peer_gone stay
take_message x json tm now fuel fresh kind bytes k s =
    let handled = take_data x fuel (kind ∷ bytes) k s in
    if kind == 0
    then handled
    else if kind == 1
    then some (elim (json.routing_update bytes) [
      | none ↦ stay k s []
      | some ri ↦ take_route x tm ri now fresh k s
    ])
    else if kind == 2
    then some (elim (json.service_advertisement bytes) [
      | none ↦ stay k s []
      | some si ↦ let (s', es) = handle_service_advertisement si k.remote_node_id s in stay k s' es
    ])
    else if kind == 3
    then some (peer_gone tm k s)
    else some (stay k s [])

-- A message before the session is established.
pub take_first : External → Json → BackendInfo → Timing → ℕ → Bytes → Session → Netceptor → Turn
unfolding meet peer_gone stay
take_first x json bi tm kind bytes k s =
    if kind == 1
    then elim (json.routing_update bytes) [ none ↦ stay k s [] | some ri ↦ meet x bi tm ri k s ]
    else if kind == 3
    then peer_gone tm k s
    else stay k s []

-- One turn of the loop of `runProtocol`; none where a data message's handling runs out of fuel.
-- `data[0]` of an empty message panics.
pub turn : External → Json → BackendInfo → ℕ → ℕ → Bytes → Event → Session → Netceptor → Option Turn
unfolding take_message take_first leave remove_connection
turn x json bi now fuel fresh (context_done tm) k s =
    some (leave tm closed k (remove_connection k.remote_node_id s))
turn x json bi now fuel fresh (received [] tm) k s =
    some (record { next = panics; node = s; effects = [] })
turn x json bi now fuel fresh (received (kind ∷ bytes) tm) k s =
    if k.established
    then take_message x json tm now fuel fresh kind bytes k s
    else some (take_first x json bi tm kind bytes k s)

-- What `runProtocol` starts the loop with, or the refusal of a cost that is not positive.
pub start_session : BackendInfo → ℕ → Option Session
start_session bi ident =
    if bi.connection_cost == 0
    then none
    else some (record {
      ci = record { ident = ident; cost = bi.connection_cost; has_write_chan = true };
      connection_cost = bi.connection_cost;
      established = false;
      remote_established = false;
      remote_node_id = [];
    })
