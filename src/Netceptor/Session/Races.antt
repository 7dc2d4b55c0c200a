-- ===== src/Netceptor/Session/Races.antt =====
-- The set-up of a connection (netceptor.go, runProtocol) when its context ends in the last wait, or
-- another session lists a connection of the same peer meanwhile.
use receptor.Prelude.{
  ℕ, ◌≡◌, ap, ◌∙◌, ◌≢◌, true, false, none, some, ◌∷◌, arith, Bytes, same_ne, same_refl,
}
use receptor.Prelude.Map.{lookup, lookup_or, insert, lookup-insert}
use receptor.Netceptor.State.{Netceptor, External, ConnInfo, RoutingUpdate}
use receptor.Netceptor.Connection.{BackendInfo, remove_connection, is_allowed, cost_to}
use receptor.Netceptor.Session.{
  Session, Json, never, at_table, Timing, received, continues, closed, returns, Turn, connect,
  establish, meet, take_first, turn,
}
use receptor.Netceptor.Session.Peers.{Spares, listed_by, known_by, connect-connections}

-- A session that takes a peer: its name, the cost of the connection, and the connection.
abbrev priced : BackendInfo → Bytes → Session → Session
priced bi n k = record k {
  remote_node_id = n;
  connection_cost = cost_to bi n k.connection_cost;
  ci = record k.ci { cost = lookup_or k.ci.cost n bi.node_cost };
}

told-own :
    (x : External) (tm : Timing) (k : Session) (s : Netceptor)
    → Spares k.remote_node_id k.ci tm
    → lookup k.remote_node_id (tm.before_table (known_by x tm k s)).connections ≡ some k.ci
told-own x tm k s spares = spares.table (known_by x tm k s) (
    spares.flood (connect x k (listed_by tm k s)) (
      ap (lookup k.remote_node_id) (connect-connections x k (listed_by tm k s))
      ∙ spares.costs (record s { connections = insert k.remote_node_id k.ci s.connections })
          (ground (
            arith,
            same_refl k.remote_node_id,
            lookup-insert k.remote_node_id k.remote_node_id k.ci s.connections,
          ))))

establish-at_table :
    (x : External) (tm : Timing) (k : Session) (s : Netceptor)
    → tm.interrupt ≡ at_table
    → ((establish x tm k s).next ≡ returns closed)
      × ((establish x tm k s).node ≡ tm.before_table (known_by x tm k s))
unfolding establish
establish-at_table x tm k s i = (ground (arith, i), ground (arith, i))

establish-never :
    (x : External) (tm : Timing) (k : Session) (s : Netceptor)
    → tm.interrupt ≡ never
    → ((establish x tm k s).next ≡ continues (record k { established = true }))
      × ((establish x tm k s).node ≡ tm.before_table (known_by x tm k s))
unfolding establish
establish-never x tm k s i = (ground (arith, i), ground (arith, i))

taken_first :
    (x : External) (json : Json) (bi : BackendInfo) (tm : Timing) (now fuel : ℕ)
    (fresh bytes : Bytes) (k : Session) (s : Netceptor) (ri : RoutingUpdate)
    → k.established ≡ false
    → json.routing_update bytes ≡ some ri
    → turn x json bi now fuel fresh (received (1 ∷ bytes) tm) k s ≡ some (meet x bi tm ri k s)
unfolding turn take_first
taken_first x json bi tm now fuel fresh bytes k s ri new decoded = ground (arith, new, decoded)

meets_unlisted :
    (x : External) (bi : BackendInfo) (tm : Timing) (ri : RoutingUpdate) (k : Session)
    (s : Netceptor)
    → ri.forwarding_node ≢ s.node_id
    → is_allowed bi ri.forwarding_node ≡ true
    → lookup ri.forwarding_node s.connections ≡ none
    → meet x bi tm ri k s ≡ establish x tm (priced bi ri.forwarding_node k) s
unfolding meet
meets_unlisted x bi tm ri k s other allowed unlisted =
    ground (arith, same_ne ri.forwarding_node s.node_id other, allowed, unlisted)

-- The node when a session lists its connection in the place of one that has ended.
abbrev pub before_listed : Timing → Bytes → Netceptor → Netceptor
before_listed tm n s = tm.before_listing (remove_connection n (tm.before_removal s))

meets_ended :
    (x : External) (bi : BackendInfo) (tm : Timing) (ri : RoutingUpdate) (k : Session)
    (s : Netceptor) (ended : ConnInfo)
    → ri.forwarding_node ≢ s.node_id
    → is_allowed bi ri.forwarding_node ≡ true
    → lookup ri.forwarding_node s.connections ≡ some ended
    → s.cancelled ended.ident ≡ true
    → meet x bi tm ri k s
      ≡ establish x tm (priced bi ri.forwarding_node k) (before_listed tm ri.forwarding_node s)
unfolding meet
meets_ended x bi tm ri k s ended other allowed listed gone =
    ground (arith, same_ne ri.forwarding_node s.node_id other, allowed, listed, gone)

-- A session with an allowed peer that is not connected yet, whose context ends at the last wait of
-- its set-up, returns without taking its connection out of the list. The condition: the other
-- sessions leave that connection alone.
pub turn-leak :
    (x : External) (json : Json) (bi : BackendInfo) (tm : Timing) (now fuel : ℕ)
    (fresh bytes : Bytes) (k : Session) (s : Netceptor) (ri : RoutingUpdate)
    → k.established ≡ false
    → json.routing_update bytes ≡ some ri
    → ri.forwarding_node ≢ s.node_id
    → is_allowed bi ri.forwarding_node ≡ true
    → lookup ri.forwarding_node s.connections ≡ none
    → tm.interrupt ≡ at_table
    → Spares ri.forwarding_node (priced bi ri.forwarding_node k).ci tm
    → (t : Turn) × (turn x json bi now fuel fresh (received (1 ∷ bytes) tm) k s ≡ some t)
      × (t.next ≡ returns closed)
      × (lookup ri.forwarding_node t.node.connections ≡ some (priced bi ri.forwarding_node k).ci)
turn-leak x json bi tm now fuel fresh bytes k s ri new decoded other allowed unlisted i spares =
    let mine = priced bi ri.forwarding_node k in
    let (go, node) = establish-at_table x tm mine s i in
    (
      establish x tm mine s,
      taken_first x json bi tm now fuel fresh bytes k s ri new decoded
          ∙ ap some (meets_unlisted x bi tm ri k s other allowed unlisted),
      go,
      ap (λ v. lookup ri.forwarding_node v.connections) node ∙ told-own x tm mine s spares,
    )

-- A session that finds an ended connection of its peer lists its own in that place, whatever
-- another session has listed there since: a connection of the same peer that another session has
-- just set up, live or not, is replaced, while its own session goes on. The conditions: the peer is
-- allowed and not the node itself, and after the listing the other sessions leave the connection
-- alone.
pub turn-replaces :
    (x : External) (json : Json) (bi : BackendInfo) (tm : Timing) (now fuel : ℕ)
    (fresh bytes : Bytes) (k : Session) (s : Netceptor) (ri : RoutingUpdate)
    (ended rival : ConnInfo)
    → k.established ≡ false
    → json.routing_update bytes ≡ some ri
    → ri.forwarding_node ≢ s.node_id
    → is_allowed bi ri.forwarding_node ≡ true
    → lookup ri.forwarding_node s.connections ≡ some ended
    → s.cancelled ended.ident ≡ true
    → lookup ri.forwarding_node (before_listed tm ri.forwarding_node s).connections ≡ some rival
    → rival.ident ≢ k.ci.ident
    → tm.interrupt ≡ never
    → Spares ri.forwarding_node (priced bi ri.forwarding_node k).ci tm
    → (t : Turn) × (turn x json bi now fuel fresh (received (1 ∷ bytes) tm) k s ≡ some t)
      × (lookup ri.forwarding_node t.node.connections ≢ some rival)
turn-replaces x json bi tm now fuel fresh bytes k s ri ended rival new decoded other allowed listed
      gone there ne i spares =
    let mine = priced bi ri.forwarding_node k in
    let at = before_listed tm ri.forwarding_node s in
    let (go, node) = establish-never x tm mine at i in
    let now_listed =
      ap (λ v. lookup ri.forwarding_node v.connections) node ∙ told-own x tm mine at spares in
    (
      establish x tm mine at,
      taken_first x json bi tm now fuel fresh bytes k s ri new decoded
          ∙ ap some (meets_ended x bi tm ri k s ended other allowed listed gone),
      λ e. ground (arith, e, now_listed, ne),
    )
