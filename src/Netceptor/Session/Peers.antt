-- ===== src/Netceptor/Session/Peers.antt =====
-- How a session that has no peer yet treats the connections of the other sessions.
use receptor.Prelude.{
  ℕ, ◌≡◌, refl, ap, ◌∙◌, ◌≢◌, inl, inr, false, none, some, [], ◌∷◌, arith, if◌then◌else◌, Bytes,
  same, same_iff, same_ne, same→eq, Bool-cases, Option-cases,
}
use receptor.Prelude.Map.{lookup, lookup_or, insert, lookup-insert, lookup-delete}
use receptor.Netceptor.State.{Netceptor, External, ConnInfo, RoutingUpdate}
use receptor.Netceptor.Wire.{add_name_hash}
use receptor.Netceptor.Connection.{BackendInfo, remove_connection, cost_to}
use receptor.Netceptor.Session.Ends.{timing_of}
use receptor.Netceptor.Session.{
  Session, Json, Timing, never, at_init, at_flood, at_table, Event, received, context_done, Turn,
  connect, establish, meet, take_first, turn,
}

remove_connection_other :
    (n j : Bytes) (s : Netceptor)
    → lookup j (remove_connection n s).connections ≡ (
        if same n []
        then lookup j s.connections
        else if same n j
        then none
        else lookup j s.connections)
unfolding remove_connection
remove_connection_other n j s = ground (arith, lookup-delete n j s.connections)

-- What the other sessions do in a turn leaves the connection of a node as it is.
pub record Spares (n : Bytes) (ci : ConnInfo) (tm : Timing) : Type 0 where
  pub removal :
      (s : Netceptor)
      → lookup n s.connections ≡ some ci
      → lookup n (tm.before_removal s).connections ≡ some ci
  pub listing :
      (s : Netceptor)
      → lookup n s.connections ≡ some ci
      → lookup n (tm.before_listing s).connections ≡ some ci
  pub costs :
      (s : Netceptor)
      → lookup n s.connections ≡ some ci
      → lookup n (tm.before_costs s).connections ≡ some ci
  pub flood :
      (s : Netceptor)
      → lookup n s.connections ≡ some ci
      → lookup n (tm.before_flood s).connections ≡ some ci
  pub table :
      (s : Netceptor)
      → lookup n s.connections ≡ some ci
      → lookup n (tm.before_table s).connections ≡ some ci

-- A node after the listing of a session's connection and the waits that follow.
abbrev pub listed_by : Timing → Session → Netceptor → Netceptor
listed_by tm k s =
    tm.before_costs (record s { connections = insert k.remote_node_id k.ci s.connections })

abbrev pub known_by : External → Timing → Session → Netceptor → Netceptor
known_by x tm k s = tm.before_flood (connect x k (listed_by tm k s))

pub connect-connections :
    (x : External) (k : Session) (s : Netceptor) → (connect x k s).connections ≡ s.connections
unfolding connect add_name_hash
connect-connections x k s = refl

removed_other :
    (m n : Bytes) (ci : ConnInfo) (s : Netceptor)
    → m ≢ n
    → lookup n s.connections ≡ some ci
    → lookup n (remove_connection m s).connections ≡ some ci
removed_other m n ci s ne l = ground (arith, same_ne m n ne, l, remove_connection_other m n s)

listed_other :
    (tm : Timing) (k : Session) (s : Netceptor) (n : Bytes) (ci : ConnInfo)
    → Spares n ci tm
    → k.remote_node_id ≢ n
    → lookup n s.connections ≡ some ci
    → lookup n (listed_by tm k s).connections ≡ some ci
listed_other tm k s n ci spares ne l =
    spares.costs (record s { connections = insert k.remote_node_id k.ci s.connections })
      (ground (
        arith,
        l,
        same_ne k.remote_node_id n ne,
        lookup-insert k.remote_node_id n k.ci s.connections,
      ))

known_other :
    (x : External) (tm : Timing) (k : Session) (s : Netceptor) (n : Bytes) (ci : ConnInfo)
    → Spares n ci tm
    → k.remote_node_id ≢ n
    → lookup n s.connections ≡ some ci
    → lookup n (known_by x tm k s).connections ≡ some ci
known_other x tm k s n ci spares ne l = spares.flood (connect x k (listed_by tm k s)) (
    ap (lookup n) (connect-connections x k (listed_by tm k s))
    ∙ listed_other tm k s n ci spares ne l)

establish_other :
    (x : External) (tm : Timing) (k : Session) (s : Netceptor) (n : Bytes) (ci : ConnInfo)
    → Spares n ci tm
    → k.remote_node_id ≢ n
    → lookup n s.connections ≡ some ci
    → lookup n (establish x tm k s).node.connections ≡ some ci
unfolding establish
establish_other x tm k s n ci spares ne l =
    let listed = listed_other tm k s n ci spares ne l in
    let known = known_other x tm k s n ci spares ne l in
    elim tm.interrupt
      as (λ i.
        lookup n (establish x (record tm { interrupt = i }) k s).node.connections ≡ some ci) [
          | at_init ↦ removed_other k.remote_node_id n ci (listed_by tm k s) ne listed
          | at_flood ↦ removed_other k.remote_node_id n ci (known_by x tm k s) ne known
          | at_table ↦ spares.table (known_by x tm k s) known
          | never ↦ spares.table (known_by x tm k s) known
        ]

meet-live :
    (x : External) (bi : BackendInfo) (tm : Timing) (ri : RoutingUpdate) (k : Session)
    (s : Netceptor) (n : Bytes) (ci : ConnInfo)
    → Spares n ci tm
    → lookup n s.connections ≡ some ci
    → s.cancelled ci.ident ≡ false
    → lookup n (meet x bi tm ri k s).node.connections ≡ some ci
unfolding meet
meet-live x bi tm ri k s n ci spares listed live =
    let m = ri.forwarding_node in
    let priced : Session = record k {
      remote_node_id = m;
      connection_cost = cost_to bi m k.connection_cost;
      ci = record k.ci { cost = lookup_or k.ci.cost m bi.node_cost };
    } in
    elim (Bool-cases (same m n)) [
      | inl e ↦
          let listed' : lookup m s.connections ≡ some ci =
            ap (λ j. lookup j s.connections) (same→eq m n e) ∙ listed in
          ground (arith, listed, listed', live)
      | inr e ↦
          let ne : m ≢ n = λ h. ground (arith, same_iff m n, e) in
          ground (
            arith,
            e,
            listed,
            establish_other x tm priced s n ci spares ne listed,
            establish_other x tm priced
                (tm.before_listing (remove_connection m (tm.before_removal s))) n ci spares ne
                (spares.listing (remove_connection m (tm.before_removal s))
                  (removed_other m n ci (tm.before_removal s) ne (spares.removal s listed))),
          )
    ]

take_first-live :
    (x : External) (json : Json) (bi : BackendInfo) (tm : Timing) (kind : ℕ) (bytes : Bytes)
    (k : Session) (s : Netceptor) (n : Bytes) (ci : ConnInfo)
    → Spares n ci tm
    → k.remote_node_id ≡ []
    → lookup n s.connections ≡ some ci
    → s.cancelled ci.ident ≡ false
    → lookup n (take_first x json bi tm kind bytes k s).node.connections ≡ some ci
unfolding take_first
take_first-live x json bi tm kind bytes k s n ci spares no_peer listed live =
    elim (Option-cases (json.routing_update bytes)) [
      | inl o ↦ ground (
        arith,
        o,
        no_peer,
        listed,
        remove_connection_other k.remote_node_id n s,
        same_iff k.remote_node_id [],
      )
      | inr (ri, o) ↦ ground (
        arith,
        o,
        no_peer,
        listed,
        remove_connection_other k.remote_node_id n s,
        same_iff k.remote_node_id [],
        meet-live x bi tm ri k s n ci spares listed live,
      )
    ]

-- A connection that is live when a turn begins is safe from a session that is not established and has
-- no peer yet: whatever the turn is, and whatever name the peer gives, the connection stays listed as
-- it was. The condition: the other sessions leave it in the list during the turn.
pub turn-live :
    (x : External) (json : Json) (bi : BackendInfo) (now fuel : ℕ) (fresh : Bytes) (e : Event)
    (k : Session) (s : Netceptor) (t : Turn) (n : Bytes) (ci : ConnInfo)
    → Spares n ci (timing_of e)
    → k.established ≡ false
    → k.remote_node_id ≡ []
    → lookup n s.connections ≡ some ci
    → s.cancelled ci.ident ≡ false
    → turn x json bi now fuel fresh e k s ≡ some t
    → lookup n t.node.connections ≡ some ci
unfolding turn
turn-live x json bi now fuel fresh (context_done tm) k s t n ci spares new no_peer listed live eq =
    ground (arith, remove_connection_other k.remote_node_id n s, same_iff k.remote_node_id [])
turn-live x json bi now fuel fresh (received [] tm) k s t n ci spares new no_peer listed live eq =
    ground arith
turn-live x json bi now fuel fresh (received (kind ∷ bytes) tm) k s t n ci spares new no_peer listed
      live eq =
    ground (arith, take_first-live x json bi tm kind bytes k s n ci spares no_peer listed live)
