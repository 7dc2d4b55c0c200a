-- ===== src/Netceptor/Update/Connections.antt =====
-- What a routing update does to the known connections.
use receptor.Prelude.{
  ℕ, ◌≡◌, ap, ◌∙◌, ◌≢◌, inl, inr, Bool, true, false, ◌||◌, [], ◌∷◌, arith, if◌then◌else◌, Bytes,
  same, same_iff, same_ne, same_refl, Bool-cases, Option-cases,
}
use receptor.Prelude.Map.{
  Map, lookup, lookup_or, insert, delete, has_key, lookup-insert, lookup-delete,
}
use receptor.Netceptor.State.{Netceptor, External, RoutingUpdate}
use receptor.Netceptor.Wire.{add_name_hash}
use receptor.Netceptor.Update.{
  agrees, same_costs, differs, prune, set_connections, accept_update, handle_routing_update,
}
use receptor.Netceptor.Update.Accept.{seeing, handle-accept, IsAccepted}

lookup_or-prune :
    (self node : Bytes) (conns : Map ℕ) (known : Map (Map ℕ)) (k : Bytes)
    → lookup_or [] k (prune self node conns known) ≡ (
        if same k self || has_key k conns
        then lookup_or [] k known
        else delete node (lookup_or [] k known))
unfolding prune lookup_or lookup delete
lookup_or-prune self node conns [] k = ground arith
lookup_or-prune self node conns ((j, m) ∷ known) k =
    ground (
      arith,
      same_iff j k,
      same_iff j self,
      same_iff k self,
      lookup_or-prune self node conns known k,
    )

known_connection_costs-accept_update :
    (x : External) (known : Bool) (ri : RoutingUpdate) (recv_conn : Bytes) (s : Netceptor)
    → differs ri.connections (lookup ri.node_id s.known_connection_costs) ≡ true
    → (accept_update x known ri recv_conn s).0.known_connection_costs
      ≡ prune s.node_id ri.node_id ri.connections
          (insert ri.node_id ri.connections s.known_connection_costs)
unfolding accept_update set_connections add_name_hash
known_connection_costs-accept_update x known ri recv_conn s d = ground (arith, d)

agreed :
    (n k : Bytes) (conns : Map ℕ) (known : Map (Map ℕ)) (self : Bytes)
    → n ≢ k
    → lookup k (lookup_or [] n (prune self n conns (insert n conns known))) ≡ lookup k conns
unfolding lookup_or
agreed n k conns known self ne = ground (
  arith,
  same_refl n,
  same_ne n k ne,
  ap (lookup k) (lookup_or-prune self n conns (insert n conns known) n),
  lookup-insert n n conns known,
  lookup-delete n k conns,
)

severed :
    (n k : Bytes) (conns : Map ℕ) (known : Map (Map ℕ)) (self : Bytes)
    → k ≢ self
    → has_key k conns ≡ false
    → has_key n (lookup_or [] k (prune self n conns (insert n conns known))) ≡ false
severed n k conns known self ne gone =
    ap (has_key n) (lookup_or-prune self n conns (insert n conns known) k)
    ∙ ground (
      arith,
      same_refl n,
      same_ne k self ne,
      gone,
      lookup-delete n n (lookup_or [] k (insert n conns known)),
    )

-- Of a node whose connections are not news, they are known already.
agrees_lem :
    (es m n : Map ℕ) (k : Bytes)
    → agrees es m n ≡ true
    → has_key k es ≡ true
    → lookup k m ≡ lookup k n
unfolding agrees lookup
agrees_lem [] m n k h i = ground arith
agrees_lem ((j, c) ∷ es) m n k h i = ground (arith, same_iff j k, agrees_lem es m n k)

same_costs_lem : (m n : Map ℕ) (k : Bytes) → same_costs m n ≡ true → lookup k m ≡ lookup k n
unfolding same_costs
same_costs_lem m n k h = ground (arith, agrees_lem m m n k, agrees_lem n m n k)

known_connection_costs-same :
    (x : External) (known : Bool) (ri : RoutingUpdate) (recv_conn : Bytes) (s : Netceptor)
    (k : Bytes)
    → differs ri.connections (lookup ri.node_id s.known_connection_costs) ≡ false
    → lookup k
        (lookup_or [] ri.node_id (accept_update x known ri recv_conn s).0.known_connection_costs)
      ≡ lookup k ri.connections
unfolding accept_update differs lookup_or add_name_hash
known_connection_costs-same x known ri recv_conn s k d =
    elim (Option-cases (lookup ri.node_id s.known_connection_costs)) [
      | inl o ↦ absurd (ground (arith, o, d))
      | inr (m, o) ↦ ground (arith, o, d, same_costs_lem ri.connections m k)
    ]

known_connection_costs-agree :
    (x : External) (known : Bool) (ri : RoutingUpdate) (recv_conn : Bytes) (s : Netceptor)
    (k : Bytes)
    → ri.node_id ≢ k
    → lookup k
        (lookup_or [] ri.node_id (accept_update x known ri recv_conn s).0.known_connection_costs)
      ≡ lookup k ri.connections
known_connection_costs-agree x known ri recv_conn s k ne =
    elim (Bool-cases (differs ri.connections (lookup ri.node_id s.known_connection_costs))) [
      | inl d ↦
          ap (λ m. lookup k (lookup_or [] ri.node_id m))
            (known_connection_costs-accept_update x known ri recv_conn s d)
          ∙ agreed ri.node_id k ri.connections s.known_connection_costs s.node_id ne
      | inr d ↦ known_connection_costs-same x known ri recv_conn s k d
    ]

-- After an accepted update (of another node, not seen before, without a suspicion, newer than what
-- is known, this node not being shut down) this node knows of a connection of that node to any
-- other, at some cost, exactly when the update lists it at that cost.
pub handle_routing_update-agrees :
    (x : External) (ri : RoutingUpdate) (recv_conn : Bytes) (now : ℕ) (fresh : Bytes)
    (s : Netceptor) (k : Bytes)
    → IsAccepted ri s
    → ri.node_id ≢ k
    → lookup k (
        lookup_or [] ri.node_id
          (handle_routing_update x ri recv_conn now fresh s).0.known_connection_costs)
      ≡ lookup k ri.connections
handle_routing_update-agrees x ri recv_conn now fresh s k a ne =
    ap (λ r. lookup k (lookup_or [] ri.node_id r.0.known_connection_costs))
      (handle-accept x ri recv_conn now fresh s a)
    ∙ known_connection_costs-agree x (has_key ri.node_id s.known_node_info) ri recv_conn
        (seeing ri now s) k ne

-- After an accepted update whose connections are not those that are known, every third node that
-- the update does not list is no longer known to be connected to its node.
pub handle_routing_update-severs :
    (x : External) (ri : RoutingUpdate) (recv_conn : Bytes) (now : ℕ) (fresh : Bytes)
    (s : Netceptor) (k : Bytes)
    → IsAccepted ri s
    → differs ri.connections (lookup ri.node_id s.known_connection_costs) ≡ true
    → k ≢ s.node_id
    → has_key k ri.connections ≡ false
    → has_key ri.node_id
        (lookup_or [] k (handle_routing_update x ri recv_conn now fresh s).0.known_connection_costs)
      ≡ false
handle_routing_update-severs x ri recv_conn now fresh s k a d ne gone =
    ap (λ r. has_key ri.node_id (lookup_or [] k r.0.known_connection_costs))
      (handle-accept x ri recv_conn now fresh s a)
    ∙ ap (λ m. has_key ri.node_id (lookup_or [] k m))
        (known_connection_costs-accept_update x (has_key ri.node_id s.known_node_info) ri recv_conn
          (seeing ri now s) d)
    ∙ severed ri.node_id k ri.connections s.known_connection_costs s.node_id ne gone
