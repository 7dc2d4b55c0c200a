-- ===== src/Netceptor/Update/Spread.antt =====
-- To whom a routing update goes on, and what happens when it comes back.
use receptor.Prelude.{
  ℕ, ◌≡◌, sym, ap, ◌∙◌, ◌≢◌, ◌↔◌, inl, inr, Bool, true, false, [], ◌∷◌, In, arith, Bytes, same_iff,
  same_refl, ◌==◌, same_ne, Bool-cases,
}
use receptor.Prelude.Map.{Map, lookup, has_key, has_key-insert}
use mathlib.Core.Path.{subst}
use receptor.Netceptor.State.{Netceptor, External, ConnInfo, RoutingUpdate, Frame, route, send}
use receptor.Netceptor.Wire.{add_name_hash}
use receptor.Netceptor.Update.{
  flood_to, flood, differs, set_connections, pass_on, accept_update, note_duplicate, take_update,
  handle_routing_update,
}
use receptor.Netceptor.Update.Accept.{seeing, handle-accept, IsAccepted}

-- Among the connections of a flood: all except the one that is excluded.
abbrev pub IsTarget : Bytes → Bytes → ConnInfo → Map ConnInfo → Type 0
IsTarget exclude c ci conns = In (c, ci) conns × (c ≢ exclude)

send_injective :
    (c c' : Bytes) (ci ci' : ConnInfo) (m m' : Frame)
    → send c ci m ≡ send c' ci' m'
    → (c ≡ c') × (ci ≡ ci') × (m ≡ m')
send_injective c c' ci ci' m m' h = ground arith

flood_to-sent :
    (conns : Map ConnInfo) (message : Frame) (exclude c : Bytes) (ci : ConnInfo) (m : Frame)
    → In (send c ci m) (flood_to conns message exclude)
    → IsTarget exclude c ci conns × (m ≡ message)
unfolding flood_to
flood_to-sent [] message exclude c ci m i = absurd i
flood_to-sent ((k, ck) ∷ conns) message exclude c ci m i = ground (
  arith,
  same_iff k exclude,
  same_iff c exclude,
  flood_to-sent conns message exclude c ci m,
  send_injective k c ck ci message m,
)

flood_to-reaches :
    (conns : Map ConnInfo) (message : Frame) (exclude c : Bytes) (ci : ConnInfo)
    → IsTarget exclude c ci conns
    → In (send c ci message) (flood_to conns message exclude)
unfolding flood_to
flood_to-reaches [] message exclude c ci (i, ne) = absurd i
flood_to-reaches ((k, ck) ∷ conns) message exclude c ci (inl e, ne) =
    ground (arith, same_ne c exclude ne, same_iff k exclude, same_iff c exclude)
flood_to-reaches ((k, ck) ∷ conns) message exclude c ci (inr i, ne) =
    ground (arith, flood_to-reaches conns message exclude c ci (i, ne))

flood_to-In :
    (conns : Map ConnInfo) (message : Frame) (exclude c : Bytes) (ci : ConnInfo) (m : Frame)
    → In (send c ci m) (flood_to conns message exclude)
      ↔ (IsTarget exclude c ci conns × (m ≡ message))
flood_to-In conns message exclude c ci m = (
  flood_to-sent conns message exclude c ci m,
  λ t. ground (arith, flood_to-reaches conns message exclude c ci t.0, t.1),
)

pub flood-In :
    (s : Netceptor) (message : Frame) (exclude c : Bytes) (ci : ConnInfo) (m : Frame)
    → In (send c ci m) (flood message exclude s)
      ↔ (IsTarget exclude c ci s.connections × (m ≡ message))
unfolding flood
flood-In s = flood_to-In s.connections

accept_update-sent :
    (x : External) (known : Bool) (ri : RoutingUpdate) (recv_conn : Bytes) (s : Netceptor)
    (c : Bytes) (ci : ConnInfo) (m : Frame)
    → s.shut_down ≡ false
    → In (send c ci m) (accept_update x known ri recv_conn s).1
      ↔ In
          (send c ci m)
          (flood_to s.connections (route (record ri { forwarding_node = s.node_id })) recv_conn)
unfolding accept_update pass_on flood set_connections add_name_hash
accept_update-sent x known ri recv_conn s c ci m up =
    elim (Bool-cases (differs ri.connections (lookup ri.node_id s.known_connection_costs))) [
      | inl d ↦ ground (arith, d, up)
      | inr d ↦ ground (arith, d, up)
    ]

-- An accepted update, that is, one of another node which was not seen before, suspects no
-- duplicate and is newer than what is known of its node, if anything is, goes on in the name of
-- this node, unless it is shut down, to exactly the connections other than the one it came by.
pub handle_routing_update-sent :
    (x : External) (ri : RoutingUpdate) (recv_conn : Bytes) (now : ℕ) (fresh : Bytes)
    (s : Netceptor) (c : Bytes) (ci : ConnInfo) (m : Frame)
    → IsAccepted ri s
    → In (send c ci m) (handle_routing_update x ri recv_conn now fresh s).1 ↔ (
        IsTarget recv_conn c ci s.connections
        × (m ≡ route (record ri { forwarding_node = s.node_id })))
handle_routing_update-sent x ri recv_conn now fresh s c ci m a =
    let known = has_key ri.node_id s.known_node_info in
    let sent = accept_update-sent x known ri recv_conn (seeing ri now s) c ci m a.up in
    let target =
      flood_to-In s.connections (route (record ri { forwarding_node = s.node_id })) recv_conn c ci
        m in
    let at = ap (λ r. In (send c ci m) r.1) (handle-accept x ri recv_conn now fresh s a) in
    (
      λ i. target.0 (sent.0 (subst (λ T. T) at i)),
      λ i. subst (λ T. T) (sym at) (sent.1 (target.1 i)),
    )

kept :
    (x : External) (ri : RoutingUpdate) (recv_conn : Bytes) (s : Netceptor)
    → ((take_update x ri recv_conn s).0.seen_updates ≡ s.seen_updates)
      × ((take_update x ri recv_conn s).0.node_id ≡ s.node_id)
unfolding take_update accept_update set_connections add_name_hash
kept x ri recv_conn s = ground arith

seen_again :
    (x : External) (ri : RoutingUpdate) (recv_conn : Bytes) (now : ℕ) (fresh : Bytes)
    (s : Netceptor)
    → has_key ri.update_id s.seen_updates ≡ true
    → ri.node_id ≢ s.node_id
    → handle_routing_update x ri recv_conn now fresh s ≡ (s, [])
unfolding handle_routing_update
seen_again x ri recv_conn now fresh s e other =
    ground (arith, e, same_ne ri.node_id s.node_id other)

kept_doubted :
    (ri : RoutingUpdate) (s : Netceptor)
    → ((note_duplicate ri s).seen_updates ≡ s.seen_updates)
      × ((note_duplicate ri s).node_id ≡ s.node_id)
unfolding note_duplicate
kept_doubted ri s = ground arith

-- An update of another node leaves its id among those seen, and the node its name.
noted :
    (x : External) (ri : RoutingUpdate) (recv_conn : Bytes) (now : ℕ) (fresh : Bytes)
    (s : Netceptor)
    → ri.node_id ≢ []
    → ri.node_id ≢ s.node_id
    → (has_key ri.update_id (handle_routing_update x ri recv_conn now fresh s).0.seen_updates
        ≡ true)
      × ((handle_routing_update x ri recv_conn now fresh s).0.node_id ≡ s.node_id)
unfolding handle_routing_update
noted x ri recv_conn now fresh s named other =
    let e = same_ne ri.node_id [] named in
    let o = same_ne ri.node_id s.node_id other in
    let put = has_key-insert ri.update_id ri.update_id now s.seen_updates in
    elim (Bool-cases (has_key ri.update_id s.seen_updates)) [
      | inl seen ↦ (ground (arith, e, o, seen), ground (arith, e, o, seen))
      | inr new ↦ elim (Bool-cases (ri.suspected_duplicate == 0)) [
        | inl sus ↦
            let (ids, me) = kept x ri recv_conn (seeing ri now s) in
            (
              ground (arith, e, o, new, sus, ids, put, same_refl ri.update_id),
              ground (arith, e, o, new, sus, me),
            )
        | inr sus ↦
            let (ids, me) = kept_doubted ri (seeing ri now s) in
            (
              ground (arith, e, o, new, sus, ids, put, same_refl ri.update_id),
              ground (arith, e, o, new, sus, me),
            )
      ]
    ]

-- An update id that was seen is not acted on again: after any update of another node, also one that
-- suspects a duplicate, any update of another node with the same id, from whatever neighbour,
-- changes nothing and sends nothing. The condition: the first update says a node.
pub handle_routing_update_repeat :
    (x : External) (ri ri' : RoutingUpdate) (recv_conn recv_conn' : Bytes) (now now' : ℕ)
    (fresh fresh' : Bytes) (s : Netceptor)
    → ri.node_id ≢ []
    → ri.node_id ≢ s.node_id
    → ri'.update_id ≡ ri.update_id
    → ri'.node_id ≢ s.node_id
    → let after = (handle_routing_update x ri recv_conn now fresh s).0 in
      handle_routing_update x ri' recv_conn' now' fresh' after ≡ (after, [])
handle_routing_update_repeat x ri ri' recv_conn recv_conn' now now' fresh fresh' s named o e other =
    let after = (handle_routing_update x ri recv_conn now fresh s).0 in
    let (seen, me) = noted x ri recv_conn now fresh s named o in
    seen_again x ri' recv_conn' now' fresh' after (ap (λ i. has_key i after.seen_updates) e ∙ seen)
      (λ h. other (h ∙ me))
