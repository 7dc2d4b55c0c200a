-- ===== src/Netceptor/Handle/Total.antt =====
-- The mutual recursion of `handleMessageData` ends, but for one kind of message.
use receptor.Prelude.{
  ℕ, zero, suc, ◌≡◌, refl, ◌∙◌, Bool, true, false, ◌⊎◌, inl, inr, Option, none, some, [], arith,
  Bytes, same, same_iff, same→eq, Bool-cases,
}
use receptor.Netceptor.State.{
  Netceptor, External, MessageData, UnreachableMessage, unreach, ping, service_unknown,
  expired_in_transit, blocked,
}
use receptor.Netceptor.Wire.{resolve}
use receptor.Netceptor.Handle.{
  Reply, Again, ignore_error, decide, send_unreachable, forward_message, handle_ping,
  handle_unreachable, deliver_local, dispatch, handle_step, handle_message_data, unreachable,
}

abbrev pub returned : Option Reply → Bool
returned none = false
returned (some r) = true

returned-ignore_error : (o : Option Reply) → returned (ignore_error o) ≡ returned o
returned-ignore_error none = refl
returned-ignore_error (some q) = refl

-- A note to a sender: what `send_unreachable` sends.
abbrev IsNote : MessageData → Type 0
IsNote md = (md.from_service ≡ unreach) × (md.to_service ≡ unreach)

-- A message that asks this node for a ping.
abbrev IsPing : Netceptor → MessageData → Type 0
IsPing s md = (md.to_node ≡ s.node_id) × (md.to_service ≡ ping)

-- A ping that comes from the ping service of this node itself.
abbrev pub IsPingLoop : Netceptor → MessageData → Type 0
IsPingLoop s md =
    IsPing s md × (resolve s.node_id md.from_node ≡ s.node_id) × (md.from_service ≡ ping)

module _ (x : External) (again : Again) where
  -- A note calls nothing again.
  handle_step-IsNote :
      (md : MessageData) (s : Netceptor) → IsNote md → returned (handle_step x again md s) ≡ true
  unfolding handle_step dispatch forward_message handle_unreachable same
  handle_step-IsNote md s h = ground (
    arith,
    same_iff md.from_service unreach,
    same_iff md.to_service unreach,
    same_iff md.to_service ping,
  )

module _ (x : External) (again : Again)
    (notes : (md : MessageData) (s : Netceptor) → IsNote md → returned (again md s) ≡ true) where
  send_unreachable-returned :
      (to_node : Bytes) (m : UnreachableMessage) (s : Netceptor)
      → returned (send_unreachable x again to_node m s) ≡ true
  unfolding send_unreachable
  send_unreachable-returned to_node m s = notes _ s (refl, refl)

  deliver_local-returned :
      (md : MessageData) (s : Netceptor) → returned (deliver_local x again md s) ≡ true
  unfolding deliver_local
  deliver_local-returned md s = ground (
    arith,
    returned-ignore_error _
        ∙ send_unreachable-returned md.from_node (unreachable md service_unknown) s,
  )

  forward_message-returned :
      (md : MessageData) (s : Netceptor) → returned (forward_message x again md s) ≡ true
  unfolding forward_message
  forward_message-returned md s = ground (
    arith,
    returned-ignore_error _
        ∙ send_unreachable-returned md.from_node (unreachable md expired_in_transit) s,
  )

  -- Any message but a ping calls nothing again except for a note.
  handle_step-returned :
      (md : MessageData) (s : Netceptor)
      → ¬ (IsPing s md)
      → returned (handle_step x again md s) ≡ true
  unfolding handle_step dispatch handle_unreachable
  handle_step-returned md s h = ground (
    arith,
    same_iff md.to_node s.node_id,
    same_iff md.to_service ping,
    forward_message-returned md s,
    deliver_local-returned md s,
    returned-ignore_error _ ∙ send_unreachable-returned md.from_node (unreachable md blocked) s,
  )

-- The answer to a ping.
abbrev pong : Netceptor → MessageData → MessageData
pong s md = record {
  from_node = s.node_id;
  from_service = ping;
  to_node = resolve s.node_id md.from_node;
  to_service = md.from_service;
  hops_to_live = s.max_forwarding_hops;
  content = [];
}

module _ (x : External) (again : Again)
    (notes : (md : MessageData) (s : Netceptor) → IsNote md → returned (again md s) ≡ true)
    (others : (md : MessageData) (s : Netceptor)
      → ¬ (IsPing s md)
      → returned (again md s) ≡ true) where
  -- The answer to a ping is a ping of this node only if the ping came from its own ping service.
  handle_ping-returned :
      (md : MessageData) (s : Netceptor)
      → IsPing s md
      → ¬ (IsPingLoop s md)
      → returned (handle_ping x again md s) ≡ true
  unfolding handle_ping
  handle_ping-returned md s p h = ground (arith, others (pong s md) s (λ q. h (p, q.0, q.1)))

  handle_step-ping-returned :
      (md : MessageData) (s : Netceptor)
      → IsPing s md
      → ¬ (IsPingLoop s md)
      → returned (handle_step x again md s) ≡ true
  unfolding handle_step dispatch
  handle_step-ping-returned md s p h = ground (
    arith,
    same_iff md.to_node s.node_id,
    same_iff md.to_service ping,
    handle_ping-returned md s p h,
    returned-ignore_error _
        ∙ send_unreachable-returned x again notes md.from_node (unreachable md blocked) s,
  )

-- A ping from the node's own ping service is answered by another such ping.
handle_step-IsPingLoop :
    (x : External) (again : Again) (md : MessageData) (s : Netceptor)
    → s.firewall_rules ≡ []
    → IsPingLoop s md
    → handle_step x again md s ≡ again (pong s md) s
unfolding handle_step dispatch handle_ping decide
handle_step-IsPingLoop x again md s rules h =
    ground (arith, same_iff md.to_node s.node_id, same_iff md.to_service ping)

pong-IsPingLoop : (md : MessageData) (s : Netceptor) → IsPingLoop s md → IsPingLoop s (pong s md)
unfolding resolve
pong-IsPingLoop md s h = ((h.1, h.2), ground arith, refl)

module _ (x : External) where
  note-returned :
      (f : ℕ) (md : MessageData) (s : Netceptor)
      → IsNote md
      → returned (handle_message_data x (suc f) md s) ≡ true
  unfolding handle_message_data
  note-returned f md s h = handle_step-IsNote x (handle_message_data x f) md s h

  unping-returned :
      (f : ℕ) (md : MessageData) (s : Netceptor)
      → ¬ (IsPing s md)
      → returned (handle_message_data x (suc (suc f)) md s) ≡ true
  unfolding handle_message_data
  unping-returned f md s h =
      handle_step-returned x (handle_message_data x (suc f)) (note-returned f) md s h

  -- A ping of this node, of which the answer does not come back to its ping service.
  ping-returned :
      (f : ℕ) (md : MessageData) (s : Netceptor)
      → IsPing s md
      → ¬ (IsPingLoop s md)
      → returned (handle_message_data x (suc (suc (suc f))) md s) ≡ true
  unfolding handle_message_data
  ping-returned f md s p h =
      handle_step-ping-returned x (handle_message_data x (suc (suc f))) (note-returned (suc f))
        (unping-returned f) md s p h

  IsPing-cases : (md : MessageData) (s : Netceptor) → IsPing s md ⊎ (¬ (IsPing s md))
  IsPing-cases md s = elim (Bool-cases (same md.to_node s.node_id)) [
    | inr e ↦ inr (λ p. ground (arith, same_iff md.to_node s.node_id))
    | inl e ↦ elim (Bool-cases (same md.to_service ping)) [
      | inr d ↦ inr (λ p. ground (arith, same_iff md.to_service ping))
      | inl d ↦ inl (same→eq md.to_node s.node_id e, same→eq md.to_service ping d)
    ]
  ]

  returned→some : (o : Option Reply) → returned o ≡ true → (r : Reply) × (o ≡ some r)
  returned→some none h = cc
  returned→some (some r) h = (r, refl)

  -- With three units of fuel or more the handling of a message ends, with an answer or an error,
  -- whatever the firewall, the tables and the listeners are, for every message but one that goes to
  -- the node's own ping service and gives that same service as its sender.
  pub handle_message_data_total :
      (f : ℕ) (md : MessageData) (s : Netceptor)
      → ¬ (IsPingLoop s md)
      → (r : Reply) × (handle_message_data x (suc (suc (suc f))) md s ≡ some r)
  handle_message_data_total f md s h = returned→some _ (elim (IsPing-cases md s) [
    | inl p ↦ ping-returned f md s p h
    | inr p ↦ unping-returned (suc f) md s p
  ])

  -- A message to the node's own ping service that gives that same service as its sender is
  -- answered without end: no amount of fuel is enough, if the node has no firewall rules.
  pub ping_loop :
      (f : ℕ) (md : MessageData) (s : Netceptor)
      → s.firewall_rules ≡ []
      → IsPingLoop s md
      → handle_message_data x f md s ≡ none
  unfolding handle_message_data
  ping_loop zero md s rules h = refl
  ping_loop (suc f) md s rules h =
      handle_step-IsPingLoop x (handle_message_data x f) md s rules h
      ∙ ping_loop f (pong s md) s rules (pong-IsPingLoop md s h)
