-- ===== src/Netceptor/Handle.antt =====
-- Data messages in a node (netceptor.go): the firewall, dispatch to services, forwarding, and the
-- notes to a sender about what could not be delivered.
-- `handleMessageData`, `sendUnreachable` and the ping service call one another. The recursion takes
-- fuel, and `none` means that the fuel ran out.
pub mod Total
pub mod Examples
pub mod Decide
pub mod Forward
pub mod Local
use receptor.Prelude.{
  ℕ, zero, suc, ◌+◌, ◌%◌, Bool, not, ◌||◌, Option, none, some, List, [], ◌∷◌, ◌++◌, ltb, leb,
  if◌then◌else◌, length, Bytes, same,
}
use receptor.Prelude.Map.{lookup}
use receptor.Netceptor.State.{
  Netceptor, External, MessageData, FirewallResult, proceed, accept, reject, drop,
  UnreachableMessage, packet, Effect, send, deliver, publish, unreach, ping, service_unknown,
  expired_in_transit, blocked,
}
use receptor.Netceptor.Wire.{resolve, translate_data_from_message}

pub data Error : Type 0 where
  no_route no_connection conn_cancelled service_too_long unknown_service bad_unreachable : Error

-- What a call leaves: the node, what it sent or delivered, and the error that it returned.
pub record Reply : Type 0 where
  pub node : Netceptor
  pub effects : List Effect
  pub error : Option Error

abbrev pub reply : Netceptor → List Effect → Option Reply
reply s es = some (record { node = s; effects = es; error = none })

abbrev pub refuse : Netceptor → Error → Option Reply
refuse s e = some (record { node = s; effects = []; error = some e })

-- `_ = s.sendUnreachable(…)` and `return nil`.
abbrev pub ignore_error : Option Reply → Option Reply
ignore_error none = none
ignore_error (some r) = some (record r { error = none })

-- The loop over the firewall rules: the first result that decides, or that of the last rule.
pub decide_from :
    FirewallResult → List (MessageData → FirewallResult) → MessageData → FirewallResult
decide_from result [] md = result
decide_from result (rule ∷ rules) md = elim (rule md) [
  | proceed ↦ decide_from proceed rules md
  | accept ↦ accept
  | reject ↦ reject
  | drop ↦ drop
]

unfoldable pub decide : List (MessageData → FirewallResult) → MessageData → FirewallResult
unfolding decide_from
decide = decide_from accept

-- `AddFirewallRules`
pub add_firewall_rules : List (MessageData → FirewallResult) → Bool → Netceptor → Netceptor
add_firewall_rules rules clear_existing s = record s {
  firewall_rules = (if clear_existing then [] else s.firewall_rules) ++ rules;
}

pub unreachable : MessageData → Bytes → UnreachableMessage
unreachable md problem = record {
  from_node = md.from_node;
  to_node = md.to_node;
  from_service = md.from_service;
  to_service = md.to_service;
  problem = problem;
}

-- `message[1]--` on a byte.
pub decrement_hops : Bytes → Bytes
decrement_hops (a ∷ h ∷ rest) = a ∷ ((h + 255) % 256) ∷ rest
decrement_hops bytes = bytes

-- How `handleMessageData` is called again, with the fuel that is left.
abbrev pub Again : Type 0
Again = MessageData → Netceptor → Option Reply

module _ (x : External) (again : Again) where
  -- `SendMessageWithHopsToLive`
  pub send_message_with_hops : Bytes → Bytes → Bytes → Bytes → ℕ → Netceptor → Option Reply
  send_message_with_hops from_service to_node to_service content hops s =
      if ltb 8 (length from_service) || ltb 8 (length to_service)
      then refuse s service_too_long
      else again
          (record {
            from_node = s.node_id;
            from_service = from_service;
            to_node = resolve s.node_id to_node;
            to_service = to_service;
            hops_to_live = hops;
            content = content;
          })
          s

  -- `sendMessage`
  pub send_message : Bytes → Bytes → Bytes → Bytes → Netceptor → Option Reply
  unfolding send_message_with_hops
  send_message from_service to_node to_service content s =
      send_message_with_hops from_service to_node to_service content s.max_forwarding_hops s

  -- `sendUnreachable`
  pub send_unreachable : Bytes → UnreachableMessage → Netceptor → Option Reply
  unfolding send_message
  send_unreachable to_node message s = send_message unreach to_node unreach (x.marshal message) s

  -- `forwardMessage`. A connection whose context has ended takes no message.
  pub forward_message : MessageData → Netceptor → Option Reply
  unfolding send_unreachable unreachable decrement_hops
  forward_message md s =
      if leb md.hops_to_live 0
      then (if same md.from_service unreach
          then reply s []
          else ignore_error (send_unreachable md.from_node (unreachable md expired_in_transit) s))
      else elim (lookup md.to_node s.routing_table) [
        | none ↦ refuse s no_route
        | some next_hop ↦ elim (lookup next_hop s.connections) [
          | none ↦ refuse s no_connection
          | some c ↦
              let (s', message) = translate_data_from_message x md s in
              if not c.has_write_chan
              then refuse s no_connection
              else if s.cancelled c.ident
              then refuse s' conn_cancelled
              else reply s' (send next_hop c (packet (decrement_hops message)) ∷ [])
        ]
      ]

  -- `handlePing`
  pub handle_ping : MessageData → Netceptor → Option Reply
  unfolding send_message
  handle_ping md s = send_message ping md.from_node md.from_service [] s

  -- `handleUnreachable`
  pub handle_unreachable : MessageData → Netceptor → Option Reply
  handle_unreachable md s = elim (x.unmarshal md.content) [
    | none ↦ refuse s bad_unreachable
    | some message ↦
        reply s (publish (record { message = message; received_from_node = md.from_node }) ∷ [])
  ]

  -- The end of `handleMessageData` for a message to this node that no reserved service takes.
  pub deliver_local : MessageData → Netceptor → Option Reply
  unfolding send_unreachable unreachable
  deliver_local md s =
      let unknown =
        if same md.from_node s.node_id
        then refuse s unknown_service
        else ignore_error (send_unreachable md.from_node (unreachable md service_unknown) s) in
      elim (lookup md.to_service s.listener_registry) [
        | none ↦ unknown
        | some pc ↦ if pc.done then unknown else reply s (deliver pc md ∷ [])
      ]

  -- `dispatchReservedService` and what follows it.
  pub dispatch : MessageData → Netceptor → Option Reply
  unfolding handle_ping handle_unreachable deliver_local
  dispatch md s =
      if same md.to_service ping
      then handle_ping md s
      else if same md.to_service unreach
      then handle_unreachable md s
      else deliver_local md s

  -- The body of `handleMessageData`.
  pub handle_step : MessageData → Netceptor → Option Reply
  unfolding decide send_unreachable unreachable
  handle_step md s =
      let passed = if same md.to_node s.node_id then dispatch md s else forward_message md s in
      elim (decide s.firewall_rules md) [
        | proceed ↦ passed
        | accept ↦ passed
        | drop ↦ reply s []
        | reject ↦
            if same md.from_service unreach
            then reply s []
            else ignore_error (send_unreachable md.from_node (unreachable md blocked) s)
      ]

-- `handleMessageData`
pub handle_message_data : External → ℕ → MessageData → Netceptor → Option Reply
unfolding handle_step
handle_message_data x zero md s = none
handle_message_data x (suc fuel) md s = handle_step x (handle_message_data x fuel) md s
