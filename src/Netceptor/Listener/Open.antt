-- ===== src/Netceptor/Listener/Open.antt =====
-- What opening a listener does.
use receptor.Prelude.{
  ℕ, suc, ◌≤◌, ◌≡◌, sym, ap, ◌∙◌, inl, inr, false, none, some, List, [], ◌∷◌, arith, if◌then◌else◌,
  length, Bytes, same, same_iff, Bool-cases, Option-cases,
}
use receptor.Prelude.Map.{lookup, insert, lookup-insert}
use receptor.Netceptor.State.{Netceptor, External, MessageData, accept, PacketConn, Effect, deliver}
use receptor.Netceptor.Wire.{add_name_hash}
use receptor.Netceptor.Handle.{reply, decide, handle_message_data}
use receptor.Netceptor.Handle.Local.{handle_message_data-deliver}
use receptor.Netceptor.Listener.{is_reserved, is_taken, service_for, listening, listen_packet}

-- A listener that was opened: at a name that nobody had, for which it now stands; the other
-- listeners, the name and the firewall of the node are as they were.
pub record IsOpened (service : Bytes) (s : Netceptor) (s' : Netceptor) (pc : PacketConn)
    : Type 0 where
  pub short : length service ≤ 8
  pub unreserved : is_reserved pc.local_service ≡ false
  pub free : lookup pc.local_service s.listener_registry ≡ none
  pub live : pc.done ≡ false
  pub quiet : pc.advertise ≡ false
  pub registry : s'.listener_registry ≡ insert pc.local_service pc s.listener_registry
  pub node : s'.node_id ≡ s.node_id
  pub rules : s'.firewall_rules ≡ s.firewall_rules

IsOpened-at :
    (x : External) (service name : Bytes) (draws : List Bytes) (s s' : Netceptor) (pc : PacketConn)
    (es : List Effect)
    → service_for service draws s ≡ some name
    → listen_packet x service draws s ≡ listening s' pc es
    → IsOpened service s s' pc
unfolding listen_packet add_name_hash
IsOpened-at x service name draws s s' pc es named eq = elim (Bool-cases (is_taken name s)) [
  | inl t ↦ absurd (ground (arith, named, t, eq))
  | inr t ↦ record {
    short = ground (arith, named, eq);
    unreserved = ground (arith, named, t, eq);
    free = ground (arith, named, t, eq);
    live = ground (arith, named, t, eq);
    quiet = ground (arith, named, t, eq);
    registry = ground (arith, named, t, eq);
    node = ground (arith, named, t, eq);
    rules = ground (arith, named, t, eq);
  }
]

pub listen_packet-IsOpened :
    (x : External) (service : Bytes) (draws : List Bytes) (s s' : Netceptor) (pc : PacketConn)
    (es : List Effect)
    → listen_packet x service draws s ≡ listening s' pc es
    → IsOpened service s s' pc
unfolding listen_packet
listen_packet-IsOpened x service draws s s' pc es eq =
    elim (Option-cases (service_for service draws s)) [
      | inl o ↦ absurd (ground (arith, o, eq))
      | inr (name, o) ↦ IsOpened-at x service name draws s s' pc es o eq
    ]

pub lookup-opened :
    (service : Bytes) (s s' : Netceptor) (pc : PacketConn) (n : Bytes)
    → IsOpened service s s' pc
    → lookup n s'.listener_registry
      ≡ (if same pc.local_service n then some pc else lookup n s.listener_registry)
lookup-opened service s s' pc n o =
    ap (lookup n) o.registry ∙ lookup-insert pc.local_service n pc s.listener_registry

-- A listener opens only when the given name has at most eight bytes and the name that it gets is
-- neither reserved nor another's; it is then the listener of that name, and every other listener
-- stays.
pub listen_packet-free :
    (x : External) (service : Bytes) (draws : List Bytes) (s s' : Netceptor) (pc : PacketConn)
    (es : List Effect) (n : Bytes)
    → listen_packet x service draws s ≡ listening s' pc es
    → (length service ≤ 8)
      × (is_reserved pc.local_service ≡ false)
      × (lookup pc.local_service s.listener_registry ≡ none)
      × (lookup n s'.listener_registry
          ≡ (if same pc.local_service n then some pc else lookup n s.listener_registry))
listen_packet-free x service draws s s' pc es n eq =
    let o = listen_packet-IsOpened x service draws s s' pc es eq in
    (o.short, o.unreserved, o.free, lookup-opened service s s' pc n o)

-- Once a listener is open, a message to this node for its service that the firewall accepts is
-- delivered to it, and nothing else happens.
pub handle_message_data-listen_packet :
    (x : External) (service : Bytes) (draws : List Bytes) (s s' : Netceptor) (pc : PacketConn)
    (es : List Effect) (f : ℕ) (md : MessageData)
    → listen_packet x service draws s ≡ listening s' pc es
    → decide s.firewall_rules md ≡ accept
    → md.to_node ≡ s.node_id
    → md.to_service ≡ pc.local_service
    → handle_message_data x (suc f) md s' ≡ reply s' (deliver pc md ∷ [])
handle_message_data-listen_packet x service draws s s' pc es f md eq allowed here to =
    let o = listen_packet-IsOpened x service draws s s' pc es eq in
    handle_message_data-deliver x f md s' pc (ap (λ rules. decide rules md) o.rules ∙ allowed)
      (here ∙ sym o.node) (ap is_reserved to ∙ o.unreserved)
      (lookup-opened service s s' pc md.to_service o
        ∙ ground (arith, same_iff pc.local_service md.to_service, to))
      o.live
