-- ===== src/Netceptor/Handle/Forward.antt =====
-- A message for another node: the next hop, the hop count, and what the next node reads.
use receptor.Prelude.{
  ℕ, suc, ◌-◌, ◌≤◌, ◌<◌, ◌≡◌, refl, ap, ◌∙◌, ◌≢◌, true, false, ◌⊎◌, Option, some, [], ◌∷◌, arith,
  Bytes, same_ne,
}
use receptor.Prelude.Map.{lookup}
use receptor.Netceptor.State.{
  Netceptor, External, MessageData, proceed, accept, ConnInfo, send, packet, unreach,
  expired_in_transit,
}
use receptor.Netceptor.Wire.{
  resolve, translate_data_from_message, translate_data_to_message, get_name_from_hash,
}
use receptor.Netceptor.Wire.RoundTrip.{IsSendable, translate-round_trip}
use receptor.Netceptor.Handle.{
  Reply, Again, reply, ignore_error, decide, forward_message, handle_step, handle_message_data,
  unreachable, decrement_hops,
}

-- The firewall lets the message pass.
abbrev pub Passes : Netceptor → MessageData → Type 0
Passes s md = (decide s.firewall_rules md ≡ accept) ⊎ (decide s.firewall_rules md ≡ proceed)

-- A usable connection to the next hop of the message.
pub record Hop (s : Netceptor) (md : MessageData) : Type 0 where
  pub next_hop : Bytes
  pub conn : ConnInfo
  pub routed : lookup md.to_node s.routing_table ≡ some next_hop
  pub connected : lookup next_hop s.connections ≡ some conn
  pub has_chan : conn.has_write_chan ≡ true
  pub alive : s.cancelled conn.ident ≡ false

-- The message as it goes out.
abbrev pub one_less : MessageData → MessageData
one_less md = record md { hops_to_live = md.hops_to_live - 1 }

decrement_hops-∷ :
    (h : ℕ) (rest : Bytes) → 1 ≤ h → h < 256 → decrement_hops (0 ∷ h ∷ rest) ≡ 0 ∷ (h - 1) ∷ rest
unfolding decrement_hops
decrement_hops-∷ h rest lo hi = ground arith

decrement_hops-translate :
    (x : External) (md : MessageData) (s : Netceptor)
    → 1 ≤ md.hops_to_live
    → md.hops_to_live < 256
    → decrement_hops (translate_data_from_message x md s).1
      ≡ (translate_data_from_message x (one_less md) s).1
unfolding translate_data_from_message
decrement_hops-translate x md s lo hi = decrement_hops-∷ md.hops_to_live _ lo hi

module _ (x : External) where
  abbrev forwarded : (md : MessageData) (s : Netceptor) → Hop s md → Option Reply
  forwarded md s hop =
      reply (translate_data_from_message x md s).0
        (send hop.next_hop hop.conn (packet (translate_data_from_message x (one_less md) s).1) ∷ [])

  forward_message-Hop :
      (again : Again) (md : MessageData) (s : Netceptor) (hop : Hop s md)
      → 1 ≤ md.hops_to_live
      → md.hops_to_live < 256
      → forward_message x again md s ≡ forwarded md s hop
  unfolding forward_message
  forward_message-Hop again md s hop lo hi = ground (
    arith,
    hop.routed,
    hop.connected,
    hop.has_chan,
    hop.alive,
    decrement_hops-translate x md s lo hi,
  )

  handle-forwarded :
      (f : ℕ) (md : MessageData) (s : Netceptor) (hop : Hop s md)
      → Passes s md
      → md.to_node ≢ s.node_id
      → 1 ≤ md.hops_to_live
      → md.hops_to_live < 256
      → handle_message_data x (suc f) md s ≡ forwarded md s hop
  unfolding handle_message_data handle_step
  handle-forwarded f md s hop pass away lo hi = ground (
    arith,
    same_ne md.to_node s.node_id away,
    forward_message-Hop (handle_message_data x f) md s hop lo hi,
  )

  -- The call ends without an error and sends one packet, to the next hop, and the node `r` that
  -- gets the packet reads `md` from it.
  abbrev pub SendsOne : Option Reply → Bytes → ConnInfo → Netceptor → MessageData → Type 0
  SendsOne o next_hop conn r md =
      (s' : Netceptor) × (p : Bytes) × (o ≡ reply s' (send next_hop conn (packet p) ∷ []))
      × (translate_data_to_message p r ≡ some md)

  -- `r` knows both nodes of the message by their hashes.
  abbrev pub Knows : Netceptor → MessageData → Type 0
  Knows r md =
      (get_name_from_hash (x.hash md.from_node) r ≡ some md.from_node)
      × (get_name_from_hash (x.hash md.to_node) r ≡ some md.to_node)

  -- A message for another node that the firewall lets pass and that may still make a hop goes to
  -- the next hop of the routing table, once, and the next node reads it as it was with one hop
  -- less, if that node knows both node names by their hashes, and names and services are such as
  -- the wire format carries.
  pub handle_forwards :
      (f : ℕ) (md : MessageData) (s r : Netceptor) (hop : Hop s md)
      → Passes s md
      → md.to_node ≢ s.node_id
      → 1 ≤ md.hops_to_live
      → md.hops_to_live < 256
      → IsSendable x (one_less md)
      → Knows r md
      → SendsOne (handle_message_data x (suc f) md s) hop.next_hop hop.conn r (one_less md)
  handle_forwards f md s r hop pass away lo hi v k = (
    _,
    _,
    handle-forwarded f md s hop pass away lo hi,
    translate-round_trip x (one_less md) s r v k.0 k.1,
  )

  -- The note that this node sends to the sender of a message.
  abbrev pub note : Netceptor → MessageData → Bytes → MessageData
  note s md problem = record {
    from_node = s.node_id;
    from_service = unreach;
    to_node = resolve s.node_id md.from_node;
    to_service = unreach;
    hops_to_live = s.max_forwarding_hops;
    content = x.marshal (unreachable md problem);
  }

  expired_step :
      (f : ℕ) (md : MessageData) (s : Netceptor)
      → Passes s md
      → md.to_node ≢ s.node_id
      → md.hops_to_live ≡ 0
      → md.from_service ≢ unreach
      → handle_message_data x (suc f) md s
        ≡ ignore_error (handle_message_data x f (note s md expired_in_transit) s)
  unfolding handle_message_data handle_step forward_message
  expired_step f md s pass away zero_hops from =
      ground (arith, same_ne md.to_node s.node_id away, same_ne md.from_service unreach from)

  -- A message for another node with no hop left is not forwarded. If its sender is another node to
  -- which there is a route, the one packet that goes out is a note for the sender, which the next
  -- node reads, and its content is the message's addresses with the problem "message expired", if
  -- `unmarshal` inverts `marshal`. The message is none of the notes itself, and the firewall lets
  -- the message and the note pass.
  pub handle_expired :
      (f : ℕ) (md : MessageData) (s r : Netceptor)
      → Passes s md
      → md.to_node ≢ s.node_id
      → md.hops_to_live ≡ 0
      → md.from_service ≢ unreach
      → (hop : Hop s (note s md expired_in_transit)) → Passes s (note s md expired_in_transit)
      → resolve s.node_id md.from_node ≢ s.node_id
      → 1 ≤ s.max_forwarding_hops
      → s.max_forwarding_hops < 256
      → IsSendable x (one_less (note s md expired_in_transit))
      → Knows r (note s md expired_in_transit)
      → x.unmarshal (x.marshal (unreachable md expired_in_transit))
        ≡ some (unreachable md expired_in_transit)
      → (got : MessageData) × SendsOne
          (handle_message_data x (suc (suc f)) md s)
          hop.next_hop
          hop.conn
          r
          got
        × (got.to_node ≡ resolve s.node_id md.from_node)
        × (got.to_service ≡ unreach)
        × (x.unmarshal got.content ≡ some (unreachable md expired_in_transit))
  handle_expired f md s r pass away none_left from hop pass' other lo hi v k inverse =
      let (s', p, sent, read) =
        handle_forwards f (note s md expired_in_transit) s r hop pass' other lo hi v k in
      (
        one_less (note s md expired_in_transit),
        (s', p, expired_step (suc f) md s pass away none_left from ∙ ap ignore_error sent, read),
        refl,
        refl,
        inverse,
      )
