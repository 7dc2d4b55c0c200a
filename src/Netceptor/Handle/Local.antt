-- ===== src/Netceptor/Handle/Local.antt =====
-- Delivery to a listener of this node.
use receptor.Prelude.{ℕ, suc, same_iff, ◌≡◌, false, some, [], ◌∷◌, ◌||◌, arith, same}
use receptor.Prelude.Map.{lookup}
use receptor.Netceptor.State.{
  Netceptor, External, MessageData, accept, PacketConn, deliver, unreach, ping,
}
use receptor.Netceptor.Handle.{
  reply, decide, deliver_local, dispatch, handle_step, handle_message_data,
}

pub handle_message_data-deliver :
    (x : External) (f : ℕ) (md : MessageData) (s : Netceptor) (pc : PacketConn)
    → decide s.firewall_rules md ≡ accept
    → md.to_node ≡ s.node_id
    → (same md.to_service ping || same md.to_service unreach) ≡ false
    → lookup md.to_service s.listener_registry ≡ some pc
    → pc.done ≡ false
    → handle_message_data x (suc f) md s ≡ reply s (deliver pc md ∷ [])
unfolding handle_message_data handle_step dispatch deliver_local
handle_message_data-deliver x f md s pc allowed here free listed live =
    ground (arith, same_iff md.to_node s.node_id)
