-- ===== src/Netceptor/Listener/Examples.antt =====
-- A listener of node a.
use receptor.Prelude.{◌≡◌, refl, false, [], ◌∷◌, Bytes, codes, same}
use receptor.Prelude.Map.{lookup, insert}
use receptor.Netceptor.State.{Netceptor, MessageData, PacketConn, accept}
use receptor.Netceptor.Examples.{node_a, small, hello}
use receptor.Netceptor.Wire.{add_name_hash}
use receptor.Netceptor.Handle.{decide}
use receptor.Netceptor.Listener.{listening, listen_packet}

abbrev shop : Bytes
shop = codes "shop"

abbrev pc : PacketConn
pc = record {
  local_service = shop;
  advertise = false;
  ad_tags = [];
  conn_type = 0;
  hops_to_live = 30;
  done = false;
}

abbrev opened : Netceptor
opened = record (add_name_hash small shop node_a).0 { listener_registry = (shop, pc) ∷ [] }

opened_lem : listen_packet small shop [] node_a ≡ listening opened pc []
unfolding listen_packet lookup insert same add_name_hash
opened_lem = refl

abbrev order : MessageData
order = record hello { to_node = node_a.node_id; to_service = shop }

allowed : decide node_a.firewall_rules order ≡ accept
unfolding decide
allowed = refl
