-- ===== src/Netceptor/State.antt =====
-- The data of pkg/netceptor/netceptor.go: messages, connections, and the node's own state.
-- Times are nanoseconds and connection costs are scaled integers, both as natural numbers.
-- A pointer to a connInfo is its number: whether its context has ended and when it last received
-- are kept beside the maps, since the map and the session share them.
use receptor.Prelude.{ℕ, Bool, Option, List, Bytes, codes}
use receptor.Prelude.Map.{Map}

pub data FirewallResult : Type 0 where
  proceed accept reject drop : FirewallResult

pub record MessageData : Type 0 where
  pub from_node : Bytes
  pub from_service : Bytes
  pub to_node : Bytes
  pub to_service : Bytes
  pub hops_to_live : ℕ  -- a byte
  pub content : Bytes

pub record ConnInfo : Type 0 where
  pub ident : ℕ  -- which connInfo the pointer points to
  pub cost : ℕ
  pub has_write_chan : Bool

pub record NodeInfo : Type 0 where
  pub epoch : ℕ
  pub sequence : ℕ

pub record RoutingUpdate : Type 0 where
  pub node_id : Bytes
  pub update_id : Bytes
  pub update_epoch : ℕ
  pub update_sequence : ℕ
  pub connections : Map ℕ
  pub forwarding_node : Bytes
  pub suspected_duplicate : ℕ

pub record WorkCommand : Type 0 where
  pub work_type : Bytes
  pub secure : Bool

pub record ServiceAdvertisement : Type 0 where
  pub node_id : Bytes
  pub service : Bytes
  pub time : ℕ
  pub conn_type : ℕ
  pub tags : Map Bytes
  pub work_commands : List WorkCommand

pub record ServiceAdvertisementFull : Type 0 where
  pub ad : ServiceAdvertisement
  pub cancel : Bool

pub record UnreachableMessage : Type 0 where
  pub from_node : Bytes
  pub to_node : Bytes
  pub from_service : Bytes
  pub to_service : Bytes
  pub problem : Bytes

pub record UnreachableNotification : Type 0 where
  pub message : UnreachableMessage
  pub received_from_node : Bytes

pub record PacketConn : Type 0 where
  pub local_service : Bytes
  pub advertise : Bool
  pub ad_tags : Map Bytes
  pub conn_type : ℕ
  pub hops_to_live : ℕ
  pub done : Bool

-- The fields of Netceptor that the modelled functions use; locks are taken by each operation as a
-- whole.
pub record Netceptor : Type 0 where
  pub node_id : Bytes
  pub max_forwarding_hops : ℕ
  pub max_connection_idle_time : ℕ
  pub seen_update_expire_time : ℕ
  pub work_commands : List WorkCommand
  pub epoch : ℕ
  pub sequence : ℕ
  pub connections : Map ConnInfo
  pub cancelled : ℕ → Bool
  pub last_received : ℕ → ℕ
  pub known_node_info : Map NodeInfo
  pub seen_updates : Map ℕ
  pub known_connection_costs : Map (Map ℕ)
  pub routing_table : Map Bytes
  pub routing_path_costs : Map ℕ
  pub listener_registry : Map PacketConn
  pub name_hashes : List (ℕ × Bytes)
  pub service_ads_received : Map (Map ServiceAdvertisement)
  pub firewall_rules : List (MessageData → FirewallResult)
  pub shut_down : Bool

-- What is written to a connection's WriteChan: a data message in bytes, or a JSON message by its
-- content.
pub data Frame : Type 0 where
  packet : Bytes → Frame
  route : RoutingUpdate → Frame
  service_ad : ServiceAdvertisementFull → Frame
  rejection : Frame

-- What an operation does beyond its own state, in order.
pub data Effect : Type 0 where
  send : Bytes → ConnInfo → Frame → Effect  -- to the WriteChan of a connection
  deliver : PacketConn → MessageData → Effect  -- to the recvChan of a listener
  publish : UnreachableNotification → Effect  -- on the unreachable broker
  request_flood : ℕ → Effect  -- to sendRouteFloodChan
  request_table : ℕ → Effect  -- to updateRoutingTableChan
  request_ads : Effect  -- to sendServiceAdsChan

-- What the code takes from outside the repository: the hash of a name (highwayhash), and the JSON
-- text of an unreachable message.
pub record External : Type 0 where
  pub hash : Bytes → ℕ
  pub marshal : UnreachableMessage → Bytes
  pub unmarshal : Bytes → Option UnreachableMessage

abbrev pub unreach : Bytes
unreach = codes "unreach"

abbrev pub ping : Bytes
ping = codes "ping"

abbrev pub service_unknown : Bytes
service_unknown = codes "service unknown"

abbrev pub expired_in_transit : Bytes
expired_in_transit = codes "message expired"

abbrev pub blocked : Bytes
blocked = codes "blocked by firewall"
