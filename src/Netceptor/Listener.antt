-- ===== src/Netceptor/Listener.antt =====
-- Datagram listeners (packetconn.go): how a service is opened, read from, written to and closed.
pub mod Open
pub mod Close
pub mod Examples
use receptor.Prelude.{
  ℕ, Bool, true, false, ◌||◌, Option, none, some, List, [], ◌∷◌, ltb, if◌then◌else◌, length, take,
  Bytes, same,
}
use receptor.Prelude.Map.{Map, insert, delete, has_key}
use receptor.Netceptor.State.{Netceptor, External, MessageData, PacketConn, Effect, unreach, ping}
use receptor.Netceptor.Wire.{add_name_hash}
use receptor.Netceptor.Handle.{Error, handle_message_data, send_message_with_hops}
use receptor.Netceptor.Ads.{add_local_service_advertisement, remove_local_service_advertisement}

-- `_, ok := s.reservedServices[service]`
abbrev pub is_reserved : Bytes → Bool
is_reserved service = same service ping || same service unreach

-- Whether a service name is taken.
abbrev pub is_taken : Bytes → Netceptor → Bool
is_taken service s = is_reserved service || has_key service s.listener_registry

-- `GetEphemeralService`, with the random names that it draws; none when more are needed.
pub get_ephemeral_service : List Bytes → Netceptor → Option Bytes
get_ephemeral_service [] s = none
get_ephemeral_service (service ∷ draws) s =
    let rest = get_ephemeral_service draws s in if is_taken service s then rest else some service

-- `NewPacketConnWithConst`
pub new_packet_conn_with_const : Bytes → Bool → Map Bytes → Netceptor → Netceptor × PacketConn
new_packet_conn_with_const service advertise tags s =
    let pc : PacketConn = record {
      local_service = service;
      advertise = advertise;
      ad_tags = tags;
      conn_type = 0;
      hops_to_live = s.max_forwarding_hops;
      done = false;
    } in
    (record s { listener_registry = insert service pc s.listener_registry }, pc)

-- `NewPacketConn`
pub new_packet_conn : Bytes → Netceptor → Netceptor × PacketConn
unfolding new_packet_conn_with_const
new_packet_conn service s = new_packet_conn_with_const service false [] s

pub data ListenError : Type 0 where
  too_long already_listening : ListenError

-- What a listen call leads to; `draws_more` when no drawn name is free.
pub data Listened : Type 0 where
  refused : ListenError → Listened
  draws_more : Listened
  listening : Netceptor → PacketConn → List Effect → Listened

-- The service name that a listen call uses.
pub service_for : Bytes → List Bytes → Netceptor → Option Bytes
unfolding get_ephemeral_service
service_for [] draws s = get_ephemeral_service draws s
service_for (byte ∷ service) draws s = some (byte ∷ service)

-- `ListenPacket`
pub listen_packet : External → Bytes → List Bytes → Netceptor → Listened
unfolding service_for new_packet_conn
listen_packet x service draws s =
    if ltb 8 (length service) then refused too_long else elim (service_for service draws s) [
      | none ↦ draws_more
      | some name ↦
          if is_taken name s
          then refused already_listening
          else let (s', pc) = new_packet_conn name (add_name_hash x name s).0 in listening s' pc []
    ]

-- `ListenPacketAndAdvertise`
pub listen_packet_and_advertise : Bytes → Map Bytes → List Bytes → ℕ → Netceptor → Listened
unfolding service_for new_packet_conn_with_const
listen_packet_and_advertise service tags draws now s =
    if ltb 8 (length service) then refused too_long else elim (service_for service draws s) [
      | none ↦ draws_more
      | some name ↦
          if is_taken name s
          then refused already_listening
          else let (s', pc) = new_packet_conn_with_const name true tags s in
            let (s'', es) = add_local_service_advertisement name 0 tags now s' in
            listening s'' pc es
    ]

-- `Close`; none where withdrawing the advertisement panics. The connection's own context ends.
pub close : PacketConn → ℕ → Netceptor → Option (Netceptor × List Effect)
close pc now s =
    let s' = record s { listener_registry = delete pc.local_service s.listener_registry } in
    let withdrawn = remove_local_service_advertisement pc.local_service now s' in
    if pc.advertise then withdrawn else some (s', [])

-- `ReadFrom` a buffer of the given size, when a message is there: the bytes and their origin.
pub read_from : ℕ → MessageData → Bytes × (Bytes × Bytes)
read_from size m = (take size m.content, (m.from_node, m.from_service))

-- `WriteTo`: the handling of the message, or that the address is of another network.
pub data WriteError : Type 0 where
  foreign_address : WriteError
  unsent : Error → WriteError

pub record Written : Type 0 where
  pub node : Netceptor
  pub effects : List Effect
  pub count : ℕ
  pub error : Option WriteError

pub write_to :
    External → ℕ → PacketConn → Bytes → Option (Bytes × Bytes) → Netceptor → Option Written
write_to x fuel pc p none s =
    some (record { node = s; effects = []; count = 0; error = some foreign_address })
write_to x fuel pc p (some (node, service)) s =
    elim (send_message_with_hops x (handle_message_data x fuel) pc.local_service node service p
      pc.hops_to_live s) [
        | none ↦ none
        | some r ↦ some (elim r.error [
          | none ↦ record { node = r.node; effects = r.effects; count = length p; error = none }
          | some e ↦ record {
            node = r.node;
            effects = r.effects;
            count = 0;
            error = some (unsent e);
          }
        ])
      ]
