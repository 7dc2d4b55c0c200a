-- ===== src/Netceptor/Ads.antt =====
-- Service advertisements (netceptor.go): what this node offers, what it hears of, and their
-- withdrawal.
pub mod Known
pub mod Storm
pub mod Examples
use receptor.Prelude.{
  ℕ, Bool, true, false, not, Option, none, some, List, [], ◌∷◌, ◌++◌, ltb, if◌then◌else◌, Bytes,
  codes, same,
}
use receptor.Prelude.Map.{Map, lookup, lookup_or, insert, delete}
use receptor.Netceptor.State.{
  Netceptor, PacketConn, WorkCommand, ServiceAdvertisement, ServiceAdvertisementFull, service_ad,
  Effect, request_ads,
}
use receptor.Netceptor.Update.{flood}

-- The advertisements known of a node; `n, ok := s.serviceAdsReceived[node]`, empty when unknown.
pub ads_of : Bytes → Netceptor → Map ServiceAdvertisement
ads_of node s = lookup_or [] node s.service_ads_received

-- `GetServiceInfo`
pub get_service_info : Bytes → Bytes → Netceptor → Option ServiceAdvertisement
get_service_info node service s = elim (lookup node s.service_ads_received) [
  | none ↦ none
  | some n ↦ lookup service n
]

abbrev pub local_ad : Bytes → ℕ → Map Bytes → ℕ → Netceptor → ServiceAdvertisement
local_ad service conn_type tags now s = record {
  node_id = s.node_id;
  service = service;
  time = now;
  conn_type = conn_type;
  tags = tags;
  work_commands = [];
}

-- `AddLocalServiceAdvertisement`. The request to send is dropped when nobody waits for it.
pub add_local_service_advertisement :
    Bytes → ℕ → Map Bytes → ℕ → Netceptor → Netceptor × List Effect
unfolding ads_of
add_local_service_advertisement service conn_type tags now s = (
  record s {
    service_ads_received =
        insert s.node_id
          (insert service (local_ad service conn_type tags now s) (ads_of s.node_id s))
          s.service_ads_received;
  },
  request_ads ∷ [],
)

abbrev pub withdrawal : Bytes → ℕ → ℕ → Netceptor → ServiceAdvertisementFull
withdrawal service conn_type now s = record {
  ad = local_ad service conn_type [] now s;
  cancel = true;
}

-- `RemoveLocalServiceAdvertisement`: none where it dereferences the nil pointer `n[service]`.
pub remove_local_service_advertisement : Bytes → ℕ → Netceptor → Option (Netceptor × List Effect)
unfolding ads_of
remove_local_service_advertisement service now s = elim (lookup service (ads_of s.node_id s)) [
  | none ↦ none
  | some ad ↦
      let s' = record s {
        service_ads_received =
            insert s.node_id (delete service (ads_of s.node_id s)) s.service_ads_received;
      } in
      some (s', flood (service_ad (withdrawal service ad.conn_type now s)) [] s')
]

-- The work commands go with an advertisement of the control service.
pub work_commands_for : Map Bytes → Netceptor → List WorkCommand
work_commands_for tags s = elim (lookup (codes "type") tags) [
  | none ↦ []
  | some kind ↦ if same kind (codes "Control Service") then s.work_commands else []
]

-- The loop of `sendServiceAds` over the listeners.
pub ads_to_send : Map PacketConn → ℕ → Netceptor → List ServiceAdvertisement
unfolding work_commands_for
ads_to_send [] now s = []
ads_to_send ((sn, pc) ∷ listeners) now s =
    let rest = ads_to_send listeners now s in
    if pc.advertise
    then record (local_ad sn pc.conn_type pc.ad_tags now s) {
      work_commands = work_commands_for pc.ad_tags s;
    }
      ∷ rest
    else rest

-- `sendServiceAd`
pub send_service_ad : ServiceAdvertisement → Netceptor → List Effect
send_service_ad si s = flood (service_ad (record { ad = si; cancel = false })) [] s

pub send_all : List ServiceAdvertisement → Netceptor → List Effect
unfolding send_service_ad
send_all [] s = []
send_all (si ∷ ads) s = send_service_ad si s ++ send_all ads s

-- `sendServiceAds`
pub send_service_ads : ℕ → Netceptor → List Effect
unfolding ads_to_send send_all
send_service_ads now s = send_all (ads_to_send s.listener_registry now s) s

-- Whether what is known is kept: it is, unless the advertisement is later.
pub keeps_current : ServiceAdvertisementFull → Netceptor → Bool
unfolding ads_of
keeps_current si s = elim (lookup si.ad.service (ads_of si.ad.node_id s)) [
  | none ↦ false
  | some current ↦ not (ltb current.time si.ad.time)
]

-- The map of a node, put back; a node without advertisements is taken out.
pub put_ads : Bytes → Map ServiceAdvertisement → Netceptor → Netceptor
put_ads node ads s = elim ads [
  | [] ↦ record s { service_ads_received = delete node s.service_ads_received }
  | ad ∷ more ↦ record s { service_ads_received = insert node (ad ∷ more) s.service_ads_received }
]

-- `handleServiceAdvertisement`, once the message is decoded.
pub handle_service_advertisement :
    ServiceAdvertisementFull → Bytes → Netceptor → Netceptor × List Effect
unfolding keeps_current put_ads ads_of
handle_service_advertisement si received_from s =
    let n = ads_of si.ad.node_id s in
    let cancelled = put_ads si.ad.node_id (delete si.ad.service n) s in
    let stored = record s {
      service_ads_received =
          insert si.ad.node_id (insert si.ad.service si.ad n) s.service_ads_received;
    } in
    if keeps_current si s
    then (s, [])
    else if si.cancel
    then (cancelled, flood (service_ad si) received_from cancelled)
    else (stored, flood (service_ad si) received_from stored)
