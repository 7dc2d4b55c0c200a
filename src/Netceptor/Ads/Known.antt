-- ===== src/Netceptor/Ads/Known.antt =====
-- What is known of a service after its advertisements.
use receptor.Prelude.{
  ℕ, ◌≡◌, refl, sym, ap, ◌∙◌, false, not, ◌&&◌, Option, none, some, List, [], ◌∷◌, arith, ltb,
  if◌then◌else◌, Bytes, same, same_iff, same_refl, Bool-cases, inl, inr,
}
use receptor.Prelude.Map.{Map, lookup, lookup_or, insert, delete, lookup-insert, lookup-delete}
use receptor.Netceptor.State.{
  Netceptor, ServiceAdvertisement, ServiceAdvertisementFull, Effect, service_ad,
}
use receptor.Netceptor.Update.{flood}
use receptor.Netceptor.Ads.{
  withdrawal, ads_of, get_service_info, local_ad, add_local_service_advertisement,
  remove_local_service_advertisement, keeps_current, put_ads, handle_service_advertisement,
}

-- What is known of a service of a node, by the two maps.
pub get_service_info_lem :
    (node service : Bytes) (s : Netceptor)
    → get_service_info node service s ≡ lookup service (ads_of node s)
unfolding get_service_info ads_of lookup_or lookup
get_service_info_lem node service s = ground arith

ads_of-put_ads :
    (node k : Bytes) (ads : Map ServiceAdvertisement) (s : Netceptor)
    → ads_of k (put_ads node ads s) ≡ (if same node k then ads else ads_of k s)
unfolding ads_of put_ads lookup_or
ads_of-put_ads node k [] s = ground (arith, lookup-delete node k s.service_ads_received)
ads_of-put_ads node k (ad ∷ ads) s =
    ground (arith, lookup-insert node k (ad ∷ ads) s.service_ads_received)

ads_of-insert :
    (node k : Bytes) (ads : Map ServiceAdvertisement) (s : Netceptor)
    → ads_of k (record s { service_ads_received = insert node ads s.service_ads_received })
      ≡ (if same node k then ads else ads_of k s)
unfolding ads_of lookup_or
ads_of-insert node k ads s = ground (arith, lookup-insert node k ads s.service_ads_received)

ads_of-handle :
    (si : ServiceAdvertisementFull) (received_from : Bytes) (s : Netceptor) (k : Bytes)
    → ads_of k (handle_service_advertisement si received_from s).0 ≡ (
        if keeps_current si s
        then ads_of k s
        else if same si.ad.node_id k
        then (if si.cancel
            then delete si.ad.service (ads_of si.ad.node_id s)
            else insert si.ad.service si.ad (ads_of si.ad.node_id s))
        else ads_of k s)
unfolding handle_service_advertisement
ads_of-handle si received_from s k = elim (Bool-cases (keeps_current si s)) [
  | inl e ↦ ground (arith, e)
  | inr e ↦ elim (Bool-cases si.cancel) [
    | inl e' ↦ ground (
      arith,
      e,
      e',
      ads_of-put_ads si.ad.node_id k (delete si.ad.service (ads_of si.ad.node_id s)) s,
    )
    | inr e' ↦ ground (
      arith,
      e,
      e',
      ads_of-insert si.ad.node_id k (insert si.ad.service si.ad (ads_of si.ad.node_id s)) s,
    )
  ]
]

keeps_current_lem :
    (si : ServiceAdvertisementFull) (s : Netceptor) (current : Option ServiceAdvertisement)
    → lookup si.ad.service (ads_of si.ad.node_id s) ≡ current
    → keeps_current si s ≡ elim current [ none ↦ false | some ad ↦ not (ltb ad.time si.ad.time) ]
unfolding keeps_current
keeps_current_lem si s current e =
    ap (λ o. elim o [ none ↦ false | some ad ↦ not (ltb ad.time si.ad.time) ]) e

-- What an advertisement or a withdrawal of a service leaves known of it.
abbrev pub known_after :
    ServiceAdvertisementFull → Option ServiceAdvertisement → Option ServiceAdvertisement
known_after si none = if si.cancel then none else some si.ad
known_after si (some current) =
    if ltb current.time si.ad.time then (if si.cancel then none else some si.ad) else some current

after_lem :
    (si : ServiceAdvertisementFull) (s : Netceptor) (node service : Bytes)
    → lookup service (
        if keeps_current si s
        then ads_of node s
        else if same si.ad.node_id node
        then (if si.cancel
            then delete si.ad.service (ads_of si.ad.node_id s)
            else insert si.ad.service si.ad (ads_of si.ad.node_id s))
        else ads_of node s)
      ≡ (if same si.ad.node_id node && same si.ad.service service
          then known_after si (lookup service (ads_of node s))
          else lookup service (ads_of node s))
after_lem si s node service = ground (
  arith,
  same_iff si.ad.node_id node,
  same_iff si.ad.service service,
  keeps_current_lem si s (lookup si.ad.service (ads_of si.ad.node_id s)) refl,
  lookup-delete si.ad.service service (ads_of si.ad.node_id s),
  lookup-insert si.ad.service service si.ad (ads_of si.ad.node_id s),
)

-- An advertisement or a withdrawal changes what is known of its own service of its own node, and
-- of nothing else: what is known stays if it is at least as late; otherwise an advertisement takes
-- its place, and a withdrawal leaves nothing.
pub get_service_info-handle_service_advertisement :
    (si : ServiceAdvertisementFull) (received_from : Bytes) (s : Netceptor) (node service : Bytes)
    → get_service_info node service (handle_service_advertisement si received_from s).0 ≡ (
        if same si.ad.node_id node && same si.ad.service service
        then known_after si (get_service_info node service s)
        else get_service_info node service s)
get_service_info-handle_service_advertisement si received_from s node service =
    get_service_info_lem node service (handle_service_advertisement si received_from s).0
    ∙ ap (lookup service) (ads_of-handle si received_from s node)
    ∙ after_lem si s node service
    ∙ ap
        (λ o. if same si.ad.node_id node && same si.ad.service service then known_after si o else o)
        (sym (get_service_info_lem node service s))

ads_of-add :
    (service : Bytes) (conn_type : ℕ) (tags : Map Bytes) (now : ℕ) (s : Netceptor) (k : Bytes)
    → ads_of k (add_local_service_advertisement service conn_type tags now s).0 ≡ (
        if same s.node_id k
        then insert service (local_ad service conn_type tags now s) (ads_of s.node_id s)
        else ads_of k s)
unfolding add_local_service_advertisement
ads_of-add service conn_type tags now s k =
    ads_of-insert s.node_id k
      (insert service (local_ad service conn_type tags now s) (ads_of s.node_id s)) s

added_is_known :
    (service : Bytes) (conn_type : ℕ) (tags : Map Bytes) (now : ℕ) (s : Netceptor)
    → lookup service
        (ads_of s.node_id (add_local_service_advertisement service conn_type tags now s).0)
      ≡ some (local_ad service conn_type tags now s)
added_is_known service conn_type tags now s =
    ap (lookup service) (ads_of-add service conn_type tags now s s.node_id)
    ∙ ground (
      arith,
      same_refl s.node_id,
      same_refl service,
      lookup-insert service service (local_ad service conn_type tags now s) (ads_of s.node_id s),
    )

removed :
    (service : Bytes) (now : ℕ) (s : Netceptor) (ad : ServiceAdvertisement)
    → lookup service (ads_of s.node_id s) ≡ some ad
    → (r : Netceptor × List Effect) × (remove_local_service_advertisement service now s ≡ some r)
      × ((k : Bytes)
          → ads_of k r.0
            ≡ (if same s.node_id k then delete service (ads_of s.node_id s) else ads_of k s))
unfolding remove_local_service_advertisement
removed service now s ad known = (
  _,
  ap
      (λ o. elim o [
        | none ↦ none
        | some ad ↦
            let s' : Netceptor = record s {
              service_ads_received =
                  insert s.node_id (delete service (ads_of s.node_id s)) s.service_ads_received;
            } in
            some (s', flood (service_ad (withdrawal service ad.conn_type now s)) [] s')
      ])
      known,
  λ k. ads_of-insert s.node_id k (delete service (ads_of s.node_id s)) s,
)

-- A service that this node offers is advertised, and once it is withdrawn it is not: adding it,
-- then removing it, does not panic, and what is known of every other service stays.
pub remove-add_local_service_advertisement :
    (service : Bytes) (conn_type : ℕ) (tags : Map Bytes) (now later : ℕ) (s : Netceptor)
    (node other : Bytes)
    → let added = (add_local_service_advertisement service conn_type tags now s).0 in
      (get_service_info s.node_id service added ≡ some (local_ad service conn_type tags now s))
      × (r : Netceptor × List Effect) × (remove_local_service_advertisement service later added
          ≡ some r)
      × (get_service_info node other r.0 ≡ (
          if same s.node_id node && same service other
          then none
          else get_service_info node other s))
unfolding add_local_service_advertisement
remove-add_local_service_advertisement service conn_type tags now later s node other =
    let added = (add_local_service_advertisement service conn_type tags now s).0 in
    let ad = local_ad service conn_type tags now s in
    let known = added_is_known service conn_type tags now s in
    let (r, e, left) = removed service later added ad known in
    (
      get_service_info_lem s.node_id service added ∙ known,
      r,
      e,
      get_service_info_lem node other r.0
          ∙ ap (lookup other) (left node)
          ∙ ground (
            arith,
            same_iff s.node_id node,
            same_iff service other,
            ads_of-add service conn_type tags now s s.node_id,
            ads_of-add service conn_type tags now s node,
            lookup-delete service other (ads_of s.node_id added),
            lookup-insert service other ad (ads_of s.node_id s),
            get_service_info_lem node other s,
          ),
    )
