-- ===== src/Netceptor/Ads/Storm.antt =====
-- Withdrawals that nobody stops, and a withdrawal that makes a node panic.
use receptor.Prelude.{
  zero, suc, ℕ, ◌<◌, ◌≡◌, refl, sym, ap, ◌∙◌, ◌↔◌, true, false, not, none, some, [], ◌∷◌, In, arith,
  ltb, Bytes, same_iff, same_refl,
}
use receptor.Prelude.Map.{Map, delete}
use mathlib.Core.Path.{subst}
use receptor.Netceptor.State.{
  Netceptor, ConnInfo, ServiceAdvertisement, ServiceAdvertisementFull, Frame, service_ad, send,
}
use receptor.Netceptor.Update.{flood}
use receptor.Netceptor.Update.Spread.{IsTarget, flood-In}
use receptor.Netceptor.Ads.{
  ads_of, get_service_info, remove_local_service_advertisement, keeps_current, put_ads,
  handle_service_advertisement,
}
use receptor.Netceptor.Ads.Known.{
  get_service_info_lem, get_service_info-handle_service_advertisement,
}

unkept :
    (si : ServiceAdvertisementFull) (s : Netceptor)
    → get_service_info si.ad.node_id si.ad.service s ≡ none
    → keeps_current si s ≡ false
unfolding keeps_current
unkept si s unknown =
    ap (λ o. elim o [ none ↦ false | some ad ↦ not (ltb ad.time si.ad.time) ])
      (sym (get_service_info_lem si.ad.node_id si.ad.service s) ∙ unknown)

put_ads-keeps :
    (node : Bytes) (ads : Map ServiceAdvertisement) (s : Netceptor)
    → ((put_ads node ads s).connections ≡ s.connections)
      × ((put_ads node ads s).node_id ≡ s.node_id)
unfolding put_ads
put_ads-keeps node [] s = (refl, refl)
put_ads-keeps node (ad ∷ ads) s = (refl, refl)

abbrev without : ServiceAdvertisementFull → Netceptor → Netceptor
without si s = put_ads si.ad.node_id (delete si.ad.service (ads_of si.ad.node_id s)) s

withdraw :
    (si : ServiceAdvertisementFull) (received_from : Bytes) (s : Netceptor)
    → si.cancel ≡ true
    → keeps_current si s ≡ false
    → handle_service_advertisement si received_from s
      ≡ (without si s, flood (service_ad si) received_from (without si s))
unfolding handle_service_advertisement
withdraw si received_from s cancel new = ground (arith, cancel, new)

overtaken :
    (si : ServiceAdvertisementFull) (s : Netceptor) (own : ServiceAdvertisement)
    → get_service_info si.ad.node_id si.ad.service s ≡ some own
    → own.time < si.ad.time
    → keeps_current si s ≡ false
unfolding keeps_current
overtaken si s own known later =
    ap (λ o. elim o [ none ↦ false | some ad ↦ not (ltb ad.time si.ad.time) ])
      (sym (get_service_info_lem si.ad.node_id si.ad.service s) ∙ known)
    ∙ ground arith

remove_unknown :
    (service : Bytes) (now : ℕ) (s : Netceptor)
    → get_service_info s.node_id service s ≡ none
    → remove_local_service_advertisement service now s ≡ none
unfolding remove_local_service_advertisement
remove_unknown service now s unknown =
    ground (arith, sym (get_service_info_lem s.node_id service s) ∙ unknown)

handle_once :
    (si : ServiceAdvertisementFull) (received_from : Bytes) (s : Netceptor) (c : Bytes)
    (ci : ConnInfo) (m : Frame) (node service : Bytes)
    → si.cancel ≡ true
    → get_service_info si.ad.node_id si.ad.service s ≡ none
    → let r = handle_service_advertisement si received_from s in
      (In (send c ci m) r.1 ↔ (IsTarget received_from c ci s.connections × (m ≡ service_ad si)))
      × (r.0.connections ≡ s.connections)
      × (get_service_info node service r.0 ≡ get_service_info node service s)
handle_once si received_from s c ci m node service cancel unknown =
    let e = withdraw si received_from s cancel (unkept si s unknown) in
    let (conns, me) =
      put_ads-keeps si.ad.node_id (delete si.ad.service (ads_of si.ad.node_id s)) s in
    (
      subst
          (λ r.
            In (send c ci m) r.1
            ↔ (IsTarget received_from c ci s.connections × (m ≡ service_ad si)))
          (sym e)
          (subst
            (λ cs.
              In (send c ci m) (flood (service_ad si) received_from (without si s))
              ↔ (IsTarget received_from c ci cs × (m ≡ service_ad si)))
            conns (flood-In (without si s) (service_ad si) received_from c ci m)),
      ap (λ r. r.0.connections) e ∙ conns,
      get_service_info-handle_service_advertisement si received_from s node service
          ∙ ground
              (arith, same_iff si.ad.node_id node, same_iff si.ad.service service, cancel, unknown),
    )

-- The node after the same message has come from the same neighbour some times.
abbrev pub after_arrivals : ℕ → ServiceAdvertisementFull → Bytes → Netceptor → Netceptor
after_arrivals zero si received_from s = s
after_arrivals (suc n) si received_from s =
    after_arrivals n si received_from (handle_service_advertisement si received_from s).0

-- A withdrawal of a service that the node does not know of goes on to exactly the neighbours other
-- than the one it came from, and does so again however often it has come before.
pub handle_service_advertisement_storm :
    (n : ℕ) (si : ServiceAdvertisementFull) (received_from : Bytes) (s : Netceptor) (c : Bytes)
    (ci : ConnInfo) (m : Frame)
    → si.cancel ≡ true
    → get_service_info si.ad.node_id si.ad.service s ≡ none
    → In
        (send c ci m)
        (handle_service_advertisement si received_from (after_arrivals n si received_from s)).1
      ↔ (IsTarget received_from c ci s.connections × (m ≡ service_ad si))
handle_service_advertisement_storm zero si received_from s c ci m cancel unknown =
    let (sent, conns, left) =
      handle_once si received_from s c ci m si.ad.node_id si.ad.service cancel unknown in
    sent
handle_service_advertisement_storm (suc n) si received_from s c ci m cancel unknown =
    let (sent, conns, left) =
      handle_once si received_from s c ci m si.ad.node_id si.ad.service cancel unknown in
    let s' = (handle_service_advertisement si received_from s).0 in
    subst
      (λ cs.
        In (send c ci m)
          (handle_service_advertisement si received_from (after_arrivals n si received_from s')).1
        ↔ (IsTarget received_from c ci cs × (m ≡ service_ad si)))
      conns
      (handle_service_advertisement_storm n si received_from s' c ci m cancel (left ∙ unknown))

-- After a withdrawal, from any neighbour, of a service that this node itself offers, later than
-- its own advertisement, withdrawing the service locally panics.
pub remove-handle_service_advertisement :
    (si : ServiceAdvertisementFull) (received_from : Bytes) (s : Netceptor)
    (own : ServiceAdvertisement) (now : ℕ)
    → si.cancel ≡ true
    → si.ad.node_id ≡ s.node_id
    → get_service_info s.node_id si.ad.service s ≡ some own
    → own.time < si.ad.time
    → remove_local_service_advertisement si.ad.service now
        (handle_service_advertisement si received_from s).0
      ≡ none
remove-handle_service_advertisement si received_from s own now cancel mine known later =
    let known' = ap (λ n. get_service_info n si.ad.service s) mine ∙ known in
    let e = withdraw si received_from s cancel (overtaken si s own known' later) in
    let after = (handle_service_advertisement si received_from s).0 in
    let me : after.node_id ≡ s.node_id =
      ap (λ r. r.0.node_id) e
      ∙ (put_ads-keeps si.ad.node_id (delete si.ad.service (ads_of si.ad.node_id s)) s).1 in
    remove_unknown si.ad.service now after (
      ap (λ n. get_service_info n si.ad.service after) me
      ∙ get_service_info-handle_service_advertisement si received_from s s.node_id si.ad.service
      ∙ ground
          (arith, same_iff si.ad.node_id s.node_id, same_refl si.ad.service, cancel, known, mine))
