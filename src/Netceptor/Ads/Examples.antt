-- ===== src/Netceptor/Ads/Examples.antt =====
-- A service of node a, and withdrawals of it.
use receptor.Prelude.{◌≡◌, refl, true, ◌&&◌, none, some, [], ◌∷◌, if◌then◌else◌, Bytes, same, codes}
use receptor.Prelude.Map.{lookup}
use receptor.Netceptor.State.{Netceptor, ServiceAdvertisementFull}
use receptor.Netceptor.Examples.{a, b, node_a}
use receptor.Netceptor.Ads.{get_service_info, local_ad, handle_service_advertisement}
use receptor.Netceptor.Ads.Known.{known_after, get_service_info-handle_service_advertisement}

abbrev shop : Bytes
shop = codes "shop"

-- Node a, which offers a service since time 5.
abbrev offering : Netceptor
offering = record node_a {
  service_ads_received = (a, (shop, local_ad shop 1 [] 5 node_a) ∷ []) ∷ [];
}

-- The withdrawal of it that comes from elsewhere.
abbrev forged : ServiceAdvertisementFull
forged = record { ad = local_ad shop 1 [] 6 node_a; cancel = true }

get_service_info-handle_service_advertisement_example :
    get_service_info a shop (handle_service_advertisement forged b offering).0 ≡ (
      if same a a && same shop shop
      then known_after forged (get_service_info a shop offering)
      else get_service_info a shop offering)
get_service_info-handle_service_advertisement_example =
    get_service_info-handle_service_advertisement forged b offering a shop

unknown : get_service_info a shop node_a ≡ none
unfolding get_service_info lookup
unknown = refl

offered : get_service_info a shop offering ≡ some (local_ad shop 1 [] 5 node_a)
unfolding get_service_info lookup same
offered = refl
