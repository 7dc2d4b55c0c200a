-- ===== src/Netceptor/Listener/Close.antt =====
-- What closing a listener undoes.
use receptor.Prelude.{ℕ, ◌≡◌, ◌∙◌, false, none, some, List, [], arith, Bytes, same_iff, same_refl}
use receptor.Prelude.Map.{lookup, delete, lookup-delete}
use receptor.Netceptor.State.{Netceptor, External, PacketConn, Effect}
use receptor.Netceptor.Listener.{listening, listen_packet, close}
use receptor.Netceptor.Listener.Open.{listen_packet-IsOpened, lookup-opened}

-- Opening a listener and closing it leaves the listeners of the node as they were, and nothing is
-- sent.
pub close-listen_packet :
    (x : External) (service : Bytes) (draws : List Bytes) (s s' : Netceptor) (pc : PacketConn)
    (es : List Effect) (now : ℕ) (n : Bytes)
    → listen_packet x service draws s ≡ listening s' pc es
    → (s'' : Netceptor) × (close pc now s' ≡ some (s'', []))
      × (lookup n s''.listener_registry ≡ lookup n s.listener_registry)
unfolding close
close-listen_packet x service draws s s' pc es now n eq =
    let o = listen_packet-IsOpened x service draws s s' pc es eq in
    (
      record s' { listener_registry = delete pc.local_service s'.listener_registry },
      ground (arith, o.quiet),
      lookup-delete pc.local_service n s'.listener_registry
          ∙ ground (arith, same_iff pc.local_service n, o.free, lookup-opened service s s' pc n o),
    )

-- When a listener is open, closing another one of the same name, which is not advertised,
-- takes the open one out of the registry.
pub close-evicts :
    (x : External) (service : Bytes) (draws : List Bytes) (s s' : Netceptor) (pc old : PacketConn)
    (es : List Effect) (now : ℕ)
    → listen_packet x service draws s ≡ listening s' pc es
    → old.local_service ≡ pc.local_service
    → old.advertise ≡ false
    → (lookup pc.local_service s'.listener_registry ≡ some pc)
      × (s'' : Netceptor) × (close old now s' ≡ some (s'', []))
      × (lookup pc.local_service s''.listener_registry ≡ none)
unfolding close
close-evicts x service draws s s' pc old es now eq name quiet =
    let o = listen_packet-IsOpened x service draws s s' pc es eq in
    (
      lookup-opened service s s' pc pc.local_service o ∙ ground (arith, same_refl pc.local_service),
      record s' { listener_registry = delete old.local_service s'.listener_registry },
      ground (arith, quiet),
      lookup-delete old.local_service pc.local_service s'.listener_registry
          ∙ ground (arith, same_iff old.local_service pc.local_service, name),
    )
