-- ===== src/Netceptor/Update/Examples.antt =====
-- Routing updates of node b and node c, arriving at node a from node b.
use receptor.Prelude.{ℕ, ◌⊎◌, ◌≡◌, refl, ◌↔◌, true, some, [], ◌∷◌, In, arith, Bytes, same, codes}
use receptor.Prelude.Map.{lookup, lookup_or}
use receptor.Netceptor.State.{Netceptor, ConnInfo, NodeInfo, RoutingUpdate, route, send}
use receptor.Netceptor.Examples.{a, b, c, d, conn_b, node_a, small}
use receptor.Netceptor.Update.{is_stale, handle_routing_update}
use receptor.Netceptor.Update.Accept.{
  IsOther, IsAccepted, NotAfter, IsCorrected, handle_routing_update_monotone,
}
use receptor.Netceptor.Update.Connections.{handle_routing_update-agrees}
use receptor.Netceptor.Update.Spread.{
  IsTarget, handle_routing_update-sent, handle_routing_update_repeat,
}

abbrev known_c : NodeInfo
known_c = record { epoch = 50; sequence = 4 }

abbrev conn_d : ConnInfo
conn_d = record { ident = 8; cost = 2; has_write_chan = true }

-- Node a with a second connection, to d; it knows of node c.
abbrev knowing : Netceptor
knowing = record node_a {
  connections = (b, conn_b) ∷ (d, conn_d) ∷ [];
  known_node_info = (c, known_c) ∷ [];
}

-- Node c has lost its connection to a.
abbrev news : RoutingUpdate
news = record {
  node_id = c;
  update_id = codes "u1";
  update_epoch = 50;
  update_sequence = 5;
  connections = (b, 1) ∷ [];
  forwarding_node = b;
  suspected_duplicate = 0;
}

abbrev old_news : RoutingUpdate
old_news = record news { update_sequence = 3 }

news-IsOther : IsOther news knowing
unfolding lookup
news-IsOther = record {
  named = λ e. ground arith;
  other = λ e. ground arith;
  unseen = refl;
  unsuspected = refl;
}

known : lookup news.node_id knowing.known_node_info ≡ some known_c
unfolding lookup same
known = refl

news-IsAccepted : IsAccepted news knowing
unfolding is_stale lookup same
news-IsAccepted = record { other = news-IsOther; news = refl; up = refl }

abbrev now : ℕ
now = 9

abbrev fresh : Bytes
fresh = codes "fresh"

abbrev after : Netceptor
after = (handle_routing_update small news b now fresh knowing).0

handle_routing_update_monotone_example :
    (ni : NodeInfo) × (lookup c after.known_node_info ≡ some ni)
    × (NotAfter known_c ni ⊎ IsCorrected news c known_c ni)
handle_routing_update_monotone_example =
    handle_routing_update_monotone small news b now fresh knowing c known_c known

handle_routing_update-sent_example :
    In
      (send d conn_d (route (record news { forwarding_node = a })))
      (handle_routing_update small news b now fresh knowing).1
    ↔ (IsTarget b d conn_d knowing.connections
        × (route (record news { forwarding_node = a })
            ≡ route (record news { forwarding_node = a })))
handle_routing_update-sent_example =
    handle_routing_update-sent small news b now fresh knowing d conn_d
      (route (record news { forwarding_node = a })) news-IsAccepted

handle_routing_update_repeat_example :
    handle_routing_update small old_news d now fresh after ≡ (after, [])
handle_routing_update_repeat_example =
    handle_routing_update_repeat small news old_news b d now now fresh fresh knowing
      (λ e. ground arith) (λ e. ground arith) refl (λ e. ground arith)

handle_routing_update-agrees_example :
    lookup b (lookup_or [] c after.known_connection_costs) ≡ some 1
unfolding lookup same
handle_routing_update-agrees_example =
    handle_routing_update-agrees small news b now fresh knowing b news-IsAccepted
      (λ e. ground arith)
