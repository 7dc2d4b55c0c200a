-- ===== src/Netceptor/Update/Accept.antt =====
-- What a routing update changes in the node.
use receptor.Prelude.{
  ℕ, ◌≤◌, ◌<◌, ◌≡◌, refl, ap, ◌∙◌, ◌≢◌, ◌⊎◌, inl, inr, Bool, true, false, not, Option, none, some,
  [], arith, ltb, ◌==◌, ==_iff, ◌∷◌, Bytes, same, same_ne, same→eq, Bool-cases, Option-cases,
}
use receptor.Prelude.Map.{lookup, insert, has_key, lookup-insert}
use receptor.Netceptor.State.{Netceptor, External, NodeInfo, RoutingUpdate}
use receptor.Netceptor.Wire.{add_name_hash}
use receptor.Netceptor.Update.{
  make_routing_update, send_routing_update, own_update, note_duplicate, set_connections,
  accept_update, is_stale, take_update, handle_routing_update,
}

-- An update of another node, new to this node, that suspects no duplicate.
pub record IsOther (ri : RoutingUpdate) (s : Netceptor) : Type 0 where
  pub named : ri.node_id ≢ []
  pub other : ri.node_id ≢ s.node_id
  pub unseen : has_key ri.update_id s.seen_updates ≡ false
  pub unsuspected : ri.suspected_duplicate ≡ 0

abbrev pub seeing : RoutingUpdate → ℕ → Netceptor → Netceptor
seeing ri now s = record s { seen_updates = insert ri.update_id now s.seen_updates }

pub handle-take :
    (x : External) (ri : RoutingUpdate) (recv_conn : Bytes) (now : ℕ) (fresh : Bytes)
    (s : Netceptor)
    → IsOther ri s
    → handle_routing_update x ri recv_conn now fresh s
      ≡ take_update x ri recv_conn (seeing ri now s)
unfolding handle_routing_update
handle-take x ri recv_conn now fresh s o =
    ground (arith, same_ne ri.node_id [] o.named, same_ne ri.node_id s.node_id o.other)

-- Whether an update says something new of its node: the node is not known, or by an older update.
abbrev pub is_news : RoutingUpdate → Option NodeInfo → Bool
is_news ri none = true
is_news ri (some ni) = not (is_stale ri ni)

-- An update that is accepted: of another node, with news of it, by a node that is not shut down.
pub record IsAccepted (ri : RoutingUpdate) (s : Netceptor) : Type 0 where
  pub other : IsOther ri s
  pub news : is_news ri (lookup ri.node_id s.known_node_info) ≡ true
  pub up : s.shut_down ≡ false

take_update-accept :
    (x : External) (ri : RoutingUpdate) (recv_conn : Bytes) (s : Netceptor)
    → is_news ri (lookup ri.node_id s.known_node_info) ≡ true
    → s.shut_down ≡ false
    → take_update x ri recv_conn s
      ≡ accept_update x (has_key ri.node_id s.known_node_info) ri recv_conn s
unfolding take_update
take_update-accept x ri recv_conn s news up =
    elim (Option-cases (lookup ri.node_id s.known_node_info)) [
      | inl o ↦ ground (arith, o, up)
      | inr (ni, o) ↦ ground (arith, o, news)
    ]

pub handle-accept :
    (x : External) (ri : RoutingUpdate) (recv_conn : Bytes) (now : ℕ) (fresh : Bytes)
    (s : Netceptor)
    → IsAccepted ri s
    → handle_routing_update x ri recv_conn now fresh s
      ≡ accept_update x (has_key ri.node_id s.known_node_info) ri recv_conn (seeing ri now s)
handle-accept x ri recv_conn now fresh s a =
    handle-take x ri recv_conn now fresh s a.other
    ∙ take_update-accept x ri recv_conn (seeing ri now s) a.news a.up

-- At most as new: an earlier epoch, or no later sequence number in the same epoch.
abbrev pub NotAfter : NodeInfo → NodeInfo → Type 0
NotAfter a b = (a.epoch < b.epoch) ⊎ ((a.epoch ≡ b.epoch) × (a.sequence ≤ b.sequence))

abbrev pub info_of : RoutingUpdate → NodeInfo
info_of ri = record { epoch = ri.update_epoch; sequence = ri.update_sequence }

not_stale : (ri : RoutingUpdate) (ni : NodeInfo) → is_stale ri ni ≡ false → NotAfter ni (info_of ri)
unfolding is_stale
not_stale ri ni h = elim (Bool-cases (ltb ni.epoch ri.update_epoch)) [
  | inl e ↦ inl (ground arith)
  | inr e ↦ inr (ground arith, ground arith)
]

known_node_info-accept_update :
    (x : External) (known : Bool) (ri : RoutingUpdate) (recv_conn : Bytes) (s : Netceptor)
    → (accept_update x known ri recv_conn s).0.known_node_info
      ≡ insert ri.node_id (info_of ri) s.known_node_info
unfolding accept_update set_connections add_name_hash
known_node_info-accept_update x known ri recv_conn s = ground arith

take_update_monotone :
    (x : External) (ri : RoutingUpdate) (recv_conn : Bytes) (s : Netceptor) (n : Bytes)
    (ni : NodeInfo)
    → lookup n s.known_node_info ≡ some ni
    → (ni' : NodeInfo) × (lookup n (take_update x ri recv_conn s).0.known_node_info ≡ some ni')
      × NotAfter ni ni'
unfolding take_update
take_update_monotone x ri recv_conn s n ni known = elim (Bool-cases (same ri.node_id n)) [
  | inr e ↦ elim (Option-cases (lookup ri.node_id s.known_node_info)) [
    | inl l ↦ (
      ni,
      ground (
        arith,
        l,
        known_node_info-accept_update x false ri recv_conn s,
        lookup-insert ri.node_id n (info_of ri) s.known_node_info,
      ),
      inr (refl, omega arith),
    )
    | inr (old, l) ↦ (
      ni,
      ground (
        arith,
        l,
        known_node_info-accept_update x true ri recv_conn s,
        lookup-insert ri.node_id n (info_of ri) s.known_node_info,
      ),
      inr (refl, omega arith),
    )
  ]
  | inl e ↦
      let l : lookup ri.node_id s.known_node_info ≡ some ni =
        ap (λ k. lookup k s.known_node_info) (same→eq ri.node_id n e) ∙ known in
      elim (Bool-cases (is_stale ri ni)) [
        | inl old ↦ (ni, ground (arith, l, old), inr (refl, omega arith))
        | inr new ↦ (
          info_of ri,
          ground (
            arith,
            l,
            new,
            known_node_info-accept_update x true ri recv_conn s,
            lookup-insert ri.node_id n (info_of ri) s.known_node_info,
          ),
          not_stale ri ni new,
        )
      ]
]

-- The correction of what is known of a node: the epoch that is known is the one that an update of
-- the node suspects to be a duplicate's, and what the update says takes its place.
abbrev pub IsCorrected : RoutingUpdate → Bytes → NodeInfo → NodeInfo → Type 0
IsCorrected ri n ni ni' =
    (ri.suspected_duplicate ≢ 0)
    × (ri.node_id ≡ n)
    × (ni.epoch ≡ ri.suspected_duplicate)
    × (ni' ≡ info_of ri)

note_duplicate_monotone :
    (ri : RoutingUpdate) (s : Netceptor) (n : Bytes) (ni : NodeInfo)
    → ri.suspected_duplicate ≢ 0
    → lookup n s.known_node_info ≡ some ni
    → (ni' : NodeInfo) × (lookup n (note_duplicate ri s).known_node_info ≡ some ni')
      × (NotAfter ni ni' ⊎ IsCorrected ri n ni ni')
unfolding note_duplicate
note_duplicate_monotone ri s n ni sus known = elim (Bool-cases (same ri.node_id n)) [
  | inr e ↦ elim (Option-cases (lookup ri.node_id s.known_node_info)) [
    | inl l ↦ (ni, ground (arith, l, known), inl (inr (refl, omega arith)))
    | inr (old, l) ↦ (
      ni,
      ground (arith, l, e, known, lookup-insert ri.node_id n (info_of ri) s.known_node_info),
      inl (inr (refl, omega arith)),
    )
  ]
  | inl e ↦
      let l : lookup ri.node_id s.known_node_info ≡ some ni =
        ap (λ k. lookup k s.known_node_info) (same→eq ri.node_id n e) ∙ known in
      elim (Bool-cases (ni.epoch == ri.suspected_duplicate)) [
        | inr d ↦ (ni, ground (arith, l, d, known), inl (inr (refl, omega arith)))
        | inl d ↦ (
          info_of ri,
          ground (arith, l, d, e, lookup-insert ri.node_id n (info_of ri) s.known_node_info),
          inr (sus, same→eq ri.node_id n e, (==_iff ni.epoch ri.suspected_duplicate).0 d, refl),
        )
      ]
]

own_update-known_node_info :
    (ri : RoutingUpdate) (fresh : Bytes) (s : Netceptor)
    → (own_update ri fresh s).0.known_node_info ≡ s.known_node_info
unfolding own_update send_routing_update make_routing_update
own_update-known_node_info ri fresh s =
    elim s.connections
      as (λ conns.
        (own_update ri fresh (record s { connections = conns })).0.known_node_info
        ≡ s.known_node_info) [ [] ↦ ground arith | c ∷ conns ↦ ground arith ]

-- What each kind of update comes to.
handled-cases :
    (x : External) (ri : RoutingUpdate) (recv_conn : Bytes) (now : ℕ) (fresh : Bytes)
    (s : Netceptor)
    → ((handle_routing_update x ri recv_conn now fresh s).0.known_node_info ≡ s.known_node_info)
      ⊎ ((handle_routing_update x ri recv_conn now fresh s).0
          ≡ (take_update x ri recv_conn (seeing ri now s)).0)
      ⊎ ((ri.suspected_duplicate ≢ 0)
          × ((handle_routing_update x ri recv_conn now fresh s).0
              ≡ note_duplicate ri (seeing ri now s)))
unfolding handle_routing_update
handled-cases x ri recv_conn now fresh s = elim (Bool-cases (same ri.node_id [])) [
  | inl e ↦ inl (ground (arith, e))
  | inr e ↦ elim (Bool-cases (same ri.node_id s.node_id)) [
    | inl own ↦ inl (ground (arith, e, own, own_update-known_node_info ri fresh s))
    | inr other ↦ elim (Bool-cases (has_key ri.update_id s.seen_updates)) [
      | inl seen ↦ inl (ground (arith, e, other, seen))
      | inr new ↦ elim (Bool-cases (ri.suspected_duplicate == 0)) [
        | inl sus ↦ inr (inl (ground (arith, e, other, new, sus)))
        | inr sus ↦ inr (
            inr (
              λ z. ground (arith, sus, ==_iff ri.suspected_duplicate 0),
              ground (arith, e, other, new, sus),
            ))
      ]
    ]
  ]
]

-- What a node knows of any node is not replaced by something older, in epoch or, within an epoch, in
-- sequence, whatever routing update comes, but for one case: an update that suspects a duplicate
-- corrects what is known of its node, when the epoch that is known is the one suspected.
pub handle_routing_update_monotone :
    (x : External) (ri : RoutingUpdate) (recv_conn : Bytes) (now : ℕ) (fresh : Bytes)
    (s : Netceptor) (n : Bytes) (ni : NodeInfo)
    → lookup n s.known_node_info ≡ some ni
    → (ni' : NodeInfo) × (lookup n
          (handle_routing_update x ri recv_conn now fresh s).0.known_node_info
        ≡ some ni')
      × (NotAfter ni ni' ⊎ IsCorrected ri n ni ni')
handle_routing_update_monotone x ri recv_conn now fresh s n ni known =
    elim (handled-cases x ri recv_conn now fresh s) [
      | inl e ↦ (ni, ap (lookup n) e ∙ known, inl (inr (refl, omega arith)))
      | inr (inl e) ↦
          let (ni', l, newer) = take_update_monotone x ri recv_conn (seeing ri now s) n ni known in
          (ni', ap (λ v. lookup n v.known_node_info) e ∙ l, inl newer)
      | inr (inr (sus, e)) ↦
          let (ni', l, newer) = note_duplicate_monotone ri (seeing ri now s) n ni sus known in
          (ni', ap (λ v. lookup n v.known_node_info) e ∙ l, newer)
    ]
