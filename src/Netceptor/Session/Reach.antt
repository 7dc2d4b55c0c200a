-- ===== src/Netceptor/Session/Reach.antt =====
-- What every session that the protocol loop reaches keeps to, whatever its peer sends and whatever
-- the other sessions do to the node between its turns.
use receptor.Prelude.{
  ℕ, ◌≡◌, refl, sym, ap, ◌∙◌, ◌≢◌, inl, inr, true, false, some, [], ◌∷◌, arith, ◌==◌, Bytes, same,
  same_iff, Bool-cases, Option-cases,
}
use mathlib.Core.Path.{subst}
use receptor.Prelude.Map.{lookup_or}
use receptor.Netceptor.State.{Netceptor, External, RoutingUpdate}
use receptor.Netceptor.Connection.{BackendInfo, is_allowed, cost_to, remove_connection}
use receptor.Netceptor.Session.{
  Session, Json, Timing, never, at_init, at_flood, at_table, Event, received, context_done, Next,
  continues, returns, panics, Turn, establish, meet, take_message, take_first, turn, start_session,
}

-- The sessions that the loop of one connection reaches on a node named `me`. Each turn sees the
-- node in any state that has that name.
pub data Reach (x : External) (json : Json) (bi : BackendInfo) (me : Bytes) : Session → Type 0 where
  first : (ident : ℕ) (k : Session) → start_session bi ident ≡ some k → Reach x json bi me k
  next :
      (now fuel : ℕ) (fresh : Bytes) (e : Event) (s : Netceptor) (k k' : Session) (t : Turn)
      → Reach x json bi me k
      → s.node_id ≡ me
      → turn x json bi now fuel fresh e k s ≡ some t
      → t.next ≡ continues k'
      → Reach x json bi me k'

-- A session keeps to its backend: established with a peer other than the node itself, which is
-- allowed, at the cost set for it; or not established and without a peer.
pub record IsProper (bi : BackendInfo) (me : Bytes) (k : Session) : Type 0 where
  pub peer :
      k.established ≡ true → (k.remote_node_id ≢ me) × (is_allowed bi k.remote_node_id ≡ true)
  pub cost :
      k.established ≡ true → k.connection_cost ≡ cost_to bi k.remote_node_id bi.connection_cost
  pub no_peer :
      k.established ≡ false → (k.remote_node_id ≡ []) × (k.connection_cost ≡ bi.connection_cost)

continues_injective : (k k' : Session) → continues k ≡ continues k' → k ≡ k'
continues_injective k k' h = ground arith

-- That a turn, if it continues, does so with a session that has the property.
abbrev Continues : (Session → Type 0) → Next → Type 0
Continues P (continues k) = P k
Continues P (returns e) = Unit
Continues P panics = Unit

-- The same session but for `remote_established`.
abbrev IsAs : Session → Session → Type 0
IsAs k k' =
    (k'.established ≡ k.established)
    × (k'.remote_node_id ≡ k.remote_node_id)
    × (k'.connection_cost ≡ k.connection_cost)

-- A session that has just met the peer that it is established with.
abbrev HasMet : BackendInfo → Bytes → ℕ → Session → Type 0
HasMet bi me cost k =
    (k.established ≡ true)
    × (k.remote_node_id ≢ me)
    × (is_allowed bi k.remote_node_id ≡ true)
    × (k.connection_cost ≡ cost_to bi k.remote_node_id cost)

establish-Continues :
    (x : External) (tm : Timing) (k : Session) (s : Netceptor) (P : Session → Type 0)
    → P (record k { established = true })
    → Continues P (establish x tm k s).next
unfolding establish
establish-Continues x tm k s P p =
    elim tm.interrupt as (λ i. Continues P (establish x (record tm { interrupt = i }) k s).next) [
      | never ↦ p
      | at_init ↦ tt
      | at_flood ↦ tt
      | at_table ↦ tt
    ]

meet-HasMet :
    (x : External) (bi : BackendInfo) (tm : Timing) (ri : RoutingUpdate) (k : Session)
    (s : Netceptor)
    → Continues (HasMet bi s.node_id k.connection_cost) (meet x bi tm ri k s).next
unfolding meet
meet-HasMet x bi tm ri k s =
    let n = ri.forwarding_node in
    let priced : Session = record k {
      remote_node_id = n;
      connection_cost = cost_to bi n k.connection_cost;
      ci = record k.ci { cost = lookup_or k.ci.cost n bi.node_cost };
    } in
    elim (Bool-cases (same n s.node_id)) [
      | inl own ↦ ground (arith, own)
      | inr other ↦ elim (Bool-cases (is_allowed bi n)) [
        | inr refused ↦ ground (arith, other, refused)
        | inl allowed ↦
            let met : HasMet bi s.node_id k.connection_cost (record priced { established = true }) =
              (refl, λ h. ground (arith, same_iff n s.node_id), allowed, refl) in
            ground (
              arith,
              other,
              allowed,
              establish-Continues x tm priced s (HasMet bi s.node_id k.connection_cost) met,
              establish-Continues x tm priced
                  (tm.before_listing (remove_connection n (tm.before_removal s)))
                  (HasMet bi s.node_id k.connection_cost) met,
            )
      ]
    ]

take_message-IsAs :
    (x : External) (json : Json) (tm : Timing) (now fuel : ℕ) (fresh : Bytes) (kind : ℕ)
    (bytes : Bytes) (k : Session) (s : Netceptor) (t : Turn)
    → take_message x json tm now fuel fresh kind bytes k s ≡ some t
    → Continues (IsAs k) t.next
unfolding take_message
take_message-IsAs x json tm now fuel fresh kind bytes k s t e = ground (arith)

Continues-mono :
    (P Q : Session → Type 0)
    → ((k : Session) → P k → Q k)
    → (n : Next) → Continues P n
    → Continues Q n
Continues-mono P Q f (continues k) p = f k p
Continues-mono P Q f (returns e) p = tt
Continues-mono P Q f panics p = tt

take_first-Continues :
    (x : External) (json : Json) (bi : BackendInfo) (tm : Timing) (kind : ℕ) (bytes : Bytes)
    (k : Session) (s : Netceptor) (P : Session → Type 0)
    → P k
    → ((k' : Session) → HasMet bi s.node_id k.connection_cost k' → P k')
    → Continues P (take_first x json bi tm kind bytes k s).next
unfolding take_first
take_first-Continues x json bi tm kind bytes k s P here met = elim (Bool-cases (kind == 1)) [
  | inr e ↦ ground (arith, e, here)
  | inl e ↦ elim (Option-cases (json.routing_update bytes)) [
    | inl o ↦ ground (arith, e, o, here)
    | inr (ri, o) ↦ ground (
      arith,
      e,
      o,
      Continues-mono (HasMet bi s.node_id k.connection_cost) P met (meet x bi tm ri k s).next
          (meet-HasMet x bi tm ri k s),
    )
  ]
]

IsProper-IsAs :
    (bi : BackendInfo) (me : Bytes) (k k' : Session)
    → IsProper bi me k
    → IsAs k k'
    → IsProper bi me k'
IsProper-IsAs bi me k k' p (e, r, c) = record {
  peer = λ h. let (a, b) = p.peer (sym e ∙ h) in (λ i. a (sym r ∙ i), ap (is_allowed bi) r ∙ b);
  cost = λ h. c ∙ p.cost (sym e ∙ h) ∙ ap (λ n. cost_to bi n bi.connection_cost) (sym r);
  no_peer = λ h. let (a, b) = p.no_peer (sym e ∙ h) in (r ∙ a, c ∙ b);
}

IsProper-HasMet :
    (bi : BackendInfo) (me : Bytes) (k : Session)
    → HasMet bi me bi.connection_cost k
    → IsProper bi me k
IsProper-HasMet bi me k (e, other, allowed, c) = record {
  peer = λ h. (other, allowed);
  cost = λ h. c;
  no_peer = λ h. absurd (ground arith);
}

turn-IsProper :
    (x : External) (json : Json) (bi : BackendInfo) (now fuel : ℕ) (fresh : Bytes) (e : Event)
    (k : Session) (s : Netceptor) (t : Turn)
    → IsProper bi s.node_id k
    → turn x json bi now fuel fresh e k s ≡ some t
    → Continues (IsProper bi s.node_id) t.next
unfolding turn
turn-IsProper x json bi now fuel fresh (context_done tm) k s t p eq = ground arith
turn-IsProper x json bi now fuel fresh (received [] i) k s t p eq = ground arith
turn-IsProper x json bi now fuel fresh (received (kind ∷ bytes) i) k s t p eq =
    elim (Bool-cases k.established) [
      | inl e ↦
          Continues-mono (IsAs k) (IsProper bi s.node_id) (λ k'. IsProper-IsAs bi s.node_id k k' p)
            t.next
            (take_message-IsAs x json i now fuel fresh kind bytes k s t (ground (arith, e, eq)))
      | inr e ↦
          let first : Continues (IsProper bi s.node_id)
              (take_first x json bi i kind bytes k s).next =
            take_first-Continues x json bi i kind bytes k s (IsProper bi s.node_id) p
              (λ k' (est, other, allowed, c).
                IsProper-HasMet bi s.node_id k'
                  (est, other, allowed, c ∙ ap (cost_to bi k'.remote_node_id) (p.no_peer e).1)) in
          ground (arith, e, eq, first)
    ]

pub turn-IsProper_always :
    (x : External) (json : Json) (bi : BackendInfo) (me : Bytes) (k : Session)
    → Reach x json bi me k
    → IsProper bi me k
unfolding start_session
turn-IsProper_always x json bi me k (first ident k0 e) = record {
  peer = λ h. absurd (ground arith);
  cost = λ h. absurd (ground arith);
  no_peer = λ h. (ground arith, ground arith);
}
turn-IsProper_always x json bi me k' (next now fuel fresh e s k0 k1 t r here eq go) =
    let before =
      subst (λ n. IsProper bi n k0) (sym here) (turn-IsProper_always x json bi me k0 r) in
    let after = turn-IsProper x json bi now fuel fresh e k0 s t before eq in
    subst (λ n. IsProper bi n k') here (subst (Continues (IsProper bi s.node_id)) go after)

-- Whatever the peer sends, and whatever the other sessions do in between, the protocol loop of a
-- connection that is established is so with a peer that is not the node itself and that is allowed,
-- at the cost set for that peer.
pub Reach-established :
    (x : External) (json : Json) (bi : BackendInfo) (me : Bytes) (k : Session)
    → Reach x json bi me k
    → k.established ≡ true
    → (k.remote_node_id ≢ me)
      × (is_allowed bi k.remote_node_id ≡ true)
      × (k.connection_cost ≡ cost_to bi k.remote_node_id bi.connection_cost)
Reach-established x json bi me k r e =
    let p = turn-IsProper_always x json bi me k r in
    let (other, allowed) = p.peer e in (other, allowed, p.cost e)
