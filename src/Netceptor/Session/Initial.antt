-- ===== src/Netceptor/Session/Initial.antt =====
-- The first messages of a connection (netceptor.go, `sendInitialConnectMessage`): a routing update
-- every second, until the session is established or eleven of them have had no answer.
use receptor.Prelude.{
  ℕ, ◌+◌, ◌≤◌, ◌≡◌, Bool, true, false, List, [], ◌∷◌, arith, ltb, if◌then◌else◌, length, Bytes,
  Bool-cases, ◌⊎◌, inl, inr,
}
use receptor.Netceptor.State.{Netceptor, ConnInfo, Effect, send, route}
use receptor.Netceptor.Update.{make_routing_update}

-- What each wait of the loop ends with: its second is over, or it is stopped.
pub data Wait : Type 0 where
  over stopped : Wait

-- What the loop leaves: the node, what it sent, and whether it gave up and ended the context.
pub record Initial : Type 0 where
  pub node : Netceptor
  pub sent : List Effect
  pub gave_up : Bool

-- `sendInitialConnectMessage`, with an update id and a wait for each turn, and the count so far.
pub send_initial_connect_message : Bytes → ConnInfo → List (Bytes × Wait) → ℕ → Netceptor → Initial
send_initial_connect_message conn ci [] count s = record { node = s; sent = []; gave_up = false }
send_initial_connect_message conn ci ((fresh, wait) ∷ waits) count s =
    let (s', ri) = make_routing_update fresh 0 s in
    let message = send conn ci (route ri) in
    let rest = send_initial_connect_message conn ci waits (count + 1) s' in
    let last : Initial = record { node = s'; sent = message ∷ []; gave_up = false } in
    if ltb 10 (count + 1)
    then record last { gave_up = true }
    else elim wait [ stopped ↦ last | over ↦ record rest { sent = message ∷ rest.sent } ]

sent_bound :
    (conn : Bytes) (ci : ConnInfo) (waits : List (Bytes × Wait)) (count : ℕ) (s : Netceptor)
    → count ≤ 10
    → let r = send_initial_connect_message conn ci waits count s in
      (length r.sent + count ≤ 11) × (r.gave_up ≡ true → length r.sent + count ≡ 11)
unfolding send_initial_connect_message
sent_bound conn ci [] count s h = (ground arith, λ g. ground arith)
sent_bound conn ci ((fresh, over) ∷ waits) count s h = elim (Bool-cases (ltb 10 (count + 1))) [
  | inl e ↦ (ground (arith, e), λ g. ground (arith, e))
  | inr e ↦
      let (most, all) =
        sent_bound conn ci waits (count + 1) (make_routing_update fresh 0 s).0 (ground arith) in
      (ground (arith, e, most), λ g. ground (arith, e, all))
]
sent_bound conn ci ((fresh, stopped) ∷ waits) count s h = (ground arith, λ g. ground arith)

-- A connection is sent at most eleven first routing updates, and exactly eleven if it is given up.
pub send_initial_connect_message-bound :
    (conn : Bytes) (ci : ConnInfo) (waits : List (Bytes × Wait)) (s : Netceptor)
    → let r = send_initial_connect_message conn ci waits 0 s in
      (length r.sent ≤ 11) × ((r.gave_up ≡ false) ⊎ (length r.sent ≡ 11))
send_initial_connect_message-bound conn ci waits s =
    let (most, all) = sent_bound conn ci waits 0 s (omega arith) in
    (
      omega (arith, most),
      elim (Bool-cases (send_initial_connect_message conn ci waits 0 s).gave_up) [
        | inl g ↦ inr (omega (arith, all g))
        | inr g ↦ inl g
      ],
    )
