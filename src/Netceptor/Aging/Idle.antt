-- ===== src/Netceptor/Aging/Idle.antt =====
-- Which connections a turn of the aging loop ends.
use receptor.Prelude.{
  ℕ, ◌-◌, ◌≡◌, refl, ap, ◌∙◌, inl, inr, Bool, true, false, ◌||◌, ◌&&◌, List, [], ◌∷◌, In, arith,
  ◌==◌, ==_iff, ltb, Bytes, Bool-cases,
}
use receptor.Prelude.Map.{Map}
use receptor.Netceptor.State.{Netceptor, ConnInfo}
use receptor.Netceptor.Aging.{cancel, is_idle, timed_out_in, cancel_all, monitor_connection_aging}

abbrev has : ℕ → List ℕ → Bool
has i [] = false
has i (j ∷ is) = (j == i) || has i is

abbrev is_listed : ℕ → Map ConnInfo → Bool
is_listed i [] = false
is_listed i ((n, ci) ∷ conns) = (ci.ident == i) || is_listed i conns

cancelled-cancel_all :
    (is : List ℕ) (s : Netceptor) (i : ℕ)
    → (cancel_all is s).cancelled i ≡ (s.cancelled i || has i is)
unfolding cancel_all
cancelled-cancel_all [] s i = ground arith
cancelled-cancel_all (j ∷ is) s i = ground (arith, cancelled-cancel_all is (cancel j s) i)

has-timed_out_in :
    (conns : Map ConnInfo) (now : ℕ) (s : Netceptor) (i : ℕ)
    → has i (timed_out_in conns now s) ≡ (is_listed i conns && is_idle i now s)
unfolding timed_out_in
has-timed_out_in [] now s i = refl
has-timed_out_in ((m, cj) ∷ conns) now s i = elim (Bool-cases (cj.ident == i)) [
  | inl e ↦
      let same_conn : cj.ident ≡ i = (==_iff cj.ident i).0 e in
      ground (arith, has-timed_out_in conns now s i, ap s.last_received same_conn)
  | inr e ↦ ground (arith, e, has-timed_out_in conns now s i)
]

In-is_listed :
    (conns : Map ConnInfo) (n : Bytes) (ci : ConnInfo)
    → In (n, ci) conns
    → is_listed ci.ident conns ≡ true
In-is_listed [] n ci i = absurd i
In-is_listed ((m, cj) ∷ conns) n ci (inl e) =
    let same_conn : cj.ident ≡ ci.ident = ap (λ p. p.1.ident) e in ground (arith, same_conn)
In-is_listed ((m, cj) ∷ conns) n ci (inr i) = ground (arith, In-is_listed conns n ci i)

-- After a turn of the aging loop the context of a listed connection has ended exactly if it had
-- before, or if nothing has been received on it for longer than the node allows.
pub monitor_connection_aging-cancelled :
    (now : ℕ) (s : Netceptor) (n : Bytes) (ci : ConnInfo)
    → In (n, ci) s.connections
    → (monitor_connection_aging now s).cancelled ci.ident
      ≡ (s.cancelled ci.ident || ltb s.max_connection_idle_time (now - s.last_received ci.ident))
unfolding monitor_connection_aging
monitor_connection_aging-cancelled now s n ci i =
    cancelled-cancel_all (timed_out_in s.connections now s) s ci.ident
    ∙ ap (λ b. s.cancelled ci.ident || b)
        (has-timed_out_in s.connections now s ci.ident
          ∙ ap (λ b. b && is_idle ci.ident now s) (In-is_listed s.connections n ci i))
