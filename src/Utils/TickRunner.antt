-- ===== src/Utils/TickRunner.antt =====
-- pkg/tickrunner/tickrunner.go: a task that runs at every interval, and sooner when asked to.
use receptor.Prelude.{
  ℕ, ◌+◌, ◌≡◌, refl, ◌⊎◌, inl, inr, Bool, true, false, List, [], ◌∷◌, In, arith, ◌==◌, ltb,
  if◌then◌else◌, Bool-cases,
}

-- What the loop of `Run` wakes up for, each at its time: the timer, or a request with a delay.
pub data Event : Type 0 where
  timer : ℕ → Event
  request : ℕ → ℕ → Event

-- The time at which the loop's timer is set to run the task next.
pub record Runner : Type 0 where
  pub next_run_time : ℕ
  pub interval : ℕ
  pub default_req_delay : ℕ

pub start_runner : ℕ → ℕ → ℕ → Runner
start_runner now interval default_req_delay = record {
  next_run_time = now + interval;
  interval = interval;
  default_req_delay = default_req_delay;
}

-- When a request asks the task to run.
pub asked_for : ℕ → ℕ → Runner → ℕ
asked_for now req r = if req == 0 then now + r.default_req_delay else now + req

-- A turn of the loop: the runner, and whether the task is run.
pub run_turn : Event → Runner → Runner × Bool
unfolding asked_for
run_turn (timer now) r = (record r { next_run_time = now + r.interval }, true)
run_turn (request now req) r =
    let proposed_time = asked_for now req r in
    (
      if ltb proposed_time r.next_run_time then record r { next_run_time = proposed_time } else r,
      false,
    )

-- Requests only, until the next run.
pub requests : List (ℕ × ℕ) → Runner → Runner
unfolding run_turn
requests [] r = r
requests ((now, req) ∷ reqs) r = requests reqs (run_turn (request now req) r).0

asked_for-default :
    (now req : ℕ) (r : Runner) (next : ℕ)
    → asked_for now req (record r { next_run_time = next }) ≡ asked_for now req r
unfolding asked_for
asked_for-default now req r next = refl

-- After any requests the task is due at the time that it was due without them, or at the time that
-- one of them asks for.
pub requests-due :
    (reqs : List (ℕ × ℕ)) (r : Runner)
    → ((requests reqs r).next_run_time ≡ r.next_run_time)
      ⊎ ((q : ℕ × ℕ) × In q reqs × ((requests reqs r).next_run_time ≡ asked_for q.0 q.1 r))
unfolding requests
requests-due [] r = inl refl
requests-due ((at, delay) ∷ reqs) r =
    elim (Bool-cases (ltb (asked_for at delay r) r.next_run_time)) [
      | inr e ↦ elim (requests-due reqs r) [
        | inl h ↦ inl (ground (arith, e, h))
        | inr (q, i, h) ↦ inr (q, inr i, ground (arith, e, h))
      ]
      | inl e ↦ elim (requests-due reqs (record r { next_run_time = asked_for at delay r })) [
        | inl h ↦ inr ((at, delay), inl refl, ground (arith, e, h))
        | inr (q, i, h) ↦
            inr (q, inr i, ground (arith, e, h, asked_for-default q.0 q.1 r (asked_for at delay r)))
      ]
    ]
