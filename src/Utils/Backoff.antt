-- ===== src/Utils/Backoff.antt =====
-- pkg/utils/incremental_duration.go: a timeout that grows up to a limit. The product with the float
-- multiplier, rounded, is the field `scale`.
use receptor.Prelude.{ℕ, zero, suc, ◌+◌, ◌≤◌, ◌<◌, ◌≡◌, ◌⊎◌, inl, inr, arith, leb, if◌then◌else◌}

pub record IncrementalDuration : Type 0 where
  pub duration : ℕ
  pub initial_duration : ℕ
  pub max_duration : ℕ
  pub scale : ℕ → ℕ

pub new_incremental_duration : ℕ → ℕ → (ℕ → ℕ) → IncrementalDuration
new_incremental_duration duration max_duration scale = record {
  duration = duration;
  initial_duration = duration;
  max_duration = max_duration;
  scale = scale;
}

-- `IncreaseDuration`
pub increase_duration : IncrementalDuration → IncrementalDuration
increase_duration d = record d {
  duration = if leb (d.scale d.duration) d.max_duration then d.scale d.duration else d.max_duration;
}

-- `Reset`
pub reset : IncrementalDuration → IncrementalDuration
reset d = record d { duration = d.initial_duration }

-- `NextTimeout`: the timeout, and the next state.
pub next_timeout : IncrementalDuration → ℕ × IncrementalDuration
unfolding increase_duration
next_timeout d = (d.duration, increase_duration d)

-- The state after some timeouts.
pub after_timeouts : ℕ → IncrementalDuration → IncrementalDuration
unfolding next_timeout
after_timeouts zero d = d
after_timeouts (suc n) d = after_timeouts n (next_timeout d).1

after_timeouts-grows :
    (n low : ℕ) (d : IncrementalDuration)
    → ((t : ℕ) → low ≤ t → t < d.scale t)
    → low ≤ d.duration
    → d.duration ≤ d.max_duration
    → ((after_timeouts n d).duration ≤ d.max_duration)
      × ((d.duration + n ≤ (after_timeouts n d).duration)
          ⊎ ((after_timeouts n d).duration ≡ d.max_duration))
unfolding after_timeouts
after_timeouts-grows zero low d grows l h = (h, inl (omega arith))
after_timeouts-grows (suc n) low d grows l h =
    let longer = grows d.duration l in
    let (most, least) =
      after_timeouts-grows n low (increase_duration d) grows (ground arith) (ground arith) in
    (ground (arith, most), ground (arith, least, longer, h))

-- If the multiplier lengthens every timeout from the first on, and the first is within the limit,
-- then after n timeouts the next is within the limit, and it is the limit or at least n longer
-- than the first.
pub after_timeouts-max :
    (n first max_duration : ℕ) (scale : ℕ → ℕ)
    → ((t : ℕ) → first ≤ t → t < scale t)
    → first ≤ max_duration
    → let d = after_timeouts n (new_incremental_duration first max_duration scale) in
      (d.duration ≤ max_duration) × ((d.duration ≡ max_duration) ⊎ (first + n ≤ d.duration))
unfolding new_incremental_duration
after_timeouts-max n first max_duration scale grows h =
    let (most, least) =
      after_timeouts-grows n first (new_incremental_duration first max_duration scale) grows
        (omega arith) h in
    (most, elim least [ inl l ↦ inr l | inr e ↦ inl e ])
