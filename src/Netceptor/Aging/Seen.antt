-- ===== src/Netceptor/Aging/Seen.antt =====
-- Which update ids a turn of the expiry loop forgets.
use receptor.Prelude.{
  ℕ, ◌+◌, ◌≡◌, refl, ◌∙◌, Bool, false, ◌||◌, ◌&&◌, none, some, List, [], ◌∷◌, arith, ltb,
  if◌then◌else◌, Bytes, same, same_iff,
}
use receptor.Prelude.Map.{Map, lookup, delete, keys, has_key, lookup-delete}
use receptor.Netceptor.State.{Netceptor}
use receptor.Netceptor.Aging.{is_expired, expire_in, expire_seen_updates}

abbrev is_among : Bytes → List Bytes → Bool
is_among j [] = false
is_among j (id ∷ ids) = same id j || is_among j ids

lookup-expire_in :
    (ids : List Bytes) (age now : ℕ) (seen : Map ℕ) (j : Bytes)
    → lookup j (expire_in ids age now seen)
      ≡ (if is_among j ids && is_expired age now (lookup j seen) then none else lookup j seen)
unfolding expire_in
lookup-expire_in [] age now seen j = refl
lookup-expire_in (id ∷ ids) age now seen j = ground (
  arith,
  same_iff id j,
  lookup-delete id j seen,
  lookup-expire_in ids age now (delete id seen) j,
  lookup-expire_in ids age now seen j,
)

is_among-keys : (j : Bytes) (seen : Map ℕ) → is_among j (keys seen) ≡ has_key j seen
unfolding lookup
is_among-keys j [] = refl
is_among-keys j ((id, at) ∷ seen) = ground (arith, is_among-keys j seen)

-- After a turn of the expiry loop an update id is remembered, with the time at which it was seen,
-- exactly if it was before and that time is not longer ago than the expiry time.
pub lookup-expire_seen_updates :
    (now : ℕ) (s : Netceptor) (j : Bytes)
    → lookup j (expire_seen_updates now s).seen_updates ≡ elim (lookup j s.seen_updates) [
      | none ↦ none
      | some at ↦ if ltb (at + s.seen_update_expire_time) now then none else some at
    ]
unfolding expire_seen_updates
lookup-expire_seen_updates now s j =
    lookup-expire_in (keys s.seen_updates) s.seen_update_expire_time now s.seen_updates j
    ∙ ground (arith, is_among-keys j s.seen_updates)
