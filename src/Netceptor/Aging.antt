-- ===== src/Netceptor/Aging.antt =====
-- What time takes away (netceptor.go): connections that have been idle, and update ids that were
-- seen long ago. A turn of a loop takes the time as an argument.
pub mod Idle
pub mod Seen
use receptor.Prelude.{
  ℕ, ◌+◌, ◌-◌, Bool, true, false, Option, none, some, List, [], ◌∷◌, ◌==◌, ltb, if◌then◌else◌,
  Bytes,
}
use receptor.Prelude.Map.{Map, lookup, delete, keys}
use receptor.Netceptor.State.{Netceptor, ConnInfo}

-- `CancelFunc` of a connection.
pub cancel : ℕ → Netceptor → Netceptor
cancel i s = record s { cancelled = λ j. if i == j then true else s.cancelled j }

-- What a call of `sess.Recv` gives.
pub data Received : Type 0 where
  timed_out failed : Received
  got : Bytes → Received

-- A turn of `protoReader`: the node, the message for the protocol loop, and whether it goes on.
pub record Read : Type 0 where
  pub node : Netceptor
  pub message : Option Bytes
  pub goes_on : Bool

pub proto_reader : Received → ℕ → ℕ → Netceptor → Read
unfolding cancel
proto_reader timed_out i now s = record { node = s; message = none; goes_on = true }
proto_reader failed i now s = record { node = cancel i s; message = none; goes_on = false }
proto_reader (got bytes) i now s =
    let heard = record s { last_received = λ j. if i == j then now else s.last_received j } in
    if s.cancelled i
    then record { node = heard; message = none; goes_on = false }
    else record { node = heard; message = some bytes; goes_on = true }

-- Whether a connection has been idle for too long.
abbrev pub is_idle : ℕ → ℕ → Netceptor → Bool
is_idle i now s = ltb s.max_connection_idle_time (now - s.last_received i)

-- The loop over the connections in `monitorConnectionAging`, which collects those to end.
pub timed_out_in : Map ConnInfo → ℕ → Netceptor → List ℕ
timed_out_in [] now s = []
timed_out_in ((n, ci) ∷ conns) now s =
    let rest = timed_out_in conns now s in if is_idle ci.ident now s then ci.ident ∷ rest else rest

pub cancel_all : List ℕ → Netceptor → Netceptor
unfolding cancel
cancel_all [] s = s
cancel_all (i ∷ is) s = cancel_all is (cancel i s)

-- A turn of `monitorConnectionAging`
pub monitor_connection_aging : ℕ → Netceptor → Netceptor
unfolding timed_out_in cancel_all
monitor_connection_aging now s = cancel_all (timed_out_in s.connections now s) s

abbrev pub is_expired : ℕ → ℕ → Option ℕ → Bool
is_expired age now none = false
is_expired age now (some seen) = ltb (seen + age) now

-- The loop over the update ids in `expireSeenUpdates`.
pub expire_in : List Bytes → ℕ → ℕ → Map ℕ → Map ℕ
expire_in [] age now seen = seen
expire_in (id ∷ ids) age now seen =
    expire_in ids age now (if is_expired age now (lookup id seen) then delete id seen else seen)

-- A turn of `expireSeenUpdates`
pub expire_seen_updates : ℕ → Netceptor → Netceptor
unfolding expire_in
expire_seen_updates now s = record s {
  seen_updates = expire_in (keys s.seen_updates) s.seen_update_expire_time now s.seen_updates;
}
