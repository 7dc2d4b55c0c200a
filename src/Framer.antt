-- ===== src/Framer.antt =====
-- pkg/framer/framer.go: message framing over a byte stream, and the reader of
-- pkg/netceptor/external_backend.go that drains it.
-- A frame is the length of the message in two bytes, low byte first, and the message.
pub mod Stream
pub mod Examples
use receptor.Prelude.{
  ℕ, zero, suc, ◌+◌, ◌*◌, ◌/◌, ◌%◌, ◌^◌, Bool, false, Option, none, some, List, [], ◌∷◌, ◌++◌, leb,
  if◌then◌else◌, length, take, drop, Bytes,
}

pub record Framer : Type 0 where
  pub buffer : Bytes

pub new : Framer
new = record { buffer = [] }

-- The cast to uint16 wraps.
pub send_data : Bytes → Bytes
send_data bytes = let n = length bytes % 2 ^ 16 in (n % 256) ∷ (n / 256) ∷ bytes

pub recv_data : Framer → Bytes → Framer
recv_data f bytes = record f { buffer = f.buffer ++ bytes }

-- The test `len(f.buffer) < 2` is the patterns.
pub message_ready_of : Bytes → ℕ × Bool
message_ready_of (lo ∷ hi ∷ rest) =
    let size = lo + 256 * hi in (size, leb (size + 2) (length (lo ∷ hi ∷ rest)))
message_ready_of _ = (0, false)

pub message_ready : Framer → Bool
message_ready f = (message_ready_of f.buffer).1

-- `none` is the error "message not ready".
pub get_message : Framer → Option (Bytes × Framer)
unfolding message_ready_of
get_message f =
    let (size, ready) = message_ready_of f.buffer in
    if ready
    then some (take size (drop 2 f.buffer), record f { buffer = drop (size + 2) f.buffer })
    else none

-- One turn of the reading loop: whether the context had ended, the bytes that `conn.Read` gave,
-- and its error.
pub data ReadError : Type 0 where
  no_error timeout broken : ReadError

pub record Turn : Type 0 where
  pub ctx_ended : Bool
  pub bytes : Bytes
  pub error : ReadError

pub data ReadResult : Type 0 where
  message : Bytes → ReadResult
  session_closed timed_out failed : ReadResult
  waiting : ReadResult  -- the connection has given no more turns yet

-- `MessageReady`, then `GetMessage` after the `break`: one look at the buffer.
pub read_turn :
    Framer
    → Turn
    → List Turn
    → (Framer → ReadResult × Framer × List Turn)
    → ReadResult × Framer × List Turn
read_turn f t ts continue =
    let fed = recv_data f t.bytes in
    elim t.error [
      | timeout ↦ (timed_out, fed, ts)
      | broken ↦ (failed, fed, ts)
      | no_error ↦ continue fed
    ]

-- `netMessageConn.ReadMessage`. The turns are what the connection does, in order.
pub read_message : Framer → List Turn → ReadResult × Framer × List Turn
read_message f [] = elim (get_message f) [
  | some (m, f') ↦ (message m, f', [])
  | none ↦ (waiting, f, [])
]
read_message f (t ∷ ts) =
    let rest = λ (g : Framer). read_message g ts in
    if t.ctx_ended then (session_closed, f, ts) else elim (get_message f) [
      | some (m, f') ↦ (message m, f', t ∷ ts)
      | none ↦ read_turn f t ts rest
    ]

abbrev prepend : Bytes → List Bytes × Framer × List Turn → List Bytes × Framer × List Turn
prepend m (ms, f, ts) = (m ∷ ms, f, ts)

-- Messages read one after another, until one of the reads gives none.
pub read_messages : ℕ → Framer → List Turn → List Bytes × Framer × List Turn
read_messages zero f ts = ([], f, ts)
read_messages (suc n) f ts =
    let (r, f', ts') = read_message f ts in
    let rest = read_messages n f' ts' in elim r [ message m ↦ prepend m rest | _ ↦ ([], f', ts') ]
