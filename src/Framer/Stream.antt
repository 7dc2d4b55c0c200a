-- ===== src/Framer/Stream.antt =====
-- What the framer gives back of a byte stream, however the stream was cut.
use receptor.Prelude.{
  ◌+◌, ◌%◌, ◌^◌, ◌≤◌, ◌<◌, ◌≡◌, refl, ap, ◌∙◌, false, none, some, List, [], ◌∷◌, ◌++◌, arith,
  length, take, drop, Bytes, append_assoc, All, length-append, take-append, drop-append,
}
use native.Mathlib.Decide.{dec_lt}
use receptor.Framer.{
  Framer, Turn, ReadResult, message, send_data, recv_data, message_ready_of, get_message, read_turn,
  read_message, read_messages, no_error,
}

-- A buffer that begins with a frame yields that frame's message, and keeps what follows.
pub get_message-send_data :
    (m rest : Bytes)
    → length m < 2 ^ 16
    → get_message (record { buffer = send_data m ++ rest }) ≡ some (m, record { buffer = rest })
unfolding get_message send_data message_ready_of
get_message-send_data m rest h = ground (
  arith,
  length-append m rest,
  take-append m rest (length m) refl,
  drop-append m rest (length m) refl,
)

-- While fewer bytes than a whole frame are there, there is no message.
get_message_short :
    (m rest buf more : Bytes)
    → length m < 2 ^ 16
    → buf ++ more ≡ send_data m ++ rest
    → length buf < length m + 2
    → get_message (record { buffer = buf }) ≡ none
unfolding get_message send_data message_ready_of
get_message_short m rest [] more h e short = refl
get_message_short m rest (lo ∷ []) more h e short = refl
get_message_short m rest (lo ∷ hi ∷ buf) more h e short = ground arith

-- Once enough bytes are there, the buffer is the frame and a part of the rest.
append_split {ℓ} :
    {A : Type ℓ} (buf more m rest : List A)
    → buf ++ more ≡ m ++ rest
    → length m ≤ length buf
    → (tail : List A) × (buf ≡ m ++ tail) × (tail ++ more ≡ rest)
append_split buf more [] rest e h = (buf, refl, e)
append_split [] more (x ∷ m) rest e h = absurd (omega arith)
append_split (y ∷ buf) more (x ∷ m) rest e h =
    let (tail, p, q) = append_split buf more m rest (ground arith) (omega arith) in
    (tail, ground arith, q)

-- A turn in which the context goes on and the read gives no error.
abbrev pub IsQuiet : Turn → Type 0
IsQuiet t = (t.ctx_ended ≡ false) × (t.error ≡ no_error)

abbrev pub stream : List Turn → Bytes
stream [] = []
stream (t ∷ ts) = t.bytes ++ stream ts

abbrev Gives : Bytes → Bytes → ReadResult × Framer × List Turn → Type 0
Gives m rest (r, f, ts) = (r ≡ message m) × All IsQuiet ts × (f.buffer ++ stream ts ≡ rest)

module _ (m rest : Bytes) (small : length m < 2 ^ 16) where
  -- The buffer holds a whole frame: its message is there, and the tail goes on to `rest`.
  abbrev Full : Framer → Bytes → Type 0
  Full f more =
      (tail : Bytes) × (get_message f ≡ some (m, record { buffer = tail })) × (tail ++ more ≡ rest)

  Full-buffer :
      (f : Framer) (more : Bytes)
      → f.buffer ++ more ≡ send_data m ++ rest
      → length m + 2 ≤ length f.buffer
      → Full f more
  Full-buffer f more e h =
      let split =
        append_split f.buffer more (send_data m) rest e (unfold send_data in omega arith) in
      (
        split.0,
        ap (λ b. get_message (record { buffer = b })) split.1
            ∙ get_message-send_data m split.0 small,
        split.2,
      )

  -- One message at the head of the stream is read, whatever the cuts, and the rest stays.
  pub read_message-Gives :
      (f : Framer) (ts : List Turn)
      → All IsQuiet ts
      → f.buffer ++ stream ts ≡ send_data m ++ rest
      → Gives m rest (read_message f ts)
  unfolding read_message read_turn recv_data
  read_message-Gives f [] q e =
      let full : Full f [] = Full-buffer f [] e (
        unfold send_data in
        omega (arith, length-append f.buffer [], length-append m rest, ap length e)) in
      ground (arith, full.1, full.2)
  read_message-Gives f (t ∷ ts) q e = elim (dec_lt (length f.buffer) (length m + 2)) [
    | yes short ↦ ground (
      arith,
      get_message_short m rest f.buffer _ small e short,
      append_assoc f.buffer t.bytes (stream ts),
      read_message-Gives (recv_data f t.bytes) ts q.1,
    )
    | no long ↦
        let full : Full f (stream (t ∷ ts)) = Full-buffer f _ e (omega arith) in
        ground (arith, full.1, full.2)
  ]

-- What `send_data` wrote for each message, one after another.
abbrev pub frames : List Bytes → Bytes
frames [] = []
frames (m ∷ ms) = send_data m ++ frames ms

abbrev pub IsSmall : Bytes → Type 0
IsSmall m = length m < 2 ^ 16

-- Messages of less than 65536 bytes each, framed one after another, come out of the reader as they
-- went in and in their order, whatever the pieces are in which the connection gives the stream, as
-- long as no read fails and the context goes on. What follows the frames is still to be read.
pub read_messages-frames :
    (ms : List Bytes) (rest : Bytes) (f : Framer) (ts : List Turn)
    → All IsSmall ms
    → All IsQuiet ts
    → f.buffer ++ stream ts ≡ frames ms ++ rest
    → ((read_messages (length ms) f ts).0 ≡ ms)
      × ((read_messages (length ms) f ts).1.buffer ++ stream (read_messages (length ms) f ts).2
          ≡ rest)
unfolding read_messages
read_messages-frames [] rest f ts small q e = (refl, e)
read_messages-frames (m ∷ ms) rest f ts small q e =
    let (now, quiet, left) =
      read_message-Gives m (frames ms ++ rest) small.0 f ts q
        (e ∙ append_assoc (send_data m) (frames ms) rest) in
    ground (arith, now, read_messages-frames ms rest _ _ small.1 quiet left)

-- Of a message of any length the receiver gets the part that its length modulo 65536 counts, and
-- takes the remaining bytes for the next frames: a message of 65536 bytes or more does not arrive.
pub get_message-send_data_any :
    (m : Bytes)
    → get_message (record { buffer = send_data m })
      ≡ some (take (length m % 2 ^ 16) m, record { buffer = drop (length m % 2 ^ 16) m })
unfolding get_message send_data message_ready_of
get_message-send_data_any m = ground arith
