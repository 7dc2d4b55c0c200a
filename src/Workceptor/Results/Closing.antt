-- ===== src/Workceptor/Results/Closing.antt =====
-- When the stream of GetResults closes.
use receptor.Prelude.{
  ℕ, zero, suc, ◌≤◌, ◌<◌, ◌≡◌, refl, sym, ap, ◌∙◌, List, [], ◌∷◌, ◌++◌, append-nil, arith, leb,
  if◌then◌else◌, length, take, drop, Bytes,
}
use mathlib.Core.Path.{subst}
use receptor.Workceptor.Results.{
  normal_buffer_size, Stream, begin_stream, Look, cancelled, gone, seek_fails, reads, read_fails,
  not_taken, completed, goes_on, ends, read_at, after_read, stream_turn, Moment, get_results,
}
use receptor.Workceptor.Results.Prefix.{
  IsPart, IsStreamed, IsPart-grown, drop_all, streamed, begin_stream-IsPart,
}

-- A stream closes as complete only at the end of the file, with the size of the status reached.
after_read-completed :
    (state size : ℕ) (s s' : Stream) (chunk : Bytes)
    → after_read state size s chunk ≡ ends completed s'
    → (chunk ≡ []) × (s' ≡ s) × (size ≤ s.file_pos)
after_read-completed state size s s' [] e = ground (arith, e)
after_read-completed state size s s' (b ∷ chunk) e = absurd (ground (arith, e))

take-empty : (n : ℕ) (text : Bytes) → 0 < n → take n text ≡ [] → text ≡ []
take-empty zero text h e = absurd (omega (arith, h))
take-empty (suc n) [] h e = refl
take-empty (suc n) (b ∷ text) h e = absurd (ground (arith, e))

room : (n : ℕ) → 0 < (if leb normal_buffer_size (suc n) then normal_buffer_size else suc n)
room n = ground arith

pub read_at-end : (text : Bytes) (pos n : ℕ) → read_at text pos (suc n) ≡ [] → drop pos text ≡ []
read_at-end text pos n e =
    take-empty (if leb normal_buffer_size (suc n) then normal_buffer_size else suc n)
      (drop pos text) (room n) e

stream_turn-completed :
    (look : Look) (text : Bytes) (state size : ℕ) (s s' : Stream)
    → stream_turn look text state size s ≡ ends completed s'
    → (drop s.file_pos text ≡ []) × (s' ≡ s) × (size ≤ s.file_pos)
unfolding stream_turn
stream_turn-completed cancelled text state size s s' e = absurd (ground (arith, e))
stream_turn-completed gone text state size s s' e = absurd (ground (arith, e))
stream_turn-completed seek_fails text state size s s' e = absurd (ground (arith, e))
stream_turn-completed (reads n) text state size s s' e =
    let (nothing, same_stream, reached) =
      after_read-completed state size s s' (read_at text s.file_pos (suc n)) e in
    (read_at-end text s.file_pos n nothing, same_stream, reached)
stream_turn-completed (read_fails n) text state size s s' e = absurd (ground (arith, e))
stream_turn-completed (not_taken n) text state size s s' e = absurd (ground (arith, e))

-- A stream that closes as complete has sent the whole output from the start position on, also what
-- the command may have written to the file after the last read: the condition is that the file at
-- the end is no longer than the size that the status had at the last turn.
pub get_results-completed :
    (start : ℕ) (ms : List Moment) (m : Moment) (text t later : Bytes) (s s' : Stream)
    → get_results ms text (begin_stream start) ≡ (t, goes_on s)
    → stream_turn m.look (t ++ m.written) m.state m.size s ≡ ends completed s'
    → length ((t ++ m.written) ++ later) ≤ m.size
    → s'.sent ≡ drop start ((t ++ m.written) ++ later)
get_results-completed start ms m text t later s s' run last whole =
    let part : IsPart start t s =
      subst (λ r. IsStreamed start r.0 r.1) run
        (streamed start ms text (begin_stream start) (begin_stream-IsPart start text)) in
    let final =
      IsPart-grown start (t ++ m.written) later s (IsPart-grown start t m.written s part) in
    let (nothing, same_stream, reached) =
      stream_turn-completed m.look (t ++ m.written) m.state m.size s s' last in
    ap (λ r. r.sent) same_stream
    ∙ sym (append-nil s.sent)
    ∙ ap (λ r. s.sent ++ r)
        (sym (drop_all ((t ++ m.written) ++ later) s.file_pos (omega (arith, whole, reached))))
    ∙ final.parts
