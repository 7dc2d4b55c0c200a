-- ===== src/Workceptor/Results/Prefix.antt =====
-- What the client of GetResults has received is a part of the output, in order.
use receptor.Prelude.{
  ℕ, zero, suc, ◌+◌, ◌≤◌, ◌≡◌, refl, sym, ap, ◌∙◌, true, false, ◌&&◌, ◌⊎◌, inl, inr, List, [], ◌∷◌,
  ◌++◌, append-nil, append_assoc, arith, leb, if◌then◌else◌, length, take, drop, length-append,
  Bytes, Bool-cases,
}
use mathlib.Core.Path.{subst}
use receptor.Workceptor.State.{is_complete}
use receptor.Workceptor.Results.{
  normal_buffer_size, Stream, Look, cancelled, gone, seek_fails, reads, read_fails, not_taken, End,
  completed, StreamNext, goes_on, ends, read_at, send, begin_stream, after_read, stream_turn,
  Moment, get_results,
}

suc_plus : (m n : ℕ) → suc m + n ≡ suc (m + n)
suc_plus m n = omega arith

take_none : (n : ℕ) → take {A = ℕ} n [] ≡ []
take_none zero = refl
take_none (suc n) = refl

drop-add : (text : Bytes) (m n : ℕ) → drop (m + n) text ≡ drop n (drop m text)
drop-add text zero n = ap (λ k. drop k text) (omega arith)
drop-add [] (suc m) zero = ap (λ k. drop k []) (suc_plus m 0)
drop-add [] (suc m) (suc n) = ap (λ k. drop k []) (suc_plus m (suc n))
drop-add (b ∷ text) (suc m) n = ap (λ k. drop k (b ∷ text)) (suc_plus m n) ∙ drop-add text m n

taken : (text : Bytes) (n : ℕ) → take n text ++ drop (length (take n text)) text ≡ text
taken text zero = refl
taken [] (suc n) = refl
taken (b ∷ text) (suc n) = ap (λ t. b ∷ t) (taken text n)

pub take-drop_bound :
    (text : Bytes) (n pos : ℕ)
    → pos ≤ length text
    → pos + length (take n (drop pos text)) ≤ length text
take-drop_bound text zero pos h = omega arith
take-drop_bound [] (suc n) zero h = h
take-drop_bound [] (suc n) (suc pos) h = omega arith
take-drop_bound (b ∷ text) (suc n) zero h = omega (arith, take-drop_bound text n zero (omega arith))
take-drop_bound (b ∷ text) (suc n) (suc pos) h =
    omega (arith, take-drop_bound text (suc n) pos (omega arith))

pub drop-grown :
    (text more : Bytes) (pos : ℕ)
    → pos ≤ length text
    → drop pos (text ++ more) ≡ drop pos text ++ more
drop-grown text more zero h = refl
drop-grown [] more (suc pos) h = absurd (omega arith)
drop-grown (b ∷ text) more (suc pos) h = drop-grown text more pos (omega arith)

pub drop_all : (text : Bytes) (pos : ℕ) → length text ≤ pos → drop pos text ≡ []
drop_all [] zero h = refl
drop_all [] (suc pos) h = refl
drop_all (b ∷ text) zero h = absurd (omega arith)
drop_all (b ∷ text) (suc pos) h = drop_all text pos (omega arith)

-- The position is in the file, not before the start, or nothing has been read.
abbrev pub IsPlace : ℕ → Bytes → Stream → Type 0
IsPlace start text s =
    ((start ≤ s.file_pos) × (s.file_pos ≤ length text)) ⊎ ((s.sent ≡ []) × (s.file_pos ≡ start))

-- What is sent and what is left in the file are the output from the start position on.
pub record IsPart (start : ℕ) (text : Bytes) (s : Stream) : Type 0 where
  pub parts : s.sent ++ drop s.file_pos text ≡ drop start text
  pub place : IsPlace start text s

pub IsPart-grown :
    (start : ℕ) (text more : Bytes) (s : Stream)
    → IsPart start text s
    → IsPart start (text ++ more) s
IsPart-grown start text more s p = elim p.place [
  | inl (low, high) ↦ record {
    parts =
        ap (λ t. s.sent ++ t) (drop-grown text more s.file_pos high)
        ∙ sym (append_assoc s.sent (drop s.file_pos text) more)
        ∙ ap (λ t. t ++ more) p.parts
        ∙ sym (drop-grown text more start (omega (arith, low, high)));
    place = inl (low, omega (arith, high, length-append text more));
  }
  | inr (none_sent, at_start) ↦ record {
    parts =
        ap (λ t. t ++ drop s.file_pos (text ++ more)) none_sent
        ∙ ap (λ k. drop k (text ++ more)) at_start;
    place = inr (none_sent, at_start);
  }
]

send-IsPlace :
    (start : ℕ) (text : Bytes) (n : ℕ) (s : Stream)
    → IsPlace start text s
    → IsPlace start text (send (take n (drop s.file_pos text)) s)
send-IsPlace start text n s (inl (low, high)) =
    inl (omega (arith, low), take-drop_bound text n s.file_pos high)
send-IsPlace start text n s (inr (none_sent, at_start)) =
    elim (Bool-cases (leb start (length text))) [
      | inl e ↦
          let h : s.file_pos ≤ length text = ground (arith, e, at_start) in
          inl (omega (arith, at_start), take-drop_bound text n s.file_pos h)
      | inr e ↦
          let nothing : take n (drop s.file_pos text) ≡ [] =
            ap (take n) (drop_all text s.file_pos (ground (arith, e, at_start))) ∙ take_none n in
          inr (
            ap (λ t. t ++ take n (drop s.file_pos text)) none_sent ∙ nothing,
            ap (λ t. s.file_pos + length t) nothing ∙ (omega (arith, at_start)),
          )
    ]

pub IsPart-send :
    (start : ℕ) (text : Bytes) (n : ℕ) (s : Stream)
    → IsPart start text s
    → IsPart start text (send (take n (drop s.file_pos text)) s)
IsPart-send start text n s p = record {
  parts =
      append_assoc s.sent (take n (drop s.file_pos text))
        (drop (s.file_pos + length (take n (drop s.file_pos text))) text)
      ∙ ap (λ t. s.sent ++ (take n (drop s.file_pos text) ++ t))
          (drop-add text s.file_pos (length (take n (drop s.file_pos text))))
      ∙ ap (λ t. s.sent ++ t) (taken (drop s.file_pos text) n)
      ∙ p.parts;
  place = send-IsPlace start text n s p.place;
}

-- What a turn or a run leaves: while the stream is open all that was read is sent; a stream that
-- has ended has sent a part of the output.
pub record IsCut (start : ℕ) (text : Bytes) (s : Stream) : Type 0 where
  pub rest : Bytes
  pub parts : s.sent ++ rest ≡ drop start text

abbrev pub IsStreamed : ℕ → Bytes → StreamNext → Type 0
IsStreamed start text (goes_on s) = IsPart start text s
IsStreamed start text (ends e s) = IsCut start text s

IsPart-IsCut : (start : ℕ) (text : Bytes) (s : Stream) → IsPart start text s → IsCut start text s
IsPart-IsCut start text s p = record { rest = drop s.file_pos text; parts = p.parts }

after_read-IsStreamed :
    (start state size : ℕ) (text : Bytes) (s : Stream) (chunk : Bytes)
    → IsPart start text s
    → IsPart start text (send chunk s)
    → IsStreamed start text (after_read state size s chunk)
after_read-IsStreamed start state size text s [] p q =
    elim (is_complete state && leb size s.file_pos)
      as (λ b. IsStreamed start text (if b then ends completed s else goes_on s)) [
        | true ↦ IsPart-IsCut start text s p
        | false ↦ p
      ]
after_read-IsStreamed start state size text s (b ∷ chunk) p q = q

pub stream_turn-IsStreamed :
    (start : ℕ) (look : Look) (text : Bytes) (state size : ℕ) (s : Stream)
    → IsPart start text s
    → IsStreamed start text (stream_turn look text state size s)
unfolding stream_turn
stream_turn-IsStreamed start cancelled text state size s p = IsPart-IsCut start text s p
stream_turn-IsStreamed start gone text state size s p = IsPart-IsCut start text s p
stream_turn-IsStreamed start seek_fails text state size s p = IsPart-IsCut start text s p
stream_turn-IsStreamed start (reads n) text state size s p =
    after_read-IsStreamed start state size text s (read_at text s.file_pos (suc n)) p (
      IsPart-send start text (if leb normal_buffer_size (suc n) then normal_buffer_size else suc n)
        s p)
stream_turn-IsStreamed start (read_fails n) text state size s p =
    IsPart-IsCut start text (send (read_at text s.file_pos n) s)
      (IsPart-send start text (if leb normal_buffer_size n then normal_buffer_size else n) s p)
stream_turn-IsStreamed start (not_taken n) text state size s p = record {
  rest = drop s.file_pos text;
  parts = p.parts;
}

next-cases :
    (n : StreamNext)
    → ((s : Stream) × (n ≡ goes_on s)) ⊎ ((e : End) × (s : Stream) × (n ≡ ends e s))
next-cases (goes_on s) = inl (s, refl)
next-cases (ends e s) = inr (e, s, refl)

pub get_results-goes_on :
    (m : Moment) (ms : List Moment) (text : Bytes) (s s' : Stream)
    → stream_turn m.look (text ++ m.written) m.state m.size s ≡ goes_on s'
    → get_results (m ∷ ms) text s ≡ get_results ms (text ++ m.written) s'
unfolding get_results
get_results-goes_on m ms text s s' e = ground (arith, e)

pub get_results-ends :
    (m : Moment) (ms : List Moment) (text : Bytes) (s s' : Stream) (end : End)
    → stream_turn m.look (text ++ m.written) m.state m.size s ≡ ends end s'
    → get_results (m ∷ ms) text s ≡ (text ++ m.written, ends end s')
unfolding get_results
get_results-ends m ms text s s' end e = ground (arith, e)

-- The remote output only grows.
pub get_results-grows :
    (ms : List Moment) (text : Bytes) (s : Stream)
    → (more : Bytes) × ((get_results ms text s).0 ≡ text ++ more)
unfolding get_results
get_results-grows [] text s = ([], sym (append-nil text))
get_results-grows (m ∷ ms) text s =
    elim (next-cases (stream_turn m.look (text ++ m.written) m.state m.size s)) [
      | inl (s', e) ↦
          let (more, grown) = get_results-grows ms (text ++ m.written) s' in
          (
            m.written ++ more,
            ap (λ r. r.0) (get_results-goes_on m ms text s s' e)
                ∙ grown
                ∙ append_assoc text m.written more,
          )
      | inr (end, s', e) ↦ (m.written, ap (λ r. r.0) (get_results-ends m ms text s s' end e))
    ]

pub streamed :
    (start : ℕ) (ms : List Moment) (text : Bytes) (s : Stream)
    → IsPart start text s
    → IsStreamed start (get_results ms text s).0 (get_results ms text s).1
unfolding get_results
streamed start [] text s p = p
streamed start (m ∷ ms) text s p =
    let n = stream_turn m.look (text ++ m.written) m.state m.size s in
    let q : IsStreamed start (text ++ m.written) n =
      stream_turn-IsStreamed start m.look (text ++ m.written) m.state m.size s
        (IsPart-grown start text m.written s p) in
    elim (next-cases n) [
      | inl (s', e) ↦
          subst (λ r. IsStreamed start r.0 r.1) (sym (get_results-goes_on m ms text s s' e))
            (streamed start ms (text ++ m.written) s'
              (subst (IsStreamed start (text ++ m.written)) e q))
      | inr (end, s', e) ↦
          subst (λ r. IsStreamed start r.0 r.1) (sym (get_results-ends m ms text s s' end e))
            (subst (IsStreamed start (text ++ m.written)) e q)
    ]

pub begin_stream-IsPart : (start : ℕ) (text : Bytes) → IsPart start text (begin_stream start)
begin_stream-IsPart start text = record { parts = refl; place = inr (refl, refl) }

-- However the turns of the stream fall between the writes of the command, what the client has
-- received is, in order, without a gap and without a repeat, the first part of what the file holds
-- from the start position on; while the stream goes on, the file holds the rest of it from the
-- position of the stream on.
pub get_results-IsStreamed :
    (start : ℕ) (ms : List Moment) (text : Bytes)
    → IsStreamed start
        (get_results ms text (begin_stream start)).0
        (get_results ms text (begin_stream start)).1
get_results-IsStreamed start ms text =
    streamed start ms text (begin_stream start) (begin_stream-IsPart start text)
