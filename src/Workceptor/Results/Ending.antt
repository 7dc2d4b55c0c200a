-- ===== src/Workceptor/Results/Ending.antt =====
-- That the stream of GetResults ends, once the unit is complete, and only then.
use receptor.Prelude.{
  ℕ, zero, suc, ◌-◌, ◌≤◌, ◌<◌, ◌≡◌, refl, sym, ap, ◌∙◌, true, false, ◌⊎◌, inl, inr, List, [], ◌∷◌,
  ◌++◌, append-nil, arith, leb, if◌then◌else◌, length, take, drop, Bytes, Bool-cases,
}
use mathlib.Core.Path.{subst}
use receptor.Workceptor.State.{canceled, is_complete}
use receptor.Workceptor.Results.{
  normal_buffer_size, Stream, begin_stream, reads, completed, goes_on, ends, read_at, send,
  stream_turn, Moment, get_results,
}
use receptor.Workceptor.Results.Closing.{read_at-end}
use receptor.Workceptor.Results.Prefix.{IsPart, IsPart-send, drop_all, begin_stream-IsPart}

-- Turns after the command has stopped writing, which read at most so many bytes each.
abbrev pub later_turns : ℕ → ℕ → List ℕ → List Moment
later_turns state size [] = []
later_turns state size (n ∷ ns) =
    record { written = []; look = reads n; state = state; size = size } ∷ later_turns state size ns

module _ (state size : ℕ) (text : Bytes) where
  some_is_not_none : (k b : ℕ) (u : Bytes) → take k [] ≡ b ∷ u → ⊥
  some_is_not_none zero b u e = ground (arith, e)
  some_is_not_none (suc k) b u e = ground (arith, e)

  waits_at_end :
      (n : ℕ) (ns : List ℕ) (s : Stream)
      → read_at text s.file_pos (suc n) ≡ []
      → is_complete state ≡ false
      → get_results (later_turns state size (n ∷ ns)) text s
        ≡ get_results (later_turns state size ns) text s
  unfolding get_results stream_turn
  waits_at_end n ns s e c = ground (arith, e, c, append-nil text)

  at_end :
      (n : ℕ) (ns : List ℕ) (s : Stream)
      → read_at text s.file_pos (suc n) ≡ []
      → is_complete state ≡ true
      → size ≤ s.file_pos
      → get_results (later_turns state size (n ∷ ns)) text s ≡ (text, ends completed s)
  unfolding get_results stream_turn
  at_end n ns s e c h = ground (arith, e, c, h, append-nil text)

  not_at_end :
      (n : ℕ) (ns : List ℕ) (s : Stream) (b : ℕ) (chunk : Bytes)
      → read_at text s.file_pos (suc n) ≡ b ∷ chunk
      → get_results (later_turns state size (n ∷ ns)) text s
        ≡ get_results (later_turns state size ns) text (send (b ∷ chunk) s)
  unfolding get_results stream_turn
  not_at_end n ns s b chunk e = ground (arith, e, append-nil text)

  pub list-cases : (t : Bytes) → (t ≡ []) ⊎ ((b : ℕ) × (u : Bytes) × (t ≡ b ∷ u))
  list-cases [] = inl refl
  list-cases (b ∷ u) = inr (b, u, refl)

  drop-nothing : (t : Bytes) (pos : ℕ) → drop pos t ≡ [] → length t ≤ pos
  drop-nothing [] pos e = omega arith
  drop-nothing (x ∷ t) zero e = absurd (ground (arith, e))
  drop-nothing (x ∷ t) (suc pos) e = omega (arith, drop-nothing t pos e)

  drop-something :
      (t : Bytes) (pos k b : ℕ) (u : Bytes) → take k (drop pos t) ≡ b ∷ u → pos < length t
  drop-something t pos k b u e = elim (Bool-cases (leb (length t) pos)) [
    | inl h ↦
        absurd (some_is_not_none k b u (sym (ap (take k) (drop_all t pos (ground (arith, h)))) ∙ e))
    | inr h ↦ ground (arith, h)
  ]

  closes :
      (start : ℕ) (ns : List ℕ) (s : Stream)
      → IsPart start text s
      → is_complete state ≡ true
      → size ≤ length text
      → length text - s.file_pos < length ns
      → (s' : Stream) × (get_results (later_turns state size ns) text s ≡ (text, ends completed s'))
        × (s'.sent ≡ drop start text)
  closes start [] s p c h l = absurd (omega (arith, l))
  closes start (n ∷ ns) s p c h l = elim (list-cases (read_at text s.file_pos (suc n))) [
    | inl e ↦
        let nothing = read_at-end text s.file_pos n e in
        (
          s,
          at_end n ns s e c (omega (arith, h, drop-nothing text s.file_pos nothing)),
          sym (append-nil s.sent) ∙ ap (λ t. s.sent ++ t) (sym nothing) ∙ p.parts,
        )
    | inr (b, u, e) ↦
        let k = if leb normal_buffer_size (suc n) then normal_buffer_size else suc n in
        let inside = drop-something text s.file_pos k b u e in
        let q = subst (λ t. IsPart start text (send t s)) e (IsPart-send start text k s p) in
        let (s', run, whole) = closes start ns (send (b ∷ u) s) q c h (omega (arith, l, inside)) in
        (s', not_at_end n ns s b u e ∙ run, whole)
  ]

  stays_open :
      (ns : List ℕ) (s : Stream)
      → is_complete state ≡ false
      → (s' : Stream) × (get_results (later_turns state size ns) text s ≡ (text, goes_on s'))
  unfolding get_results
  stays_open [] s c = (s, refl)
  stays_open (n ∷ ns) s c = elim (list-cases (read_at text s.file_pos (suc n))) [
    | inl e ↦ let (s', run) = stays_open ns s c in (s', waits_at_end n ns s e c ∙ run)
    | inr (b, u, e) ↦
        let (s', run) = stays_open ns (send (b ∷ u) s) c in (s', not_at_end n ns s b u e ∙ run)
  ]

-- Once the unit is complete and its command writes no more, the stream closes as complete within
-- one turn more than there are bytes left to send, and has then sent the whole output from the
-- start position on: the conditions are that the file has at least the size in the status, and that
-- the turns read without a fault.
pub later_turns-completed :
    (state size start : ℕ) (text : Bytes) (ns : List ℕ)
    → is_complete state ≡ true
    → size ≤ length text
    → length text - start < length ns
    → (s : Stream) × (get_results (later_turns state size ns) text (begin_stream start)
        ≡ (text, ends completed s))
      × (s.sent ≡ drop start text)
later_turns-completed state size start text ns c h l =
    closes state size text start ns (begin_stream start) (begin_stream-IsPart start text) c h l

-- The stream of a canceled unit never closes by itself: however many turns read without a fault
-- after its command has stopped writing, the stream goes on.
pub later_turns-canceled :
    (size start : ℕ) (text : Bytes) (ns : List ℕ)
    → (s : Stream) × (get_results (later_turns canceled size ns) text (begin_stream start)
        ≡ (text, goes_on s))
unfolding get_results
later_turns-canceled size start text ns = stays_open canceled size text ns (begin_stream start) refl
