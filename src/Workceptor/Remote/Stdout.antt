-- ===== src/Workceptor/Remote/Stdout.antt =====
-- The local output of a unit on another node is a part of the remote one: monitorRemoteStdout here,
-- with the stream that GetResults makes there.
use receptor.Prelude.{
  ℕ, zero, suc, ◌≤◌, ◌≡◌, refl, sym, ap, ◌∙◌, Bool, true, ◌⊎◌, inl, inr, List, [], ◌∷◌, ◌++◌,
  append-nil, append_assoc, arith, length, take, drop, length-append, drop-append, Bytes,
}
use mathlib.Core.Path.{subst}
use receptor.Workceptor.Results.{
  Stream, begin_stream, StreamNext, goes_on as streams_on, ends as streams_end, Moment, get_results,
  stream_of,
}
use receptor.Workceptor.Results.Prefix.{
  IsCut, IsStreamed, get_results-IsStreamed, get_results-grows,
}
use receptor.Workceptor.Remote.{
  Trouble, no_connection, not_signed, not_opened, not_sent, not_read, not_streamed, Fetched,
  in_trouble, copied, whole, CopyNext, goes_on, ends, append_fetched, stdout_turn,
}

-- The local status at a turn, and what the remote command has written since the last one.
pub record Local : Type 0 where
  pub written : Bytes
  pub loads : Bool
  pub state : ℕ
  pub size : ℕ

-- A turn: its fetch fails, or the other node streams its results for some turns of its own, and the
-- connection delivers so many bytes of them before it ends.
pub data Visit : Type 0 where
  in_vain : Local → Trouble → Visit
  fetches : Local → List Moment → ℕ → Visit

-- The remote output after a turn, and the local one.
abbrev pub visit : Visit → Bytes → Bytes → Bytes × CopyNext
visit (in_vain l trouble) text stdout =
    (text ++ l.written, stdout_turn l.loads l.state l.size (in_trouble trouble) stdout)
visit (fetches l ms n) text stdout =
    let (text', next) = get_results ms (text ++ l.written) (begin_stream (length stdout)) in
    (text', stdout_turn l.loads l.state l.size (copied (take n (stream_of next).sent)) stdout)

abbrev pub local_of : CopyNext → Bytes
local_of (goes_on stdout) = stdout
local_of (ends e stdout) = stdout

abbrev then_visits : (Bytes → Bytes → Bytes × CopyNext) → Bytes × CopyNext → Bytes × CopyNext
then_visits f (text, goes_on stdout) = f text stdout
then_visits f (text, ends e stdout) = (text, ends e stdout)

unfoldable pub visits : List Visit → Bytes → Bytes → Bytes × CopyNext
visits [] text stdout = (text, goes_on stdout)
visits (v ∷ vs) text stdout = then_visits (visits vs) (visit v text stdout)

-- The local output is the first part of the remote one.
pub record IsCopy (text stdout : Bytes) : Type 0 where
  pub rest : Bytes
  pub parts : stdout ++ rest ≡ text

IsCopy-grown : (text more stdout : Bytes) → IsCopy text stdout → IsCopy (text ++ more) stdout
IsCopy-grown text more stdout copy = record {
  rest = copy.rest ++ more;
  parts = sym (append_assoc stdout copy.rest more) ∙ ap (λ t. t ++ more) copy.parts;
}

taken : (n : ℕ) (text : Bytes) → take n text ++ drop n text ≡ text
taken zero text = refl
taken (suc n) [] = refl
taken (suc n) (b ∷ text) = ap (λ t. b ∷ t) (taken n text)

IsStreamed-IsCut :
    (start : ℕ) (text : Bytes) (n : StreamNext)
    → IsStreamed start text n
    → IsCut start text (stream_of n)
IsStreamed-IsCut start text (streams_on s) p = record {
  rest = drop s.file_pos text;
  parts = p.parts;
}
IsStreamed-IsCut start text (streams_end e s) p = p

-- What is delivered of a part of the remote output that starts where the local one ends.
append-IsCopy :
    (text stdout : Bytes) (n : ℕ) (s : Stream)
    → IsCopy text stdout
    → IsCut (length stdout) text s
    → IsCopy text (stdout ++ take n s.sent)
append-IsCopy text stdout n s copy cut = record {
  rest = drop n s.sent ++ cut.rest;
  parts =
      append_assoc stdout (take n s.sent) (drop n s.sent ++ cut.rest)
      ∙ ap (λ t. stdout ++ t) (sym (append_assoc (take n s.sent) (drop n s.sent) cut.rest))
      ∙ ap (λ t. stdout ++ (t ++ cut.rest)) (taken n s.sent)
      ∙ ap (λ t. stdout ++ t) (cut.parts ∙ ap (drop (length stdout)) (sym copy.parts))
      ∙ ap (λ t. stdout ++ t) (drop-append stdout copy.rest (length stdout) refl)
      ∙ copy.parts;
}

stdout_turn-cases :
    (loads : Bool) (state size : ℕ) (fetched : Fetched) (stdout : Bytes)
    → (local_of (stdout_turn loads state size fetched stdout) ≡ stdout)
      ⊎ (local_of (stdout_turn loads state size fetched stdout)
          ≡ local_of (append_fetched fetched stdout))
unfolding stdout_turn
stdout_turn-cases loads state size fetched stdout = ground arith

stdout_turn-IsCopy :
    (loads : Bool) (state size : ℕ) (fetched : Fetched) (text stdout : Bytes)
    → IsCopy text stdout
    → IsCopy text (local_of (append_fetched fetched stdout))
    → IsCopy text (local_of (stdout_turn loads state size fetched stdout))
stdout_turn-IsCopy loads state size fetched text stdout p q =
    elim (stdout_turn-cases loads state size fetched stdout) [
      | inl e ↦ subst (IsCopy text) (sym e) p
      | inr e ↦ subst (IsCopy text) (sym e) q
    ]

trouble-IsCopy :
    (trouble : Trouble) (text stdout : Bytes)
    → IsCopy text stdout
    → IsCopy text (local_of (append_fetched (in_trouble trouble) stdout))
trouble-IsCopy no_connection text stdout p = p
trouble-IsCopy not_signed text stdout p = p
trouble-IsCopy not_opened text stdout p = p
trouble-IsCopy not_sent text stdout p = p
trouble-IsCopy not_read text stdout p = p
trouble-IsCopy not_streamed text stdout p = p

visit-IsCopy :
    (v : Visit) (text stdout : Bytes)
    → IsCopy text stdout
    → IsCopy (visit v text stdout).0 (local_of (visit v text stdout).1)
visit-IsCopy (in_vain l trouble) text stdout p =
    let q = IsCopy-grown text l.written stdout p in
    stdout_turn-IsCopy l.loads l.state l.size (in_trouble trouble) (text ++ l.written) stdout q
      (trouble-IsCopy trouble (text ++ l.written) stdout q)
visit-IsCopy (fetches l ms n) text stdout p =
    let start = length stdout in
    let r = get_results ms (text ++ l.written) (begin_stream start) in
    let (more, grown) = get_results-grows ms (text ++ l.written) (begin_stream start) in
    let q =
      subst (λ t. IsCopy t stdout) (sym grown)
        (IsCopy-grown (text ++ l.written) more stdout (IsCopy-grown text l.written stdout p)) in
    stdout_turn-IsCopy l.loads l.state l.size (copied (take n (stream_of r.1).sent)) r.0 stdout q (
      append-IsCopy r.0 stdout n (stream_of r.1) q
        (IsStreamed-IsCut start r.0 r.1 (get_results-IsStreamed start ms (text ++ l.written))))

then-IsCopy :
    (vs : List Visit) (r : Bytes × CopyNext)
    → ((text stdout : Bytes)
        → IsCopy text stdout
        → IsCopy (visits vs text stdout).0 (local_of (visits vs text stdout).1))
    → IsCopy r.0 (local_of r.1)
    → IsCopy (then_visits (visits vs) r).0 (local_of (then_visits (visits vs) r).1)
then-IsCopy vs (text, goes_on stdout) later p = later text stdout p
then-IsCopy vs (text, ends e stdout) later p = p

-- However often the connection breaks, and wherever, and whatever the remote command writes
-- meanwhile, the local output of a unit stays the first part of the remote one: nothing is lost,
-- repeated or out of order. The condition: it is that at the start, for instance empty.
pub visits-IsCopy :
    (vs : List Visit) (text stdout : Bytes)
    → IsCopy text stdout
    → IsCopy (visits vs text stdout).0 (local_of (visits vs text stdout).1)
unfolding visits
visits-IsCopy [] text stdout p = p
visits-IsCopy (v ∷ vs) text stdout p =
    then-IsCopy vs (visit v text stdout) (visits-IsCopy vs) (visit-IsCopy v text stdout p)

stdout_turn-whole :
    (state size : ℕ) (fetched : Fetched) (stdout out : Bytes)
    → stdout_turn true state size fetched stdout ≡ ends whole out
    → (out ≡ stdout) × (size ≤ length stdout)
unfolding stdout_turn
stdout_turn-whole state size (in_trouble trouble) stdout out e =
    (ground (arith, e), ground (arith, e))
stdout_turn-whole state size (copied text) stdout out e = (ground (arith, e), ground (arith, e))

no_rest :
    (text stdout rest : Bytes) → stdout ++ rest ≡ text → length text ≤ length stdout → stdout ≡ text
no_rest text stdout [] e h = sym (append-nil stdout) ∙ e
no_rest text stdout (b ∷ rest) e h =
    absurd (omega (arith, h, ap length e, length-append stdout (b ∷ rest)))

rest-nothing :
    (text stdout : Bytes) → IsCopy text stdout → length text ≤ length stdout → stdout ≡ text
rest-nothing text stdout p h = no_rest text stdout p.rest p.parts h

-- When the copying ends because the unit is complete, the local output is the whole remote one: the
-- condition is that the remote output is no longer than the size that the local status has then.
pub visits-whole :
    (vs : List Visit) (text t stdout out : Bytes) (state size : ℕ) (fetched : Fetched)
    → visits vs text [] ≡ (t, goes_on stdout)
    → stdout_turn true state size fetched stdout ≡ ends whole out
    → length t ≤ size
    → out ≡ t
visits-whole vs text t stdout out state size fetched run last short =
    let p : IsCopy t stdout =
      subst (λ r. IsCopy r.0 (local_of r.1)) run
        (visits-IsCopy vs text [] (record { rest = text; parts = refl })) in
    let (same_text, reached) = stdout_turn-whole state size fetched stdout out last in
    same_text ∙ rest-nothing t stdout p (omega (arith, short, reached))
