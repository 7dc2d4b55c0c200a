-- ===== src/Controlsvc/Lines.antt =====
-- A session answers the lines of its input one after another.
use receptor.Prelude.{
  ℕ, zero, suc, ◌<◌, ◌≡◌, refl, ap, ◌∙◌, Bool, true, false, not, ◌&&◌, inl, inr, Option, some, List,
  [], ◌∷◌, ◌++◌, ◌==◌, if◌then◌else◌, arith, length, All, Bytes, same, Bool-cases, Option-cases,
}
use receptor.Prelude.Map.{Map, lookup}
use receptor.Workceptor.Commands.Params.{Value}
use receptor.Controlsvc.{
  Ended, eof, broken, Conn, write, read_command_bytes, ParseError, Parsed, parse_command, Outcome,
  fails, replies, has_no_json, silent, ControlType, Served, reply, run_command, run_line,
  session_turn, session_loop, error_line,
}

-- A line without a line break or a carriage return.
abbrev pub is_plain : Bytes → Bool
is_plain [] = true
is_plain (b ∷ text) = not (b == 10) && (not (b == 13) && is_plain text)

abbrev pub unlines : List Bytes → Bytes
unlines [] = []
unlines (line ∷ lines) = line ++ (10 ∷ unlines lines)

read_command_bytes-line :
    (ended : Ended) (line rest : Bytes)
    → is_plain line ≡ true
    → read_command_bytes ended (line ++ (10 ∷ rest))
      ≡ record { bytes = line; hit_eof = false; should_close = false; rest = rest }
unfolding read_command_bytes
read_command_bytes-line eof [] rest h = refl
read_command_bytes-line broken [] rest h = refl
read_command_bytes-line eof (b ∷ line) rest h =
    ground (arith, h, read_command_bytes-line eof line rest)
read_command_bytes-line broken (b ∷ line) rest h =
    ground (arith, h, read_command_bytes-line broken line rest)

and_true : (b : Bool) → (b && true) ≡ b
and_true true = refl
and_true false = refl

module _ {S : Type 0} (types : Map (ControlType S)) (unmarshal : Bytes → Option (Map Value))
    (error_text : ParseError → Bytes) where
  abbrev with_input : Bytes → Conn → Conn
  with_input input conn = record conn { unread = input; ended = eof }

  -- The reference: the lines in turn, each on a connection from which it has been taken.
  unfoldable pub serve : List Bytes → S → Conn → S × Conn
  serve [] s conn = (s, with_input [] conn)
  serve (line ∷ lines) s conn =
      let conn' = with_input (unlines lines) conn in
      let served = run_line types unmarshal error_text line s conn' in
      let next = serve lines served.state served.conn in
      let same_next = serve lines s conn in
      if same line []
      then same_next
      else if served.goes_on
      then next
      else (served.state, served.conn)

  -- The commands leave the input of the connection as it is.
  pub record LeavesInput : Type 0 where
    pub string_leaves :
        (name params : Bytes) (type : ControlType S) (s : S) (conn : Conn)
        → lookup name types ≡ some type
        → ((type.from_string params s conn).0.1.unread ≡ conn.unread)
          × ((type.from_string params s conn).0.1.ended ≡ conn.ended)
    pub json_leaves :
        (name : Bytes) (data' : Map Value) (type : ControlType S) (s : S) (conn : Conn)
        → lookup name types ≡ some type
        → ((type.from_json data' s conn).0.1.unread ≡ conn.unread)
          × ((type.from_json data' s conn).0.1.ended ≡ conn.ended)

  -- The same input.
  abbrev SameInput : Conn → Conn → Type 0
  SameInput c d = (c.unread ≡ d.unread) × (c.ended ≡ d.ended)

  write-SameInput : (text : Bytes) (conn : Conn) → SameInput (write text conn).0 conn
  unfolding write
  write-SameInput text conn = (ground arith, ground arith)

  reply-SameInput :
      (o : Outcome) (s : S) (conn : Conn)
      → SameInput (reply types unmarshal error_text o s conn).conn conn
  unfolding reply write
  reply-SameInput (fails text) s conn = (ground arith, ground arith)
  reply-SameInput (replies text) s conn = (ground arith, ground arith)
  reply-SameInput (has_no_json text) s conn = (ground arith, ground arith)
  reply-SameInput silent s conn = (refl, refl)

  run_command-SameInput :
      (p : Parsed) (s : S) (conn : Conn)
      → LeavesInput
      → SameInput (run_command types unmarshal error_text p s conn).conn conn
  unfolding run_command write
  run_command-SameInput p s conn leaves = elim (Option-cases (lookup p.cmd types)) [
    | inl e ↦ (ground (arith, e), ground (arith, e))
    | inr (type, e) ↦ elim (Option-cases p.json_data) [
      | inl j ↦
          let ran = type.from_string p.params s conn in
          let (u, v) = reply-SameInput ran.1 ran.0.0 ran.0.1 in
          let (u', v') = leaves.string_leaves p.cmd p.params type s conn e in
          (ground (arith, e, j, u, u'), ground (arith, e, j, v, v'))
      | inr (data', j) ↦
          let ran = type.from_json data' s conn in
          let (u, v) = reply-SameInput ran.1 ran.0.0 ran.0.1 in
          let (u', v') = leaves.json_leaves p.cmd data' type s conn e in
          (ground (arith, e, j, u, u'), ground (arith, e, j, v, v'))
    ]
  ]

  run_line-SameInput :
      (line : Bytes) (s : S) (conn : Conn)
      → LeavesInput
      → SameInput (run_line types unmarshal error_text line s conn).conn conn
  unfolding run_line
  run_line-SameInput line s conn leaves =
      let p = parse_command unmarshal line in
      elim (Option-cases p.error) [
        | inl e ↦
            let (u, v) = run_command-SameInput p s conn leaves in
            (ground (arith, e, u), ground (arith, e, v))
        | inr (x, e) ↦
            let w = write (error_line (error_text x)) conn in
            let (u, v) = run_command-SameInput p s w.0 leaves in
            let (u', v') = write-SameInput (error_line (error_text x)) conn in
            (ground (arith, e, u, u'), ground (arith, e, v, v'))
      ]

  turn-end :
      (s : S) (conn : Conn)
      → session_turn types unmarshal error_text s (with_input [] conn)
        ≡ record { state = s; conn = with_input [] conn; goes_on = false }
  unfolding session_turn read_command_bytes same
  turn-end s conn = refl

  stay :
      (served : Served types unmarshal error_text)
      → record served { goes_on = served.goes_on && true } ≡ served
  stay served = λ i. record served { goes_on = and_true served.goes_on i }

  turn-line :
      (line rest : Bytes) (s : S) (conn : Conn)
      → is_plain line ≡ true
      → session_turn types unmarshal error_text s (with_input (line ++ (10 ∷ rest)) conn) ≡ (
          if same line []
          then record { state = s; conn = with_input rest conn; goes_on = true }
          else run_line types unmarshal error_text line s (with_input rest conn))
  unfolding session_turn
  turn-line line rest s conn p = ground (
    arith,
    read_command_bytes-line eof line rest p,
    stay (run_line types unmarshal error_text line s (with_input rest conn)),
  )

  go_on :
      (n : ℕ) (s : S) (conn : Conn) (served : Served types unmarshal error_text)
      → session_turn types unmarshal error_text s conn ≡ served
      → served.goes_on ≡ true
      → session_loop types unmarshal error_text (suc n) s conn
        ≡ session_loop types unmarshal error_text n served.state served.conn
  unfolding session_loop
  go_on n s conn served e g = ground (arith, e, g)

  stop :
      (n : ℕ) (s : S) (conn : Conn) (served : Served types unmarshal error_text)
      → session_turn types unmarshal error_text s conn ≡ served
      → served.goes_on ≡ false
      → session_loop types unmarshal error_text (suc n) s conn ≡ some (served.state, served.conn)
  unfolding session_loop
  stop n s conn served e g = ground (arith, e, g)

  -- A session whose input is lines of text is the reference: it answers each line in turn, loses
  -- none and splits none, and stops where the reference stops. The conditions: the lines have no
  -- line break or carriage return in them, the commands leave the input of the connection as it is,
  -- and there are more turns than lines.
  pub session_loop-serve :
      (lines : List Bytes) (n : ℕ) (s : S) (conn : Conn)
      → LeavesInput
      → All (λ line. is_plain line ≡ true) lines
      → length lines < n
      → session_loop types unmarshal error_text n s (with_input (unlines lines) conn)
        ≡ some (serve lines s conn)
  unfolding serve
  session_loop-serve lines zero s conn leaves plain h = absurd (omega (arith, h))
  session_loop-serve [] (suc n) s conn leaves plain h =
      stop n s (with_input [] conn)
        (record { state = s; conn = with_input [] conn; goes_on = false }) (turn-end s conn) refl
  session_loop-serve (line ∷ lines) (suc n) s conn leaves (p, plain) h =
      let conn' = with_input (unlines lines) conn in
      let served = run_line types unmarshal error_text line s conn' in
      let turn = turn-line line (unlines lines) s conn p in
      elim (Bool-cases (same line [])) [
        | inl e ↦
            go_on n s (with_input (line ++ (10 ∷ unlines lines)) conn)
              (record { state = s; conn = conn'; goes_on = true })
              (turn
                ∙ ap (λ b. if b then record { state = s; conn = conn'; goes_on = true } else served)
                    e)
              refl
            ∙ session_loop-serve lines n s conn leaves plain (omega (arith, h))
            ∙ ground (arith, e)
        | inr e ↦
            let here =
              turn
              ∙ ap (λ b. if b then record { state = s; conn = conn'; goes_on = true } else served)
                  e in
            elim (Bool-cases served.goes_on) [
              | inl g ↦
                  let (u, v) = run_line-SameInput line s conn' leaves in
                  let same_conn : served.conn ≡ with_input (unlines lines) served.conn =
                    λ i. record served.conn { unread = u i; ended = v i } in
                  go_on n s (with_input (line ++ (10 ∷ unlines lines)) conn) served here g
                  ∙ ap (session_loop types unmarshal error_text n served.state) same_conn
                  ∙ session_loop-serve lines n served.state served.conn leaves plain
                      (omega (arith, h))
                  ∙ ground (arith, e, g)
              | inr g ↦
                  stop n s (with_input (line ++ (10 ∷ unlines lines)) conn) served here g
                  ∙ ground (arith, e, g)
            ]
      ]
