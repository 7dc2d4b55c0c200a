-- ===== src/Controlsvc/Ending.antt =====
-- That a session ends.
use receptor.Prelude.{
  ℕ, zero, suc, ◌≤◌, ◌<◌, ◌≡◌, refl, ap, true, ◌⊎◌, inl, inr, Option, some, [], ◌∷◌, arith, length,
  Bytes, Bool-cases, Option-cases,
}
use receptor.Prelude.Map.{Map, lookup}
use receptor.Workceptor.Commands.Params.{Value}
use receptor.Controlsvc.{
  Ended, eof, broken, Conn, write, read_command_bytes, ParseError, Parsed, parse_command, Outcome,
  fails, replies, has_no_json, silent, ControlType, reply, run_command, run_line, session_turn,
  session_loop, error_line,
}

-- A line is read with at least a byte, or it is the last one.
read_command_bytes-shorter :
    (ended : Ended) (input : Bytes)
    → (length (read_command_bytes ended input).rest < length input)
      ⊎ ((read_command_bytes ended input).hit_eof ≡ true)
      ⊎ ((read_command_bytes ended input).should_close ≡ true)
unfolding read_command_bytes
read_command_bytes-shorter eof [] = inr (inl refl)
read_command_bytes-shorter broken [] = inr (inr refl)
read_command_bytes-shorter eof (b ∷ input) = ground (arith, read_command_bytes-shorter eof input)
read_command_bytes-shorter broken (b ∷ input) =
    ground (arith, read_command_bytes-shorter broken input)

write-unread : (text : Bytes) (conn : Conn) → (write text conn).0.unread ≡ conn.unread
unfolding write
write-unread text conn = ground (arith)

module _ {S : Type 0} (types : Map (ControlType S)) (unmarshal : Bytes → Option (Map Value))
    (error_text : ParseError → Bytes) where
  -- The commands read from the connection, and put nothing back.
  pub record IsReading : Type 0 where
    pub string_reads :
        (name params : Bytes) (type : ControlType S) (s : S) (conn : Conn)
        → lookup name types ≡ some type
        → length (type.from_string params s conn).0.1.unread ≤ length conn.unread
    pub json_reads :
        (name : Bytes) (data' : Map Value) (type : ControlType S) (s : S) (conn : Conn)
        → lookup name types ≡ some type
        → length (type.from_json data' s conn).0.1.unread ≤ length conn.unread

  reply-unread :
      (o : Outcome) (s : S) (conn : Conn)
      → (reply types unmarshal error_text o s conn).conn.unread ≡ conn.unread
  unfolding reply write
  reply-unread (fails text) s conn = ground arith
  reply-unread (replies text) s conn = ground arith
  reply-unread (has_no_json text) s conn = ground arith
  reply-unread silent s conn = refl

  run_command-unread :
      (p : Parsed) (s : S) (conn : Conn)
      → IsReading
      → length (run_command types unmarshal error_text p s conn).conn.unread ≤ length conn.unread
  unfolding run_command write
  run_command-unread p s conn reads = elim (Option-cases (lookup p.cmd types)) [
    | inl e ↦ ground (arith, e)
    | inr (type, e) ↦ elim (Option-cases p.json_data) [
      | inl j ↦
          let ran = type.from_string p.params s conn in
          ground (
            arith,
            e,
            j,
            reads.string_reads p.cmd p.params type s conn e,
            ap length (reply-unread ran.1 ran.0.0 ran.0.1),
          )
      | inr (data', j) ↦
          let ran = type.from_json data' s conn in
          ground (
            arith,
            e,
            j,
            reads.json_reads p.cmd data' type s conn e,
            ap length (reply-unread ran.1 ran.0.0 ran.0.1),
          )
    ]
  ]

  run_line-unread :
      (line : Bytes) (s : S) (conn : Conn)
      → IsReading
      → length (run_line types unmarshal error_text line s conn).conn.unread ≤ length conn.unread
  unfolding run_line
  run_line-unread line s conn reads =
      let p = parse_command unmarshal line in
      elim (Option-cases p.error) [
        | inl e ↦ ground (arith, e, run_command-unread p s conn reads)
        | inr (x, e) ↦
            let w = write (error_line (error_text x)) conn in
            ground (
              arith,
              e,
              ap length (write-unread (error_line (error_text x)) conn),
              run_command-unread p s w.0 reads,
            )
      ]

  session_turn-shorter :
      (s : S) (conn : Conn)
      → IsReading
      → (session_turn types unmarshal error_text s conn).goes_on ≡ true
      → length (session_turn types unmarshal error_text s conn).conn.unread < length conn.unread
  unfolding session_turn
  session_turn-shorter s conn reads g =
      let line = read_command_bytes conn.ended conn.unread in
      ground (
        arith,
        g,
        read_command_bytes-shorter conn.ended conn.unread,
        run_line-unread line.bytes s (record conn { unread = line.rest }) reads,
      )

  -- A session ends: as many turns as there are bytes to be read, and one more, are enough, whatever
  -- the commands do and however the input ends. The condition is that the commands put nothing back
  -- into the input of the connection.
  pub session_loop_total :
      (n : ℕ) (s : S) (conn : Conn)
      → IsReading
      → length conn.unread < n
      → (r : S × Conn) × (session_loop types unmarshal error_text n s conn ≡ some r)
  unfolding session_loop
  session_loop_total zero s conn reads h = absurd (omega (arith, h))
  session_loop_total (suc n) s conn reads h =
      let served = session_turn types unmarshal error_text s conn in
      elim (Bool-cases served.goes_on) [
        | inl g ↦
            let (r, e) =
              session_loop_total n served.state served.conn reads
                (omega (arith, h, session_turn-shorter s conn reads g)) in
            (r, ground (arith, g, e))
        | inr g ↦ ((served.state, served.conn), ground (arith, g))
      ]
