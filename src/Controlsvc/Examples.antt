-- ===== src/Controlsvc/Examples.antt =====
-- Tests of a session with one command, which counts its calls and echoes.
use receptor.Prelude.{
  ℕ, ◌+◌, ◌≡◌, refl, Option, none, some, List, [], ◌∷◌, ◌++◌, codes, arith, Bytes, same, length,
  ◌≤◌,
}
use mathlib.Core.Path.{subst}
use receptor.Prelude.Map.{Map, lookup}
use receptor.Netceptor.Firewall.{to_lower}
use receptor.Workceptor.Commands.Params.{Value}
use receptor.Controlsvc.{
  eof, broken, Conn, write, ParseError, parse_command, replies, ControlType, reply, run_command,
  run_line, session_loop,
}
use receptor.Controlsvc.Ending.{IsReading, session_loop_total}
use receptor.Controlsvc.Lines.{LeavesInput, serve, unlines, session_loop-serve}

abbrev echo_type : ControlType ℕ
echo_type = record {
  from_string = λ params s conn. ((s + 1, conn), replies params);
  from_json = λ data' s conn. ((s + 1, conn), replies (codes "{}"));
}

abbrev types : Map (ControlType ℕ)
types = (codes "echo", echo_type) ∷ []

abbrev unmarshal : Bytes → Option (Map Value)
unmarshal text = none

abbrev error_text : ParseError → Bytes
error_text e = codes "bad"

abbrev conn : Conn
conn = record { unread = []; ended = eof; writes_left = 9; written = [] }

only_echo : (name : Bytes) (type : ControlType ℕ) → lookup name types ≡ some type → echo_type ≡ type
unfolding lookup
only_echo name type e = ground (arith, e)

echo-LeavesInput : LeavesInput types unmarshal error_text
echo-LeavesInput = record {
  string_leaves = λ name params type s c e.
      subst
        (λ t.
          ((t.from_string params s c).0.1.unread ≡ c.unread)
          × ((t.from_string params s c).0.1.ended ≡ c.ended))
        (only_echo name type e) (refl, refl);
  json_leaves = λ name data' type s c e.
      subst
        (λ t.
          ((t.from_json data' s c).0.1.unread ≡ c.unread)
          × ((t.from_json data' s c).0.1.ended ≡ c.ended))
        (only_echo name type e) (refl, refl);
}

echo-IsReading : IsReading types unmarshal error_text
echo-IsReading = record {
  string_reads = λ name params type s c e.
      subst (λ t. length (t.from_string params s c).0.1.unread ≤ length c.unread)
        (only_echo name type e) (omega arith);
  json_reads = λ name data' type s c e.
      subst (λ t. length (t.from_json data' s c).0.1.unread ≤ length c.unread)
        (only_echo name type e) (omega arith);
}

abbrev lines : List Bytes
lines = codes "Echo a  b" ∷ [] ∷ codes "what" ∷ []

serve-lines :
    (serve types unmarshal error_text lines 0 conn).1.written
    ≡ (codes "a  b" ++ (10 ∷ [])) ∷ (codes "ERROR: Unknown command, what" ++ (10 ∷ [])) ∷ []
unfolding serve run_line run_command reply write parse_command to_lower lookup same
serve-lines = refl

session_loop-serve_example :
    session_loop types unmarshal error_text 4 0
      (record conn { unread = unlines lines; ended = eof })
    ≡ some (serve types unmarshal error_text lines 0 conn)
session_loop-serve_example =
    session_loop-serve types unmarshal error_text lines 4 0 conn echo-LeavesInput
      (refl, (refl, (refl, tt))) (omega arith)

-- The connection breaks in the middle of a line.
session_loop_total_example :
    (r : ℕ × Conn) × (session_loop types unmarshal error_text 9 0
        (record conn { unread = codes "echo a"; ended = broken })
      ≡ some r)
session_loop_total_example =
    session_loop_total types unmarshal error_text 9 0
      (record conn { unread = codes "echo a"; ended = broken }) echo-IsReading (omega arith)

-- A line of JSON that cannot be read is answered twice.
malformed-twice :
    (run_line types unmarshal error_text (codes "{}") 0 conn).conn.written
    ≡ (codes "ERROR: bad" ++ (10 ∷ [])) ∷ (codes "ERROR: Unknown command, " ++ (10 ∷ [])) ∷ []
unfolding run_line run_command write parse_command lookup same
malformed-twice = refl
