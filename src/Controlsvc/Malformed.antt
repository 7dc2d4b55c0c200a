-- ===== src/Controlsvc/Malformed.antt =====
-- A command that cannot be parsed.
use receptor.Prelude.{ℕ, suc, ◌≡◌, true, Option, none, some, [], ◌∷◌, ◌++◌, arith, Bytes, codes}
use receptor.Prelude.Map.{Map, lookup}
use receptor.Workceptor.Commands.Params.{Value}
use receptor.Controlsvc.{
  Conn, write, ParseError, parse_command, ControlType, run_command, run_line, error_line,
}

no_cmd :
    (unmarshal : Bytes → Option (Map Value)) (line : Bytes) (e : ParseError)
    → (parse_command unmarshal line).error ≡ some e
    → (parse_command unmarshal line).cmd ≡ []
unfolding parse_command
no_cmd unmarshal [] e h = absurd (ground (arith, h))
no_cmd unmarshal (b ∷ text) e h = ground (arith, h)

module _ {S : Type 0} (types : Map (ControlType S)) (unmarshal : Bytes → Option (Map Value))
    (error_text : ParseError → Bytes) where
  -- A line that cannot be parsed has two replies, its error and then that the command, whose name is
  -- empty, is unknown, and nothing else happens: the conditions are that no command has the empty
  -- name, and that two writes succeed.
  pub run_line-malformed :
      (line : Bytes) (e : ParseError) (n : ℕ) (s : S) (conn : Conn)
      → (parse_command unmarshal line).error ≡ some e
      → lookup [] types ≡ none
      → conn.writes_left ≡ suc (suc n)
      → run_line types unmarshal error_text line s conn ≡ record {
        state = s;
        conn = record conn {
          writes_left = n;
          written =
              (conn.written ++ (error_line (error_text e) ∷ []))
              ++ ((codes "ERROR: Unknown command, " ++ (10 ∷ [])) ∷ []);
        };
        goes_on = true;
      }
  unfolding run_line run_command write
  run_line-malformed line e n s conn h u w = ground (arith, h, u, w, no_cmd unmarshal line e h)
