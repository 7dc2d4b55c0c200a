-- ===== src/Controlsvc.antt =====
-- A session of the control service (pkg/controlsvc/controlsvc.go): lines of commands from a
-- connection, and their replies. The commands are an interface, and JSON is a parameter.
pub mod Lines
pub mod Ending
pub mod Malformed
pub mod Reload
pub mod Examples
use receptor.Prelude.{
  ℕ, zero, suc, Bool, true, false, not, ◌&&◌, Option, none, some, List, [], ◌∷◌, ◌++◌, ◌==◌,
  if◌then◌else◌, Bytes, codes, same,
}
use receptor.Prelude.Map.{Map, lookup, insert, has_key}
use receptor.Netceptor.Firewall.{to_lower}
use receptor.Workceptor.Commands.Params.{Value, str, int64, float64, bool, other}

-- How the input of a connection ends.
pub data Ended : Type 0 where
  eof broken : Ended

-- A connection: what is still to be read, how it ends, how many writes succeed, and what has been
-- written.
pub record Conn : Type 0 where
  pub unread : Bytes
  pub ended : Ended
  pub writes_left : ℕ
  pub written : List Bytes

-- `writeToConnWithLog`: true on an error.
pub write : Bytes → Conn → Conn × Bool
write text conn = elim conn.writes_left [
  | zero ↦ (conn, true)
  | suc n ↦ (record conn { writes_left = n; written = conn.written ++ (text ∷ []) }, false)
]

-- A line, whether the input has ended, whether to close, and the rest of the input.
pub record Line : Type 0 where
  pub bytes : Bytes
  pub hit_eof : Bool
  pub should_close : Bool
  pub rest : Bytes

-- `readCommandBytes`, a byte at a time.
pub read_command_bytes : Ended → Bytes → Line
read_command_bytes eof [] = record { bytes = []; hit_eof = true; should_close = false; rest = [] }
read_command_bytes broken [] = record {
  bytes = [];
  hit_eof = false;
  should_close = true;
  rest = [];
}
read_command_bytes ended (b ∷ input) =
    let later = read_command_bytes ended input in
    if b == 13
    then later
    else if b == 10
    then record { bytes = []; hit_eof = false; should_close = false; rest = input }
    else record later { bytes = b ∷ later.bytes }

pub data ParseError : Type 0 where
  not_json no_command command_not_a_string : ParseError

-- The command, its parameters or its JSON, and the error.
pub record Parsed : Type 0 where
  pub cmd : Bytes
  pub params : Bytes
  pub json_data : Option (Map Value)
  pub error : Option ParseError

abbrev from_json : Map Value → Parsed
from_json data' =
    let of : Bytes → Option ParseError → Parsed =
      λ cmd e. record { cmd = cmd; params = []; json_data = some data'; error = e } in
    elim (lookup (codes "command") data') [
      | none ↦ of [] (some no_command)
      | some value ↦ elim value [
        | str cmd ↦ of cmd none
        | int64 n ↦ of [] (some command_not_a_string)
        | float64 n ↦ of [] (some command_not_a_string)
        | bool b ↦ of [] (some command_not_a_string)
        | other ↦ of [] (some command_not_a_string)
      ]
    ]

-- `strings.SplitN(s, " ", 2)`: the first word, and what follows it.
abbrev pub split_once : Bytes → Bytes × Bytes
split_once [] = ([], [])
split_once (b ∷ text) =
    let (word, rest) = split_once text in if b == 32 then ([], text) else (b ∷ word, rest)

abbrev from_words : Bytes × Bytes → Parsed
from_words (word, rest) = record {
  cmd = to_lower word;
  params = rest;
  json_data = none;
  error = none;
}

-- `parseCommand`, on a line that is not empty.
pub parse_command : (Bytes → Option (Map Value)) → Bytes → Parsed
unfolding to_lower
parse_command unmarshal [] = from_words ([], [])
parse_command unmarshal (b ∷ text) =
    if b == b'{'
    then elim (unmarshal (b ∷ text)) [
      | none ↦ record { cmd = []; params = []; json_data = none; error = some not_json }
      | some data' ↦ from_json data'
    ]
    else from_words (split_once (b ∷ text))

-- What a command comes to: an error, a result as JSON text, a result that has no JSON text, or
-- nothing to say.
pub data Outcome : Type 0 where
  fails : Bytes → Outcome
  replies : Bytes → Outcome
  has_no_json : Bytes → Outcome
  silent : Outcome

-- `ControlCommandType`: a command from its parameters or from JSON, on a state that the commands
-- share and on the connection, which it may read and write.
pub record ControlType (S : Type 0) : Type 0 where
  pub from_string : Bytes → S → Conn → (S × Conn) × Outcome
  pub from_json : Map Value → S → Conn → (S × Conn) × Outcome

-- `AddControlFunc`; false on an error.
pub add_control_func :
    {S : Type 0} → Bytes → ControlType S → Map (ControlType S) → Map (ControlType S) × Bool
add_control_func name type types =
    if has_key name types then (types, false) else (insert name type types, true)

abbrev pub error_line : Bytes → Bytes
error_line text = codes "ERROR: " ++ (text ++ (10 ∷ []))

module _ {S : Type 0} (types : Map (ControlType S)) (unmarshal : Bytes → Option (Map Value))
    (error_text : ParseError → Bytes) where
  -- The state, the connection, and whether the session goes on.
  pub record Served : Type 0 where
    pub state : S
    pub conn : Conn
    pub goes_on : Bool

  abbrev wrote : S → Conn × Bool → Served
  wrote s (conn, failed) = record { state = s; conn = conn; goes_on = not failed }

  -- The reply to a command.
  pub reply : Outcome → S → Conn → Served
  unfolding write
  reply (fails text) s conn = wrote s (write (error_line text) conn)
  reply (replies text) s conn = wrote s (write (text ++ (10 ∷ [])) conn)
  reply silent s conn = record { state = s; conn = conn; goes_on = true }
  reply (has_no_json text) s conn =
      let (conn', failed) =
        write (codes "ERROR: could not convert response to JSON: " ++ (text ++ (10 ∷ []))) conn in
      if failed
      then record { state = s; conn = conn'; goes_on = false }
      else wrote s (write (10 ∷ []) conn')

  -- A command is looked up and run.
  pub run_command : Parsed → S → Conn → Served
  unfolding reply write
  run_command p s conn = elim (lookup p.cmd types) [
    | none ↦ wrote s (write (codes "ERROR: Unknown command, " ++ (p.cmd ++ (10 ∷ []))) conn)
    | some type ↦
        let ran : (S × Conn) × Outcome = elim p.json_data [
          | none ↦ type.from_string p.params s conn
          | some data' ↦ type.from_json data' s conn
        ] in
        reply ran.1 ran.0.0 ran.0.1
  ]

  -- A line that is not empty.
  pub run_line : Bytes → S → Conn → Served
  unfolding run_command write parse_command
  run_line line s conn =
      let p = parse_command unmarshal line in
      elim p.error [
        | none ↦ run_command p s conn
        | some e ↦
            let (conn', failed) = write (error_line (error_text e)) conn in
            if failed
            then record { state = s; conn = conn'; goes_on = false }
            else run_command p s conn'
      ]

  -- What a turn of `RunControlSession` leaves, and whether there is another one.
  pub session_turn : S → Conn → Served
  unfolding run_line read_command_bytes
  session_turn s conn =
      let line = read_command_bytes conn.ended conn.unread in
      let conn' = record conn { unread = line.rest } in
      let served = run_line line.bytes s conn' in
      if line.should_close
      then record { state = s; conn = conn'; goes_on = false }
      else if same line.bytes []
      then record { state = s; conn = conn'; goes_on = not line.hit_eof }
      else record served { goes_on = served.goes_on && not line.hit_eof }

  -- The loop of `RunControlSession`: none if the turns are used up.
  pub session_loop : ℕ → S → Conn → Option (S × Conn)
  unfolding session_turn
  session_loop zero s conn = none
  session_loop (suc n) s conn =
      let served = session_turn s conn in
      let later = session_loop n served.state served.conn in
      if served.goes_on then later else some (served.state, served.conn)

  -- `RunControlSession`, with the greeting.
  pub run_control_session : ℕ → Bytes → S → Conn → Option (S × Conn)
  unfolding session_loop write
  run_control_session n node_id s conn =
      let (conn', failed) =
        write (codes "Receptor Control, node " ++ (node_id ++ (10 ∷ []))) conn in
      if failed then some (s, conn') else session_loop n s conn'
