-- ===== src/Workceptor/Commands/Control.antt =====
-- What a work command does (controlsvc.go, ControlFunc). What the node, its units and the connection
-- answer is a parameter; what the command makes them do is a list of effects, in order.
pub mod Guarded
pub mod Forms
use receptor.Prelude.{
  ℕ, Bool, false, not, ◌&&◌, ◌||◌, Option, none, some, List, [], ◌∷◌, ◌++◌, ◌==◌, if◌then◌else◌,
  Bytes, codes, same,
}
use receptor.Prelude.Map.{Map}
use receptor.Netceptor.Firewall.{to_lower}
use receptor.Workceptor.State.{pending, failed, StatusFileData}
use receptor.Workceptor.Signature.{SignatureError, process_signature, sign_work_of}
use receptor.Workceptor.Commands.Params.{
  Value, str, int64, float64, bool, other, Field, field, refused, FieldError, missing, malformed,
  str_from_map, int_from_map, bool_from_map, str_or_empty, start_pos,
}
use receptor.Workceptor.Commands.Parsing.{Command}

-- A unit that a command asks for.
pub data Request : Type 0 where
  local : Bytes → Bytes → Map Bytes → Request  -- the type, the identifier, the parameters
  remote : Bytes → Bytes → Bytes → Bytes → Bytes → Bool → Map Bytes → Request  -- the node, the type, the identifier, the TLS client, the time to live, whether to sign, the parameters

-- How an operation of a unit comes out.
pub data Done : Type 0 where
  succeeds is_pending : Done
  fails : Bytes → Done

-- What the node and its units answer. Errors are texts.
pub record Answers : Type 0 where
  pub node_id : Bytes
  pub work_types : Map Bool
  pub verify : Bytes → Option SignatureError
  pub known_units : List Bytes
  pub find_unit : Bytes → Option StatusFileData
  pub allocate : Request → Option Bytes  -- the identifier
  pub opens_stdin : Bool
  pub read_error : Option Bytes  -- of the input data
  pub close_error : Option Bytes
  pub start : Done
  pub restart : Done
  pub cancel : Done
  pub release : Bool → Done
  pub opens_results : Bool
  pub writes_results : Bool

pub data Effect : Type 0 where
  allocates : Request → Effect
  updates : Bytes → ℕ → Bytes → Effect  -- `UpdateBasicStatus` of a unit
  reads_input : Bytes → Effect
  starts : Bytes → Effect
  cancels : Bytes → Effect
  releases : Bytes → Bool → Effect
  streams : Bytes → ℕ → Effect
  marks_adopted : Bytes → Bytes → Bool → Effect  -- the unit, the remote unit, whether to sign
  restarts : Bytes → Effect

pub data ControlError : Type 0 where
  bad_field : FieldError → ControlError
  bad_signature : SignatureError → ControlError
  ttl_for_local_work not_allocated no_stdin unknown_unit no_results not_written bad_command :
      ControlError
  input_error : Bytes → ControlError
  unit_error : Bytes → ControlError

pub data Reply : Type 0 where
  failure : ControlError → Reply
  result : Map Bytes → Reply
  statuses : List (Bytes × StatusFileData) → Reply
  nothing : Reply

-- A field that must be there.
abbrev need : {A : Type 0} → Field A → (A → Reply × List Effect) → Reply × List Effect
need (field a) f = f a
need (refused e) f = (failure (bad_field e), [])

-- A boolean that may be missing, but not malformed.
abbrev flag : Field Bool → (Bool → Reply × List Effect) → Reply × List Effect
flag (field b) f = f b
flag (refused missing) f = f false
flag (refused malformed) f = (failure (bad_field malformed), [])

-- An operation that the signature guards.
abbrev guarded : Option SignatureError → Reply × List Effect → Reply × List Effect
guarded none outcome = outcome
guarded (some e) outcome = (failure (bad_signature e), [])

-- What follows the first effect.
abbrev after : Effect → Reply × List Effect → Reply × List Effect
after e (reply, effects) = (reply, e ∷ effects)

-- The names that are no parameters of the work.
abbrev pub no_params : Bytes → Bool
no_params k =
    same k (codes "command")
    || (same k (codes "subcommand")
        || (same k (codes "node")
            || (same k (codes "worktype")
                || (same k (codes "tlsclient")
                    || (same k (codes "ttl")
                        || (same k (codes "signwork") || same k (codes "signature")))))))

abbrev text_of : Value → Option Bytes
text_of (str text) = some text
text_of (int64 n) = none
text_of (float64 n) = none
text_of (bool b) = none
text_of other = none

-- The parameters of the work: none if one is no string.
unfoldable pub work_params : Map Value → Option (Map Bytes)
work_params [] = some []
work_params ((k, v) ∷ params) =
    let rest = work_params params in
    if no_params k then rest else elim (text_of v) [
      | none ↦ none
      | some text ↦ elim rest [ none ↦ none | some found ↦ some ((k, text) ∷ found) ]
    ]

-- `strings.EqualFold(workNode, "localhost")`, which also takes U+017F for s.
abbrev long_s : Bytes → Bytes
long_s [] = []
long_s (a ∷ []) = a ∷ []
long_s (a ∷ b ∷ rest) =
    let short = b's' ∷ long_s rest in
    let plain = a ∷ long_s (b ∷ rest) in if a == 0xc5 && b == 0xbf then short else plain

-- The end of `submit`: the unit starts.
abbrev started : Answers → Bytes → Reply × List Effect
started a unit = elim a.start [
  | fails text ↦ (
    failure (unit_error text),
    starts unit ∷ updates unit failed (codes "Error starting worker: " ++ text) ∷ [],
  )
  | is_pending ↦ (
    result ((codes "unitid", unit) ∷ (codes "result", codes "Job Submitted") ∷ []),
    starts unit ∷ [],
  )
  | succeeds ↦ (
    result ((codes "unitid", unit) ∷ (codes "result", codes "Job Started") ∷ []),
    starts unit ∷ [],
  )
]

abbrev input_failed : Bytes → Bytes → Reply × List Effect
input_failed unit text = (
  failure (input_error text),
  updates unit failed (codes "Error reading input data: " ++ text) ∷ [],
)

-- `submit` once the unit is allocated.
pub submit_input : Answers → Bytes → Reply × List Effect
submit_input a unit =
    if not a.opens_stdin
    then (failure no_stdin, [])
    else after (updates unit pending (codes "Waiting for Input Data")) (
        after (reads_input unit) (elim a.read_error [
          | some text ↦ input_failed unit text
          | none ↦ elim a.close_error [
            | some text ↦ input_failed unit text
            | none ↦ after (updates unit pending (codes "Starting Worker")) (started a unit)
          ]
        ]))

abbrev allocated : Answers → Request → (Bytes → Reply × List Effect) → Reply × List Effect
allocated a request f =
    after (allocates request)
      (elim (a.allocate request) [ none ↦ (failure not_allocated, []) | some unit ↦ f unit ])

-- `submit` once the signature is good.
unfoldable pub submit_work :
    Answers → Map Value → Bytes → Bytes → Bool → Map Bytes → Reply × List Effect
unfolding submit_input str_from_map to_lower
submit_work a params node work_type sign_work found =
    let ttl = str_or_empty params (codes "ttl") in
    let unit_id = str_or_empty params (codes "workUnitID") in
    if same node a.node_id || same (to_lower (long_s node)) (codes "localhost")
    then (if not (same ttl [])
        then (failure ttl_for_local_work, [])
        else allocated a (local work_type unit_id found) (submit_input a))
    else allocated a
        (remote node work_type unit_id (str_or_empty params (codes "tlsclient")) ttl sign_work
          found)
        (submit_input a)

-- `submit`
unfoldable pub submit : Answers → Bool → Map Value → Reply × List Effect
unfolding str_from_map bool_from_map work_params submit_work process_signature
submit a conn_is_unix params = need (str_from_map params (codes "node")) (λ node.
    need (str_from_map params (codes "worktype")) (λ work_type.
      flag (bool_from_map params (codes "signwork")) (λ sign_work. elim (work_params params) [
        | none ↦ (failure (bad_field malformed), [])
        | some found ↦
            guarded
              (process_signature a.verify a.work_types work_type
                (str_or_empty params (codes "signature")) conn_is_unix sign_work)
              (submit_work a params node work_type sign_work found)
      ])))

-- The statuses of units; none if one is unknown.
pub statuses_of :
    (Bytes → Option StatusFileData) → List Bytes → Option (List (Bytes × StatusFileData))
statuses_of find [] = some []
statuses_of find (unit ∷ units) =
    let rest = statuses_of find units in
    elim (find unit) [
      | none ↦ none
      | some status ↦ elim rest [ none ↦ none | some found ↦ some ((unit, status) ∷ found) ]
    ]

abbrev found_statuses : Option (List (Bytes × StatusFileData)) → Reply × List Effect
found_statuses none = (failure unknown_unit, [])
found_statuses (some found) = (statuses found, [])

-- `list`
pub list_units : Answers → Map Value → Reply × List Effect
unfolding str_from_map statuses_of
list_units a params = elim (str_from_map params (codes "unitid")) [
  | field unit ↦ found_statuses (statuses_of a.find_unit (unit ∷ []))
  | refused e ↦ found_statuses (statuses_of a.find_unit a.known_units)
]

-- `status`
pub unit_status : Answers → Map Value → Reply × List Effect
unfolding str_from_map statuses_of
unit_status a params =
    need (str_from_map params (codes "unitid"))
      (λ unit. found_statuses (statuses_of a.find_unit (unit ∷ [])))

-- The signature of a command on a unit, by the type of the unit and whether its work is signed.
abbrev pub unit_signature : Answers → Bool → Map Value → StatusFileData → Option SignatureError
unit_signature a conn_is_unix params status =
    process_signature a.verify a.work_types status.work_type
      (str_or_empty params (codes "signature")) conn_is_unix (sign_work_of status.extra_data)

abbrev reply_done : Done → Bytes → Bytes → Bytes → Reply
reply_done succeeds unit pending_name complete_name = result ((complete_name, unit) ∷ [])
reply_done is_pending unit pending_name complete_name = result ((pending_name, unit) ∷ [])
reply_done (fails text) unit pending_name complete_name = failure (unit_error text)

abbrev cancelled : Answers → Bytes → Bytes → Reply × List Effect
cancelled a subcommand unit =
    if same subcommand (codes "cancel")
    then (reply_done a.cancel unit (codes "cancel pending") (codes "cancelled"), cancels unit ∷ [])
    else (let force = same subcommand (codes "force-release") in
        (
          reply_done (a.release force) unit (codes "release pending") (codes "released"),
          releases unit force ∷ [],
        ))

-- `cancel`, `release` and `force-release`
pub cancel_or_release : Answers → Bool → Bytes → Map Value → Reply × List Effect
unfolding str_from_map process_signature
cancel_or_release a conn_is_unix subcommand params =
    need (str_from_map params (codes "unitid")) (λ unit. elim (a.find_unit unit) [
      | none ↦ (failure unknown_unit, [])
      | some status ↦
          guarded (unit_signature a conn_is_unix params status) (cancelled a subcommand unit)
    ])

abbrev streamed : Answers → Bytes → ℕ → Reply × List Effect
streamed a unit position =
    if not a.opens_results
    then (failure no_results, [])
    else ((if a.writes_results then nothing else failure not_written), streams unit position ∷ [])

-- `results`
pub results : Answers → Bool → Map Value → Reply × List Effect
unfolding str_from_map int_from_map process_signature
results a conn_is_unix params = need (str_from_map params (codes "unitid")) (λ unit.
    elim (a.find_unit unit) [
      | none ↦ (failure unknown_unit, [])
      | some status ↦
          guarded (unit_signature a conn_is_unix params status)
            (streamed a unit (start_pos (int_from_map params (codes "startpos"))))
    ])

-- `finalizeAdoptRestart`, after the restart.
abbrev finalize_adopt_restart : Done → Bytes → Reply × List Effect
finalize_adopt_restart (fails text) unit = (
  failure (unit_error text),
  updates unit failed (codes "Error adopting remote work: " ++ text) ∷ [],
)
finalize_adopt_restart is_pending unit =
    (result ((codes "unitid", unit) ∷ (codes "result", codes "Adopt Pending") ∷ []), [])
finalize_adopt_restart succeeds unit =
    (result ((codes "unitid", unit) ∷ (codes "result", codes "Adopted") ∷ []), [])

-- `adopt` once the signature is good.
abbrev adopted : Answers → Bytes → Bytes → Bytes → Bool → Reply × List Effect
adopted a node remote_unit tls_client sign_work =
    allocated a (remote node [] remote_unit tls_client [] sign_work []) (λ unit.
      after (marks_adopted unit remote_unit sign_work) (
        after (updates unit pending (codes "Adopting Remote Work"))
          (after (restarts unit) (finalize_adopt_restart a.restart unit))))

-- `adopt`
pub adopt : Answers → Bool → Map Value → Reply × List Effect
unfolding str_from_map bool_from_map process_signature
adopt a conn_is_unix params = need (str_from_map params (codes "node")) (λ node.
    need (str_from_map params (codes "unitid")) (λ unit.
      flag (bool_from_map params (codes "signwork")) (λ sign_work.
        guarded
          (process_signature a.verify a.work_types (codes "remote")
            (str_or_empty params (codes "signature")) conn_is_unix sign_work)
          (adopted a node unit (str_or_empty params (codes "tlsclient")) sign_work))))

-- `ControlFunc`
unfoldable pub control_func : Answers → Bool → Command → Reply × List Effect
control_func a conn_is_unix c =
    if same c.subcommand (codes "submit")
    then submit a conn_is_unix c.params
    else if same c.subcommand (codes "list")
    then list_units a c.params
    else if same c.subcommand (codes "status")
    then unit_status a c.params
    else if same c.subcommand (codes "cancel")
    then cancel_or_release a conn_is_unix c.subcommand c.params
    else if same c.subcommand (codes "release")
    then cancel_or_release a conn_is_unix c.subcommand c.params
    else if same c.subcommand (codes "force-release")
    then cancel_or_release a conn_is_unix c.subcommand c.params
    else if same c.subcommand (codes "results")
    then results a conn_is_unix c.params
    else if same c.subcommand (codes "adopt")
    then adopt a conn_is_unix c.params
    else (failure bad_command, [])
