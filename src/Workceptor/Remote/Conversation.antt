-- ===== src/Workceptor/Remote/Conversation.antt =====
-- What the node says to another one about a unit (remote_work.go, StartRemoteUnit and
-- cancelOrReleaseRemoteUnit). What the connection and the file system do is an argument.
pub mod Fields
pub mod Submitted
pub mod Examples
use receptor.Prelude.{
  ℕ, Bool, true, false, not, ◌&&◌, ◌||◌, Option, none, some, [], ◌∷◌, ◌==◌, leb, ltb, if◌then◌else◌,
  length, take, drop, Bytes, codes, has_prefix, same,
}
use receptor.Prelude.Map.{Map, insert}
use receptor.Workceptor.State.{nil, remote, command, untyped, RemoteExtraData, Codec, Fault}
use receptor.Workceptor.Status.{Change}
use receptor.Workceptor.Remote.{RemoteUnit, update_full}

-- What happens in a conversation: the signature, the two writes, the first line, the stdin file, its
-- copy and its end, and the second line.
pub record Talk : Type 0 where
  pub signature : Option Bytes
  pub sends : Bool
  pub first_line : Option Bytes
  pub opens_stdin : Bool
  pub copies_stdin : Bool
  pub closes : Bool
  pub second_line : Option Bytes

pub data TalkResult : Type 0 where
  done not_signed not_sent not_read not_parsed no_stdin stdin_not_sent not_closed panicked :
      TalkResult
  remote_error : Bytes → TalkResult

-- The command of `StartRemoteUnit`: the parameters, and then its own fields over them.
pub submit_fields : Bytes → RemoteExtraData → Map Bytes
submit_fields unit_id red = insert (codes "tlsclient") red.tls_client (
    insert (codes "worktype") red.remote_work_type (
      insert (codes "node") red.remote_node (
        insert (codes "subcommand") (codes "submit") (
          insert (codes "command") (codes "work")
            (insert (codes "workUnitID") unit_id red.remote_params)))))

-- The fields with a signature, if the work is signed: none if it cannot be signed.
abbrev pub signed : Bool → Option Bytes → Map Bytes → Option (Map Bytes)
signed false signature fields = some fields
signed true none fields = none
signed true (some signature) fields = some (insert (codes "signature") signature fields)

abbrev is_alnum : ℕ → Bool
is_alnum b = leb b'0' b && leb b b'9' || (leb b'A' b && leb b b'Z' || leb b'a' b && leb b b'z')

-- A longest run of letters and digits, and what follows it.
abbrev alnum_run : Bytes → Bytes × Bytes
alnum_run [] = ([], [])
alnum_run (b ∷ text) =
    let (run, rest) = alnum_run text in if is_alnum b then (b ∷ run, rest) else ([], b ∷ text)

abbrev ended_run : Bytes × Bytes → Option Bytes
ended_run ([], rest) = none
ended_run (b ∷ run, []) = none
ended_run (b ∷ run, c ∷ rest) = if c == b'.' then some (b ∷ run) else none

-- The submatch of `with ID ([a-zA-Z0-9]+)\.`, leftmost.
pub find_id : Bytes → Option Bytes
find_id [] = none
find_id (b ∷ text) =
    let later = find_id text in
    if has_prefix (b ∷ text) (codes "with ID ")
    then elim (ended_run (alnum_run (drop 8 (b ∷ text)))) [ none ↦ later | some id ↦ some id ]
    else later

-- The submatch of `ERROR: (.*)`, to the end of the line.
abbrev to_line_end : Bytes → Bytes
to_line_end [] = []
to_line_end (b ∷ text) = let rest = to_line_end text in if b == 10 then [] else b ∷ rest

pub find_error : Bytes → Option Bytes
find_error [] = none
find_error (b ∷ text) =
    let later = find_error text in
    if has_prefix (b ∷ text) (codes "ERROR: ")
    then some (to_line_end (drop 7 (b ∷ text)))
    else later

abbrev with_extra : (RemoteExtraData → RemoteExtraData) → Change
with_extra f v = elim v.extra_data [
  | remote red ↦ some (record v { extra_data = remote (f red) })
  | nil ↦ none
  | command ced ↦ none
  | untyped text ↦ none
]

abbrev pub identified : Bytes → Change
identified id = with_extra (λ red. record red { remote_unit_id = id })

abbrev pub marked_started : Change
marked_started = with_extra (λ red. record red { remote_started = true })

-- The end of the conversation, after the identifier is recorded.
pub send_input : Codec → Fault → Talk → RemoteUnit → RemoteUnit × TalkResult
unfolding update_full find_error
send_input c on_started talk u =
    if not talk.opens_stdin
    then (u, no_stdin)
    else if not talk.copies_stdin
    then (u, stdin_not_sent)
    else if not talk.closes
    then (u, not_closed)
    else elim talk.second_line [
      | none ↦ (u, not_read)
      | some line ↦ elim (find_error line) [
        | some text ↦ (u, remote_error text)
        | none ↦ (update_full c on_started marked_started u, done)
      ]
    ]

-- `StartRemoteUnit`: the unit, the fields that were sent, if any, and the result.
pub start_remote_unit :
    Codec
    → Fault
    → Fault
    → Talk
    → Bytes
    → RemoteExtraData
    → RemoteUnit
    → (RemoteUnit × Option (Map Bytes)) × TalkResult
unfolding submit_fields find_id send_input update_full
start_remote_unit c on_id on_started talk unit_id red u =
    elim (signed red.sign_work talk.signature (submit_fields unit_id red)) [
      | none ↦ ((u, none), not_signed)
      | some fields ↦ if not talk.sends then ((u, none), not_sent) else elim talk.first_line [
        | none ↦ ((u, some fields), not_read)
        | some line ↦ elim (find_id line) [
          | none ↦ ((u, some fields), not_parsed)
          | some id ↦
              let (u', result) =
                send_input c on_started talk (update_full c on_id (identified id) u) in
              ((u', some fields), result)
        ]
      ]
    ]

abbrev order_name : Bool → Bytes
order_name true = codes "release"
order_name false = codes "cancel"

-- `cancelOrReleaseRemoteUnit`: the fields that were sent, and the result. The reply is sliced
-- without a test of its length.
pub order_remote_unit : Talk → Bool → RemoteExtraData → Option (Map Bytes) × TalkResult
order_remote_unit talk release red =
    let fields =
      (codes "command", codes "work")
      ∷ (codes "subcommand", order_name release)
      ∷ (codes "unitid", red.remote_unit_id)
      ∷ [] in
    elim (signed red.sign_work talk.signature fields) [
      | none ↦ (none, not_signed)
      | some sent ↦ if not talk.sends then (none, not_sent) else elim talk.first_line [
        | none ↦ (some sent, not_read)
        | some line ↦
            if ltb (length line) 5
            then (some sent, panicked)
            else if same (take 5 line) (codes "ERROR")
            then (if ltb (length line) 6
                then (some sent, panicked)
                else (some sent, remote_error (drop 6 line)))
            else (some sent, done)
      ]
    ]
