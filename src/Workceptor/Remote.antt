-- ===== src/Workceptor/Remote.antt =====
-- Units on other nodes (remote_work.go): what the local node records of one, and how it copies the
-- output. Connections are parameters: what they deliver is an argument.
pub mod Stdout
pub mod Recorded
pub mod Lifecycle
pub mod Allocation
pub mod Conversation
pub mod Examples
use receptor.Prelude.{
  ℕ, ◌+◌, Bool, false, not, ◌&&◌, ◌||◌, Option, none, some, [], ◌∷◌, ◌++◌, ◌==◌, leb, ltb,
  if◌then◌else◌, length, take, Bytes, codes, same, has_prefix,
}
use receptor.Prelude.Map.{Map}
use receptor.Netceptor.Firewall.{to_lower}
use receptor.Workceptor.State.{
  pending, succeeded, failed, canceled, is_complete, ExtraData, nil, remote, command, untyped,
  StatusFileData, Codec, Fault, lock_fails, open_fails, seek_fails, IoError,
}
use receptor.Workceptor.Status.{File, Change, update_full_status, basic, load_from_file, created}

-- The status of a unit in memory, its file, and the error of the last update.
pub record RemoteUnit : Type 0 where
  pub status : StatusFileData
  pub file : File
  pub last_update_error : Option IoError

-- `BaseWorkUnit.UpdateFullStatus`
pub update_full : Codec → Fault → Change → RemoteUnit → RemoteUnit
update_full c fault change u =
    let st = update_full_status c fault change u.status u.file in
    record { status = st.memory; file = st.file; last_update_error = st.error }

-- `strings.Contains`
abbrev pub contains : Bytes → Bytes → Bool
contains [] part = has_prefix [] part
contains (b ∷ text) part = has_prefix (b ∷ text) part || contains text part

-- `getCryptoErrorDetail`
pub crypto_error_detail : Bytes → Bytes
crypto_error_detail text =
    if contains text (codes "CRYPTO_BUFFER_EXCEEDED")
    then codes
        "QUIC crypto buffer exceeded. CA bundle may be too large (limit: 16KB). See KCS 7129200: "
      ++ text
    else if contains text (codes "CRYPTO_ERROR")
    then codes "TLS error connecting to remote service: " ++ text
    else []

-- The change of `clearStaleConnectionDetail`
abbrev pub cleared : Change
cleared v =
    some (if has_prefix v.detail (codes "Connection to ") then record v { detail = [] } else v)

abbrev is_started : ExtraData → Option Bool
is_started (remote red) = some red.remote_started
is_started nil = none
is_started (command ced) = none
is_started (untyped text) = none

abbrev node_name : ExtraData → Bytes
node_name (remote red) = red.remote_node
node_name nil = codes "remote node"
node_name (command ced) = codes "remote node"
node_name (untyped text) = codes "remote node"

abbrev is_terminal : ℕ → Bool
is_terminal state = state == succeeded || (state == failed || state == canceled)

-- The change of `surfaceRetryableError`
pub surfaced : Bytes → Change
surfaced text v = some (
    if is_terminal v.state then v else record v {
      detail = codes "Connection to " ++ (node_name v.extra_data ++ (codes " failed: " ++ text));
    })

-- The change of `handleConnectionError` for an error of the cryptography, and whether to give up.
abbrev gives_up : ExtraData → Bool
gives_up data' = elim (is_started data') [ none ↦ false | some b ↦ not b ]

pub crypto_failed : Bytes → Change
crypto_failed detail v = some (
    if gives_up v.extra_data
    then record v { detail = detail; state = failed }
    else record v { detail = detail })

abbrev given_opened : Codec → StatusFileData → Bytes → Option StatusFileData
given_opened c sfd [] = some sfd
given_opened c sfd (b ∷ text) =
    let (loaded, error) = load_from_file c (b ∷ text) sfd in
    elim error [ none ↦ some loaded | some e ↦ none ]

-- The status that `UpdateFullStatus` gives to its callback: none if it returns before.
pub given : Codec → Fault → StatusFileData → File → Option StatusFileData
unfolding load_from_file
given c lock_fails sfd file = none
given c open_fails sfd file = none
given c seek_fails sfd file = none
given c fault sfd file = given_opened c sfd (created file)

-- `handleConnectionError`: whether to stop retrying, which its callback decides.
pub handle_connection_error : Codec → Fault → Bytes → RemoteUnit → RemoteUnit × Bool
unfolding update_full crypto_error_detail surfaced crypto_failed given
handle_connection_error c fault text u =
    let detail = crypto_error_detail text in
    if same detail [] then (update_full c fault (surfaced text) u, false) else (
      update_full c fault (crypto_failed detail) u,
      elim (given c fault u.status u.file) [ none ↦ false | some v ↦ gives_up v.extra_data ],
    )

-- What a control connection gives to a poll of the status.
pub data Polled : Type 0 where
  no_connection : Polled  -- retrying was given up
  not_sent not_read : Bytes → Polled
  line : Bytes → Polled  -- what was read, with its line break

-- The variables of `monitorRemoteStatus`.
pub record Monitor : Type 0 where
  pub unit : RemoteUnit
  pub remote_work_type : Bytes
  pub adopted : Bool
  pub write_status_failures : ℕ

pub data MonitorNext : Type 0 where
  goes_on : Monitor → MonitorNext
  stops : Monitor → MonitorNext
  panics : MonitorNext  -- a slice out of range

abbrev pub changed : Codec → Fault → Change → Monitor → Monitor
changed c fault change m = record m { unit = update_full c fault change m.unit }

abbrev pub gone : Change
gone v = some (record v { state = failed; detail = codes "Remote work unit is gone" })

abbrev pub never_started : Change
never_started v =
    some (record v { state = failed; detail = codes "Adopted remote work unit was never started" })

-- The change of `updateRemoteWorkType`, which panics on other extra data.
abbrev typed : Bytes → ExtraData → Option ExtraData
typed work_type (remote red) = some (
    remote
      (if same red.remote_work_type [] then record red { remote_work_type = work_type } else red))
typed work_type nil = none
typed work_type (command ced) = none
typed work_type (untyped text) = none

abbrev pub with_type : Bytes → Change
with_type work_type v = elim (typed work_type v.extra_data) [
  | none ↦ none
  | some extra ↦ some (record v { extra_data = extra })
]

abbrev remote_type_of : ExtraData → Bytes
remote_type_of (remote red) = red.remote_work_type
remote_type_of nil = []
remote_type_of (command ced) = []
remote_type_of (untyped text) = []

-- `updateRemoteWorkType`, when the type is to be recorded.
abbrev take_type : Codec → Fault → Bytes → Monitor → Monitor
take_type c fault work_type m =
    let m' = changed c fault (with_type work_type) m in
    elim m'.unit.last_update_error [
      | some e ↦ m'
      | none ↦ record m' { remote_work_type = remote_type_of m'.unit.status.extra_data }
    ]

-- The failures in a row of the updates of the status file: more than three of them end the loop.
abbrev counted : Monitor → MonitorNext
counted m = elim m.unit.last_update_error [
  | none ↦ goes_on (record m { write_status_failures = 0 })
  | some e ↦
      let worse = record m { write_status_failures = m.write_status_failures + 1 } in
      if ltb 3 worse.write_status_failures then stops worse else goes_on worse
]

-- A status that the other node sent.
pub take_status : Codec → Fault → Fault → StatusFileData → Monitor → MonitorNext
unfolding update_full
take_status c on_status on_type si m =
    if m.adopted && si.state == pending
    then stops (changed c on_status never_started m)
    else (let m' = changed c on_status (basic si.state si.detail (some si.stdout_size)) m in
        if same m.remote_work_type [] && not (same si.work_type [])
        then counted (take_type c on_type si.work_type m')
        else counted m')

abbrev pub empty_status : StatusFileData
empty_status = record { state = 0; detail = []; stdout_size = 0; work_type = []; extra_data = nil }

-- A line that the other node sent.
pub take_line : Codec → Fault → Fault → Bytes → Monitor → MonitorNext
unfolding take_status
take_line c on_status on_type text m =
    if ltb (length text) 5
    then panics
    else if same (take 5 text) (codes "ERROR")
    then (if contains text (codes "unknown work unit")
        then stops (changed c on_status gone m)
        else if ltb (length text) 6
        then panics
        else stops m)
    else (let (si, ok) = c.unmarshal text empty_status in
        if ok then take_status c on_status on_type si m else stops m)

-- A turn of `monitorRemoteStatus`, but for the wait at its end.
pub monitor_turn : Codec → Fault → Fault → Polled → Monitor → MonitorNext
unfolding take_line surfaced
monitor_turn c on_status on_type no_connection m = stops m
monitor_turn c on_status on_type (not_sent text) m = goes_on (changed c on_status (surfaced text) m)
monitor_turn c on_status on_type (not_read text) m = goes_on (changed c on_status (surfaced text) m)
monitor_turn c on_status on_type (line text) m = take_line c on_status on_type text m

-- Why a turn of `monitorRemoteStdout` fetches nothing when the local output is shorter than the
-- remote one: the loop ends, or the next turn tries again.
pub data Trouble : Type 0 where
  no_connection not_signed not_opened : Trouble
  not_sent not_read not_streamed : Trouble

-- What it fetches: what `io.Copy` has appended.
pub data Fetched : Type 0 where
  in_trouble : Trouble → Fetched
  copied : Bytes → Fetched

pub data CopyEnd : Type 0 where
  whole broken not_loaded : CopyEnd

pub data CopyNext : Type 0 where
  goes_on : Bytes → CopyNext
  ends : CopyEnd → Bytes → CopyNext

-- What a fetch makes of the local output.
abbrev pub append_fetched : Fetched → Bytes → CopyNext
append_fetched (in_trouble no_connection) stdout = ends broken stdout
append_fetched (in_trouble not_signed) stdout = ends broken stdout
append_fetched (in_trouble not_opened) stdout = ends broken stdout
append_fetched (in_trouble not_sent) stdout = goes_on stdout
append_fetched (in_trouble not_read) stdout = goes_on stdout
append_fetched (in_trouble not_streamed) stdout = goes_on stdout
append_fetched (copied text) stdout = goes_on (stdout ++ text)

-- A turn of `monitorRemoteStdout`, with whether the status could be loaded, and the state and the
-- size in it. The other node is asked for what follows the local output.
pub stdout_turn : Bool → ℕ → ℕ → Fetched → Bytes → CopyNext
stdout_turn loads state size fetched stdout =
    if not loads
    then ends not_loaded stdout
    else if is_complete state && leb size (length stdout)
    then ends whole stdout
    else if ltb (length stdout) size
    then append_fetched fetched stdout
    else goes_on stdout

-- Whether a name is that of a secret parameter.
pub is_secret : Bytes → Bool
unfolding to_lower
is_secret k = has_prefix (to_lower k) (codes "secret_")

-- The loop of `Status` over the parameters.
pub redacted : Map Bytes → Map Bytes
unfolding is_secret
redacted [] = []
redacted ((k, v) ∷ params) =
    let rest = redacted params in if is_secret k then rest else (k, v) ∷ rest

abbrev redacted_data : ExtraData → ExtraData
redacted_data (remote red) = remote (record red { remote_params = redacted red.remote_params })
redacted_data nil = nil
redacted_data (command ced) = nil
redacted_data (untyped text) = nil

-- `Status`, which also drops extra data that are not those of a remote unit.
pub status_of : RemoteUnit → StatusFileData
unfolding redacted
status_of u = record u.status { extra_data = redacted_data u.status.extra_data }
