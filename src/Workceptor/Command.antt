-- ===== src/Workceptor/Command.antt =====
-- Units that run a command (command.go): the unit in the node, and the process that runs the command
-- and writes the status file. Errors of the operating system are arguments.
pub mod Outcome
pub mod Restarting
use receptor.Prelude.{
  ◌⊎◌, inl, inr, ℕ, ◌+◌, Bool, true, false, not, ◌&&◌, Option, none, some, List, [], ◌∷◌, ◌++◌,
  ◌==◌, ltb, if◌then◌else◌, Bytes, codes, same,
}
use receptor.Prelude.Map.{Map, lookup_or}
use receptor.Workceptor.State.{
  pending, running, succeeded, failed, canceled, is_complete, ExtraData, nil, remote, command,
  untyped, StatusFileData, Codec, Fault, IoError,
}
use receptor.Workceptor.Status.{Change, update_full_status, File, update_basic_status, load}

-- The fields of commandUnit and of its BaseWorkUnit, with the status file.
pub record CommandUnit : Type 0 where
  pub base_params : Bytes
  pub allow_runtime_params : Bool
  pub done : Bool
  pub cancelled : Bool  -- the unit's context
  pub status : StatusFileData
  pub file : File
  pub last_update_error : Option IoError

-- `combineParams`
pub combine_params : Bytes → Bytes → Bytes
combine_params base_params user_params =
    if same user_params []
    then base_params
    else if same base_params []
    then user_params
    else base_params ++ (32 ∷ user_params)

pub data UnitError : Type 0 where
  params_not_allowed no_process not_signalled not_removed : UnitError
  not_restarted : IoError → UnitError

-- `ced, ok := status.ExtraData.(*CommandExtraData)`, and its process id.
abbrev pub pid_of : ExtraData → Option ℕ
pid_of (command ced) = some ced.pid
pid_of nil = none
pid_of (remote red) = none
pid_of (untyped text) = none

abbrev pub with_params : Bytes → ExtraData → ExtraData
with_params params (command ced) = command (record ced { params = params })
with_params params nil = nil
with_params params (remote red) = remote red
with_params params (untyped text) = untyped text

-- `SetFromParams`, on a unit whose extra data are a command's.
pub set_from_params : Map Bytes → CommandUnit → CommandUnit × Option UnitError
unfolding combine_params
set_from_params params u =
    let cmd_params = lookup_or [] (codes "params") params in
    if not (same cmd_params []) && not u.allow_runtime_params
    then (u, some params_not_allowed)
    else (
      record u {
        status = record u.status {
          extra_data = with_params (combine_params u.base_params cmd_params) u.status.extra_data;
        };
      },
      none,
    )

-- `BaseWorkUnit.UpdateBasicStatus`
pub update_unit : Codec → Fault → ℕ → Bytes → Option ℕ → CommandUnit → CommandUnit
update_unit c fault state detail size u =
    let st = update_basic_status c fault state detail size u.status u.file in
    record u { status = st.memory; file = st.file; last_update_error = st.error }

-- `BaseWorkUnit.UpdateFullStatus`
pub update_whole : Codec → Fault → Change → CommandUnit → CommandUnit
update_whole c fault change u =
    let st = update_full_status c fault change u.status u.file in
    record u { status = st.memory; file = st.file; last_update_error = st.error }

-- The change of `runCommand`: the process id, in new extra data if there are none.
abbrev with_pid : ℕ → ExtraData → Option ExtraData
with_pid pid nil = some (command (record { pid = pid; params = [] }))
with_pid pid (command ced) = some (command (record ced { pid = pid }))
with_pid pid (remote red) = none
with_pid pid (untyped text) = none

abbrev pub started_as : ℕ → Change
started_as pid v = elim (with_pid pid v.extra_data) [
  | none ↦ none
  | some extra ↦ some (record v { extra_data = extra })
]

-- `runCommand`, with the process id, or the text of the error of its start; true if it runs.
pub run_command : Codec → Fault → ℕ ⊎ Bytes → CommandUnit → CommandUnit × Bool
unfolding update_unit update_whole
run_command c fault (inl pid) u =
    (update_whole c fault (started_as pid) (record u { done = false }), true)
run_command c fault (inr text) u = (
  update_unit c fault failed (codes "Failed to start command runner: " ++ text) (some 0)
      (record u { done = false }),
  false,
)

-- The goroutine of `runCommand` when the process has ended.
pub run_ended : Codec → Fault → CommandUnit → CommandUnit
unfolding update_whole
run_ended c fault u =
    update_whole c fault (λ v. some (record v { extra_data = nil })) (record u { done = true })

-- `Start`
pub start : Codec → Fault → Fault → ℕ ⊎ Bytes → CommandUnit → CommandUnit × Bool
unfolding update_unit run_command
start c on_launch fault started u =
    run_command c fault started
      (update_unit c on_launch pending (codes "Launching command runner") (some 0) u)

-- What the operating system says of a process: whether it exists, and what a signal to it does.
pub data Signalled : Type 0 where
  delivered already_finished refused not_found : Signalled

-- `Restart`, with the faults of the load and of the update, the processes that exist, the size of
-- the stdout file, and the text of a process id.
pub restart :
    Codec
    → Fault
    → Fault
    → (ℕ → Bool)
    → ℕ
    → (ℕ → Bytes)
    → CommandUnit
    → CommandUnit × Option UnitError
unfolding update_unit
restart c on_load on_update process_running size text u =
    let st = load c on_load u.status u.file in
    let loaded = record u { status = st.memory } in
    let state = st.memory.state in
    elim st.error [
      | some e ↦ (loaded, some (not_restarted e))
      | none ↦
          if is_complete state
          then (loaded, none)
          else if state == pending
          then (
            update_unit c on_update failed (codes "Pending at restart") (some size) loaded,
            none,
          )
          else if state == running
          then elim (pid_of st.memory.extra_data) [
            | none ↦ (loaded, none)
            | some pid ↦
                if ltb 0 pid && not (process_running pid)
                then (
                  update_unit c on_update failed
                      (codes "Process " ++ (text pid ++ codes " no longer running after restart"))
                      (some size) loaded,
                  none,
                )
                else (loaded, none)
          ]
          else (loaded, none)
    ]

-- `Cancel`
pub cancel : Codec → Fault → (ℕ → Signalled) → CommandUnit → CommandUnit × Option UnitError
unfolding update_unit
cancel c fault signal u =
    let stopped = record u { cancelled = true } in
    elim (pid_of u.status.extra_data) [
      | none ↦ (stopped, none)
      | some pid ↦ if pid == 0 then (stopped, none) else elim (signal pid) [
        | not_found ↦ (stopped, some no_process)
        | already_finished ↦ (stopped, none)
        | refused ↦ (stopped, some not_signalled)
        | delivered ↦ (update_unit c fault canceled (codes "Canceled") none stopped, none)
      ]
    ]

-- `Release`, with what the release of the directory comes to.
pub release_command :
    Codec
    → Fault
    → (ℕ → Signalled)
    → Bool
    → Option UnitError
    → CommandUnit
    → CommandUnit × Option UnitError
unfolding cancel
release_command c fault signal force removal u =
    let (stopped, error) = cancel c fault signal u in
    elim error [
      | none ↦ (stopped, removal)
      | some e ↦ if force then (stopped, removal) else (stopped, some e)
    ]

-- A turn of `MonitorLocalStatus`, with whether the file has changed: whether the loop goes on.
pub local_turn : Codec → Fault → Bool → CommandUnit → CommandUnit × Bool
local_turn c fault changed u =
    let u' = if changed then record u { status = (load c fault u.status u.file).memory } else u in
    if u.cancelled then (u, false) else (u', not (is_complete u'.status.state))

-- `commandRunner`: the process beside the node.
pub record Runner : Type 0 where
  pub status : StatusFileData
  pub file : File
  pub err : Option IoError
  pub write_status_failures : ℕ

-- What its loop wakes up for: time has passed, the command has ended, with success or not, or a
-- signal has come. The size is that of the stdout file.
pub data RunnerEvent : Type 0 where
  tick : Fault → ℕ → RunnerEvent
  done : Fault → Bool → ℕ → RunnerEvent
  terminated : Fault → ℕ → RunnerEvent

-- What a turn leads to: another turn, or the end, with whether the process reports an error.
pub data RunnerNext : Type 0 where
  goes_on : Runner → RunnerNext
  ends : Runner → RunnerNext

abbrev pub put : Codec → Fault → ℕ → Bytes → ℕ → Runner → Runner
put c fault state detail size r =
    let st = update_basic_status c fault state detail (some size) r.status r.file in
    record r { status = st.memory; file = st.file; err = st.error }

-- The texts that the source formats: of the process, of how it ended, and of an error.
pub record Texts : Type 0 where
  pub running_pid : Bytes
  pub process_state : Bool → Bytes
  pub error_text : IoError → Bytes

-- The state before the loop, after the first update of the file, and after the command has started.
pub begin_runner : Codec → Fault → Runner → Runner
begin_runner c fault r = record (put c fault pending (codes "Not started yet") 0 r) { err = none }

-- A turn of the loop of `commandRunner`; on `done`, what follows the loop.
pub runner_turn : Codec → Texts → RunnerEvent → Runner → RunnerNext
runner_turn c texts (tick fault size) r =
    let r' = put c fault running texts.running_pid size r in
    elim r'.err [
      | none ↦ goes_on (record r' { write_status_failures = 0 })
      | some e ↦
          let worse = record r' { write_status_failures = r.write_status_failures + 1 } in
          if ltb 3 worse.write_status_failures then ends worse else goes_on worse
    ]
runner_turn c texts (terminated fault size) r = ends (put c fault failed (codes "Killed") size r)
runner_turn c texts (done fault success size) r = elim r.err [
  | some e ↦ ends (put c fault failed (codes "Error: " ++ texts.error_text e) size r)
  | none ↦
      ends
        (put c fault (if success then succeeded else failed) (texts.process_state success) size r)
]

pub runner_loop : Codec → Texts → List RunnerEvent → Runner → RunnerNext
unfolding runner_turn
runner_loop c texts [] r = goes_on r
runner_loop c texts (e ∷ es) r = elim (runner_turn c texts e r) [
  | ends r' ↦ ends r'
  | goes_on r' ↦ runner_loop c texts es r'
]
