-- ===== src/Workceptor/Remote/Lifecycle.antt =====
-- How a unit on another node is started, restarted, cancelled and released (remote_work.go). What
-- the other node and the connection do is an argument; what the node does is a list, in order.
pub mod Resumed
pub mod Orphaned
pub mod Examples
use receptor.Prelude.{
  Bool, true, false, not, ◌&&◌, ◌||◌, Option, none, some, List, [], ◌∷◌, ◌++◌, ◌==◌, if◌then◌else◌,
  codes,
}
use receptor.Workceptor.State.{
  failed, nil, remote, command, untyped, RemoteExtraData, StatusFileData, Codec, Fault,
}
use receptor.Workceptor.Status.{Change, basic}
use receptor.Workceptor.Remote.{RemoteUnit, update_full, given}

-- What the node asks of the other one.
pub data Order : Type 0 where
  submit_unit cancel_unit release_unit : Order

pub data Act : Type 0 where
  new_job : Act
  cancel_job : Act  -- and wait for it
  set_expiration : Act
  try_now : Order → Act  -- one attempt to connect, on the caller's goroutine
  keep_trying : Order → Act  -- attempts in the background
  monitor_unit : Act
  remove_unit : Bool → Act  -- `BaseWorkUnit.Release`, with whether by force
  give_up : Act  -- the only worker of the job is done

pub data Result : Type 0 where
  ok is_pending : Result
  already_started already_running not_started : Result
  refused : Result  -- the error of the other node
  not_removed : Result

-- What a first attempt meets: no connection, or what the order comes to.
pub data Tried : Type 0 where
  unreachable : Tried
  accepted : Tried
  denied : Tried

-- What follows an order that is accepted.
abbrev followed : Bool → Act
followed true = remove_unit false
followed false = monitor_unit

-- `runAndMonitor`, with a first attempt on the caller's goroutine.
pub run_and_monitor : Bool → Order → Tried → List Act × Result
run_and_monitor for_release order unreachable = (try_now order ∷ keep_trying order ∷ [], is_pending)
run_and_monitor for_release order accepted = (try_now order ∷ followed for_release ∷ [], ok)
run_and_monitor for_release order denied = (try_now order ∷ give_up ∷ [], refused)

abbrev pub before : List Act → List Act × Result → List Act × Result
before first (acts, result) = (first ++ acts, result)

abbrev pub order_of : Bool → Order
order_of true = release_unit
order_of false = cancel_unit

-- `startOrRestart`, with whether a job runs.
pub start_or_restart : Bool → Bool → Tried → RemoteExtraData → List Act × Result
unfolding run_and_monitor
start_or_restart start running tried red =
    if start && red.remote_started
    then ([], already_started)
    else if running
    then ([], already_running)
    else if start || not red.remote_started
    then before (new_job ∷ (if red.expiration == 0 then [] else set_expiration ∷ []))
        (run_and_monitor false submit_unit tried)
    else if red.local_released || red.local_cancelled
    then before (new_job ∷ [])
        (run_and_monitor red.local_released (order_of red.local_released) tried)
    else (new_job ∷ monitor_unit ∷ [], ok)

-- `Start`
pub start : Bool → Tried → RemoteExtraData → List Act × Result
unfolding start_or_restart
start running tried red = start_or_restart true running tried red

-- `Restart`
pub restart : Bool → Tried → RemoteExtraData → List Act × Result
unfolding start_or_restart
restart running tried red =
    if red.remote_started then start_or_restart false running tried red else ([], not_started)

-- What `cancelOrRelease` records; it panics on other extra data.
abbrev pub marked_data : Bool → RemoteExtraData → RemoteExtraData
marked_data release red = record red {
  local_cancelled = true;
  local_released = if release then true else red.local_released;
}

abbrev pub marked : Bool → Change
marked release v = elim v.extra_data [
  | remote red ↦ some (record v { extra_data = remote (marked_data release red) })
  | nil ↦ none
  | command ced ↦ none
  | untyped text ↦ none
]

abbrev started_in : Option StatusFileData → Bool
started_in none = false
started_in (some v) = elim v.extra_data [
  | remote red ↦ red.remote_started
  | nil ↦ false
  | command ced ↦ false
  | untyped text ↦ false
]

-- `cancelOrRelease`: a first update marks the unit; its callback tells whether the remote work has
-- started. A second one may follow.
pub cancel_or_release :
    Codec → Fault → Fault → Bool → Bool → Tried → RemoteUnit → RemoteUnit × (List Act × Result)
unfolding update_full given run_and_monitor
cancel_or_release c on_mark on_fail release force tried u =
    let marked_unit = update_full c on_mark (marked release) u in
    if not (started_in (given c on_mark u.status u.file))
    then (if release then (marked_unit, (cancel_job ∷ remove_unit true ∷ [], ok)) else (
      update_full c on_fail (basic failed (codes "Locally Cancelled") (some 0)) marked_unit,
      (cancel_job ∷ [], ok),
    ))
    else if release && force
    then (marked_unit, (try_now release_unit ∷ remove_unit true ∷ [], ok))
    else (marked_unit, before (new_job ∷ []) (run_and_monitor release (order_of release) tried))
