-- ===== src/Workceptor/Remote/Lifecycle/Resumed.antt =====
-- A cancellation or a release that could not reach the other node.
use receptor.Prelude.{◌≡◌, ap, ◌∙◌, Bool, true, false, some, [], ◌∷◌, ◌++◌, arith, Bytes}
use receptor.Workceptor.State.{remote, RemoteExtraData, StatusFileData, Codec, Fault, no_fault}
use receptor.Workceptor.Status.{update_full_status, load_from_file}
use receptor.Workceptor.Status.Shared.{IsFaithful, Holds, update-change}
use receptor.Workceptor.Remote.{RemoteUnit, update_full, given}
use receptor.Workceptor.Remote.Lifecycle.{
  new_job, try_now, keep_trying, is_pending, unreachable, run_and_monitor, order_of,
  start_or_restart, restart, marked_data, marked, cancel_or_release,
}

-- The status with a mark that it is cancelled, or released.
abbrev pub with_mark : Bool → RemoteExtraData → StatusFileData → StatusFileData
with_mark release red v = record v { extra_data = remote (marked_data release red) }

pub given-loaded :
    (c : Codec) (m v : StatusFileData) (t : Bytes)
    → c.unmarshal (t ++ (10 ∷ [])) m ≡ (v, true)
    → given c no_fault m (some (t ++ (10 ∷ []))) ≡ some v
unfolding given load_from_file
given-loaded c m v [] e = ground (arith, e)
given-loaded c m v (b ∷ t) e = ground (arith, e)

restart-marked :
    (release : Bool) (red : RemoteExtraData)
    → red.remote_started ≡ true
    → restart false unreachable (marked_data release red) ≡ (
        let order = order_of (marked_data release red).local_released in
        (new_job ∷ try_now order ∷ keep_trying order ∷ [], is_pending))
unfolding restart start_or_restart run_and_monitor
restart-marked release red s = ground (arith, s)

module _ (c : Codec) (K : StatusFileData → Type 0) (faithful : IsFaithful c K) where
  -- A cancellation, or a release without force, of a unit whose work has started, while the other
  -- node cannot be reached, is not forgotten when the node restarts: the status file holds the mark,
  -- the rest of it is as before, and the restart tries the same again, or the release if the unit
  -- was to be released before. The conditions: the update meets no fault, and the JSON codec reads
  -- back what it wrote for the statuses that have a property, which the marked one has too.
  pub restart-cancel_or_release :
      (on_fail : Fault) (release : Bool) (red : RemoteExtraData) (v : StatusFileData)
      (u : RemoteUnit)
      → K u.status
      → K v
      → K (with_mark release red v)
      → v.extra_data ≡ remote red
      → red.remote_started ≡ true
      → Holds c K faithful u.file v
      → let order = order_of (marked_data release red).local_released in
        Holds c K faithful
          (cancel_or_release c no_fault on_fail release false unreachable u).0.file
          (with_mark release red v)
        × ((cancel_or_release c no_fault on_fail release false unreachable u).1 ≡ (
          new_job ∷ try_now (order_of release) ∷ keep_trying (order_of release) ∷ [],
          is_pending,
        ))
        × (restart false unreachable (marked_data release red)
            ≡ (new_job ∷ try_now order ∷ keep_trying order ∷ [], is_pending))
  unfolding cancel_or_release update_full run_and_monitor
  restart-cancel_or_release on_fail release red v u ku kv kw e s holds =
      let g =
        ap (given c no_fault u.status) holds
        ∙ given-loaded c u.status v (faithful.text v) (faithful.reads v u.status kv ku) in
      let m : marked release v ≡ some (with_mark release red v) = ground (arith, e) in
      let st =
        ap (update_full_status c no_fault (marked release) u.status) holds
        ∙ update-change c K faithful (marked release) u.status v (with_mark release red v) ku kv kw
            m in
      (
        ground (arith, g, e, s, ap (λ r. r.file) st),
        ground (arith, g, e, s),
        restart-marked release red s,
      )
