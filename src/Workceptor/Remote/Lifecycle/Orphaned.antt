-- ===== src/Workceptor/Remote/Lifecycle/Orphaned.antt =====
-- A cancellation while the status file cannot be locked.
use receptor.Prelude.{◌≡◌, refl, ap, ◌∙◌, Bool, false, some, [], ◌∷◌, codes}
use receptor.Workceptor.State.{failed, StatusFileData, Codec, no_fault, lock_fails}
use receptor.Workceptor.Status.{update_full_status, basic}
use receptor.Workceptor.Status.Shared.{IsFaithful, Holds, update-change}
use receptor.Workceptor.Command.Outcome.{reported}
use receptor.Workceptor.Remote.{RemoteUnit, update_full, given}
use receptor.Workceptor.Remote.Lifecycle.{cancel_job, ok, Tried, cancel_or_release}

module _ (c : Codec) (K : StatusFileData → Type 0) (faithful : IsFaithful c K) where
  -- A cancellation whose first update cannot lock the status file takes the work for not started,
  -- even if it has: the other node is never asked to cancel it, the caller is told of success, and
  -- the status file says that the unit has failed, with an output of no bytes. The conditions: the
  -- second update meets no fault, and the JSON codec reads back what it wrote for the statuses that
  -- have a property, which the failed one has too.
  pub cancel_or_release-orphan :
      (force : Bool) (tried : Tried) (v : StatusFileData) (u : RemoteUnit)
      → K u.status
      → K v
      → K (reported failed (codes "Locally Cancelled") 0 v)
      → Holds c K faithful u.file v
      → ((cancel_or_release c lock_fails no_fault false force tried u).1 ≡ (cancel_job ∷ [], ok))
        × Holds c K faithful
            (cancel_or_release c lock_fails no_fault false force tried u).0.file
            (reported failed (codes "Locally Cancelled") 0 v)
  unfolding cancel_or_release update_full given update_full_status
  cancel_or_release-orphan force tried v u ku kv kw holds =
      let st =
        ap
          (update_full_status c no_fault (basic failed (codes "Locally Cancelled") (some 0))
            u.status)
          holds
        ∙ update-change c K faithful (basic failed (codes "Locally Cancelled") (some 0)) u.status v
            (reported failed (codes "Locally Cancelled") 0 v) ku kv kw refl in
      (refl, ap (λ r. r.file) st)
