-- ===== src/Workceptor/Command/Outcome.antt =====
-- The status that the process beside the node leaves when the command has ended.
use receptor.Prelude.{
  ℕ, ◌≡◌, refl, sym, ap, ◌∙◌, Bool, true, none, some, List, [], ◌∷◌, ◌++◌, arith, if◌then◌else◌,
  Bytes, codes,
}
use mathlib.Core.Path.{subst}
use receptor.Workceptor.State.{
  running, succeeded, failed, StatusFileData, Codec, no_fault, lock_fails, not_locked,
}
use receptor.Workceptor.Status.{basic, update_full_status, update_basic_status}
use receptor.Workceptor.Status.Shared.{IsFaithful, Holds, updated}
use receptor.Workceptor.Command.{
  Runner, RunnerEvent, tick, done, ends, Texts, put, runner_turn, runner_loop,
}

-- What `UpdateBasicStatus` makes of a status.
abbrev pub reported : ℕ → Bytes → ℕ → StatusFileData → StatusFileData
reported state detail size v = record v { state = state; detail = detail; stdout_size = size }

-- A run of the process: ticks without a fault, with the sizes of the stdout file, and then the end.
abbrev pub run_of : List ℕ → List RunnerEvent → List RunnerEvent
run_of [] es = es
run_of (size ∷ sizes) es = tick no_fault size ∷ run_of sizes es

module _ (c : Codec) (K : StatusFileData → Type 0) (faithful : IsFaithful c K)
    (closed : (state : ℕ) (detail : Bytes) (size : ℕ) (v : StatusFileData)
      → K v
      → K (reported state detail size v)) where
  -- The file of the process holds a status, and so does its memory one of that kind.
  pub record IsAt (v : StatusFileData) (r : Runner) : Type 0 where
    pub proper : K v
    pub own_proper : K r.status
    pub file_holds : Holds c K faithful r.file v

  put-IsAt :
      (state : ℕ) (detail : Bytes) (size : ℕ) (v : StatusFileData) (r : Runner)
      → IsAt v r
      → IsAt (reported state detail size v) (put c no_fault state detail size r)
        × ((put c no_fault state detail size r).err ≡ none)
  unfolding update_basic_status
  put-IsAt state detail size v r at =
      let e =
        ap (update_full_status c no_fault (basic state detail (some size)) r.status) at.file_holds
        ∙ updated c K faithful (reported state detail size) r.status v at.own_proper at.proper
            (closed state detail size v at.proper) in
      (
        record {
          proper = closed state detail size v at.proper;
          own_proper =
              subst K (sym (ap (λ st. st.memory) e)) (closed state detail size v at.proper);
          file_holds = ap (λ st. st.file) e;
        },
        ap (λ st. st.error) e,
      )

  -- The state of the loop when its last update was written.
  record IsWell (v : StatusFileData) (r : Runner) : Type 0 where
    at : IsAt v r
    no_error : r.err ≡ none
    no_failures : r.write_status_failures ≡ 0

  ticked : Texts → ℕ → Runner → Runner
  ticked texts size r = record (put c no_fault running texts.running_pid size r) {
    write_status_failures = 0;
  }

  ticked-IsWell :
      (texts : Texts) (size : ℕ) (v : StatusFileData) (r : Runner)
      → IsAt v r
      → IsWell (reported running texts.running_pid size v) (ticked texts size r)
  unfolding ticked
  ticked-IsWell texts size v r at =
      let (at', e) = put-IsAt running texts.running_pid size v r at in
      record {
        at = record {
          proper = at'.proper;
          own_proper = at'.own_proper;
          file_holds = at'.file_holds;
        };
        no_error = e;
        no_failures = refl;
      }

  tick-loop :
      (texts : Texts) (es : List RunnerEvent) (size : ℕ) (v : StatusFileData) (r : Runner)
      → IsAt v r
      → runner_loop c texts (tick no_fault size ∷ es) r
        ≡ runner_loop c texts es (ticked texts size r)
  unfolding runner_loop runner_turn ticked
  tick-loop texts es size v r at =
      ground (arith, (put-IsAt running texts.running_pid size v r at).1)

  done-loop :
      (texts : Texts) (success : Bool) (size : ℕ) (r : Runner)
      → r.err ≡ none
      → runner_loop c texts (done no_fault success size ∷ []) r
        ≡ ends (
            put c no_fault
              (if success then succeeded else failed)
              (texts.process_state success)
              size
              r)
  unfolding runner_loop runner_turn
  done-loop texts success size r e = ground (arith, e)

  late-loop :
      (texts : Texts) (success : Bool) (size late : ℕ) (r : Runner)
      → r.write_status_failures ≡ 0
      → runner_loop c texts (tick lock_fails late ∷ done no_fault success size ∷ []) r
        ≡ ends (
            put c no_fault failed
              (codes "Error: " ++ texts.error_text not_locked)
              size
              (record r { err = some not_locked; write_status_failures = 1 }))
  unfolding runner_loop runner_turn update_basic_status update_full_status
  late-loop texts success size late r e = ground (arith, e)

  -- The value is another one but for what a report replaces.
  record IsLike (v w : StatusFileData) : Type 0 where
    same_type : w.work_type ≡ v.work_type
    same_extra : w.extra_data ≡ v.extra_data

  run-IsWell :
      (texts : Texts) (sizes : List ℕ) (es : List RunnerEvent) (v : StatusFileData) (r : Runner)
      → IsWell v r
      → (r' : Runner) × (v' : StatusFileData) × (runner_loop c texts (run_of sizes es) r
          ≡ runner_loop c texts es r')
        × IsWell v' r'
        × IsLike v v'
  run-IsWell texts [] es v r well =
      (r, v, refl, well, record { same_type = refl; same_extra = refl })
  run-IsWell texts (size ∷ sizes) es v r well =
      let (r', v', e, well', like) =
        run-IsWell texts sizes es (reported running texts.running_pid size v) (ticked texts size r)
          (ticked-IsWell texts size v r well.at) in
      (
        r',
        v',
        tick-loop texts (run_of sizes es) size v r well.at ∙ e,
        well',
        record { same_type = like.same_type; same_extra = like.same_extra },
      )

  reported-like :
      (state : ℕ) (detail : Bytes) (size : ℕ) (v w : StatusFileData)
      → IsLike v w
      → reported state detail size w ≡ reported state detail size v
  reported-like state detail size v w like = λ i. record v {
    state = state;
    detail = detail;
    stdout_size = size;
    work_type = like.same_type i;
    extra_data = like.same_extra i;
  }

  done-IsAt :
      (texts : Texts) (success : Bool) (size : ℕ) (v v0 : StatusFileData) (r : Runner)
      → IsWell v r
      → IsLike v0 v
      → (r' : Runner) × (runner_loop c texts (done no_fault success size ∷ []) r ≡ ends r')
        × (r'.err ≡ none)
        × IsAt
            (reported (if success then succeeded else failed) (texts.process_state success) size v0)
            r'
  done-IsAt texts success size v v0 r well like =
      let state = if success then succeeded else failed in
      let (at', e) = put-IsAt state (texts.process_state success) size v r well.at in
      (
        put c no_fault state (texts.process_state success) size r,
        done-loop texts success size r well.no_error,
        e,
        subst (λ w. IsAt w (put c no_fault state (texts.process_state success) size r))
            (reported-like state (texts.process_state success) size v0 v like) at',
      )

  -- A command that ends while its process can write the status file leaves the file with what
  -- became of it: succeeded or failed as the command did, with the final size of its output and the
  -- description of how it ended, and with the type of work and the extra data that the file had.
  -- The conditions: no update of the file meets a fault, and the JSON codec reads back what it
  -- wrote for the statuses that have a property which reports keep.
  pub runner_loop-outcome :
      (texts : Texts) (sizes : List ℕ) (success : Bool) (size : ℕ) (v : StatusFileData) (r : Runner)
      → IsAt v r
      → r.err ≡ none
      → r.write_status_failures ≡ 0
      → (r' : Runner) × (runner_loop c texts (run_of sizes (done no_fault success size ∷ [])) r
          ≡ ends r')
        × (r'.err ≡ none)
        × IsAt
            (reported (if success then succeeded else failed) (texts.process_state success) size v)
            r'
  runner_loop-outcome texts sizes success size v r at no_error no_failures =
      let (r1, v1, run, well, like) =
        run-IsWell texts sizes (done no_fault success size ∷ []) v r
          (record { at = at; no_error = no_error; no_failures = no_failures }) in
      let (r', end, e, at') = done-IsAt texts success size v1 v r1 well like in
      (r', run ∙ end, e, at')

  -- A command that succeeds is recorded as failed when the update of the status file just before
  -- its end could not lock the file, although the update that follows the end is written: the
  -- process takes the error of that earlier update for one of the command. The conditions: no other
  -- update of the file meets a fault, and the JSON codec reads back what it wrote for the statuses
  -- that have a property which reports keep.
  pub runner_loop-stale_error :
      (texts : Texts) (sizes : List ℕ) (late size : ℕ) (v : StatusFileData) (r : Runner)
      → IsAt v r
      → r.err ≡ none
      → r.write_status_failures ≡ 0
      → (r' : Runner) × (runner_loop c texts
            (run_of sizes (tick lock_fails late ∷ done no_fault true size ∷ []))
            r
          ≡ ends r')
        × (r'.err ≡ none)
        × IsAt (reported failed (codes "Error: " ++ texts.error_text not_locked) size v) r'
  runner_loop-stale_error texts sizes late size v r at no_error no_failures =
      let (r1, v1, run, well, like) =
        run-IsWell texts sizes (tick lock_fails late ∷ done no_fault true size ∷ []) v r
          (record { at = at; no_error = no_error; no_failures = no_failures }) in
      let detail = codes "Error: " ++ texts.error_text not_locked in
      let r2 : Runner = record r1 { err = some not_locked; write_status_failures = 1 } in
      let (at', e) = put-IsAt failed detail size v1 r2 (record {
        proper = well.at.proper;
        own_proper = well.at.own_proper;
        file_holds = well.at.file_holds;
      }) in
      (
        put c no_fault failed detail size r2,
        run ∙ late-loop texts true size late r1 well.no_failures,
        e,
        subst (λ w. IsAt w (put c no_fault failed detail size r2))
            (reported-like failed detail size v v1 like) at',
      )
