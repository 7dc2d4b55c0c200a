-- ===== src/Workceptor/Command/Restarting.antt =====
-- What a restart of the node makes of the units that run a command.
use receptor.Prelude.{
  ℕ, ◌≡◌, refl, sym, ap, ◌∙◌, Bool, true, false, not, ◌&&◌, ◌||◌, Option, none, some, [], ◌∷◌, ◌++◌,
  arith, ltb, ◌==◌, if◌then◌else◌, Bytes, codes, Bool-cases, Option-cases, inl, inr,
}
use mathlib.Core.Path.{subst}
use receptor.Workceptor.State.{nil, pending, running, failed, StatusFileData, Codec, no_fault}
use receptor.Workceptor.Status.{
  basic, update_full_status, update_basic_status, load, load_from_file,
}
use receptor.Workceptor.Status.Shared.{IsFaithful, Holds, updated}
use receptor.Workceptor.Command.{CommandUnit, pid_of, update_unit, update_whole, run_ended, restart}
use receptor.Workceptor.Command.Outcome.{reported}

-- Whether a process is known not to exist.
abbrev pub is_gone : (ℕ → Bool) → Option ℕ → Bool
is_gone process_running none = false
is_gone process_running (some pid) = ltb 0 pid && not (process_running pid)

-- Whether a unit is pending, or running with a recorded process that is known not to exist.
abbrev pub is_lost : (ℕ → Bool) → StatusFileData → Bool
is_lost process_running v =
    v.state == pending || v.state == running && is_gone process_running (pid_of v.extra_data)

module _ (c : Codec) (K : StatusFileData → Type 0) (faithful : IsFaithful c K)
    (closed : (state : ℕ) (detail : Bytes) (size : ℕ) (v : StatusFileData)
      → K v
      → K (reported state detail size v)) where
  loaded :
      (m v : StatusFileData)
      → K m
      → K v
      → load c no_fault m (some (faithful.text v ++ (10 ∷ [])))
        ≡ record { memory = v; file = some (faithful.text v ++ (10 ∷ [])); error = none }
  unfolding load load_from_file
  loaded m v km kv = ground (arith, faithful.reads v m kv km)

  -- What a restart leaves.
  pub record IsSettled (process_running : ℕ → Bool) (v : StatusFileData) (u : CommandUnit)
      : Type 0 where
    pub found : StatusFileData
    pub own : u.status ≡ found
    pub file_holds : Holds c K faithful u.file found
    pub settled : is_lost process_running found ≡ false
    pub failed_if_lost : is_lost process_running v ≡ true → found.state ≡ failed
    pub kept_if_not : is_lost process_running v ≡ false → found ≡ v

  fails :
      (detail : Bytes) (size : ℕ) (v : StatusFileData) (u : CommandUnit)
      (process_running : ℕ → Bool)
      → is_lost process_running v ≡ true
      → K v
      → u.status ≡ v
      → Holds c K faithful u.file v
      → IsSettled process_running v (update_unit c no_fault failed detail (some size) u)
  unfolding update_unit update_basic_status
  fails detail size v u process_running lost kv own holds =
      let e =
        ap (update_full_status c no_fault (basic failed detail (some size)) u.status) holds
        ∙ ap
            (λ m.
              update_full_status c no_fault (basic failed detail (some size)) m
                (some (faithful.text v ++ (10 ∷ []))))
            own
        ∙ updated c K faithful (reported failed detail size) v v kv kv
            (closed failed detail size v kv) in
      record {
        found = reported failed detail size v;
        own = ap (λ st. st.memory) e;
        file_holds = ap (λ st. st.file) e;
        settled = refl;
        failed_if_lost = λ h. refl;
        kept_if_not = λ h. absurd (ground (arith, lost, h));
      }

  -- The unit when its status has been loaded.
  abbrev read : CommandUnit → StatusFileData → CommandUnit
  read u v = record u { status = v }

  stays :
      (process_running : ℕ → Bool) (size : ℕ) (text : ℕ → Bytes) (v : StatusFileData)
      (u : CommandUnit)
      → load c no_fault u.status u.file ≡ record { memory = v; file = u.file; error = none }
      → is_lost process_running v ≡ false
      → (restart c no_fault no_fault process_running size text u).0 ≡ read u v
  unfolding restart
  stays process_running size text v u l f = elim (Option-cases (pid_of v.extra_data)) [
    | inl o ↦ ground (arith, l, f, o)
    | inr (pid, o) ↦ ground (arith, l, f, o)
  ]

  -- What is said of a unit that has failed at a restart.
  abbrev blame : (ℕ → Bytes) → StatusFileData → Bytes
  blame text v =
      if v.state == pending then codes "Pending at restart" else elim (pid_of v.extra_data) [
        | none ↦ []
        | some pid ↦ codes "Process " ++ (text pid ++ codes " no longer running after restart")
      ]

  marks :
      (process_running : ℕ → Bool) (size : ℕ) (text : ℕ → Bytes) (v : StatusFileData)
      (u : CommandUnit)
      → load c no_fault u.status u.file ≡ record { memory = v; file = u.file; error = none }
      → is_lost process_running v ≡ true
      → (restart c no_fault no_fault process_running size text u).0
        ≡ update_unit c no_fault failed (blame text v) (some size) (read u v)
  unfolding restart
  marks process_running size text v u l f = elim (Option-cases (pid_of v.extra_data)) [
    | inl o ↦ ground (arith, l, f, o)
    | inr (pid, o) ↦ ground (arith, l, f, o)
  ]

  -- A restart of the node fails a unit of a command that is pending, and one that is running when its
  -- recorded process is known not to exist, and leaves every other unit as its status file says, also
  -- a running one for which no process is recorded; the file says what the unit says afterwards. The
  -- conditions: the load and the update of the status file meet no fault, and the JSON codec reads
  -- back what it wrote for the statuses that have a property which reports keep.
  pub restart-IsSettled :
      (process_running : ℕ → Bool) (size : ℕ) (text : ℕ → Bytes) (v : StatusFileData)
      (u : CommandUnit)
      → K u.status
      → K v
      → Holds c K faithful u.file v
      → IsSettled process_running v (restart c no_fault no_fault process_running size text u).0
  restart-IsSettled process_running size text v u ku kv holds =
      let l =
        ap (load c no_fault u.status) holds
        ∙ loaded u.status v ku kv
        ∙ ap (λ file. record { memory = v; file = file; error = none }) (sym holds) in
      elim (Bool-cases (is_lost process_running v)) [
        | inl e ↦
            subst (IsSettled process_running v) (sym (marks process_running size text v u l e))
              (fails (blame text v) size v (read u v) process_running e kv refl holds)
        | inr e ↦
            subst (IsSettled process_running v) (sym (stays process_running size text v u l e))
              (record {
                found = v;
                own = refl;
                file_holds = holds;
                settled = e;
                failed_if_lost = λ h. absurd (ground (arith, e, h));
                kept_if_not = λ h. refl;
              })
      ]

  cleared :
      (v : StatusFileData) (u : CommandUnit)
      → K u.status
      → K v
      → K (record v { extra_data = nil })
      → Holds c K faithful u.file v
      → (K (run_ended c no_fault u).status)
        × (Holds c K faithful (run_ended c no_fault u).file (record v { extra_data = nil }))
  unfolding run_ended update_whole
  cleared v u ku kv kn holds =
      let e =
        ap (update_full_status c no_fault (λ w. some (record w { extra_data = nil })) u.status)
          holds
        ∙ updated c K faithful (λ w. record w { extra_data = nil }) u.status v ku kv kn in
      (subst K (sym (ap (λ st. st.memory) e)) kn, ap (λ st. st.file) e)

  -- When the process of a running unit ends without a last report, what the node then records drops
  -- the process id, so that no restart of the node ever fails the unit: it stays running. The
  -- conditions are those on the codec, also for the status without extra data.
  pub restart-run_ended :
      (process_running : ℕ → Bool) (size : ℕ) (text : ℕ → Bytes) (v : StatusFileData)
      (u : CommandUnit)
      → K u.status
      → K v
      → K (record v { extra_data = nil })
      → Holds c K faithful u.file v
      → v.state ≡ running
      → (restart c no_fault no_fault process_running size text (run_ended c no_fault u)).0.status
        ≡ record v { extra_data = nil }
  restart-run_ended process_running size text v u ku kv kn holds r =
      let (ku', holds') = cleared v u ku kv kn holds in
      let settled =
        restart-IsSettled process_running size text (record v { extra_data = nil })
          (run_ended c no_fault u) ku' kn holds' in
      settled.own ∙ settled.kept_if_not (ground (arith, r))
