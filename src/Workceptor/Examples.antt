-- ===== src/Workceptor/Examples.antt =====
-- Tests of pkg/workceptor on small statuses, with a codec that writes a state, a size and a detail.
use receptor.Prelude.{
  ℕ, ◌≡◌, refl, sym, ap, ◌∙◌, Bool, true, false, none, some, [], ◌∷◌, ◌++◌, Bytes, codes,
  if◌then◌else◌,
}
use receptor.Workceptor.State.{ExtraData, command, StatusFileData, Codec, no_fault, lock_fails}
use receptor.Workceptor.Status.Shared.{
  Shared, updates, changes, functions, IsFaithful, Represents, updates-Represents,
}
use receptor.Workceptor.Command.{CommandUnit, restart, done, tick, ends, Runner, Texts, runner_loop}
use receptor.Workceptor.Command.Outcome.{
  reported, IsAt, run_of, runner_loop-outcome, runner_loop-stale_error,
}
use receptor.Workceptor.Command.Restarting.{IsSettled, restart-IsSettled}

-- A text without its last byte.
abbrev front : Bytes → Bytes
front [] = []
front (b ∷ []) = []
front (b ∷ c ∷ text) = b ∷ front (c ∷ text)

front-snoc : (b : ℕ) (text : Bytes) (c : ℕ) → front (b ∷ (text ++ (c ∷ []))) ≡ b ∷ text
front-snoc b [] c = refl
front-snoc b (d ∷ text) c = ap (λ t. b ∷ t) (front-snoc d text c)

abbrev sleep : ExtraData
sleep = command (record { pid = 7; params = [] })

abbrev read_back : Bytes → StatusFileData → StatusFileData × Bool
read_back [] r = (r, false)
read_back (a ∷ []) r = (r, false)
read_back (a ∷ b ∷ []) r = (r, false)
read_back (a ∷ b ∷ c ∷ text) r =
    (record r { state = a; stdout_size = b; detail = front (c ∷ text) }, true)

abbrev write_out : StatusFileData → Bytes
write_out v = v.state ∷ v.stdout_size ∷ v.detail

abbrev codec : Codec
codec = record { marshal = λ v. some (write_out v); unmarshal = read_back }

-- The statuses of one command.
record IsSleep (v : StatusFileData) : Type 0 where
  type : v.work_type ≡ codes "sleep"
  extra : v.extra_data ≡ sleep

read_back-detail :
    (a b : ℕ) (d : Bytes) (r : StatusFileData)
    → read_back (a ∷ b ∷ (d ++ (10 ∷ []))) r
      ≡ (record r { state = a; stdout_size = b; detail = d }, true)
read_back-detail a b [] r = refl
read_back-detail a b (c ∷ d) r =
    ap (λ t. (record r { state = a; stdout_size = b; detail = t }, true)) (front-snoc c d 10)

read_back-write_out :
    (v r : StatusFileData)
    → IsSleep v
    → IsSleep r
    → read_back (write_out v ++ (10 ∷ [])) r ≡ (v, true)
read_back-write_out v r kv kr = read_back-detail v.state v.stdout_size v.detail r ∙ λ i. (
  record v { work_type = (kr.type ∙ sym kv.type) i; extra_data = (kr.extra ∙ sym kv.extra) i },
  true,
)

faithful : IsFaithful codec IsSleep
faithful = record { text = write_out; writes = λ v k. refl; reads = read_back-write_out }

closed :
    (state : ℕ) (detail : Bytes) (size : ℕ) (v : StatusFileData)
    → IsSleep v
    → IsSleep (reported state detail size v)
closed state detail size v k = record { type = k.type; extra = k.extra }

abbrev sleeping : ℕ → StatusFileData
sleeping state = record {
  state = state;
  detail = codes "none";
  stdout_size = 5;
  work_type = codes "sleep";
  extra_data = sleep;
}

sleeping-IsSleep : (state : ℕ) → IsSleep (sleeping state)
sleeping-IsSleep state = record { type = refl; extra = refl }

abbrev two_processes : Shared
two_processes = record {
  node = sleeping 1;
  worker = sleeping 0;
  file = some (write_out (sleeping 1) ++ (10 ∷ []));
}

-- The worker reports the end while the node has an older status in memory.
updates-Represents_example :
    Represents codec IsSleep faithful
      (updates codec
        ((false, reported 2 (codes "ended") 9) ∷ (true, reported 4 (codes "canceled") 9) ∷ [])
        two_processes)
      (changes
        (functions
          ((false, reported 2 (codes "ended") 9) ∷ (true, reported 4 (codes "canceled") 9) ∷ []))
        (sleeping 1))
unfolding faithful
updates-Represents_example =
    updates-Represents codec IsSleep faithful
      ((false, reported 2 (codes "ended") 9) ∷ (true, reported 4 (codes "canceled") 9) ∷ [])
      two_processes (sleeping 1) (closed 2 (codes "ended") 9, (closed 4 (codes "canceled") 9, tt))
      (record {
        proper = sleeping-IsSleep 1;
        node_proper = sleeping-IsSleep 1;
        worker_proper = sleeping-IsSleep 0;
        file_holds = refl;
      })

abbrev texts : Texts
texts = record {
  running_pid = codes "Running: PID 7";
  process_state = λ success. if success then codes "exit status 0" else codes "exit status 1";
  error_text = λ e. codes "error";
}

abbrev runner : Runner
runner = record {
  status = sleeping 0;
  file = some (write_out (sleeping 0) ++ (10 ∷ []));
  err = none;
  write_status_failures = 0;
}

runner-IsAt : IsAt codec IsSleep faithful closed (sleeping 0) runner
unfolding faithful
runner-IsAt = record {
  proper = sleeping-IsSleep 0;
  own_proper = sleeping-IsSleep 0;
  file_holds = refl;
}

runner_loop-outcome_example :
    (r' : Runner) × (runner_loop codec texts
        (run_of (3 ∷ 5 ∷ []) (done no_fault true 9 ∷ []))
        runner
      ≡ ends r')
    × (r'.err ≡ none)
    × IsAt codec IsSleep faithful closed (reported 2 (codes "exit status 0") 9 (sleeping 0)) r'
runner_loop-outcome_example =
    runner_loop-outcome codec IsSleep faithful closed texts (3 ∷ 5 ∷ []) true 9 (sleeping 0) runner
      runner-IsAt refl refl

runner_loop-stale_error_example :
    (r' : Runner) × (runner_loop codec texts
        (run_of (3 ∷ 5 ∷ []) (tick lock_fails 6 ∷ done no_fault true 9 ∷ []))
        runner
      ≡ ends r')
    × (r'.err ≡ none)
    × IsAt codec IsSleep faithful closed (reported 3 (codes "Error: error") 9 (sleeping 0)) r'
runner_loop-stale_error_example =
    runner_loop-stale_error codec IsSleep faithful closed texts (3 ∷ 5 ∷ []) 6 9 (sleeping 0) runner
      runner-IsAt refl refl

abbrev unit : ℕ → CommandUnit
unit state = record {
  base_params = [];
  allow_runtime_params = true;
  done = false;
  cancelled = false;
  status = sleeping 0;
  file = some (write_out (sleeping state) ++ (10 ∷ []));
  last_update_error = none;
}

-- Process 7 has gone while the node was down.
restart-IsSettled_example :
    IsSettled codec IsSleep faithful closed
      (λ pid. false)
      (sleeping 1)
      (restart codec no_fault no_fault (λ pid. false) 9 (λ pid. codes "7") (unit 1)).0
unfolding faithful
restart-IsSettled_example =
    restart-IsSettled codec IsSleep faithful closed (λ pid. false) 9 (λ pid. codes "7") (sleeping 1)
      (unit 1) (sleeping-IsSleep 0) (sleeping-IsSleep 1) refl
