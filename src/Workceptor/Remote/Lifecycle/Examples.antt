-- ===== src/Workceptor/Remote/Lifecycle/Examples.antt =====
-- A remote unit that is cancelled, with a codec for the three statuses that it has.
use receptor.Prelude.{
  ℕ, ◌≡◌, refl, sym, ◌⊎◌, inl, inr, Bool, true, false, none, some, [], ◌∷◌, ◌++◌, ◌==◌,
  if◌then◌else◌, codes, Bytes,
}
use mathlib.Core.Path.{subst}
use receptor.Workceptor.State.{
  running, failed, ExtraData, nil, remote, command, untyped, RemoteExtraData, StatusFileData, Codec,
  no_fault, lock_fails,
}
use receptor.Workceptor.Status.Shared.{IsFaithful, Holds}
use receptor.Workceptor.Command.Outcome.{reported}
use receptor.Workceptor.Remote.{RemoteUnit}
use receptor.Workceptor.Remote.Lifecycle.{
  cancel_unit, new_job, cancel_job, try_now, keep_trying, ok, is_pending, unreachable, restart,
  marked_data, cancel_or_release,
}
use receptor.Workceptor.Remote.Lifecycle.Resumed.{with_mark, restart-cancel_or_release}
use receptor.Workceptor.Remote.Lifecycle.Orphaned.{cancel_or_release-orphan}

abbrev extra : RemoteExtraData
extra = record {
  remote_node = codes "bar";
  remote_work_type = codes "cat";
  remote_params = [];
  remote_unit_id = codes "u7";
  remote_started = true;
  adopted = false;
  local_cancelled = false;
  local_released = false;
  sign_work = false;
  tls_client = [];
  expiration = 0;
}

abbrev at_work : StatusFileData
at_work = record {
  state = running;
  detail = [];
  stdout_size = 4;
  work_type = codes "remote";
  extra_data = remote extra;
}

abbrev cancelled : StatusFileData
cancelled = with_mark false extra at_work

abbrev given_up : StatusFileData
given_up = reported failed (codes "Locally Cancelled") 0 at_work

abbrev is_marked : ExtraData → Bool
is_marked (remote red) = red.local_cancelled
is_marked nil = false
is_marked (command ced) = false
is_marked (untyped text) = false

abbrev name_of : StatusFileData → Bytes
name_of v = if v.state == failed then 2 ∷ [] else if is_marked v.extra_data then 1 ∷ [] else 0 ∷ []

abbrev named : ℕ → StatusFileData
named n = if n == 0 then at_work else if n == 1 then cancelled else given_up

abbrev read_name : Bytes → StatusFileData → StatusFileData × Bool
read_name [] r = (r, false)
read_name (n ∷ text) r = (named n, true)

abbrev codec : Codec
codec = record { marshal = λ v. some (name_of v); unmarshal = read_name }

abbrev IsNamed : StatusFileData → Type 0
IsNamed v = (v ≡ at_work) ⊎ ((v ≡ cancelled) ⊎ (v ≡ given_up))

read_name-name_of :
    (v r : StatusFileData) → IsNamed v → read_name (name_of v ++ (10 ∷ [])) r ≡ (v, true)
read_name-name_of v r (inl e) =
    subst (λ w. read_name (name_of w ++ (10 ∷ [])) r ≡ (w, true)) (sym e) refl
read_name-name_of v r (inr (inl e)) =
    subst (λ w. read_name (name_of w ++ (10 ∷ [])) r ≡ (w, true)) (sym e) refl
read_name-name_of v r (inr (inr e)) =
    subst (λ w. read_name (name_of w ++ (10 ∷ [])) r ≡ (w, true)) (sym e) refl

faithful : IsFaithful codec IsNamed
faithful = record {
  text = name_of;
  writes = λ v k. refl;
  reads = λ v r k l. read_name-name_of v r k;
}

abbrev unit : RemoteUnit
unit = record { status = at_work; file = some (0 ∷ 10 ∷ []); last_update_error = none }

restart-cancel_or_release_example :
    Holds codec IsNamed faithful
      (cancel_or_release codec no_fault no_fault false false unreachable unit).0.file
      (with_mark false extra at_work)
    × ((cancel_or_release codec no_fault no_fault false false unreachable unit).1
        ≡ (new_job ∷ try_now cancel_unit ∷ keep_trying cancel_unit ∷ [], is_pending))
    × (restart false unreachable (marked_data false extra)
        ≡ (new_job ∷ try_now cancel_unit ∷ keep_trying cancel_unit ∷ [], is_pending))
unfolding faithful
restart-cancel_or_release_example =
    restart-cancel_or_release codec IsNamed faithful no_fault false extra at_work unit (inl refl)
      (inl refl) (inr (inl refl)) refl refl refl

cancel_or_release-orphan_example :
    ((cancel_or_release codec lock_fails no_fault false false unreachable unit).1
      ≡ (cancel_job ∷ [], ok))
    × Holds codec IsNamed faithful
        (cancel_or_release codec lock_fails no_fault false false unreachable unit).0.file
        (reported failed (codes "Locally Cancelled") 0 at_work)
unfolding faithful
cancel_or_release-orphan_example =
    cancel_or_release-orphan codec IsNamed faithful false unreachable at_work unit (inl refl)
      (inl refl) (inr (inr refl)) refl
