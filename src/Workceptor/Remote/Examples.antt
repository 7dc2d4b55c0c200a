-- ===== src/Workceptor/Remote/Examples.antt =====
-- Tests of units on other nodes.
use receptor.Prelude.{Bytes, ◌≡◌, refl, true, false, none, List, [], ◌∷◌, codes}
use receptor.Prelude.Map.{Map, lookup}
use receptor.Workceptor.State.{running, succeeded, remote, RemoteExtraData}
use receptor.Workceptor.Results.{reads}
use receptor.Workceptor.Remote.{RemoteUnit, not_read, status_of}
use receptor.Workceptor.Remote.Stdout.{
  Visit, in_vain, fetches, visits, local_of, IsCopy, visits-IsCopy,
}
use receptor.Workceptor.Remote.Recorded.{status_of-begins_with}

-- The connection breaks after a byte, then after two.
abbrev two_visits : List Visit
two_visits =
    fetches (record { written = codes "ab"; loads = true; state = running; size = 2 })
      (record { written = codes "c"; look = reads 9; state = running; size = 2 } ∷ []) 1
    ∷ in_vain (record { written = []; loads = true; state = running; size = 3 }) not_read
    ∷ fetches (record { written = []; loads = true; state = running; size = 3 })
        (record { written = []; look = reads 9; state = succeeded; size = 3 } ∷ []) 2
    ∷ []

visits-IsCopy_example : IsCopy (visits two_visits [] []).0 (local_of (visits two_visits [] []).1)
visits-IsCopy_example = visits-IsCopy two_visits [] [] (record { rest = []; parts = refl })

abbrev extra : RemoteExtraData
extra = record {
  remote_node = codes "bar";
  remote_work_type = codes "cat";
  remote_params = (codes "Secret_key", codes "s") ∷ (codes "a", codes "1") ∷ [];
  remote_unit_id = [];
  remote_started = false;
  adopted = false;
  local_cancelled = false;
  local_released = false;
  sign_work = false;
  tls_client = [];
  expiration = 0;
}

abbrev unit : RemoteUnit
unit = record {
  status = record {
    state = running;
    detail = [];
    stdout_size = 0;
    work_type = codes "remote";
    extra_data = remote extra;
  };
  file = none;
  last_update_error = none;
}

status_of-begins_with_example :
    (params : Map Bytes) × (status_of unit
      ≡ record unit.status { extra_data = remote (record extra { remote_params = params }) })
    × (lookup (codes "Secret_key") params ≡ none)
status_of-begins_with_example = status_of-begins_with unit extra (codes "Secret_key") refl
