-- ===== src/Workceptor/Remote/Conversation/Examples.antt =====
-- Tests of the conversation about a unit.
use receptor.Prelude.{
  ◌≡◌, refl, Bytes, if◌then◌else◌, true, false, none, some, [], ◌∷◌, ◌++◌, codes, same,
}
use receptor.Prelude.Map.{Map, lookup, insert, lookup_or}
use receptor.Workceptor.State.{RemoteExtraData}
use receptor.Workceptor.Signature.{process_signature, should_verify_signature}
use receptor.Workceptor.Commands.Parsing.{init_from_json}
use receptor.Workceptor.Commands.Control.{Answers, local, allocates, no_params, succeeds}
use receptor.Workceptor.Remote.Conversation.{
  Talk, panicked, submit_fields, find_id, find_error, order_remote_unit,
}
use receptor.Workceptor.Remote.Conversation.Submitted.{strings, does_first, submit_fields-allocates}

find_id-reply :
    find_id (codes "Work unit created with ID foo7. Send stdin data and EOF.") ≡ some (codes "foo7")
unfolding find_id
find_id-reply = refl

find_error-reply : find_error (codes "ERROR: no" ++ (10 ∷ [])) ≡ some (codes "no")
unfolding find_error
find_error-reply = refl

abbrev extra : RemoteExtraData
extra = record {
  remote_node = codes "bar";
  remote_work_type = codes "cat";
  remote_params = (codes "params", codes "-n") ∷ [];
  remote_unit_id = codes "u7";
  remote_started = false;
  adopted = false;
  local_cancelled = false;
  local_released = false;
  sign_work = false;
  tls_client = [];
  expiration = 0;
}

abbrev bar : Answers
bar = record {
  node_id = codes "bar";
  work_types = (codes "cat", false) ∷ [];
  verify = λ text. none;
  known_units = [];
  find_unit = λ unit. none;
  allocate = λ request. some (codes "u7");
  opens_stdin = true;
  read_error = none;
  close_error = none;
  start = succeeds;
  restart = succeeds;
  cancel = succeeds;
  release = λ force. succeeds;
  opens_results = true;
  writes_results = true;
}

submit_fields-allocates_example :
    (params : Map Bytes) × (does_first bar false
        (init_from_json (strings (submit_fields (codes "u7") extra)))
      ≡ some (allocates (local (codes "cat") (codes "u7") params)))
    × ((k : Bytes)
        → lookup k params ≡ (
            if no_params k
            then none
            else if same (codes "workUnitID") k
            then some (codes "u7")
            else lookup k extra.remote_params))
unfolding lookup lookup_or insert same submit_fields process_signature should_verify_signature
submit_fields-allocates_example =
    submit_fields-allocates bar false (codes "u7") extra none (submit_fields (codes "u7") extra)
      refl refl refl refl refl

abbrev short_reply : Talk
short_reply = record {
  signature = none;
  sends = true;
  first_line = some (10 ∷ []);
  opens_stdin = true;
  copies_stdin = true;
  closes = true;
  second_line = none;
}

order_remote_unit-short : (order_remote_unit short_reply false extra).1 ≡ panicked
unfolding order_remote_unit
order_remote_unit-short = refl
