-- ===== src/Workceptor/Commands/Examples.antt =====
-- Tests of the work commands on a node that has a unit of signed work.
use receptor.Prelude.{◌≡◌, refl, true, none, some, [], ◌∷◌, codes, if◌then◌else◌, same}
use receptor.Netceptor.Firewall.{to_lower}
use receptor.Workceptor.State.{running, nil, StatusFileData}
use receptor.Workceptor.Signature.{not_verified}
use receptor.Workceptor.Commands.Params.{negsuc, pos, str, int64, parse_int, split}
use receptor.Workceptor.Commands.Parsing.{
  Command, made, init_from_words, init_from_string, init_from_json,
}
use receptor.Workceptor.Commands.Control.{Answers, succeeds}
use receptor.Workceptor.Commands.Control.Guarded.{IsGuarded, control_func-is_authorized}
use receptor.Workceptor.Commands.Control.Forms.{
  run_made, submit_text, submit_json, submit_text-submit_json,
}

abbrev signed_unit : StatusFileData
signed_unit = record {
  state = running;
  detail = [];
  stdout_size = 0;
  work_type = codes "cat";
  extra_data = nil;
}

abbrev answers : Answers
answers = record {
  node_id = codes "foo";
  work_types = (codes "cat", true) ∷ [];
  verify = λ text. if same text (codes "good") then none else some not_verified;
  known_units = codes "u1" ∷ [];
  find_unit = λ unit. some signed_unit;
  allocate = λ request. some (codes "u2");
  opens_stdin = true;
  read_error = none;
  close_error = none;
  start = succeeds;
  restart = succeeds;
  cancel = succeeds;
  release = λ force. succeeds;
  opens_results = true;
  writes_results = true;
}

abbrev cancel_unsigned : Command
cancel_unsigned = record {
  subcommand = codes "cancel";
  params = (codes "unitid", str (codes "u1")) ∷ [];
}

parse_int-negative : parse_int (codes "-12") ≡ some (negsuc 11)
unfolding parse_int
parse_int-negative = refl

results-from :
    init_from_string (codes "Results u1 -5")
    ≡ made (record {
      subcommand = codes "results";
      params = (codes "unitid", str (codes "u1")) ∷ (codes "startpos", int64 (pos 0)) ∷ [];
    })
unfolding init_from_string init_from_words split to_lower same parse_int
results-from = refl

control_func-is_authorized_example : IsGuarded answers cancel_unsigned
control_func-is_authorized_example = control_func-is_authorized answers cancel_unsigned

submit_text-submit_json_example :
    run_made answers true
      (init_from_string (submit_text (codes "bar") (codes "cat") (codes "a  b")))
    ≡ run_made answers true
        (init_from_json (submit_json (codes "bar") (codes "cat") (codes "a  b")))
submit_text-submit_json_example =
    submit_text-submit_json answers true (codes "bar") (codes "cat") (codes "a  b") refl refl
