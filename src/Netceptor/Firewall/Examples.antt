-- ===== src/Netceptor/Firewall/Examples.antt =====
-- Rules, well-formed and not.
use receptor.Prelude.{
  ◌+◌, ◌≡◌, refl, Bool, true, Option, some, [], arith, Bytes, codes, same, if◌then◌else◌, length,
  ◌==◌,
}
use receptor.Netceptor.State.{MessageData, reject, proceed}
use receptor.Netceptor.Firewall.{FirewallRule, ok, Rule, parse_action}
use receptor.Netceptor.Firewall.Meaning.{
  blank, literal, regex, RuleTests, passes, rule_of, rule_of_lem,
}

-- An expression compiles, and matches the texts of its length.
abbrev by_length : Bytes → Option (Bytes → Bool)
by_length e = some (λ v. length v + 2 == length e)

-- Reject what comes from node "bad" to a service of three letters.
abbrev no_bad : FirewallRule
no_bad = record {
  action = codes "Reject";
  from_node = codes "bad";
  to_node = [];
  from_service = [];
  to_service = codes "/.../";
}

no_bad_tests : RuleTests by_length no_bad
no_bad_tests = record {
  from_node = λ v. same v (codes "bad");
  to_node = λ v. true;
  from_service = λ v. true;
  to_service = λ v. length v + 2 == 5;
  from_node_means = literal b'b' (codes "ad") (omega arith);
  to_node_means = blank;
  from_service_means = blank;
  to_service_means = regex (codes "...") _ refl;
}

no_bad_action : parse_action (codes "Reject") ≡ ok reject
unfolding parse_action same
no_bad_action = refl

rule_of_lem_example :
    (r : Rule) × (rule_of by_length no_bad ≡ ok r)
    × ((md : MessageData) → r md ≡ (if passes by_length no_bad_tests md then reject else proceed))
rule_of_lem_example = rule_of_lem by_length no_bad no_bad_tests reject no_bad_action

-- The closing slash was forgotten.
abbrev forgotten : FirewallRule
forgotten = record no_bad { from_node = codes "/bad.*" }
