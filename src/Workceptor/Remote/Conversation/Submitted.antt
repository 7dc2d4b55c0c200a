-- ===== src/Workceptor/Remote/Conversation/Submitted.antt =====
-- The command that one node sends is the command that another one carries out: StartRemoteUnit here,
-- with InitFromJSON and ControlFunc there.
use receptor.Prelude.{
  ◌≡◌, refl, ap, ◌∙◌, Bool, true, false, inl, inr, Option, none, some, List, [], ◌∷◌, if◌then◌else◌,
  arith, Bytes, codes, same, same_refl, Option-cases,
}
use receptor.Prelude.Map.{Map, lookup, lookup_or, has_key}
use receptor.Netceptor.Firewall.{to_lower}
use receptor.Workceptor.State.{RemoteExtraData}
use receptor.Workceptor.Signature.{process_signature}
use receptor.Workceptor.Commands.Params.{
  Value, str, field, refused, missing, str_from_map, bool_from_map, str_or_empty,
}
use receptor.Workceptor.Commands.Parsing.{Init, made, not_made, all_strings, init_from_json}
use receptor.Workceptor.Commands.Control.{
  Answers, local, Effect, allocates, control_func, submit, no_params, work_params, submit_work,
}
use receptor.Workceptor.Remote.Conversation.Fields.{
  own_params, submit_fields-lookup, signed-lookup, no_key, params_sent,
}
use receptor.Workceptor.Remote.Conversation.{submit_fields, signed}

-- A JSON object of strings.
abbrev pub strings : Map Bytes → Map Value
strings [] = []
strings ((k, text) ∷ m) = (k, str text) ∷ strings m

strings-all : (m : Map Bytes) → all_strings (strings m) ≡ true
strings-all [] = refl
strings-all ((k, text) ∷ m) = strings-all m

str_from_strings :
    (k text : Bytes) (m : Map Bytes)
    → lookup k m ≡ some text
    → str_from_map (strings m) k ≡ field text
unfolding lookup str_from_map
str_from_strings k text [] e = absurd (ground (arith, e))
str_from_strings k text ((j, t) ∷ m) e = ground (arith, e, str_from_strings k text m)

str_from_nothing :
    (k : Bytes) (m : Map Bytes) → lookup k m ≡ none → str_from_map (strings m) k ≡ refused missing
unfolding lookup str_from_map
str_from_nothing k [] e = refl
str_from_nothing k ((j, t) ∷ m) e = ground (arith, e, str_from_nothing k m)

bool_from_nothing :
    (k : Bytes) (m : Map Bytes) → lookup k m ≡ none → bool_from_map (strings m) k ≡ refused missing
unfolding lookup bool_from_map
bool_from_nothing k [] e = refl
bool_from_nothing k ((j, t) ∷ m) e = ground (arith, e, bool_from_nothing k m)

str_or_empty-strings : (k : Bytes) (m : Map Bytes) → str_or_empty (strings m) k ≡ lookup_or [] k m
unfolding lookup_or
str_or_empty-strings k m = elim (Option-cases (lookup k m)) [
  | inl e ↦ ground (arith, e, str_from_nothing k m e)
  | inr (text, e) ↦ ground (arith, e, str_from_strings k text m e)
]

work_params-strings : (m : Map Bytes) → work_params (strings m) ≡ some (own_params m)
unfolding work_params
work_params-strings [] = refl
work_params-strings ((k, text) ∷ m) = ground (arith, work_params-strings m)

-- What the other node needs of the fields.
pub record IsSubmit (a : Answers) (conn_is_unix : Bool) (id work_type : Bytes) (m : Map Bytes)
    : Type 0 where
  pub subcommand : lookup (codes "subcommand") m ≡ some (codes "submit")
  pub node : lookup (codes "node") m ≡ some a.node_id
  pub type : lookup (codes "worktype") m ≡ some work_type
  pub unit_id : lookup (codes "workUnitID") m ≡ some id
  pub no_ttl : lookup (codes "ttl") m ≡ none
  pub no_sign : lookup (codes "signwork") m ≡ none
  pub good :
      process_signature a.verify a.work_types work_type
        (lookup_or [] (codes "signature") m)
        conn_is_unix
        false
      ≡ none

init-strings :
    (a : Answers) (conn_is_unix : Bool) (id work_type : Bytes) (m : Map Bytes)
    → IsSubmit a conn_is_unix id work_type m
    → init_from_json (strings m) ≡ made (record { subcommand = codes "submit"; params = strings m })
unfolding init_from_json to_lower same
init-strings a conn_is_unix id work_type m is = ground (
  arith,
  str_from_strings (codes "subcommand") (codes "submit") m is.subcommand,
  str_from_strings (codes "node") a.node_id m is.node,
  str_from_strings (codes "worktype") work_type m is.type,
  strings-all m,
)

submit-strings :
    (a : Answers) (conn_is_unix : Bool) (id work_type : Bytes) (m : Map Bytes)
    → IsSubmit a conn_is_unix id work_type m
    → submit a conn_is_unix (strings m)
      ≡ submit_work a (strings m) a.node_id work_type false (own_params m)
unfolding submit
submit-strings a conn_is_unix id work_type m is = ground (
  arith,
  str_from_strings (codes "node") a.node_id m is.node,
  str_from_strings (codes "worktype") work_type m is.type,
  bool_from_nothing (codes "signwork") m is.no_sign,
  work_params-strings m,
  str_or_empty-strings (codes "signature") m,
  is.good,
)

abbrev pub first : List Effect → Option Effect
first [] = none
first (e ∷ effects) = some e

submit_work-strings :
    (a : Answers) (conn_is_unix : Bool) (id work_type : Bytes) (m : Map Bytes)
    → IsSubmit a conn_is_unix id work_type m
    → first (submit_work a (strings m) a.node_id work_type false (own_params m)).1
      ≡ some (allocates (local work_type id (own_params m)))
unfolding submit_work lookup_or
submit_work-strings a conn_is_unix id work_type m is = ground (
  arith,
  same_refl a.node_id,
  same_refl [],
  is.no_ttl,
  is.unit_id,
  str_or_empty-strings (codes "ttl") m,
  str_or_empty-strings (codes "workUnitID") m,
)

control-strings :
    (a : Answers) (conn_is_unix : Bool) (m : Map Bytes)
    → control_func a conn_is_unix (record { subcommand = codes "submit"; params = strings m })
      ≡ submit a conn_is_unix (strings m)
unfolding control_func same
control-strings a conn_is_unix m = refl

-- What a command in JSON does first.
abbrev pub does_first : Answers → Bool → Init → Option Effect
does_first a conn_is_unix (made c) = first (control_func a conn_is_unix c).1
does_first a conn_is_unix (not_made e) = none

accepted :
    (a : Answers) (conn_is_unix : Bool) (id work_type : Bytes) (m : Map Bytes)
    → IsSubmit a conn_is_unix id work_type m
    → does_first a conn_is_unix (init_from_json (strings m))
      ≡ some (allocates (local work_type id (own_params m)))
accepted a conn_is_unix id work_type m is =
    ap (does_first a conn_is_unix) (init-strings a conn_is_unix id work_type m is)
    ∙ ap (λ r. first r.1)
        (control-strings a conn_is_unix m ∙ submit-strings a conn_is_unix id work_type m is)
    ∙ submit_work-strings a conn_is_unix id work_type m is

allocates_own :
    (a : Answers) (conn_is_unix : Bool) (unit_id : Bytes) (red : RemoteExtraData)
    (signature : Option Bytes) (m : Map Bytes)
    → signed red.sign_work signature (submit_fields unit_id red) ≡ some m
    → red.remote_node ≡ a.node_id
    → has_key (codes "ttl") red.remote_params ≡ false
    → has_key (codes "signwork") red.remote_params ≡ false
    → process_signature a.verify a.work_types red.remote_work_type
        (lookup_or [] (codes "signature") m)
        conn_is_unix
        false
      ≡ none
    → does_first a conn_is_unix (init_from_json (strings m))
      ≡ some (allocates (local red.remote_work_type unit_id (own_params m)))
unfolding same
allocates_own a conn_is_unix unit_id red signature m e n t s good =
    let fields = submit_fields unit_id red in
    let at : (k : Bytes) → same (codes "signature") k ≡ false → lookup k m ≡ lookup k fields =
      λ k h. signed-lookup red.sign_work signature fields m k e h in
    accepted a conn_is_unix unit_id red.remote_work_type m (record {
      subcommand =
          at (codes "subcommand") refl ∙ submit_fields-lookup unit_id red (codes "subcommand");
      node = at (codes "node") refl ∙ submit_fields-lookup unit_id red (codes "node") ∙ ap some n;
      type = at (codes "worktype") refl ∙ submit_fields-lookup unit_id red (codes "worktype");
      unit_id =
          at (codes "workUnitID") refl ∙ submit_fields-lookup unit_id red (codes "workUnitID");
      no_ttl =
          at (codes "ttl") refl
          ∙ submit_fields-lookup unit_id red (codes "ttl")
          ∙ no_key (codes "ttl") red.remote_params t;
      no_sign =
          at (codes "signwork") refl
          ∙ submit_fields-lookup unit_id red (codes "signwork")
          ∙ no_key (codes "signwork") red.remote_params s;
      good = good;
    })

-- What StartRemoteUnit sends is what the other node does: its first act is to allocate a unit of the
-- same type, with the identifier of the local one, and with these parameters: every parameter of the
-- local unit whose name is not that of a field of the command, as it is there, and the identifier
-- once more, as workUnitID, and no others. The conditions: the other node has the name that the
-- command says, its test of the signature succeeds, and no parameter of the work is called ttl or
-- signwork.
pub submit_fields-allocates :
    (a : Answers) (conn_is_unix : Bool) (unit_id : Bytes) (red : RemoteExtraData)
    (signature : Option Bytes) (m : Map Bytes)
    → signed red.sign_work signature (submit_fields unit_id red) ≡ some m
    → red.remote_node ≡ a.node_id
    → has_key (codes "ttl") red.remote_params ≡ false
    → has_key (codes "signwork") red.remote_params ≡ false
    → process_signature a.verify a.work_types red.remote_work_type
        (lookup_or [] (codes "signature") m)
        conn_is_unix
        false
      ≡ none
    → (params : Map Bytes) × (does_first a conn_is_unix (init_from_json (strings m))
        ≡ some (allocates (local red.remote_work_type unit_id params)))
      × ((k : Bytes)
          → lookup k params ≡ (
              if no_params k
              then none
              else if same (codes "workUnitID") k
              then some unit_id
              else lookup k red.remote_params))
submit_fields-allocates a conn_is_unix unit_id red signature m e n t s good = (
  own_params m,
  allocates_own a conn_is_unix unit_id red signature m e n t s good,
  λ k. params_sent unit_id red signature m k e,
)
