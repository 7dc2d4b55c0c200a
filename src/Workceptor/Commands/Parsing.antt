-- ===== src/Workceptor/Commands/Parsing.antt =====
-- Commands from their texts and from JSON (controlsvc.go, InitFromString and InitFromJSON).
use receptor.Prelude.{
  ℕ, Bool, true, false, ◌&&◌, ◌||◌, none, some, List, [], ◌∷◌, if◌then◌else◌, Bytes, codes, same,
}
use receptor.Prelude.Map.{Map, insert}
use receptor.Netceptor.Firewall.{to_lower}
use receptor.Workceptor.Commands.Params.{
  pos, Value, str, int64, float64, bool, other, Field, field, refused, FieldError, missing,
  malformed, str_from_map, int_from_map, bool_from_map, parse_int, start_pos, split, join,
}

-- `workceptorCommand`
pub record Command : Type 0 where
  pub subcommand : Bytes
  pub params : Map Value

pub data InitError : Type 0 where
  too_few_words too_many_words not_an_integer not_a_string : InitError
  bad_field : FieldError → InitError

pub data Init : Type 0 where
  made : Command → Init
  not_made : InitError → Init

abbrev unit_commands : Bytes → Bool
unit_commands subcommand =
    same subcommand (codes "status")
    || (same subcommand (codes "cancel")
        || (same subcommand (codes "release") || same subcommand (codes "force-release")))

abbrev words : Bytes → List Bytes → Map Value → Map Value
words name [] params = params
words name (t ∷ tokens) params = insert name (str (join (t ∷ tokens))) params

abbrev node_and : Bytes → Bytes → List Bytes → Init
node_and subcommand name [] = not_made too_few_words
node_and subcommand name (node ∷ []) = not_made too_few_words
node_and subcommand name (node ∷ word ∷ rest) = made (record {
  subcommand = subcommand;
  params = words (codes "params") rest ((codes "node", str node) ∷ (name, str word) ∷ []);
})

abbrev one_unit : Bytes → List Bytes → Init
one_unit subcommand [] = not_made too_few_words
one_unit subcommand (unit ∷ []) =
    made (record { subcommand = subcommand; params = (codes "unitid", str unit) ∷ [] })
one_unit subcommand (unit ∷ word ∷ rest) = not_made too_many_words

abbrev from_position : Bytes → Bytes → ℕ → Init
from_position subcommand unit position = made (record {
  subcommand = subcommand;
  params = (codes "unitid", str unit) ∷ (codes "startpos", int64 (pos position)) ∷ [];
})

abbrev results_of : Bytes → List Bytes → Init
results_of subcommand [] = not_made too_few_words
results_of subcommand (unit ∷ []) = from_position subcommand unit 0
results_of subcommand (unit ∷ word ∷ []) = elim (parse_int word) [
  | none ↦ not_made not_an_integer
  | some n ↦ from_position subcommand unit (start_pos (field n))
]
results_of subcommand (unit ∷ word ∷ extra ∷ rest) = not_made too_many_words

abbrev list_of : Bytes → List Bytes → Init
list_of subcommand [] = made (record { subcommand = subcommand; params = [] })
list_of subcommand (unit ∷ rest) =
    made (record { subcommand = subcommand; params = (codes "unitid", str unit) ∷ [] })

-- The switch of `InitFromString` on the subcommand, with the words that follow it.
unfoldable pub init_from_words : Bytes → List Bytes → Init
unfolding parse_int join
init_from_words subcommand words =
    if same subcommand (codes "submit")
    then node_and subcommand (codes "worktype") words
    else if same subcommand (codes "list")
    then list_of subcommand words
    else if unit_commands subcommand
    then one_unit subcommand words
    else if same subcommand (codes "results")
    then results_of subcommand words
    else if same subcommand (codes "adopt")
    then node_and subcommand (codes "unitid") words
    else made (record { subcommand = subcommand; params = [] })

abbrev pub init_from_tokens : List Bytes → Init
init_from_tokens [] = not_made too_few_words
init_from_tokens (first ∷ words) = init_from_words (to_lower first) words

-- `InitFromString`
unfoldable pub init_from_string : Bytes → Init
unfolding split
init_from_string params = init_from_tokens (split params)

-- A field that must be there.
abbrev need : {A : Type 0} → Field A → (A → Init) → Init
need (field a) f = f a
need (refused e) f = not_made (bad_field e)

-- A string that may be missing, or of another type.
abbrev pub with_optional : Bytes → Map Value → Map Value → Map Value
with_optional name config params = elim (str_from_map config name) [
  | field text ↦ insert name (str text) params
  | refused e ↦ params
]

abbrev pub is_string : Value → Bool
is_string (str text) = true
is_string (int64 n) = false
is_string (float64 n) = false
is_string (bool b) = false
is_string other = false

abbrev pub all_strings : Map Value → Bool
all_strings [] = true
all_strings ((name, value) ∷ config) = is_string value && all_strings config

abbrev bool_text : Bool → Bytes
bool_text true = codes "true"
bool_text false = codes "false"

-- The case `adopt` of `InitFromJSON` after its required fields.
abbrev adopt_with : Map Value → Map Value → Bytes → Init
adopt_with config params subcommand =
    let signed : Map Value → Init = λ params'. made (record {
      subcommand = subcommand;
      params = with_optional (codes "signature") config params';
    }) in
    elim (bool_from_map config (codes "signwork")) [
      | field b ↦ signed (insert (codes "signwork") (str (bool_text b)) params)
      | refused e ↦ elim e [ missing ↦ signed params | malformed ↦ not_made (bad_field malformed) ]
    ]

-- `InitFromJSON`
unfoldable pub init_from_json : Map Value → Init
unfolding to_lower str_from_map int_from_map bool_from_map
init_from_json config = need (str_from_map config (codes "subcommand")) (λ sub.
    let subcommand = to_lower sub in
    let make : Map Value → Init =
      λ params. made (record { subcommand = subcommand; params = params }) in
    if same subcommand (codes "submit")
    then (if all_strings config
        then need (str_from_map config (codes "node"))
            (λ node. need (str_from_map config (codes "worktype")) (λ work_type. make config))
        else not_made not_a_string)
    else if unit_commands subcommand
    then need (str_from_map config (codes "unitid"))
        (λ unit. make (with_optional (codes "signature") config ((codes "unitid", str unit) ∷ [])))
    else if same subcommand (codes "list")
    then make (with_optional (codes "unitid") config [])
    else if same subcommand (codes "results")
    then need (str_from_map config (codes "unitid")) (λ unit. make (
        with_optional (codes "signature") config (
          (codes "unitid", str unit)
          ∷ (codes "startpos", int64 (pos (start_pos (int_from_map config (codes "startpos")))))
          ∷ [])))
    else if same subcommand (codes "adopt")
    then need (str_from_map config (codes "node")) (λ node.
      need (str_from_map config (codes "unitid")) (λ unit.
        adopt_with config
          (with_optional (codes "tlsclient") config
            ((codes "node", str node) ∷ (codes "unitid", str unit) ∷ []))
          subcommand))
    else make [])
