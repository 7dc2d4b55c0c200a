-- ===== src/Workceptor/Commands/Params.antt =====
-- The parameters of a command (controlsvc.go, strFromMap, intFromMap, boolFromMap).
use receptor.Prelude.{
  ℕ, ◌+◌, ◌*◌, ◌-◌, ◌^◌, Bool, true, false, ◌&&◌, Option, none, some, List, [], ◌∷◌, ◌++◌, ◌==◌,
  leb, ltb, if◌then◌else◌, Bytes, codes, same,
}
use receptor.Prelude.Map.{Map, lookup}

-- The integers of Go's int64, which the source keeps in range.
pub data ℤ : Type 0 where
  pos negsuc : ℕ → ℤ

-- `interface{}`: a string, an int64, a float64 by what int64 makes of it, a bool, or another value.
pub data Value : Type 0 where
  str : Bytes → Value
  int64 : ℤ → Value
  float64 : ℤ → Value
  bool : Bool → Value
  other : Value

pub data FieldError : Type 0 where
  missing malformed : FieldError

-- A value or an error.
pub data Field {ℓ} (A : Type ℓ) : Type ℓ where
  field : A → Field A
  refused : FieldError → Field A

-- `strFromMap`
unfoldable pub str_from_map : Map Value → Bytes → Field Bytes
str_from_map config name = elim (lookup name config) [
  | none ↦ refused missing
  | some value ↦ elim value [
    | str text ↦ field text
    | int64 n ↦ refused malformed
    | float64 n ↦ refused malformed
    | bool b ↦ refused malformed
    | other ↦ refused malformed
  ]
]

-- A digit string as a number.
abbrev digits : ℕ → Bytes → Option ℕ
digits n [] = some n
digits n (b ∷ text) =
    let rest = digits (n * 10 + (b - 48)) text in if leb 48 b && leb b 57 then rest else none

-- A number with a sign, in the range of int64.
abbrev signed : Bool → Option ℕ → Option ℤ
signed minus none = none
signed false (some n) = if ltb n (2 ^ 63) then some (pos n) else none
signed true (some n) =
    if n == 0 then some (pos 0) else if leb n (2 ^ 63) then some (negsuc (n - 1)) else none

abbrev unsigned : Bytes → Option ℕ
unsigned [] = none
unsigned (b ∷ text) = digits 0 (b ∷ text)

-- `strconv.ParseInt(s, 10, 64)`
unfoldable pub parse_int : Bytes → Option ℤ
parse_int [] = none
parse_int (b ∷ text) =
    if b == b'-'
    then signed true (unsigned text)
    else if b == b'+'
    then signed false (unsigned text)
    else signed false (unsigned (b ∷ text))

-- `intFromMap`
unfoldable pub int_from_map : Map Value → Bytes → Field ℤ
unfolding parse_int
int_from_map config name = elim (lookup name config) [
  | none ↦ refused missing
  | some value ↦ elim value [
    | int64 n ↦ field n
    | float64 n ↦ field n
    | str text ↦ elim (parse_int text) [ none ↦ refused malformed | some n ↦ field n ]
    | bool b ↦ refused malformed
    | other ↦ refused malformed
  ]
]

-- `boolFromMap`
unfoldable pub bool_from_map : Map Value → Bytes → Field Bool
bool_from_map config name = elim (lookup name config) [
  | none ↦ refused missing
  | some value ↦ elim value [
    | bool b ↦ field b
    | str text ↦
        if same text (codes "true")
        then field true
        else if same text (codes "false")
        then field false
        else refused malformed
    | int64 n ↦ refused malformed
    | float64 n ↦ refused malformed
    | other ↦ refused malformed
  ]
]

-- An optional string: the source takes "" for a field that it cannot read.
abbrev pub str_or_empty : Map Value → Bytes → Bytes
str_or_empty config name = elim (str_from_map config name) [ field text ↦ text | refused e ↦ [] ]

-- A start position: 0 for a field that cannot be read, and for a negative one.
abbrev pub start_pos : Field ℤ → ℕ
start_pos (field (pos n)) = n
start_pos (field (negsuc n)) = 0
start_pos (refused e) = 0

abbrev pub with_first : ℕ → List Bytes → List Bytes
with_first b [] = (b ∷ []) ∷ []
with_first b (t ∷ tokens) = (b ∷ t) ∷ tokens

-- `strings.Split(s, " ")`
unfoldable pub split : Bytes → List Bytes
split [] = [] ∷ []
split (b ∷ text) = let tokens = split text in if b == 32 then [] ∷ tokens else with_first b tokens

-- `strings.Join(tokens, " ")`
unfoldable pub join : List Bytes → Bytes
join [] = []
join (t ∷ []) = t
join (t ∷ u ∷ tokens) = t ++ (32 ∷ join (u ∷ tokens))
