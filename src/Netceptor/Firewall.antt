-- ===== src/Netceptor/Firewall.antt =====
-- pkg/netceptor/firewall_rules.go: rules are parsed into functions on messages.
-- `regexp.Compile` is the parameter `compile`: the matcher of an expression, or an error.
pub mod Meaning
pub mod Malformed
pub mod Examples
use receptor.Prelude.{
  ℕ, ◌+◌, Bool, true, not, ◌&&◌, ◌||◌, Option, none, some, List, [], ◌∷◌, ◌++◌, ◌==◌, leb,
  if◌then◌else◌, length, take, drop, Bytes, codes, same,
}
use receptor.Netceptor.State.{MessageData, FirewallResult, proceed, accept, reject, drop as drop_it}

-- `strings.ToLower` as far as it can give an ASCII letter of the keywords: upper case, and U+0130
-- for i.
unfoldable pub to_lower : Bytes → Bytes
to_lower [] = []
to_lower (a ∷ []) = (if leb b'A' a && leb a b'Z' then a + 32 else a) ∷ []
to_lower (a ∷ b ∷ rest) =
    let dotted = b'i' ∷ to_lower rest in
    let plain = (if leb b'A' a && leb a b'Z' then a + 32 else a) ∷ to_lower (b ∷ rest) in
    if a == 0xc4 && b == 0xb0 then dotted else plain

pub record FirewallRule : Type 0 where
  pub action : Bytes
  pub from_node : Bytes
  pub to_node : Bytes
  pub from_service : Bytes
  pub to_service : Bytes

-- A value of `FirewallRuleData`: a string, or anything else that YAML may give.
pub data RuleValue : Type 0 where
  text : Bytes → RuleValue
  other : RuleValue

pub data RuleError : Type 0 where
  not_a_string unknown_key unknown_action unknown_field not_enclosed does_not_compile : RuleError
  in_rule : ℕ → RuleError → RuleError

-- `panic` is a slice out of range.
pub data Outcome {ℓ} (A : Type ℓ) : Type ℓ where
  ok : A → Outcome A
  err : RuleError → Outcome A
  panic : Outcome A

infixl 5 ◌>>=◌
abbrev pub ◌>>=◌ {ℓ κ} : {A : Type ℓ} {B : Type κ} → Outcome A → (A → Outcome B) → Outcome B
ok a >>= f = f a
err e >>= f = err e
panic >>= f = panic

abbrev pub CompareFunc : Type 0
CompareFunc = MessageData → Bool

abbrev pub Rule : Type 0
Rule = MessageData → FirewallResult

-- The `switch` on the field's name, which `stringCompare` and `regexCompare` share in form.
compare_field : Bytes → (Bytes → Bool) → Outcome CompareFunc
unfolding to_lower
compare_field field test =
    let name = to_lower field in
    if same name (codes "fromnode")
    then ok (λ md. test md.from_node)
    else if same name (codes "fromservice")
    then ok (λ md. test md.from_service)
    else if same name (codes "tonode")
    then ok (λ md. test md.to_node)
    else if same name (codes "toservice")
    then ok (λ md. test md.to_service)
    else err unknown_field

pub string_compare : Bytes → Bytes → Outcome CompareFunc
unfolding compare_field
string_compare field value = compare_field field (λ v. same v value)

abbrev pub last_or : ℕ → Bytes → ℕ
last_or d [] = d
last_or d (b ∷ bs) = last_or b bs

-- `value[0]` and `value[len(value)-1]`; then `value[1:len(value)-1]`, which is out of range for one
-- byte.
pub inner : Bytes → Outcome Bytes
inner [] = panic
inner (a ∷ []) = if not (a == b'/') then err not_enclosed else panic
inner (a ∷ b ∷ bs) =
    if not (a == b'/') || not (last_or b bs == b'/')
    then err not_enclosed
    else ok (take (length bs) (b ∷ bs))

-- `comp, _ = …`: the error is dropped, and `comp` is nil.
dropped : Outcome CompareFunc → Outcome (Option CompareFunc)
dropped (ok comp) = ok (some comp)
dropped (err e) = ok none
dropped panic = panic

abbrev add_comp : Option CompareFunc → List CompareFunc → List CompareFunc
add_comp none comps = comps
add_comp (some comp) comps = comps ++ comp ∷ []

pub all_match : List CompareFunc → MessageData → Bool
all_match [] md = true
all_match (comp ∷ comps) md = comp md && all_match comps md

pub parse_action : Bytes → Outcome FirewallResult
unfolding to_lower
parse_action action =
    let name = to_lower action in
    if same name (codes "accept")
    then ok accept
    else if same name (codes "reject")
    then ok reject
    else if same name (codes "drop")
    then ok drop_it
    else err unknown_action

pub firewall_rule : List CompareFunc → Bytes → Outcome Rule
unfolding parse_action all_match
firewall_rule comparers action = do
  result ← parse_action action
  elim comparers [
    | [] ↦ ok (λ md. result)
    | c ∷ cs ↦ ok (λ md. if all_match (c ∷ cs) md then result else proceed)
  ]

set_field : Bytes → Bytes → FirewallRule → Outcome FirewallRule
unfolding to_lower
set_field key val fr =
    let name = to_lower key in
    if same name (codes "action")
    then ok (record fr { action = val })
    else if same name (codes "fromnode")
    then ok (record fr { from_node = val })
    else if same name (codes "tonode")
    then ok (record fr { to_node = val })
    else if same name (codes "fromservice")
    then ok (record fr { from_service = val })
    else if same name (codes "toservice")
    then ok (record fr { to_service = val })
    else err unknown_key

-- The loop over the keys, in the order in which the map gives them.
pub read_fields : List (Bytes × RuleValue) → FirewallRule → Outcome FirewallRule
unfolding set_field
read_fields [] fr = ok fr
read_fields ((key, other) ∷ rest) fr = err not_a_string
read_fields ((key, text val) ∷ rest) fr = do fr' ← set_field key val fr; read_fields rest fr'

pub no_rule : FirewallRule
no_rule = record { action = []; from_node = []; to_node = []; from_service = []; to_service = [] }

abbrev located : ℕ → Outcome Rule → Outcome Rule
located i (ok r) = ok r
located i (err e) = err (in_rule i e)
located i panic = panic

module _ (compile : Bytes → Option (Bytes → Bool)) where
  compile_or_err : Bytes → Outcome (Bytes → Bool)
  compile_or_err e = elim (compile e) [ some test ↦ ok test | none ↦ err does_not_compile ]

  pub regex_compare : Bytes → Bytes → Outcome CompareFunc
  unfolding inner compile_or_err compare_field
  regex_compare field value = do
    middle ← inner value
    test ← compile_or_err ((b'^' ∷ middle) ++ b'$' ∷ [])
    compare_field field test

  pub build_comp : Bytes → Bytes → Outcome (Option CompareFunc)
  unfolding regex_compare string_compare dropped
  build_comp field [] = ok none
  build_comp field (a ∷ pattern) =
      if a == b'/'
      then dropped (regex_compare field (a ∷ pattern))
      else dropped (string_compare field (a ∷ pattern))

  pub build_comps : FirewallRule → Outcome (List CompareFunc)
  unfolding build_comp
  build_comps fr = do
    fnc ← build_comp (codes "fromnode") fr.from_node
    tnc ← build_comp (codes "tonode") fr.to_node
    fsc ← build_comp (codes "fromservice") fr.from_service
    tsc ← build_comp (codes "toservice") fr.to_service
    ok (add_comp tsc (add_comp fsc (add_comp tnc (add_comp fnc []))))

  pub parse_firewall_rule : List (Bytes × RuleValue) → Outcome Rule
  unfolding no_rule
  parse_firewall_rule entries = do
    fr ← read_fields entries no_rule
    comps ← build_comps fr
    firewall_rule comps fr.action

  parse_from : ℕ → List (List (Bytes × RuleValue)) → Outcome (List Rule)
  parse_from i [] = ok []
  parse_from i (rule ∷ rules) = do
    result ← located i (parse_firewall_rule rule)
    rest ← parse_from (i + 1) rules
    ok (result ∷ rest)

  pub parse_firewall_rules : List (List (Bytes × RuleValue)) → Outcome (List Rule)
  unfolding parse_from
  parse_firewall_rules rules = parse_from 0 rules
