-- ===== src/Netceptor/Firewall/Meaning.antt =====
-- What a parsed firewall rule decides.
use receptor.Prelude.{
  ℕ, ◌≡◌, refl, ◌≢◌, Bool, true, ◌&&◌, Option, none, some, List, [], ◌∷◌, ◌++◌, arith,
  if◌then◌else◌, length, Bytes, codes, same, length-append, take-append,
}
use receptor.Netceptor.State.{MessageData, FirewallResult, proceed}
use receptor.Netceptor.Firewall.{
  FirewallRule, Outcome, ok, ◌>>=◌, CompareFunc, Rule, compare_field, inner, last_or, all_match,
  add_comp, parse_action, firewall_rule, build_comp, build_comps,
}

-- A field of a rule, and the test that it stands for: a blank field is no test, a text between
-- slashes that compiles is a regular expression for the whole value, and any other text that does
-- not begin with a slash is the value itself.
pub data Means (compile : Bytes → Option (Bytes → Bool)) : Bytes → (Bytes → Bool) → Type 0 where
  blank : Means compile [] (λ v. true)
  literal : (a : ℕ) (p : Bytes) → a ≢ b'/' → Means compile (a ∷ p) (λ v. same v (a ∷ p))
  regex :
      (mid : Bytes) (t : Bytes → Bool)
      → compile ((b'^' ∷ mid) ++ b'$' ∷ []) ≡ some t
      → Means compile (b'/' ∷ (mid ++ b'/' ∷ [])) t

last_or-append : (d : ℕ) (mid : Bytes) (b : ℕ) → last_or d (mid ++ b ∷ []) ≡ b
last_or-append d [] b = refl
last_or-append d (a ∷ mid) b = last_or-append a mid b

pub inner-enclosed : (mid : Bytes) → inner (b'/' ∷ (mid ++ b'/' ∷ [])) ≡ ok mid
unfolding inner
inner-enclosed [] = refl
inner-enclosed (a ∷ mid) = ground (
  arith,
  last_or-append a mid b'/',
  length-append mid (b'/' ∷ []),
  take-append (a ∷ mid) (b'/' ∷ []) (length (mid ++ b'/' ∷ [])),
)

-- A missing comparer matches.
abbrev test_of : Option CompareFunc → CompareFunc
test_of none md = true
test_of (some comp) md = comp md

all_match-append :
    (comps : List CompareFunc) (c : CompareFunc) (md : MessageData)
    → all_match (comps ++ c ∷ []) md ≡ (all_match comps md && c md)
unfolding all_match
all_match-append [] c md = ground arith
all_match-append (d ∷ comps) c md = ground (arith, all_match-append comps c md)

all_match-add_comp :
    (c : Option CompareFunc) (comps : List CompareFunc) (md : MessageData)
    → all_match (add_comp c comps) md ≡ (all_match comps md && test_of c md)
all_match-add_comp none comps md = ground arith
all_match-add_comp (some c) comps md = all_match-append comps c md

module _ (compile : Bytes → Option (Bytes → Bool)) where
  abbrev Compares : Bytes → (MessageData → Bytes) → Bytes → (Bytes → Bool) → Type 0
  Compares field get p t =
      (c : Option CompareFunc) × (build_comp compile field p ≡ ok c)
      × ((md : MessageData) → test_of c md ≡ t (get md))

  build_comp-Compares :
      (field : Bytes) (get : MessageData → Bytes)
      → ((test : Bytes → Bool) → compare_field field test ≡ ok (λ md. test (get md)))
      → (p : Bytes) (t : Bytes → Bool) → Means compile p t
      → Compares field get p t
  unfolding build_comp
  build_comp-Compares field get h p t blank = (none, refl, λ md. refl)
  build_comp-Compares field get h p t (literal a q ne) =
      (some (λ md. same (get md) (a ∷ q)), ground (arith, h (λ v. same v (a ∷ q))), λ md. refl)
  build_comp-Compares field get h p t (regex mid test e) =
      (some (λ md. test (get md)), ground (arith, inner-enclosed mid, e, h test), λ md. refl)

  -- The four tests of a rule, in the order of its fields.
  pub record RuleTests (fr : FirewallRule) : Type 0 where
    pub from_node : Bytes → Bool
    pub to_node : Bytes → Bool
    pub from_service : Bytes → Bool
    pub to_service : Bytes → Bool
    pub from_node_means : Means compile fr.from_node from_node
    pub to_node_means : Means compile fr.to_node to_node
    pub from_service_means : Means compile fr.from_service from_service
    pub to_service_means : Means compile fr.to_service to_service

  abbrev pub passes : {fr : FirewallRule} → RuleTests fr → MessageData → Bool
  passes t md =
      t.from_node md.from_node
      && t.to_node md.to_node
      && t.from_service md.from_service
      && t.to_service md.to_service

firewall_rule-ok :
    (comps : List CompareFunc) (action : Bytes) (result : FirewallResult)
    → parse_action action ≡ ok result
    → (r : Rule) × (firewall_rule comps action ≡ ok r)
      × ((md : MessageData) → r md ≡ (if all_match comps md then result else proceed))
unfolding firewall_rule
firewall_rule-ok [] action result e = ((λ md. result), ground arith, λ md. refl)
firewall_rule-ok (c ∷ cs) action result e =
    ((λ md. if all_match (c ∷ cs) md then result else proceed), ground arith, λ md. refl)

compare_fromnode :
    (test : Bytes → Bool) → compare_field (codes "fromnode") test ≡ ok (λ md. test md.from_node)
unfolding compare_field same
compare_fromnode test = refl

compare_tonode :
    (test : Bytes → Bool) → compare_field (codes "tonode") test ≡ ok (λ md. test md.to_node)
unfolding compare_field same
compare_tonode test = refl

compare_fromservice :
    (test : Bytes → Bool)
    → compare_field (codes "fromservice") test ≡ ok (λ md. test md.from_service)
unfolding compare_field same
compare_fromservice test = refl

compare_toservice :
    (test : Bytes → Bool) → compare_field (codes "toservice") test ≡ ok (λ md. test md.to_service)
unfolding compare_field same
compare_toservice test = refl

module _ (compile : Bytes → Option (Bytes → Bool)) where
  abbrev pub rule_of : FirewallRule → Outcome Rule
  rule_of fr = build_comps compile fr >>= λ comps. firewall_rule comps fr.action

  -- A rule whose four fields mean something and whose action is one of the three is accepted, and
  -- decides by that action exactly for the messages that pass all four tests. For any other message
  -- it leaves the decision to the next rule.
  pub rule_of_lem :
      (fr : FirewallRule) (t : RuleTests compile fr) (result : FirewallResult)
      → parse_action fr.action ≡ ok result
      → (r : Rule) × (rule_of fr ≡ ok r)
        × ((md : MessageData) → r md ≡ (if passes compile t md then result else proceed))
  unfolding build_comps all_match
  rule_of_lem fr t result e =
      let fnc =
        build_comp-Compares compile (codes "fromnode") (λ md. md.from_node) compare_fromnode
          fr.from_node t.from_node t.from_node_means in
      let tnc =
        build_comp-Compares compile (codes "tonode") (λ md. md.to_node) compare_tonode fr.to_node
          t.to_node t.to_node_means in
      let fsc =
        build_comp-Compares compile (codes "fromservice") (λ md. md.from_service)
          compare_fromservice fr.from_service t.from_service t.from_service_means in
      let tsc =
        build_comp-Compares compile (codes "toservice") (λ md. md.to_service) compare_toservice
          fr.to_service t.to_service t.to_service_means in
      let comps = add_comp tsc.0 (add_comp fsc.0 (add_comp tnc.0 (add_comp fnc.0 []))) in
      let (r, made, decides) = firewall_rule-ok comps fr.action result e in
      (
        r,
        ground (arith, fnc.1, tnc.1, fsc.1, tsc.1, made),
        λ md. ground (
          arith,
          decides md,
          fnc.2 md,
          tnc.2 md,
          fsc.2 md,
          tsc.2 md,
          all_match-add_comp fnc.0 [] md,
          all_match-add_comp tnc.0 (add_comp fnc.0 []) md,
          all_match-add_comp fsc.0 (add_comp tnc.0 (add_comp fnc.0 [])) md,
          all_match-add_comp tsc.0 (add_comp fsc.0 (add_comp tnc.0 (add_comp fnc.0 []))) md,
        ),
      )
