-- ===== src/Netceptor/Firewall/Malformed.antt =====
-- Regular expressions in firewall rules that the code does not refuse.
use receptor.Prelude.{ℕ, ◌≡◌, ◌≢◌, Bool, Option, none, [], ◌∷◌, ◌++◌, arith, Bytes, codes}
use receptor.Netceptor.Firewall.{FirewallRule, ok, last_or, build_comp, build_comps}
use receptor.Netceptor.Firewall.Meaning.{inner-enclosed, rule_of}

-- A text of two bytes or more that begins with a slash and does not end with one, or whose
-- expression does not compile.
pub data IsMalformed (compile : Bytes → Option (Bytes → Bool)) : Bytes → Type 0 where
  unclosed : (b : ℕ) (bs : Bytes) → last_or b bs ≢ b'/' → IsMalformed compile (b'/' ∷ b ∷ bs)
  broken :
      (mid : Bytes)
      → compile ((b'^' ∷ mid) ++ b'$' ∷ []) ≡ none
      → IsMalformed compile (b'/' ∷ (mid ++ b'/' ∷ []))

module _ (compile : Bytes → Option (Bytes → Bool)) where
  build_comp-IsMalformed :
      (field p : Bytes) → IsMalformed compile p → build_comp compile field p ≡ ok none
  unfolding build_comp
  build_comp-IsMalformed field p (unclosed b bs h) = ground arith
  build_comp-IsMalformed field p (broken mid h) = ground (arith, inner-enclosed mid, h)

  -- A malformed expression for the sending node is dropped without an error: the rule that is made
  -- is the one of a rule with that field blank, which applies to messages from every node.
  pub rule_of-IsMalformed :
      (fr : FirewallRule)
      → IsMalformed compile fr.from_node
      → rule_of compile fr ≡ rule_of compile (record fr { from_node = [] })
  unfolding build_comps
  rule_of-IsMalformed fr h =
      ground (arith, build_comp-IsMalformed (codes "fromnode") fr.from_node h)
