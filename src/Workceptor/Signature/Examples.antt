-- ===== src/Workceptor/Signature/Examples.antt =====
-- Tests of signatures, with tokens that are their claims, written as a list of numbers.
use receptor.Prelude.{
  ◌≡◌, refl, Option, none, some, [], ◌∷◌, if◌then◌else◌, true, ℕ, ltb, arith, Bytes, codes, same,
}
use receptor.Workceptor.Signature.{
  Tokens, other_audience, verify_signature, Claims, Signing, create_signature,
}
use receptor.Workceptor.Signature.Created.{IsPair, create_signature-verify_signature}

abbrev signing : Signing Bytes
signing = record {
  load_private_key = λ file. some file;
  signed_string = λ key claims. some (claims.expires_at ∷ claims.audience);
}

-- A token that has expired is not read.
abbrev read_claims : ℕ → Bytes → Option Claims
read_claims now [] = none
read_claims now (expires_at ∷ audience) =
    if ltb now expires_at
    then some (record { expires_at = expires_at; audience = audience })
    else none

abbrev tokens : Tokens Bytes Claims
tokens = record {
  load_public_key = λ file. some file;
  parse_with_claims = λ key text. read_claims 30 text;
  valid = λ claims. true;
  verify_audience = λ claims node_id. same claims.audience node_id;
}

pair : IsPair signing tokens (codes "k") (codes "p") 30
unfolding same
pair = record {
  token = λ claims. claims;
  nonempty = λ claims text e. ground (arith, e);
  reads = λ claims text e. ground (arith, e);
  is_valid = λ claims h. refl;
  audience = λ claims node_id. refl;
}

-- A signature for one node is not good at another one.
create_signature-verify_signature_example :
    verify_signature tokens (codes "p") (codes "c") (50 ∷ codes "b") ≡ some other_audience
unfolding create_signature same
create_signature-verify_signature_example =
    create_signature-verify_signature signing tokens (codes "k") (codes "p") 20 30 30 (codes "k")
      (codes "p") (codes "b") (codes "c") (50 ∷ codes "b") pair refl refl refl refl
