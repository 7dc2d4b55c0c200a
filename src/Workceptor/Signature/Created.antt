-- ===== src/Workceptor/Signature/Created.antt =====
-- What a node makes of a signature that another one has created.
use receptor.Prelude.{
  ℕ, ◌+◌, ◌≡◌, false, not, none, some, [], if◌then◌else◌, ltb, arith, Bytes, same, Option-cases,
  true, inl, inr,
}
use receptor.Workceptor.Signature.{
  Tokens, not_verified, other_audience, verify_signature, Claims, Signing, signed, create_signature,
}

-- What the JWT library says of a token that is signed with a private key and read under the public
-- key of the pair: the text is not empty; before the token expires, at the time `later` of its
-- check, it is read back with its audience and is valid; from then on reading it is an error.
pub record IsPair {PrivateKey Key Token : Type 0} (signing : Signing PrivateKey)
    (tokens : Tokens Key Token) (private : PrivateKey) (public : Key) (later : ℕ) : Type 0 where
  pub token : Claims → Token
  pub nonempty :
      (claims : Claims) (text : Bytes)
      → signing.signed_string private claims ≡ some text
      → same text [] ≡ false
  pub reads :
      (claims : Claims) (text : Bytes)
      → signing.signed_string private claims ≡ some text
      → tokens.parse_with_claims public text
        ≡ (if ltb later claims.expires_at then some (token claims) else none)
  pub is_valid :
      (claims : Claims) → ltb later claims.expires_at ≡ true → tokens.valid (token claims) ≡ true
  pub audience :
      (claims : Claims) (node_id : Bytes)
      → tokens.verify_audience (token claims) node_id ≡ same claims.audience node_id

-- A signature that createSignature makes for a node is good at that node until it expires, and at no
-- other: there it is refused for its audience, and after its time everywhere, since it is not read.
-- The conditions: the key files of the two nodes hold the keys of a pair, and the verifying node has
-- the name of a key file.
pub create_signature-verify_signature :
    {PrivateKey Key Token : Type 0} (signing : Signing PrivateKey) (tokens : Tokens Key Token)
    (private : PrivateKey) (public : Key) (now later signing_expiration : ℕ)
    (signing_key verifying_key node_id other text : Bytes)
    → IsPair signing tokens private public later
    → signing.load_private_key signing_key ≡ some private
    → tokens.load_public_key verifying_key ≡ some public
    → same verifying_key [] ≡ false
    → create_signature signing now signing_key signing_expiration node_id ≡ signed text
    → verify_signature tokens verifying_key other text ≡ (
        if not (ltb later (now + signing_expiration))
        then some not_verified
        else if same node_id other
        then none
        else some other_audience)
unfolding create_signature verify_signature
create_signature-verify_signature signing tokens private public now later signing_expiration
      signing_key verifying_key node_id other text pair lp lk v e =
    let claims : Claims = record { expires_at = now + signing_expiration; audience = node_id } in
    elim (Option-cases (signing.signed_string private claims)) [
      | inl n ↦ absurd (ground (arith, lp, e, n))
      | inr (t, s) ↦ ground (
        arith,
        lp,
        lk,
        v,
        e,
        s,
        pair.nonempty claims t s,
        pair.reads claims t s,
        pair.is_valid claims,
        pair.audience claims other,
      )
    ]
