-- ===== src/Workceptor/Signature.antt =====
-- Signed work (workceptor.go, createSignature, ShouldVerifySignature and VerifySignature;
-- controlsvc.go, processSignature). Keys and JSON web tokens are parameters.
pub mod Created
pub mod Examples
use receptor.Prelude.{
  ℕ, ◌+◌, Bool, false, not, ◌&&◌, Option, none, some, [], if◌then◌else◌, Bytes, codes, same,
}
use receptor.Prelude.Map.{Map, lookup}
use receptor.Workceptor.State.{ExtraData, nil, remote, command, untyped}

-- `certificates.LoadPublicKey` and the JWT library: what a file of a key holds, the token that a
-- text is under a key, whether a token is valid, and whether its audience has a node.
pub record Tokens (Key Token : Type 0) : Type 0 where
  pub load_public_key : Bytes → Option Key
  pub parse_with_claims : Key → Bytes → Option Token
  pub valid : Token → Bool
  pub verify_audience : Token → Bytes → Bool

pub data SignatureError : Type 0 where
  not_expected no_signature no_verifying_key key_not_loaded not_verified token_not_valid
        other_audience :
      SignatureError

-- `VerifySignature`; none if the signature is good.
pub verify_signature :
    {Key Token : Type 0} → Tokens Key Token → Bytes → Bytes → Bytes → Option SignatureError
verify_signature tokens verifying_key node_id signature =
    if same signature []
    then some no_signature
    else if same verifying_key []
    then some no_verifying_key
    else elim (tokens.load_public_key verifying_key) [
      | none ↦ some key_not_loaded
      | some key ↦ elim (tokens.parse_with_claims key signature) [
        | none ↦ some not_verified
        | some token ↦
            if not (tokens.valid token)
            then some token_not_valid
            else if tokens.verify_audience token node_id
            then none
            else some other_audience
      ]
    ]

-- `jwt.RegisteredClaims`, the fields that are used.
pub record Claims : Type 0 where
  pub expires_at : ℕ
  pub audience : Bytes

-- `certificates.LoadPrivateKey` and `SignedString`.
pub record Signing (PrivateKey : Type 0) : Type 0 where
  pub load_private_key : Bytes → Option PrivateKey
  pub signed_string : PrivateKey → Claims → Option Bytes

pub data Signed : Type 0 where
  no_signing_key private_key_not_loaded token_not_signed : Signed
  signed : Bytes → Signed

-- `createSignature`, at a time, with the signing key and the time until a signature expires.
pub create_signature : {PrivateKey : Type 0} → Signing PrivateKey → ℕ → Bytes → ℕ → Bytes → Signed
create_signature signing now signing_key signing_expiration node_id =
    if same signing_key [] then no_signing_key else elim (signing.load_private_key signing_key) [
      | none ↦ private_key_not_loaded
      | some key ↦
          elim (signing.signed_string key
            (record { expires_at = now + signing_expiration; audience = node_id })) [
              | none ↦ token_not_signed
              | some text ↦ signed text
            ]
    ]

-- `ShouldVerifySignature`, with the types of work and whether each verifies signatures.
unfoldable pub should_verify_signature : Map Bool → Bytes → Bool → Bool
should_verify_signature work_types work_type sign_work =
    if same work_type (codes "remote")
    then sign_work
    else elim (lookup work_type work_types) [ none ↦ false | some verify ↦ verify ]

-- `processSignature`, with what verifies a signature.
unfoldable pub process_signature :
    (Bytes → Option SignatureError) → Map Bool → Bytes → Bytes → Bool → Bool → Option SignatureError
unfolding should_verify_signature
process_signature verify work_types work_type signature conn_is_unix sign_work =
    let should = should_verify_signature work_types work_type sign_work in
    if not should && not (same signature [])
    then some not_expected
    else if should && not conn_is_unix
    then verify signature
    else none

-- `getSignWorkFromStatus`
abbrev pub sign_work_of : ExtraData → Bool
sign_work_of (remote red) = red.sign_work
sign_work_of nil = false
sign_work_of (command ced) = false
sign_work_of (untyped text) = false
