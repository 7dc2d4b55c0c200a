-- ===== src/Workceptor/Remote/Recorded.antt =====
-- What the status of a unit on another node says and does not say.
use receptor.Prelude.{
  ◌+◌, ◌∙◌, Bool, true, false, not, ◌&&◌, ◌||◌, ◌==◌, leb, ltb, codes, has_prefix, ◌≡◌, refl, ap,
  none, [], ◌∷◌, arith, if◌then◌else◌, Bytes, same, same_iff, Bool-cases, inl, inr,
}
use receptor.Prelude.Map.{Map, lookup}
use receptor.Netceptor.Firewall.{to_lower}
use receptor.Workceptor.State.{remote, RemoteExtraData, Codec, Fault}
use receptor.Workceptor.Remote.{
  RemoteUnit, is_secret, redacted, status_of, line, Monitor, panics, monitor_turn,
}

redacted-lookup :
    (k : Bytes) (params : Map Bytes)
    → lookup k (redacted params) ≡ (if is_secret k then none else lookup k params)
unfolding redacted lookup
redacted-lookup k [] = ground arith
redacted-lookup k ((j, v) ∷ params) = elim (Bool-cases (same j k)) [
  | inl e ↦ ground (arith, e, ap is_secret ((same_iff j k).0 e), redacted-lookup k params)
  | inr e ↦ ground (arith, e, redacted-lookup k params)
]

-- Whether a text begins with a word of small letters, of which each may be a capital in the text.
abbrev pub begins_with : Bytes → Bytes → Bool
begins_with k [] = true
begins_with [] (c ∷ word) = false
begins_with (a ∷ k) (c ∷ word) =
    (a == c || leb b'a' c && (leb c b'z' && a + 32 == c)) && begins_with k word

-- The words that no letter beyond ASCII is lowered to: without i and without capitals.
abbrev is_plain : Bytes → Bool
is_plain [] = true
is_plain (c ∷ word) =
    ltb c 128 && (not (c == b'i') && (not (leb b'A' c && leb c b'Z') && is_plain word))

to_lower-begins_with :
    (k word : Bytes) → is_plain word ≡ true → has_prefix (to_lower k) word ≡ begins_with k word
unfolding to_lower
to_lower-begins_with k [] h = refl
to_lower-begins_with [] (c ∷ word) h = refl
to_lower-begins_with (a ∷ []) (c ∷ word) h = ground (arith, h, to_lower-begins_with [] word)
to_lower-begins_with (a ∷ b ∷ k) (c ∷ word) h = ground (arith, h, to_lower-begins_with (b ∷ k) word)

is_secret-begins_with : (k : Bytes) → is_secret k ≡ begins_with k (codes "secret_")
unfolding is_secret
is_secret-begins_with k = to_lower-begins_with k (codes "secret_") refl

-- The status that a unit on another node shows has none of its secret parameters, those whose name
-- begins with the word secret_, in small letters or capitals, and all its other parameters: a lookup
-- of a name in the parameters shown gives nothing for a secret one, and what the unit has for
-- another one. Nothing else of the unit's data is changed.
pub status_of-begins_with :
    (u : RemoteUnit) (red : RemoteExtraData) (k : Bytes)
    → u.status.extra_data ≡ remote red
    → (params : Map Bytes) × (status_of u
        ≡ record u.status { extra_data = remote (record red { remote_params = params }) })
      × (lookup k params
          ≡ (if begins_with k (codes "secret_") then none else lookup k red.remote_params))
unfolding status_of
status_of-begins_with u red k e = (
  redacted red.remote_params,
  ground (arith, e),
  redacted-lookup k red.remote_params
      ∙ ap (λ b. if b then none else lookup k red.remote_params) (is_secret-begins_with k),
)

-- A line that is only its line break, or shorter than five bytes, ends the process.
pub monitor_turn-panics :
    (c : Codec) (on_status on_type : Fault) (m : Monitor)
    → monitor_turn c on_status on_type (line (10 ∷ [])) m ≡ panics
unfolding monitor_turn
monitor_turn-panics c on_status on_type m = refl
