-- ===== src/Workceptor/Commands/Control/Forms.antt =====
-- The two forms of a command, text and JSON.
use receptor.Prelude.{
  ℕ, ◌≡◌, refl, sym, ap, ◌∙◌, Bool, true, not, ◌&&◌, ◌||◌, inl, inr, Option, none, some, List, [],
  ◌∷◌, ◌++◌, ◌==◌, arith, Bytes, codes, same, same→eq, Bool-cases,
}
use mathlib.Core.Path.{subst}
use receptor.Prelude.Map.{Map, lookup, insert}
use receptor.Netceptor.Firewall.{to_lower}
use receptor.Workceptor.Commands.Params.{
  Value, str, str_from_map, bool_from_map, split, join, with_first,
}
use receptor.Workceptor.Commands.Parsing.{
  Command, Init, made, not_made, init_from_words, init_from_tokens, init_from_string,
  init_from_json,
}
use receptor.Workceptor.Commands.Control.{
  Answers, Effect, Reply, control_func, submit, work_params, submit_work,
}

-- A word of a text.
abbrev pub is_word : Bytes → Bool
is_word [] = true
is_word (b ∷ text) = not (b == 32) && is_word text

split-word :
    (word text : Bytes) → is_word word ≡ true → split (word ++ (32 ∷ text)) ≡ word ∷ split text
unfolding split
split-word [] text h = refl
split-word (b ∷ word) text h = ground (arith, h, split-word word text)

split-last : (word : Bytes) → is_word word ≡ true → split word ≡ word ∷ []
unfolding split
split-last [] h = refl
split-last (b ∷ word) h = ground (arith, h, split-last word)

join-first : (b : ℕ) (tokens : List Bytes) → join (with_first b tokens) ≡ b ∷ join tokens
unfolding join
join-first b [] = refl
join-first b (t ∷ []) = refl
join-first b (t ∷ u ∷ tokens) = refl

split-nonempty : (text : Bytes) → (t : Bytes) × (tokens : List Bytes) × (split text ≡ t ∷ tokens)
unfolding split
split-nonempty [] = ([], [], refl)
split-nonempty (b ∷ text) =
    let (t, tokens, h) = split-nonempty text in
    elim (Bool-cases (b == 32)) [
      | inl e ↦ ([], split text, ground (arith, e))
      | inr e ↦ (b ∷ t, tokens, ground (arith, e, h))
    ]

-- Joined again, the words of a text are the text.
join-split : (text : Bytes) → join (split text) ≡ text
unfolding split join
join-split [] = refl
join-split (b ∷ text) =
    let (t, tokens, h) = split-nonempty text in
    elim (Bool-cases (b == 32)) [
      | inl e ↦ ground (arith, e, h, join-split text)
      | inr e ↦ ground (arith, e, join-first b (split text), join-split text)
    ]

-- The commands on a unit that exists.
abbrev pub is_unit_command : Bytes → Bool
is_unit_command sub =
    same sub (codes "status")
    || (same sub (codes "cancel")
        || (same sub (codes "release")
            || (same sub (codes "force-release") || same sub (codes "results"))))

abbrev pub unit_json : Bytes → Bytes → Map Value
unit_json sub unit = (codes "subcommand", str sub) ∷ (codes "unitid", str unit) ∷ []

abbrev IsForm : Bytes → Bytes → Type 0
IsForm sub unit =
    (init_from_words sub (unit ∷ []) ≡ init_from_json (unit_json sub unit))
    × (to_lower sub ≡ sub)
    × (is_word sub ≡ true)

unit-IsForm : (sub unit : Bytes) → is_unit_command sub ≡ true → IsForm sub unit
unfolding init_from_words init_from_json same to_lower lookup
unit-IsForm sub unit h =
    let form : (s : Bytes) → IsForm s unit → same sub s ≡ true → IsForm sub unit =
      λ s f e. subst (λ t. IsForm t unit) (sym (same→eq sub s e)) f in
    elim (Bool-cases (same sub (codes "status"))) [
      | inl e ↦ form (codes "status") (refl, refl, refl) e
      | inr e ↦ elim (Bool-cases (same sub (codes "cancel"))) [
        | inl f ↦ form (codes "cancel") (refl, refl, refl) f
        | inr f ↦ elim (Bool-cases (same sub (codes "release"))) [
          | inl g ↦ form (codes "release") (refl, refl, refl) g
          | inr g ↦ elim (Bool-cases (same sub (codes "force-release"))) [
            | inl k ↦ form (codes "force-release") (refl, refl, refl) k
            | inr k ↦ form (codes "results") (refl, refl, refl) (ground (arith, e, f, g, k, h))
          ]
        ]
      ]
    ]

-- A command on a unit is the same command in its text form and in its JSON form: the conditions are
-- that the subcommand is one of status, cancel, release, force-release and results, and that the
-- identifier of the unit has no space.
pub init_from_string-json :
    (sub unit : Bytes)
    → is_unit_command sub ≡ true
    → is_word unit ≡ true
    → init_from_string (sub ++ (32 ∷ unit)) ≡ init_from_json (unit_json sub unit)
unfolding init_from_string
init_from_string-json sub unit h w =
    let (form, lower, word) = unit-IsForm sub unit h in
    ground (arith, split-word sub unit word, split-last unit w, lower, form)

-- What a command that may not be made does.
abbrev pub run_made : Answers → Bool → Init → Option (Reply × List Effect)
run_made a conn_is_unix (made c) = some (control_func a conn_is_unix c)
run_made a conn_is_unix (not_made e) = none

abbrev pub submit_text : Bytes → Bytes → Bytes → Bytes
submit_text node work_type text = codes "submit " ++ (node ++ (32 ∷ (work_type ++ (32 ∷ text))))

abbrev pub submit_json : Bytes → Bytes → Bytes → Map Value
submit_json node work_type text =
    (codes "subcommand", str (codes "submit"))
    ∷ (codes "node", str node)
    ∷ (codes "worktype", str work_type)
    ∷ (codes "params", str text)
    ∷ []

split-submit :
    (node work_type text : Bytes)
    → is_word node ≡ true
    → is_word work_type ≡ true
    → split (submit_text node work_type text) ≡ codes "submit" ∷ node ∷ work_type ∷ split text
split-submit node work_type text n w =
    split-word (codes "submit") (node ++ (32 ∷ (work_type ++ (32 ∷ text)))) refl
    ∙ ap (λ ws. codes "submit" ∷ ws)
        (split-word node (work_type ++ (32 ∷ text)) n
          ∙ ap (λ ws. node ∷ ws) (split-word work_type text w))

abbrev submit_params : Bytes → Bytes → Bytes → Map Value
submit_params node work_type text =
    (codes "node", str node) ∷ (codes "worktype", str work_type) ∷ (codes "params", str text) ∷ []

abbrev submit_command : Map Value → Command
submit_command params = record { subcommand = codes "submit"; params = params }

text_made :
    (node work_type text t : Bytes) (tokens : List Bytes)
    → split text ≡ t ∷ tokens
    → join (t ∷ tokens) ≡ text
    → split (submit_text node work_type text) ≡ codes "submit" ∷ node ∷ work_type ∷ split text
    → init_from_string (submit_text node work_type text)
      ≡ made (submit_command (submit_params node work_type text))
unfolding init_from_string init_from_words to_lower same insert
text_made node work_type text t tokens h j s =
    ap init_from_tokens (s ∙ ap (λ ws. codes "submit" ∷ node ∷ work_type ∷ ws) h)
    ∙ ap (λ x. made (submit_command (submit_params node work_type x))) j

same_work :
    (a : Answers) (conn_is_unix : Bool) (node work_type text : Bytes)
    → submit a conn_is_unix (submit_params node work_type text)
      ≡ submit a conn_is_unix (submit_json node work_type text)
unfolding submit work_params submit_work str_from_map bool_from_map lookup same
same_work a conn_is_unix node work_type text = refl

-- New work that is asked for by a text is treated as work that is asked for by JSON, with the rest
-- of the text, its spaces included, for the field params: the conditions are that the node and the
-- type of the work have no space.
pub submit_text-submit_json :
    (a : Answers) (conn_is_unix : Bool) (node work_type text : Bytes)
    → is_word node ≡ true
    → is_word work_type ≡ true
    → run_made a conn_is_unix (init_from_string (submit_text node work_type text))
      ≡ run_made a conn_is_unix (init_from_json (submit_json node work_type text))
unfolding init_from_string init_from_words init_from_json same to_lower lookup control_func
submit_text-submit_json a conn_is_unix node work_type text n w =
    let (t, tokens, h) = split-nonempty text in
    ap (run_made a conn_is_unix) (
      text_made node work_type text t tokens h (ap join (sym h) ∙ join-split text)
        (split-submit node work_type text n w))
    ∙ ap some (same_work a conn_is_unix node work_type text)
