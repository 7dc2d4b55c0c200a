-- ===== src/Controlsvc/Reload/Detect.antt =====
-- A reload finds every change of what cannot be reloaded.
use receptor.Prelude.{
  ◌≡◌, ◌↔◌, refl, Bool, true, false, not, ◌&&◌, ◌||◌, Option, none, some, List, [], ◌∷◌, map,
  if◌then◌else◌, arith, Bytes, same, inl, inr, same_iff, Bool-cases,
}
use receptor.Prelude.Map.{Map, insert, lookup, has_key, has_key-insert}
use receptor.Controlsvc.Reload.{
  is_reloadable, ReloadError, parse_items, parse_config_for_reload, first_absent, cfg_absent,
  cancels_backends, pre_reloads, reloads, reload,
}

-- Whether a text is an item that cannot be reloaded.
abbrev pub lists : Bytes → List Bytes → Bool
lists k [] = false
lists k (cfg ∷ items) = not (is_reloadable cfg) && same cfg k || lists k items

-- Every item that cannot be reloaded is known.
abbrev pub all_known : List Bytes → Map Bool → Bool
all_known [] marks = true
all_known (cfg ∷ items) marks = (is_reloadable cfg || has_key cfg marks) && all_known items marks

-- Every part that is known is an item.
abbrev pub all_listed : List Bytes → Map Bool → Bool
all_listed items [] = true
all_listed items ((k, v) ∷ marks) = lists k items && all_listed items marks

-- The marks between two reloads: none is set, and each text has one.
abbrev pub is_clean : Map Bool → Bool
is_clean [] = true
is_clean ((k, v) ∷ marks) = not v && not (has_key k marks) && is_clean marks

abbrev pub is_unique : Map Bool → Bool
is_unique [] = true
is_unique ((k, v) ∷ marks) = not (has_key k marks) && is_unique marks

-- Every part is marked or an item.
abbrev pub settled : List Bytes → Map Bool → Bool
settled items [] = true
settled items ((k, v) ∷ marks) = (v || lists k items) && settled items marks

pub is_clean-is_unique : (marks : Map Bool) → is_clean marks ≡ true → is_unique marks ≡ true
is_clean-is_unique [] c = refl
is_clean-is_unique ((k, v) ∷ marks) c = ground (arith, c, is_clean-is_unique marks)

pub settled-clean :
    (items : List Bytes) (marks : Map Bool)
    → is_clean marks ≡ true
    → settled items marks ≡ all_listed items marks
settled-clean items [] c = refl
settled-clean items ((k, v) ∷ marks) c = ground (arith, c, settled-clean items marks)

pub is_unique-insert :
    (k : Bytes) (v : Bool) (marks : Map Bool)
    → is_unique marks ≡ true
    → is_unique (insert k v marks) ≡ true
unfolding insert lookup
is_unique-insert k v [] u = refl
is_unique-insert k v ((j, w) ∷ marks) u =
    ground
      (arith, u, is_unique-insert k v marks, has_key-insert k j v marks, same_iff j k, same_iff k j)

-- A part that is not known changes nothing.
settled-skip :
    (k : Bytes) (items : List Bytes) (marks : Map Bool)
    → has_key k marks ≡ false
    → is_reloadable k ≡ false
    → settled (k ∷ items) marks ≡ settled items marks
unfolding lookup
settled-skip k items [] h r = refl
settled-skip k items ((j, w) ∷ marks) h r =
    ground (arith, h, r, settled-skip k items marks, same_iff j k, same_iff k j)

pub settled-insert :
    (k : Bytes) (items : List Bytes) (marks : Map Bool)
    → is_unique marks ≡ true
    → has_key k marks ≡ true
    → is_reloadable k ≡ false
    → settled items (insert k true marks) ≡ settled (k ∷ items) marks
unfolding insert lookup
settled-insert k items [] u h r = absurd (ground (arith, h))
settled-insert k items ((j, w) ∷ marks) u h r = ground (
  arith,
  u,
  h,
  r,
  settled-insert k items marks,
  settled-skip k items marks,
  same_iff j k,
  same_iff k j,
)

first_absent_settled : (marks : Map Bool) → (first_absent marks ≡ none) ↔ (settled [] marks ≡ true)
unfolding first_absent
first_absent_settled [] = (λ e. refl, λ e. refl)
first_absent_settled ((k, true) ∷ marks) = ground (arith, first_absent_settled marks)
first_absent_settled ((k, false) ∷ marks) =
    (λ e. absurd (ground (arith, e)), λ e. absurd (ground (arith, e)))

pub all_known-insert :
    (k : Bytes) (items : List Bytes) (marks : Map Bool)
    → has_key k marks ≡ true
    → all_known items (insert k true marks) ≡ all_known items marks
all_known-insert k [] marks h = refl
all_known-insert k (cfg ∷ items) marks h =
    ground
      (arith, h, all_known-insert k items marks h, has_key-insert k cfg true marks, same_iff k cfg)

settled-reloadable :
    (k : Bytes) (items : List Bytes) (marks : Map Bool)
    → is_reloadable k ≡ true
    → settled (k ∷ items) marks ≡ settled items marks
settled-reloadable k items [] r = refl
settled-reloadable k items ((j, w) ∷ marks) r =
    ground (arith, r, settled-reloadable k items marks r)

abbrev is_none : Option ReloadError → Bool
is_none none = true
is_none (some e) = false

parse_items-none :
    (items : List Bytes) (marks : Map Bool)
    → is_none (parse_items true (map some items) marks).1 ≡ all_known items marks
unfolding parse_items
parse_items-none [] marks = refl
parse_items-none (cfg ∷ items) marks = elim (Bool-cases (is_reloadable cfg)) [
  | inl r ↦ ground (arith, r, parse_items-none items marks)
  | inr r ↦ elim (Bool-cases (has_key cfg marks)) [
    | inl h ↦ ground (
      arith,
      r,
      h,
      parse_items-none items (insert cfg true marks),
      all_known-insert cfg items marks h,
    )
    | inr h ↦ ground (arith, r, h)
  ]
]

parse_items-settled :
    (items : List Bytes) (marks : Map Bool)
    → is_unique marks ≡ true
    → all_known items marks ≡ true
    → settled [] (parse_items true (map some items) marks).0 ≡ settled items marks
unfolding parse_items
parse_items-settled [] marks u h = refl
parse_items-settled (cfg ∷ items) marks u h = elim (Bool-cases (is_reloadable cfg)) [
  | inl r ↦
      ground (arith, r, h, parse_items-settled items marks u, settled-reloadable cfg items marks r)
  | inr r ↦ elim (Bool-cases (has_key cfg marks)) [
    | inl k ↦ ground (
      arith,
      r,
      k,
      h,
      parse_items-settled items (insert cfg true marks) (is_unique-insert cfg true marks u),
      settled-insert cfg items marks u k r,
      all_known-insert cfg items marks k,
    )
    | inr k ↦ absurd (ground (arith, r, k, h))
  ]
]

-- What a reload does and replies, of any marks.
pub reload_unique :
    (pre_runs runs : Bool) (items : List Bytes) (marks : Map Bool)
    → is_unique marks ≡ true
    → (reload pre_runs runs (some (map some items)) marks).0.1 ≡ (
        if pre_runs && (all_known items marks && settled items marks)
        then pre_reloads ∷ cancels_backends ∷ reloads ∷ []
        else pre_reloads ∷ [])
unfolding reload parse_config_for_reload cfg_absent
reload_unique pre_runs runs items marks u =
    let final = (parse_items true (map some items) marks).0 in
    ground (
      arith,
      u,
      parse_items-none items marks,
      parse_items-settled items marks u,
      first_absent_settled final,
    )

-- A reload whose first run succeeds stops the backends and runs the configuration again just when
-- the configuration has the same parts that cannot be reloaded as before, none added and none
-- removed; otherwise it does nothing more. The conditions: the file can be read, and no mark is set.
pub reload-all_known :
    (pre_runs runs : Bool) (items : List Bytes) (marks : Map Bool)
    → is_clean marks ≡ true
    → (reload pre_runs runs (some (map some items)) marks).0.1 ≡ (
        if pre_runs && (all_known items marks && all_listed items marks)
        then pre_reloads ∷ cancels_backends ∷ reloads ∷ []
        else pre_reloads ∷ [])
reload-all_known pre_runs runs items marks c = ground (
  arith,
  reload_unique pre_runs runs items marks (is_clean-is_unique marks c),
  settled-clean items marks c,
)
