-- ===== src/Controlsvc/Reload.antt =====
-- The reload of the configuration (pkg/controlsvc/reload.go). The parts of the configuration that
-- cannot be reloaded are kept as texts with a mark each. The file and its YAML are arguments.
pub mod Detect
pub mod Stale
pub mod Examples
use receptor.Prelude.{
  Bool, true, false, not, ◌||◌, ◌==◌, Option, none, some, List, [], ◌∷◌, if◌then◌else◌, Bytes,
  codes, has_prefix,
}
use receptor.Prelude.Map.{Map, insert, has_key}

abbrev reloadable_actions : List Bytes
reloadable_actions =
    codes "tcp-peer"
    ∷ codes "tcp-listener"
    ∷ codes "ws-peer"
    ∷ codes "ws-listener"
    ∷ codes "udp-peer"
    ∷ codes "udp-listener"
    ∷ codes "local-only"
    ∷ []

abbrev has_some_prefix : Bytes → List Bytes → Bool
has_some_prefix cfg [] = false
has_some_prefix cfg (a ∷ actions) = has_prefix cfg a || has_some_prefix cfg actions

-- `isReloadable`
unfoldable pub is_reloadable : Bytes → Bool
is_reloadable cfg = has_some_prefix cfg reloadable_actions

-- `getActionKeyword`: what stands before the first colon.
pub get_action_keyword : Bytes → Bytes
get_action_keyword [] = []
get_action_keyword (b ∷ cfg) = let rest = get_action_keyword cfg in if b == 58 then [] else b ∷ rest

pub data ReloadError : Type 0 where
  not_read not_marshalled : ReloadError
  not_known removed : Bytes → ReloadError

-- The loop of `parseConfigForReloadWithReader` over the items, each as its text, or none if that is
-- not made.
pub parse_items : Bool → List (Option Bytes) → Map Bool → Map Bool × Option ReloadError
unfolding is_reloadable get_action_keyword
parse_items check_reload [] marks = (marks, none)
parse_items check_reload (none ∷ items) marks = (marks, some not_marshalled)
parse_items check_reload (some cfg ∷ items) marks =
    let skipped = parse_items check_reload items marks in
    let marked = parse_items check_reload items (insert cfg check_reload marks) in
    if is_reloadable cfg
    then skipped
    else if not check_reload || has_key cfg marks
    then marked
    else (marks, some (not_known (get_action_keyword cfg)))

-- `parseConfigForReloadWithReader`, with the items of the file, or none if it cannot be read.
pub parse_config_for_reload :
    Bool → Option (List (Option Bytes)) → Map Bool → Map Bool × Option ReloadError
unfolding parse_items
parse_config_for_reload check_reload none marks = (marks, some not_read)
parse_config_for_reload check_reload (some items) marks = parse_items check_reload items marks

-- The loop of `cfgAbsent`
pub first_absent : Map Bool → Option Bytes
first_absent [] = none
first_absent ((cfg, true) ∷ marks) = first_absent marks
first_absent ((cfg, false) ∷ marks) = some cfg

abbrev pub cleared : Map Bool → Map Bool
cleared [] = []
cleared ((cfg, v) ∷ marks) = (cfg, false) ∷ cleared marks

-- `cfgAbsent`
pub cfg_absent : Map Bool → Map Bool × Option ReloadError
unfolding first_absent get_action_keyword
cfg_absent marks = elim (first_absent marks) [
  | none ↦ (cleared marks, none)
  | some cfg ↦ (cleared marks, some (removed (get_action_keyword cfg)))
]

-- `InitReload`
pub init_reload : Option (List (Option Bytes)) → Map Bool → Map Bool × Option ReloadError
unfolding parse_config_for_reload
init_reload file marks = parse_config_for_reload false file marks

pub data ReloadEffect : Type 0 where
  pre_reloads cancels_backends reloads : ReloadEffect

-- The reply: its ERRORCODE, and what it says.
pub data ReloadReply : Type 0 where
  success not_run : ReloadReply
  refused : ReloadError → ReloadReply

-- `ReloadCommand.ControlFunc`, with whether the two runs of the configuration succeed: the marks, what
-- it does in order, and the reply. The code is 4 for `not_run` and 3 for `refused`.
pub reload :
    Bool
    → Bool
    → Option (List (Option Bytes))
    → Map Bool
    → (Map Bool × List ReloadEffect) × ReloadReply
unfolding parse_config_for_reload cfg_absent
reload pre_runs runs file marks =
    let (marked, error) = parse_config_for_reload true file marks in
    let (marks', missing) = cfg_absent marked in
    if not pre_runs then ((marks, pre_reloads ∷ []), not_run) else elim error [
      | some e ↦ ((marked, pre_reloads ∷ []), refused e)
      | none ↦ elim missing [
        | some e ↦ ((marks', pre_reloads ∷ []), refused e)
        | none ↦ (
          (marks', pre_reloads ∷ cancels_backends ∷ reloads ∷ []),
          if runs then success else not_run,
        )
      ]
    ]
