-- ===== src/Controlsvc/Reload/Examples.antt =====
-- Tests of the reload of a configuration.
use receptor.Prelude.{◌≡◌, refl, Bool, true, false, some, [], ◌∷◌, map, Bytes, codes, same}
use receptor.Prelude.Map.{Map, lookup, insert}
use receptor.Controlsvc.Reload.{
  is_reloadable, get_action_keyword, parse_items, parse_config_for_reload, init_reload,
  first_absent, cfg_absent, removed, success, refused, pre_reloads, cancels_backends, reloads,
  reload,
}
use receptor.Controlsvc.Reload.Detect.{reload-all_known}
use receptor.Controlsvc.Reload.Stale.{reload-reload}

abbrev node_id : Bytes
node_id = codes "node: a"

abbrev listener : Bytes
listener = codes "tcp-listener: b"

abbrev service : Bytes
service = codes "control-service: c"

-- After the start with a node and a control service.
abbrev marks : Map Bool
marks = (node_id, false) ∷ (service, false) ∷ []

started : (init_reload (some (map some (node_id ∷ listener ∷ service ∷ []))) []).0 ≡ marks
unfolding init_reload parse_config_for_reload parse_items is_reloadable same insert lookup
started = refl

-- The listener may go, the service may not.
unchanged : (reload true true (some (map some (service ∷ node_id ∷ []))) marks).1 ≡ success
unfolding reload parse_config_for_reload parse_items cfg_absent first_absent is_reloadable same
    insert lookup
unchanged = refl

without_service :
    (reload true true (some (map some (node_id ∷ listener ∷ []))) marks).1
    ≡ refused (removed (codes "control-service"))
unfolding reload parse_config_for_reload parse_items cfg_absent first_absent get_action_keyword
    is_reloadable same insert lookup
without_service = refl

reload-all_known_example :
    (reload true true (some (map some (listener ∷ node_id ∷ []))) marks).0.1 ≡ pre_reloads ∷ []
unfolding is_reloadable same lookup
reload-all_known_example = reload-all_known true true (listener ∷ node_id ∷ []) marks refl

-- The control service is removed, and the node is told to run on.
reload-reload_example :
    (reload true true
      (some (map some (node_id ∷ [])))
      (reload true true (some (some service ∷ some (codes "log-level: d") ∷ [])) marks).0.0).0.1
    ≡ pre_reloads ∷ cancels_backends ∷ reloads ∷ []
unfolding is_reloadable same lookup
reload-reload_example =
    reload-reload true service (codes "log-level: d") (node_id ∷ []) marks refl refl refl refl refl
      refl refl
