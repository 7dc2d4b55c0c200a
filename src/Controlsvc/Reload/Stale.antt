-- ===== src/Controlsvc/Reload/Stale.antt =====
-- The marks that a refused reload leaves (pkg/controlsvc/reload.go).
use receptor.Prelude.{
  ◌≡◌, ap, ◌∙◌, Bool, true, false, some, List, [], ◌∷◌, map, arith, Bytes, same_iff,
}
use receptor.Prelude.Map.{Map, insert, has_key, has_key-insert}
use receptor.Controlsvc.Reload.{
  is_reloadable, parse_items, parse_config_for_reload, pre_reloads, cancels_backends, reloads,
  reload,
}
use receptor.Controlsvc.Reload.Detect.{
  all_known, all_listed, all_known-insert, is_clean, is_clean-is_unique, is_unique-insert,
  settled-insert, settled-clean, reload_unique,
}

unknown-insert :
    (k x : Bytes) (marks : Map Bool)
    → has_key k marks ≡ true
    → has_key x marks ≡ false
    → has_key x (insert k true marks) ≡ false
unknown-insert k x marks hk hx = ground (arith, hk, hx, has_key-insert k x true marks, same_iff k x)

marks_left :
    (runs : Bool) (k x : Bytes) (marks : Map Bool)
    → is_reloadable k ≡ false
    → has_key k marks ≡ true
    → is_reloadable x ≡ false
    → has_key x (insert k true marks) ≡ false
    → (reload true runs (some (some k ∷ some x ∷ [])) marks).0.0 ≡ insert k true marks
unfolding reload parse_config_for_reload parse_items
marks_left runs k x marks rk hk rx hx = ground (arith, rk, hk, rx, hx)

marked :
    (runs : Bool) (k : Bytes) (items : List Bytes) (marks : Map Bool)
    → is_clean marks ≡ true
    → is_reloadable k ≡ false
    → has_key k marks ≡ true
    → all_known items marks ≡ true
    → all_listed (k ∷ items) marks ≡ true
    → (reload true runs (some (map some items)) (insert k true marks)).0.1
      ≡ pre_reloads ∷ cancels_backends ∷ reloads ∷ []
marked runs k items marks c r h a l =
    let u = is_clean-is_unique marks c in
    ground (
      arith,
      c,
      a,
      l,
      reload_unique true runs items (insert k true marks) (is_unique-insert k true marks u),
      all_known-insert k items marks h,
      settled-insert k items marks u h r,
      settled-clean (k ∷ items) marks c,
    )

-- A reload that finds an added part leaves the mark of a part that it found before. The next reload
-- goes through, stops the backends and runs the configuration again, even if that part has been
-- removed meanwhile. The conditions: k is a known part and x is an unknown one, neither can be
-- reloaded, the items of the second configuration are known, and with k they are all that is known.
pub reload-reload :
    (runs : Bool) (k x : Bytes) (items : List Bytes) (marks : Map Bool)
    → is_clean marks ≡ true
    → is_reloadable k ≡ false
    → has_key k marks ≡ true
    → is_reloadable x ≡ false
    → has_key x marks ≡ false
    → all_known items marks ≡ true
    → all_listed (k ∷ items) marks ≡ true
    → (reload true runs
        (some (map some items))
        (reload true runs (some (some k ∷ some x ∷ [])) marks).0.0).0.1
      ≡ pre_reloads ∷ cancels_backends ∷ reloads ∷ []
reload-reload runs k x items marks c rk hk rx hx a l =
    ap (λ m. (reload true runs (some (map some items)) m).0.1)
      (marks_left runs k x marks rk hk rx (unknown-insert k x marks hk hx))
    ∙ marked runs k items marks c rk hk a l
