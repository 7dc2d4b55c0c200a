-- ===== src/Workceptor/Table/Examples.antt =====
-- Tests of the table of units, with units that are a type and whether they are unknown.
use receptor.Prelude.{◌≡◌, refl, Bool, true, false, none, some, [], ◌∷◌, codes, Bytes, same}
use receptor.Prelude.Map.{lookup, insert}
use receptor.Workceptor.Status.{File}
use receptor.Workceptor.Table.{
  restarted, WorkUnit, WorkType, Workceptor, allocated, generate_unit_id, allocate_unit, left,
  find_unit, release,
}
use receptor.Workceptor.Table.Allocation.{IsMade, allocate_unit-IsMade}
use receptor.Workceptor.Table.Locked.{release-find_unit}

abbrev UnitKind : Type 0
UnitKind = Bool × Bytes

abbrev ops : WorkUnit UnitKind
ops = record {
  set_from_params = λ params u. (u, true);
  save = λ u. (some u.1, true);
  load = λ file u. (u, true);
  restart = λ file u. ((u, file), restarted);
  mark_failed = λ file u. (u, file);
  work_type = λ u. u.1;
  is_unknown = λ u. u.0;
  unknown = λ ident work_type. (true, work_type);
}

abbrev text_of : File → Bytes
text_of none = []
text_of (some text) = text

abbrev sleep_type : WorkType UnitKind
sleep_type = record { new_worker = λ ident work_type. (false, work_type); verify_signature = false }

abbrev node : Workceptor UnitKind
node = record {
  work_types = (codes "cat", sleep_type) ∷ [];
  active_units = (codes "u1", (true, codes "sleep")) ∷ [];
  dirs = (codes "u1", some (codes "sleep")) ∷ [];
  work_commands = [];
}

abbrev with_cat : Workceptor UnitKind
with_cat = record {
  work_types = (codes "cat", sleep_type) ∷ [];
  active_units = (codes "u1", (true, codes "sleep")) ∷ (codes "u2", (false, codes "cat")) ∷ [];
  dirs = (codes "u1", some (codes "sleep")) ∷ (codes "u2", some (codes "cat")) ∷ [];
  work_commands = [];
}

-- The first random name is taken.
allocate_unit-IsMade_example : IsMade [] (allocated (codes "u2") (false, codes "cat")) node with_cat
unfolding allocate_unit generate_unit_id lookup insert same
allocate_unit-IsMade_example =
    allocate_unit-IsMade ops text_of true (codes "u1" ∷ codes "u2" ∷ []) (codes "cat") [] [] node
      with_cat (allocated (codes "u2") (false, codes "cat")) refl

release-find_unit_example :
    find_unit ops text_of
      (codes "u1")
      (release true (λ n. left (some (codes "sleep"))) (codes "u1") node).0
    ≡ none
unfolding lookup same
release-find_unit_example =
    release-find_unit ops text_of (codes "u1") (codes "sleep") (λ n. left (some (codes "sleep")))
      node refl refl
