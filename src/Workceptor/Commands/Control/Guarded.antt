-- ===== src/Workceptor/Commands/Control/Guarded.antt =====
-- What a signature guards.
use receptor.Prelude.{
  ◌≡◌, refl, sym, Bool, true, false, not, ◌||◌, ◌⊎◌, inl, inr, Option, none, some, [], arith,
  if◌then◌else◌, Bytes, codes, same, same→eq, Bool-cases, Option-cases,
}
use mathlib.Core.Path.{subst}
use receptor.Prelude.Map.{Map}
use receptor.Workceptor.State.{StatusFileData}
use receptor.Workceptor.Signature.{should_verify_signature, process_signature, sign_work_of}
use receptor.Workceptor.Commands.Params.{
  Value, Field, field, refused, FieldError, str_from_map, bool_from_map, str_or_empty,
}
use receptor.Workceptor.Commands.Parsing.{Command}
use receptor.Workceptor.Commands.Control.{
  Answers, control_func, submit, list_units, unit_status, cancel_or_release, results, adopt,
}

-- The type of the work that a command is about, and whether it is signed work: what the command says
-- of new work, and what the unit says of itself.
abbrev new_work : Bytes → Field Bool → Option (Bytes × Bool)
new_work work_type (field sign_work) = some (work_type, sign_work)
new_work work_type (refused e) = some (work_type, false)

abbrev work_of : Option StatusFileData → Option (Bytes × Bool)
work_of none = none
work_of (some status) = some (status.work_type, sign_work_of status.extra_data)

abbrev pub work_meant : Answers → Command → Option (Bytes × Bool)
work_meant a c =
    if same c.subcommand (codes "submit")
    then new_work (str_or_empty c.params (codes "worktype"))
        (bool_from_map c.params (codes "signwork"))
    else if same c.subcommand (codes "adopt")
    then new_work (codes "remote") (bool_from_map c.params (codes "signwork"))
    else work_of (a.find_unit (str_or_empty c.params (codes "unitid")))

-- Whether the command may touch the work: it needs no signature, or has a good one.
abbrev may_touch : Answers → Bytes → Option (Bytes × Bool) → Bool
may_touch a signature none = false
may_touch a signature (some (work_type, sign_work)) =
    not (should_verify_signature a.work_types work_type sign_work)
    || elim (a.verify signature) [ none ↦ true | some e ↦ false ]

abbrev pub is_authorized : Answers → Command → Bool
is_authorized a c = may_touch a (str_or_empty c.params (codes "signature")) (work_meant a c)

process_signature-allowed :
    (a : Answers) (work_type signature : Bytes) (sign_work : Bool)
    → process_signature a.verify a.work_types work_type signature false sign_work ≡ none
    → may_touch a signature (some (work_type, sign_work)) ≡ true
unfolding process_signature
process_signature-allowed a work_type signature sign_work e = ground (arith, e)

Field-cases :
    {A : Type 0} (f : Field A) → ((x : A) × (f ≡ field x)) ⊎ ((e : FieldError) × (f ≡ refused e))
Field-cases (field x) = inl (x, refl)
Field-cases (refused e) = inr (e, refl)

cancel_or_release-guarded :
    (a : Answers) (subcommand : Bytes) (params : Map Value)
    → ((cancel_or_release a false subcommand params).1 ≡ [])
      ⊎ (may_touch a
            (str_or_empty params (codes "signature"))
            (work_of (a.find_unit (str_or_empty params (codes "unitid"))))
          ≡ true)
unfolding cancel_or_release
cancel_or_release-guarded a subcommand params =
    elim (Field-cases (str_from_map params (codes "unitid"))) [
      | inr (e, f) ↦ inl (ground (arith, f))
      | inl (unit, f) ↦ elim (Option-cases (a.find_unit unit)) [
        | inl o ↦ inl (ground (arith, f, o))
        | inr (status, o) ↦
            elim (Option-cases (
              process_signature a.verify a.work_types status.work_type
                (str_or_empty params (codes "signature")) false (sign_work_of status.extra_data))) [
                  | inr (e, g) ↦ inl (ground (arith, f, o, g))
                  | inl g ↦ inr (
                      ground (
                        arith,
                        f,
                        o,
                        process_signature-allowed a status.work_type
                            (str_or_empty params (codes "signature"))
                            (sign_work_of status.extra_data) g,
                      ))
                ]
      ]
    ]

results-guarded :
    (a : Answers) (params : Map Value)
    → ((results a false params).1 ≡ [])
      ⊎ (may_touch a
            (str_or_empty params (codes "signature"))
            (work_of (a.find_unit (str_or_empty params (codes "unitid"))))
          ≡ true)
unfolding results
results-guarded a params = elim (Field-cases (str_from_map params (codes "unitid"))) [
  | inr (e, f) ↦ inl (ground (arith, f))
  | inl (unit, f) ↦ elim (Option-cases (a.find_unit unit)) [
    | inl o ↦ inl (ground (arith, f, o))
    | inr (status, o) ↦
        elim (Option-cases (
          process_signature a.verify a.work_types status.work_type
            (str_or_empty params (codes "signature")) false (sign_work_of status.extra_data))) [
              | inr (e, g) ↦ inl (ground (arith, f, o, g))
              | inl g ↦ inr (
                  ground (
                    arith,
                    f,
                    o,
                    process_signature-allowed a status.work_type
                        (str_or_empty params (codes "signature")) (sign_work_of status.extra_data)
                        g,
                  ))
            ]
  ]
]

-- What a flag that is read gives.
abbrev flag_of : Field Bool → Bool
flag_of (field b) = b
flag_of (refused e) = false

new_work-flag :
    (work_type : Bytes) (f : Field Bool) → new_work work_type f ≡ some (work_type, flag_of f)
new_work-flag work_type (field b) = refl
new_work-flag work_type (refused e) = refl

adopt-guarded :
    (a : Answers) (params : Map Value)
    → ((adopt a false params).1 ≡ [])
      ⊎ (may_touch a
            (str_or_empty params (codes "signature"))
            (some (codes "remote", flag_of (bool_from_map params (codes "signwork"))))
          ≡ true)
unfolding adopt
adopt-guarded a params =
    let b = flag_of (bool_from_map params (codes "signwork")) in
    elim (Option-cases (
      process_signature a.verify a.work_types (codes "remote")
        (str_or_empty params (codes "signature")) false b)) [
          | inl g ↦ inr (
              process_signature-allowed a (codes "remote") (str_or_empty params (codes "signature"))
                b g)
          | inr (e, g) ↦ inl (ground (arith, g))
        ]

submit-guarded :
    (a : Answers) (params : Map Value)
    → ((submit a false params).1 ≡ [])
      ⊎ (may_touch a (str_or_empty params (codes "signature")) (
            some (
              str_or_empty params (codes "worktype"),
              flag_of (bool_from_map params (codes "signwork")),
            ))
          ≡ true)
unfolding submit
submit-guarded a params =
    let b = flag_of (bool_from_map params (codes "signwork")) in
    let work_type = str_or_empty params (codes "worktype") in
    elim (Option-cases (
      process_signature a.verify a.work_types work_type (str_or_empty params (codes "signature"))
        false b)) [
          | inl g ↦
              inr (
                process_signature-allowed a work_type (str_or_empty params (codes "signature")) b g)
          | inr (e, g) ↦ inl (ground (arith, g))
        ]

list_units-still : (a : Answers) (params : Map Value) → (list_units a params).1 ≡ []
unfolding list_units
list_units-still a params = ground (arith, Field-cases (str_from_map params (codes "unitid")))

unit_status-still : (a : Answers) (params : Map Value) → (unit_status a params).1 ≡ []
unfolding unit_status
unit_status-still a params = ground (arith, Field-cases (str_from_map params (codes "unitid")))

-- A command does nothing, or is authorized.
abbrev pub IsGuarded : Answers → Command → Type 0
IsGuarded a c = ((control_func a false c).1 ≡ []) ⊎ (is_authorized a c ≡ true)

adopt-IsGuarded :
    (a : Answers) (params : Map Value)
    → IsGuarded a (record { subcommand = codes "adopt"; params = params })
unfolding control_func same
adopt-IsGuarded a params =
    subst
      (λ w.
        ((adopt a false params).1 ≡ [])
        ⊎ (may_touch a (str_or_empty params (codes "signature")) w ≡ true))
      (sym (new_work-flag (codes "remote") (bool_from_map params (codes "signwork"))))
      (adopt-guarded a params)

-- Over a connection that is no Unix socket, a command makes the node and its units do nothing,
-- unless it is authorized: the type of the work that it is about, new work or the unit's, needs no
-- signature, or the command has a good one; for work of type remote, whether a signature is needed
-- is what the command says of new work, and what the unit says of itself.
pub control_func-is_authorized : (a : Answers) (c : Command) → IsGuarded a c
unfolding control_func
control_func-is_authorized a c = elim (Bool-cases (same c.subcommand (codes "submit"))) [
  | inl e ↦ ground (
    arith,
    e,
    submit-guarded a c.params,
    new_work-flag (str_or_empty c.params (codes "worktype"))
        (bool_from_map c.params (codes "signwork")),
  )
  | inr e ↦ elim (Bool-cases (same c.subcommand (codes "adopt"))) [
    | inl f ↦
        subst (λ sub. IsGuarded a (record { subcommand = sub; params = c.params }))
          (sym (same→eq c.subcommand (codes "adopt") f)) (adopt-IsGuarded a c.params)
    | inr f ↦ ground (
      arith,
      e,
      f,
      list_units-still a c.params,
      unit_status-still a c.params,
      cancel_or_release-guarded a c.subcommand c.params,
      results-guarded a c.params,
    )
  ]
]
