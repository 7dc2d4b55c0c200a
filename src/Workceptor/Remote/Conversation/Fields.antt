-- ===== src/Workceptor/Remote/Conversation/Fields.antt =====
-- The fields of the command that submits a unit to another node, name by name (remote_work.go,
-- StartRemoteUnit).
use receptor.Prelude.{
  ◌≡◌, refl, ap, ◌∙◌, Bool, true, false, inl, inr, Option, none, some, [], ◌∷◌, if◌then◌else◌,
  arith, Bytes, codes, same, same→eq, sym, Bool-cases,
}
use receptor.Prelude.Map.{Map, lookup, insert, has_key, lookup-insert}
use receptor.Workceptor.State.{RemoteExtraData}
use receptor.Workceptor.Commands.Control.{no_params}
use receptor.Workceptor.Remote.Conversation.{submit_fields, signed}

-- The fields that are parameters of the work.
abbrev pub own_params : Map Bytes → Map Bytes
own_params [] = []
own_params ((k, text) ∷ m) =
    let rest = own_params m in if no_params k then rest else (k, text) ∷ rest

pub submit_fields-lookup :
    (unit_id : Bytes) (red : RemoteExtraData) (k : Bytes)
    → lookup k (submit_fields unit_id red) ≡ (
        if same (codes "tlsclient") k
        then some red.tls_client
        else if same (codes "worktype") k
        then some red.remote_work_type
        else if same (codes "node") k
        then some red.remote_node
        else if same (codes "subcommand") k
        then some (codes "submit")
        else if same (codes "command") k
        then some (codes "work")
        else if same (codes "workUnitID") k
        then some unit_id
        else lookup k red.remote_params)
unfolding submit_fields
submit_fields-lookup unit_id red k =
    let m1 = insert (codes "workUnitID") unit_id red.remote_params in
    let m2 = insert (codes "command") (codes "work") m1 in
    let m3 = insert (codes "subcommand") (codes "submit") m2 in
    let m4 = insert (codes "node") red.remote_node m3 in
    let m5 = insert (codes "worktype") red.remote_work_type m4 in
    ground (
      arith,
      lookup-insert (codes "tlsclient") k red.tls_client m5,
      lookup-insert (codes "worktype") k red.remote_work_type m4,
      lookup-insert (codes "node") k red.remote_node m3,
      lookup-insert (codes "subcommand") k (codes "submit") m2,
      lookup-insert (codes "command") k (codes "work") m1,
      lookup-insert (codes "workUnitID") k unit_id red.remote_params,
    )

pub signed-lookup :
    (sign_work : Bool) (signature : Option Bytes) (fields m : Map Bytes) (k : Bytes)
    → signed sign_work signature fields ≡ some m
    → same (codes "signature") k ≡ false
    → lookup k m ≡ lookup k fields
signed-lookup false signature fields m k e h = ground (arith, e)
signed-lookup true none fields m k e h = absurd (ground (arith, e))
signed-lookup true (some text) fields m k e h =
    ground (arith, e, h, lookup-insert (codes "signature") k text fields)

pub no_key : (k : Bytes) (m : Map Bytes) → has_key k m ≡ false → lookup k m ≡ none
no_key k m h = ground (arith, h)

apart_from : (w k : Bytes) → no_params w ≡ true → no_params k ≡ false → same w k ≡ false
apart_from w k t n = elim (Bool-cases (same w k)) [
  | inl e ↦ absurd (ground (arith, n, sym (ap no_params (same→eq w k e)) ∙ t))
  | inr e ↦ e
]

own_params-lookup :
    (k : Bytes) (m : Map Bytes)
    → lookup k (own_params m) ≡ (if no_params k then none else lookup k m)
unfolding lookup
own_params-lookup k [] = ground arith
own_params-lookup k ((j, text) ∷ m) = elim (Bool-cases (same j k)) [
  | inl e ↦ ground (arith, e, ap no_params (same→eq j k e), own_params-lookup k m)
  | inr e ↦ ground (arith, e, own_params-lookup k m)
]

-- What is left of the fields when those of the command are taken out.
pub params_sent :
    (unit_id : Bytes) (red : RemoteExtraData) (signature : Option Bytes) (m : Map Bytes) (k : Bytes)
    → signed red.sign_work signature (submit_fields unit_id red) ≡ some m
    → lookup k (own_params m) ≡ (
        if no_params k
        then none
        else if same (codes "workUnitID") k
        then some unit_id
        else lookup k red.remote_params)
unfolding same
params_sent unit_id red signature m k e = elim (Bool-cases (no_params k)) [
  | inl n ↦ ground (arith, n, own_params-lookup k m)
  | inr n ↦
      let apart : (w : Bytes) → no_params w ≡ true → same w k ≡ false = λ w t. apart_from w k t n in
      own_params-lookup k m
      ∙ ground (arith, n)
      ∙ signed-lookup red.sign_work signature (submit_fields unit_id red) m k e
          (apart (codes "signature") refl)
      ∙ submit_fields-lookup unit_id red k
      ∙ ground (
        arith,
        n,
        apart (codes "tlsclient") refl,
        apart (codes "worktype") refl,
        apart (codes "node") refl,
        apart (codes "subcommand") refl,
        apart (codes "command") refl,
      )
]
