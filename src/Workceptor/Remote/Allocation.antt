-- ===== src/Workceptor/Remote/Allocation.antt =====
-- How a unit on another node is allocated (workceptor.go, AllocateRemoteUnit).
use receptor.Prelude.{
  ℕ, ◌+◌, ◌≡◌, Bool, true, false, not, ◌&&◌, ◌||◌, Option, none, some, [], ◌∷◌, if◌then◌else◌,
  arith, Bytes, same,
}
use receptor.Prelude.Map.{Map}
use receptor.Workceptor.State.{nil, remote, command, untyped, Codec, Fault, IoError}
use receptor.Workceptor.Status.{Change}
use receptor.Workceptor.Remote.{RemoteUnit, update_full, is_secret}

pub data Allocation : Type 0 where
  allocated unknown_tls_client secrets_without_tls not_allocated bad_ttl : Allocation
  not_recorded : IoError → Allocation

-- What the caller asks for.
pub record RemoteRequest : Type 0 where
  pub node : Bytes
  pub work_type : Bytes
  pub tls_client : Bytes
  pub ttl : Bytes
  pub sign_work : Bool
  pub params : Map Bytes

pub has_secrets : Map Bytes → Bool
has_secrets [] = false
has_secrets ((k, text) ∷ params) = is_secret k || has_secrets params

-- The extra data of the unit, and its expiration.
abbrev pub requested : RemoteRequest → ℕ → Change
requested q expiration v = elim v.extra_data [
  | remote red ↦ some (record v {
    extra_data = remote (record red {
      remote_node = q.node;
      remote_work_type = q.work_type;
      tls_client = q.tls_client;
      expiration = expiration;
      sign_work = q.sign_work;
    });
  })
  | nil ↦ none
  | command ced ↦ none
  | untyped text ↦ none
]

abbrev record_request :
    Codec → Fault → RemoteRequest → ℕ → RemoteUnit → Allocation × Option RemoteUnit
record_request c fault q expiration u =
    let u' = update_full c fault (requested q expiration) u in
    elim u'.last_update_error [ none ↦ (allocated, some u') | some e ↦ (not_recorded e, some u') ]

-- `AllocateRemoteUnit`, with the TLS clients that are known, what `ParseDuration` reads, the time,
-- and the unit that `AllocateUnit` makes; the unit is left in the table on a later error too.
pub allocate_remote_unit :
    Codec
    → Fault
    → (Bytes → Bool)
    → (Bytes → Option ℕ)
    → ℕ
    → Option RemoteUnit
    → RemoteRequest
    → Allocation × Option RemoteUnit
unfolding has_secrets update_full
allocate_remote_unit c fault known_tls parse_duration now made q =
    if not (same q.tls_client []) && not (known_tls q.tls_client)
    then (unknown_tls_client, none)
    else if has_secrets q.params && same q.tls_client []
    then (secrets_without_tls, none)
    else elim made [
      | none ↦ (not_allocated, none)
      | some u ↦
          if same q.ttl [] then record_request c fault q 0 u else elim (parse_duration q.ttl) [
            | none ↦ (bad_ttl, some u)
            | some duration ↦ record_request c fault q (now + duration) u
          ]
    ]

-- Secret parameters are never taken for a unit without TLS: no unit is made for them.
pub allocate_remote_unit-secrets :
    (c : Codec) (fault : Fault) (known_tls : Bytes → Bool) (parse_duration : Bytes → Option ℕ)
    (now : ℕ) (made : Option RemoteUnit) (q : RemoteRequest)
    → has_secrets q.params ≡ true
    → same q.tls_client [] ≡ true
    → allocate_remote_unit c fault known_tls parse_duration now made q ≡ (secrets_without_tls, none)
unfolding allocate_remote_unit
allocate_remote_unit-secrets c fault known_tls parse_duration now made q h t = ground (arith, h, t)
