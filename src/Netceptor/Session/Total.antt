-- ===== src/Netceptor/Session/Total.antt =====
-- Every turn of the protocol loop ends.
use receptor.Prelude.{
  ℕ, suc, ◌≡◌, refl, inl, inr, Bool, true, false, Option, none, some, [], ◌∷◌, arith, Bytes,
  Option-cases,
}
use receptor.Netceptor.State.{Netceptor, External, MessageData}
use receptor.Netceptor.Wire.{translate_data_to_message}
use receptor.Netceptor.Handle.Total.{IsPingLoop, handle_message_data_total}
use receptor.Netceptor.Connection.{BackendInfo}
use receptor.Netceptor.Session.{
  Session, Json, Timing, Event, received, context_done, Turn, take_data, take_message, turn,
}

-- The bytes of a turn.
abbrev pub bytes_of : Event → Bytes
bytes_of (received bytes i) = bytes
bytes_of (context_done tm) = []

abbrev pub returned : Option Turn → Bool
returned none = false
returned (some t) = true

take_data_total :
    (x : External) (f : ℕ) (bytes : Bytes) (k : Session) (s : Netceptor)
    → ((md : MessageData) → translate_data_to_message bytes s ≡ some md → ¬ (IsPingLoop s md))
    → returned (take_data x (suc (suc (suc f))) bytes k s) ≡ true
unfolding take_data
take_data_total x f bytes k s h = elim (Option-cases (translate_data_to_message bytes s)) [
  | inl o ↦ ground (arith, o)
  | inr (md, o) ↦ let (r, e) = handle_message_data_total x f md s (h md o) in ground (arith, o, e)
]

take_message_total :
    (x : External) (json : Json) (tm : Timing) (now fuel : ℕ) (fresh : Bytes) (kind : ℕ)
    (bytes : Bytes) (k : Session) (s : Netceptor)
    → returned (take_data x fuel (kind ∷ bytes) k s) ≡ true
    → returned (take_message x json tm now fuel fresh kind bytes k s) ≡ true
unfolding take_message
take_message_total x json tm now fuel fresh kind bytes k s h = ground arith

-- With three units of fuel or more, every turn of the protocol loop ends, whatever the message is,
-- unless it is a data message that goes to the node's own ping service and gives that same service
-- as its sender.
pub turn_total :
    (x : External) (json : Json) (bi : BackendInfo) (now f : ℕ) (fresh : Bytes) (e : Event)
    (k : Session) (s : Netceptor)
    → ((md : MessageData)
        → translate_data_to_message (bytes_of e) s ≡ some md
        → ¬ (IsPingLoop s md))
    → returned (turn x json bi now (suc (suc (suc f))) fresh e k s) ≡ true
unfolding turn
turn_total x json bi now f fresh (context_done tm) k s h = refl
turn_total x json bi now f fresh (received [] i) k s h = refl
turn_total x json bi now f fresh (received (kind ∷ bytes) i) k s h = ground (
  arith,
  take_message_total x json i now (suc (suc (suc f))) fresh kind bytes k s
      (take_data_total x f (kind ∷ bytes) k s h),
)
