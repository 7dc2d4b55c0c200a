-- ===== src/Utils/Broker.antt =====
-- pkg/utils/broker.go: one goroutine that owns the set of subscribers, to which every message goes.
-- A subscriber's channel is its number.
use receptor.Prelude.{
  ℕ, ◌≡◌, refl, sym, ap, ◌∙◌, ◌↔◌, inl, inr, Bool, true, false, ◌&&◌, ◌||◌, List, [], ◌∷◌, ◌++◌, In,
  map, arith, ◌==◌, ==_iff, if◌then◌else◌, Bool-cases,
}

-- What the goroutine receives.
pub data Request : Type 0 where
  subscribe unsubscribe publish : ℕ → Request
  done : Request

pub data Action : Type 0 where
  sent : ℕ → ℕ → Action  -- a message to a channel
  closed : ℕ → Action

-- The goroutine's set of subscribers, until it ends.
pub record Broker : Type 0 where
  pub subs : List ℕ
  pub running : Bool

pub is_subscribed : ℕ → List ℕ → Bool
is_subscribed ch [] = false
is_subscribed ch (c ∷ subs) = (c == ch) || is_subscribed ch subs

pub remove : ℕ → List ℕ → List ℕ
remove ch [] = []
remove ch (c ∷ subs) = let rest = remove ch subs in if c == ch then rest else c ∷ rest

-- A turn of `start`. Publishing sends to all subscribers, in any order.
pub broker_turn : Request → Broker → Broker × List Action
unfolding is_subscribed remove
broker_turn done b = (record b { running = false }, map (λ ch. closed ch) b.subs)
broker_turn (subscribe ch) b =
    (if is_subscribed ch b.subs then b else record b { subs = ch ∷ b.subs }, [])
broker_turn (unsubscribe ch) b = (record b { subs = remove ch b.subs }, closed ch ∷ [])
broker_turn (publish msg) b = (b, map (λ ch. sent ch msg) b.subs)

-- A turn, if the goroutine runs; after `done` a request is ignored.
pub broker_step : Request → Broker → Broker × List Action
unfolding broker_turn
broker_step r b = if b.running then broker_turn r b else (b, [])

pub broker_run : List Request → Broker → Broker × List Action
unfolding broker_step
broker_run [] b = (b, [])
broker_run (r ∷ rs) b =
    let (b', acts) = broker_step r b in let (b'', more) = broker_run rs b' in (b'', acts ++ more)

-- Whether a channel is subscribed after some requests: as its last request says.
abbrev pub subscribed_by : ℕ → Bool → List Request → Bool
subscribed_by ch now [] = now
subscribed_by ch now (subscribe c ∷ rs) = subscribed_by ch (if c == ch then true else now) rs
subscribed_by ch now (unsubscribe c ∷ rs) = subscribed_by ch (if c == ch then false else now) rs
subscribed_by ch now (publish m ∷ rs) = subscribed_by ch now rs
subscribed_by ch now (done ∷ rs) = false

is_subscribed-remove :
    (ch c : ℕ) (subs : List ℕ)
    → is_subscribed ch (remove c subs) ≡ (if c == ch then false else is_subscribed ch subs)
unfolding is_subscribed remove
is_subscribed-remove ch c [] = ground arith
is_subscribed-remove ch c (s ∷ subs) = ground (arith, is_subscribed-remove ch c subs)

stopped : (rs : List Request) (b : Broker) → b.running ≡ false → (broker_run rs b).0.running ≡ false
unfolding broker_run
stopped [] b h = h
stopped (r ∷ rs) b h = ground (arith, h, stopped rs b h)

is_subscribed-broker_run :
    (rs : List Request) (b : Broker) (ch : ℕ)
    → b.running ≡ true
    → ((broker_run rs b).0.running && is_subscribed ch (broker_run rs b).0.subs)
      ≡ subscribed_by ch (is_subscribed ch b.subs) rs
unfolding broker_run is_subscribed
is_subscribed-broker_run [] b ch h = ground (arith, h)
is_subscribed-broker_run (subscribe c ∷ rs) b ch h = ground (
  arith,
  h,
  is_subscribed-broker_run rs b ch h,
  is_subscribed-broker_run rs (record b { subs = c ∷ b.subs }) ch h,
  ==_iff c ch,
)
is_subscribed-broker_run (unsubscribe c ∷ rs) b ch h = ground (
  arith,
  h,
  is_subscribed-remove ch c b.subs,
  is_subscribed-broker_run rs (record b { subs = remove c b.subs }) ch h,
)
is_subscribed-broker_run (publish m ∷ rs) b ch h =
    ground (arith, h, is_subscribed-broker_run rs b ch h)
is_subscribed-broker_run (done ∷ rs) b ch h =
    ground (arith, h, stopped rs (record b { running = false }) refl)

sent-In :
    (subs : List ℕ) (ch msg : ℕ)
    → In (sent ch msg) (map (λ c. sent c msg) subs)
    → is_subscribed ch subs ≡ true
unfolding is_subscribed
sent-In [] ch msg i = absurd i
sent-In (c ∷ subs) ch msg (inl e) = ground arith
sent-In (c ∷ subs) ch msg (inr i) = ground (arith, sent-In subs ch msg i)

In-sent :
    (subs : List ℕ) (ch msg : ℕ)
    → is_subscribed ch subs ≡ true
    → In (sent ch msg) (map (λ c. sent c msg) subs)
unfolding is_subscribed
In-sent [] ch msg h = ground arith
In-sent (c ∷ subs) ch msg h = elim (Bool-cases (c == ch)) [
  | inl e ↦ inl (ap (λ n. sent n msg) ((==_iff c ch).0 e))
  | inr e ↦ inr (In-sent subs ch msg (ground (arith, e, h)))
]

In-publish :
    (b : Broker) (ch msg : ℕ)
    → In (sent ch msg) (broker_step (publish msg) b).1
      ↔ ((b.running && is_subscribed ch b.subs) ≡ true)
unfolding broker_step
In-publish b ch msg = elim (Bool-cases b.running) [
  | inl e ↦ ground (arith, e, sent-In b.subs ch msg, In-sent b.subs ch msg)
  | inr e ↦ ground (arith, e)
]

-- A message that is published reaches exactly the channels whose last request, among those that
-- the goroutine has taken since it started, is to subscribe; once it is done, none.
pub broker_step-publish :
    (rs : List Request) (ch msg : ℕ)
    → let b = (broker_run rs (record { subs = []; running = true })).0 in
      In (sent ch msg) (broker_step (publish msg) b).1 ↔ (subscribed_by ch false rs ≡ true)
unfolding is_subscribed
broker_step-publish rs ch msg =
    let b = (broker_run rs (record { subs = []; running = true })).0 in
    let e = is_subscribed-broker_run rs (record { subs = []; running = true }) ch refl in
    let (there, back) = In-publish b ch msg in (λ i. sym e ∙ there i, λ h. back (e ∙ h))
