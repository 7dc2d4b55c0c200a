-- ===== src/Netceptor/Handle/Decide.antt =====
-- The firewall of a node, and what it keeps from the services.
use receptor.Prelude.{
  ℕ, zero, suc, ◌≡◌, refl, ap, ◌∙◌, ◌≢◌, Bool, true, false, ◌⊎◌, inl, inr, Option, none, some, List,
  [], ◌∷◌, ◌++◌, arith, Bytes, same, same_iff, All, append_assoc,
}
use receptor.Netceptor.State.{
  Netceptor, External, MessageData, FirewallResult, proceed, accept, reject, drop, Effect, send,
  deliver, publish, request_flood, request_table, request_ads, UnreachableMessage, unreach, ping,
  blocked,
}
use receptor.Netceptor.Handle.{
  Reply, reply, ignore_error, decide, decide_from, add_firewall_rules, send_unreachable,
  forward_message, handle_unreachable, dispatch, handle_step, handle_message_data, unreachable,
}

-- The rule says nothing about the message.
abbrev pub IsSilent : MessageData → (MessageData → FirewallResult) → Type 0
IsSilent md rule = rule md ≡ proceed

decide_from-append :
    (result : FirewallResult) (pre post : List (MessageData → FirewallResult))
    (rule : MessageData → FirewallResult) (md : MessageData)
    → All (IsSilent md) pre
    → rule md ≢ proceed
    → decide_from result (pre ++ rule ∷ post) md ≡ rule md
unfolding decide_from
decide_from-append result [] post rule md silent h = ground (arith, h)
decide_from-append result (r ∷ pre) post rule md silent h =
    ground (arith, decide_from-append proceed pre post rule md silent.1 h)

-- After rules that say nothing about a message, the first that says something decides, whatever
-- rules are added behind it.
pub decide-add_firewall_rules :
    (s : Netceptor) (pre post more : List (MessageData → FirewallResult))
    (rule : MessageData → FirewallResult) (md : MessageData)
    → s.firewall_rules ≡ pre ++ rule ∷ post
    → All (IsSilent md) pre
    → rule md ≢ proceed
    → (decide s.firewall_rules md ≡ rule md)
      × (decide (add_firewall_rules more false s).firewall_rules md ≡ rule md)
unfolding decide add_firewall_rules
decide-add_firewall_rules s pre post more rule md e silent h = (
  ap (λ rules. decide_from accept rules md) e ∙ decide_from-append accept pre post rule md silent h,
  ap (λ rules. decide_from accept (rules ++ more) md) e
      ∙ ap (λ rules. decide_from accept rules md) (append_assoc pre (rule ∷ post) more)
      ∙ decide_from-append accept pre (post ++ more) rule md silent h,
)

-- Nothing goes to a listener.
abbrev pub undelivered : List Effect → Bool
undelivered [] = true
undelivered (deliver pc md ∷ es) = false
undelivered (send a b c ∷ es) = undelivered es
undelivered (publish n ∷ es) = undelivered es
undelivered (request_flood d ∷ es) = undelivered es
undelivered (request_table d ∷ es) = undelivered es
undelivered (request_ads ∷ es) = undelivered es

abbrev stays : Option Reply → Bool
stays none = true
stays (some r) = undelivered r.effects

stays-ignore_error : (o : Option Reply) → stays (ignore_error o) ≡ stays o
stays-ignore_error none = refl
stays-ignore_error (some r) = refl

module _ (x : External) where
  -- A note to a sender reaches no listener.
  stays-note :
      (f : ℕ) (md : MessageData) (s : Netceptor)
      → md.from_service ≡ unreach
      → md.to_service ≡ unreach
      → stays (handle_message_data x f md s) ≡ true
  unfolding handle_message_data handle_step dispatch forward_message handle_unreachable same
  stays-note zero md s p q = refl
  stays-note (suc f) md s p q = ground (
    arith,
    same_iff md.from_service unreach,
    same_iff md.to_service unreach,
    same_iff md.to_service ping,
  )

  stays-send_unreachable :
      (f : ℕ) (to_node : Bytes) (m : UnreachableMessage) (s : Netceptor)
      → stays (send_unreachable x (handle_message_data x f) to_node m s) ≡ true
  unfolding send_unreachable
  stays-send_unreachable f to_node m s = stays-note f _ s refl refl

  handle-drop :
      (f : ℕ) (md : MessageData) (s : Netceptor)
      → decide s.firewall_rules md ≡ drop
      → handle_message_data x (suc f) md s ≡ reply s []
  unfolding handle_message_data handle_step
  handle-drop f md s h = ground arith

  stays-reject :
      (f : ℕ) (md : MessageData) (s : Netceptor) (r : Reply)
      → decide s.firewall_rules md ≡ reject
      → handle_message_data x (suc f) md s ≡ some r
      → (undelivered r.effects ≡ true) × (r.error ≡ none)
  unfolding handle_message_data handle_step
  stays-reject f md s r h e =
      let sent =
        send_unreachable x (handle_message_data x f) md.from_node (unreachable md blocked) s in
      ground (
        arith,
        stays-ignore_error sent,
        stays-send_unreachable f md.from_node (unreachable md blocked) s,
      )

  -- A message that the firewall rejects or drops reaches no listener, and its handling ends without
  -- an error. Of a dropped one there is no trace at all: nothing is sent and the node is unchanged.
  pub handle_blocked :
      (f : ℕ) (md : MessageData) (s : Netceptor) (r : Reply)
      → (decide s.firewall_rules md ≡ reject) ⊎ (decide s.firewall_rules md ≡ drop)
      → handle_message_data x f md s ≡ some r
      → (undelivered r.effects ≡ true)
        × (r.error ≡ none)
        × ((decide s.firewall_rules md ≢ drop) ⊎ ((r.node ≡ s) × (r.effects ≡ [])))
  unfolding handle_message_data
  handle_blocked zero md s r h e = cc
  handle_blocked (suc f) md s r (inl h) e =
      let (still, fine) = stays-reject f md s r h e in (still, fine, inl (λ d. ground arith))
  handle_blocked (suc f) md s r (inr h) e =
      let gone = handle-drop f md s h in
      (ground arith, ground arith, inr (ground arith, ground arith))
