-- ===== src/Netceptor/Session/Ends.antt =====
-- What the end of a session leaves of its connection.
use receptor.Prelude.{
  ℕ, ◌≡◌, sym, ap, ◌∙◌, ◌≢◌, inl, inr, Bool, true, false, ◌||◌, none, some, List, [], ◌∷◌, arith,
  ◌==◌, if◌then◌else◌, Bytes, same, same_iff, same_ne, same_refl, Option-cases,
}
use mathlib.Core.Path.{subst}
use receptor.Prelude.Map.{Map, lookup, lookup_or, delete, has_key, lookup-insert, lookup-delete}
use receptor.Netceptor.State.{Netceptor, External, Effect, request_flood, request_table}
use receptor.Netceptor.Connection.{BackendInfo, drop_cost, remove_connection}
use receptor.Netceptor.Session.{
  Session, Json, Parting, undisturbed, at_flood_request, at_table_request, Timing, Event, received,
  context_done, Ending, returns, Turn, take_message, turn,
}

lookup_or-drop_cost :
    (of to k : Bytes) (known : Map (Map ℕ))
    → lookup_or [] k (drop_cost of to known)
      ≡ (if same of k then delete to (lookup_or [] of known) else lookup_or [] k known)
unfolding drop_cost lookup_or delete
lookup_or-drop_cost of to k known = elim (Option-cases (lookup of known)) [
  | inl o ↦ ground (arith, o, same_iff of k)
  | inr (m, o) ↦ ground (arith, o, same_iff of k, lookup-insert of k (delete to m) known)
]

-- The connection to a peer is gone: from the list, and from what is known in both directions.
abbrev pub IsGone : Bytes → Netceptor → Type 0
IsGone n s =
    (lookup n s.connections ≡ none)
    × (has_key n (lookup_or [] s.node_id s.known_connection_costs) ≡ false)
    × (has_key s.node_id (lookup_or [] n s.known_connection_costs) ≡ false)

-- Whether an effect asks at once for a flood of routing updates, and for new tables.
abbrev is_flood : Effect → Bool
is_flood (request_flood wait) = wait == 0
is_flood _ = false

abbrev is_table : Effect → Bool
is_table (request_table wait) = wait == 0
is_table _ = false

abbrev any : (Effect → Bool) → List Effect → Bool
any p [] = false
any p (e ∷ es) = p e || any p es

-- What the effects ask for: a flood, and new tables.
abbrev pub asks_anew : List Effect → Bool × Bool
asks_anew es = (any is_flood es, any is_table es)

abbrev pub timing_of : Event → Timing
timing_of (received bytes tm) = tm
timing_of (context_done tm) = tm

-- What is asked for before the backend's context ends.
abbrev pub lasting : Parting → Bool × Bool
lasting undisturbed = (true, true)
lasting at_flood_request = (false, false)
lasting at_table_request = (true, false)

removed :
    (n : Bytes) (s : Netceptor)
    → n ≢ []
    → remove_connection n s ≡ record s {
      connections = delete n s.connections;
      known_connection_costs =
          drop_cost s.node_id n (drop_cost n s.node_id s.known_connection_costs);
    }
unfolding remove_connection
removed n s some_name = ground (arith, same_ne n [] some_name)

delete_gone : (n : Bytes) (m : Map ℕ) → has_key n (delete n m) ≡ false
delete_gone n m = ground (arith, lookup-delete n n m, same_refl n)

drop_both :
    (n me : Bytes) (known : Map (Map ℕ))
    → n ≢ me
    → (has_key n (lookup_or [] me (drop_cost me n (drop_cost n me known))) ≡ false)
      × (has_key me (lookup_or [] n (drop_cost me n (drop_cost n me known))) ≡ false)
drop_both n me known other = (
  ap (has_key n) (lookup_or-drop_cost me n me (drop_cost n me known))
      ∙ ground (arith, same_refl me, delete_gone n (lookup_or [] me (drop_cost n me known))),
  ap (has_key me) (lookup_or-drop_cost me n n (drop_cost n me known))
      ∙ ground (
        arith,
        same_iff me n,
        same_refl n,
        lookup_or-drop_cost n me n known,
        delete_gone me (lookup_or [] n known),
      ),
)

pub remove_connection-IsGone :
    (n : Bytes) (s : Netceptor) → n ≢ [] → n ≢ s.node_id → IsGone n (remove_connection n s)
unfolding remove_connection
remove_connection-IsGone n s some_name other = subst (IsGone n) (sym (removed n s some_name)) (
    let (near, far) = drop_both n s.node_id s.known_connection_costs other in
    (ground (arith, lookup-delete n n s.connections, same_refl n), near, far))

take_message-returns :
    (x : External) (json : Json) (tm : Timing) (now fuel : ℕ) (fresh : Bytes) (kind : ℕ)
    (bytes : Bytes) (k : Session) (s : Netceptor) (t : Turn) (e : Ending)
    → take_message x json tm now fuel fresh kind bytes k s ≡ some t
    → t.next ≡ returns e
    → t.node ≡ remove_connection k.remote_node_id s
unfolding take_message
take_message-returns x json tm now fuel fresh kind bytes k s t e eq end = ground arith

take_message-asks :
    (x : External) (json : Json) (tm : Timing) (now fuel : ℕ) (fresh : Bytes) (kind : ℕ)
    (bytes : Bytes) (k : Session) (s : Netceptor) (t : Turn) (e : Ending)
    → k.established ≡ true
    → take_message x json tm now fuel fresh kind bytes k s ≡ some t
    → t.next ≡ returns e
    → asks_anew t.effects ≡ lasting tm.parting
unfolding take_message
take_message-asks x json tm now fuel fresh kind bytes k s t e est eq end = ground arith

turn-returns :
    (x : External) (json : Json) (bi : BackendInfo) (now fuel : ℕ) (fresh : Bytes) (e : Event)
    (k : Session) (s : Netceptor) (t : Turn) (end : Ending)
    → k.established ≡ true
    → turn x json bi now fuel fresh e k s ≡ some t
    → t.next ≡ returns end
    → (t.node ≡ remove_connection k.remote_node_id s)
      × (asks_anew t.effects ≡ lasting (timing_of e).parting)
unfolding turn
turn-returns x json bi now fuel fresh (context_done tm) k s t end est eq go =
    (ground arith, ground arith)
turn-returns x json bi now fuel fresh (received [] tm) k s t end est eq go = absurd (ground arith)
turn-returns x json bi now fuel fresh (received (kind ∷ bytes) tm) k s t end est eq go =
    let taken : take_message x json tm now fuel fresh kind bytes k s ≡ some t =
      ground (arith, est, eq) in
    (
      take_message-returns x json tm now fuel fresh kind bytes k s t end taken go,
      take_message-asks x json tm now fuel fresh kind bytes k s t end est taken go,
    )

-- However a session ends that is established with a peer whose name is neither empty nor the
-- node's own, that peer is no longer connected: not in the list of connections, whichever
-- session's connection stands there by then, and not in the known costs of either; and the node is
-- asked to flood its own routing update and to compute its tables anew, but for what the end of the
-- backend's context cuts short: both requests, or the second.
pub turn-IsGone :
    (x : External) (json : Json) (bi : BackendInfo) (now fuel : ℕ) (fresh : Bytes) (e : Event)
    (k : Session) (s : Netceptor) (t : Turn) (end : Ending)
    → k.established ≡ true
    → k.remote_node_id ≢ []
    → k.remote_node_id ≢ s.node_id
    → turn x json bi now fuel fresh e k s ≡ some t
    → t.next ≡ returns end
    → IsGone k.remote_node_id t.node × (asks_anew t.effects ≡ lasting (timing_of e).parting)
turn-IsGone x json bi now fuel fresh e k s t end est some_name other eq go =
    let (node, asks) = turn-returns x json bi now fuel fresh e k s t end est eq go in
    (
      subst (IsGone k.remote_node_id) (sym node)
          (remove_connection-IsGone k.remote_node_id s some_name other),
      asks,
    )
