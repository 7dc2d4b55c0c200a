-- ===== src/Netceptor/Session/Examples.antt =====
-- Sessions of node a.
use receptor.Prelude.{
  ◌≡◌, refl, ◌≢◌, true, false, none, some, List, [], ◌∷◌, arith, Bytes, codes, same,
}
use receptor.Prelude.Map.{lookup, lookup_or}
use receptor.Netceptor.State.{RoutingUpdate, request_flood, request_table}
use receptor.Netceptor.Examples.{a, b, c, conn_b, node_a, small}
use receptor.Netceptor.Connection.{BackendInfo, is_allowed, cost_to, remove_connection}
use receptor.Netceptor.Session.{
  Session, Json, never, undisturbed, Timing, Event, received, context_done, closed, returns, Turn,
  meet, turn, start_session,
}
use receptor.Netceptor.Session.Reach.{Reach, first, next, Reach-established}
use receptor.Netceptor.Session.Ends.{IsGone, asks_anew, turn-IsGone}
use receptor.Netceptor.Session.Peers.{turn-live}
use receptor.Netceptor.Session.Initial.{Wait, over, stopped}

abbrev bi : BackendInfo
bi = record { connection_cost = 1; node_cost = []; allowed_peers = some (b ∷ c ∷ []) }

-- A routing update of node n, in its first form.
abbrev greeting : Bytes → RoutingUpdate
greeting n = record {
  node_id = n;
  update_id = [];
  update_epoch = 1;
  update_sequence = 1;
  connections = [];
  forwarding_node = n;
  suspected_duplicate = 0;
}

-- The text is the node's name.
abbrev json : Json
json = record {
  routing_update = λ text. some (greeting text);
  service_advertisement = λ text. none;
}

abbrev fresh : Bytes
fresh = codes "f"

abbrev waiting : Session
waiting = record {
  ci = record { ident = 9; cost = 1; has_write_chan = true };
  connection_cost = 1;
  established = false;
  remote_established = false;
  remote_node_id = [];
}

abbrev with_c : Session
with_c = record waiting { established = true; remote_node_id = c }

-- A turn that nothing disturbs.
abbrev quiet : Timing
quiet = record {
  interrupt = never;
  parting = undisturbed;
  before_removal = λ s. s;
  before_listing = λ s. s;
  before_costs = λ s. s;
  before_flood = λ s. s;
  before_table = λ s. s;
}

abbrev hello_c : Event
hello_c = received (1 ∷ c) quiet

met_c : Reach small json bi a with_c
unfolding start_session turn same lookup lookup_or
met_c = next 0 3 fresh hello_c node_a waiting with_c _ (first 9 waiting refl) refl refl refl

Reach-established_example : (c ≢ a) × (is_allowed bi c ≡ true) × (1 ≡ cost_to bi c 1)
Reach-established_example = Reach-established small json bi a with_c met_c refl

-- The turn in which the session with c ends.
abbrev closed_c : Turn
closed_c = record {
  next = returns closed;
  node = remove_connection c node_a;
  effects = request_flood 0 ∷ request_table 0 ∷ [];
}

closed_c_lem : turn small json bi 0 3 fresh (context_done quiet) with_c node_a ≡ some closed_c
unfolding turn
closed_c_lem = refl

turn-IsGone_example : IsGone c closed_c.node × (asks_anew closed_c.effects ≡ (true, true))
turn-IsGone_example =
    turn-IsGone small json bi 0 3 fresh (context_done quiet) with_c node_a closed_c closed refl
      (λ e. ground arith) (λ e. ground arith) closed_c_lem refl

-- The turn in which a second connection as b is turned away.
abbrev second_b : Turn
second_b = meet small bi quiet (greeting b) waiting node_a

second_b_lem : turn small json bi 0 3 fresh (received (1 ∷ b) quiet) waiting node_a ≡ some second_b
unfolding turn
second_b_lem = refl

b_is_listed : lookup b node_a.connections ≡ some conn_b
unfolding lookup same
b_is_listed = refl

turn-live_example : lookup b second_b.node.connections ≡ some conn_b
turn-live_example =
    turn-live small json bi 0 3 fresh (received (1 ∷ b) quiet) waiting node_a second_b b conn_b
      (record {
        removal = λ s l. l;
        listing = λ s l. l;
        costs = λ s l. l;
        flood = λ s l. l;
        table = λ s l. l;
      })
      refl refl b_is_listed refl second_b_lem

abbrev silence : List (Bytes × Wait)
silence = (fresh, over) ∷ (fresh, over) ∷ (fresh, stopped) ∷ []
