-- ===== src/Netceptor/Connection.antt =====
-- Connections to neighbours (netceptor.go): how they are set up, whom they may lead to, and how one
-- is removed.
use receptor.Prelude.{
  ℕ, Bool, true, false, ◌||◌, Option, none, some, List, [], ◌∷◌, if◌then◌else◌, Bytes, same,
}
use receptor.Prelude.Map.{Map, lookup, lookup_or, insert, delete}
use receptor.Netceptor.State.{Netceptor, ConnInfo, rejection, Effect, send}

-- How the backend is set up: `BackendInfo`, with costs above zero.
pub record BackendInfo : Type 0 where
  pub connection_cost : ℕ
  pub node_cost : Map ℕ
  pub allowed_peers : Option (List Bytes)

-- `removeConnection`
unfoldable pub drop_cost : Bytes → Bytes → Map (Map ℕ) → Map (Map ℕ)
drop_cost of to known = elim (lookup of known) [
  | none ↦ known
  | some m ↦ insert of (delete to m) known
]

unfoldable pub remove_connection : Bytes → Netceptor → Netceptor
unfolding drop_cost
remove_connection remote s = if same remote [] then s else record s {
  connections = delete remote s.connections;
  known_connection_costs =
      drop_cost s.node_id remote (drop_cost remote s.node_id s.known_connection_costs);
}

-- `sendRejectMessage`: nothing is queued on a connection whose context has ended.
unfoldable pub send_reject_message : Bytes → ConnInfo → Netceptor → List Effect
send_reject_message remote ci s = if s.cancelled ci.ident then [] else send remote ci rejection ∷ []

-- The loop over `allowedPeers`.
unfoldable pub among : Bytes → List Bytes → Bool
among n [] = false
among n (peer ∷ peers) = same peer n || among n peers

unfoldable pub is_allowed : BackendInfo → Bytes → Bool
unfolding among
is_allowed bi n = elim bi.allowed_peers [ none ↦ true | some peers ↦ among n peers ]

-- The cost of a connection to a node.
unfoldable pub cost_to : BackendInfo → Bytes → ℕ → ℕ
cost_to bi n cost = lookup_or cost n bi.node_cost

-- `knownConnectionCosts[from][to] = cost`, which makes the map of `from` if there is none.
unfoldable pub set_cost : Bytes → Bytes → ℕ → Map (Map ℕ) → Map (Map ℕ)
set_cost from to cost known = insert from (insert to cost (lookup_or [] from known)) known
