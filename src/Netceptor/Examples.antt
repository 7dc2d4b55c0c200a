-- ===== src/Netceptor/Examples.antt =====
-- The node that the examples are about.
use receptor.Prelude.{ℕ, true, false, [], ◌∷◌, ◌++◌, some, length, take, drop, Bytes, codes}
use receptor.Netceptor.State.{Netceptor, ConnInfo, MessageData, UnreachableMessage, External}

abbrev pub a : Bytes
a = codes "a"

abbrev pub b : Bytes
b = codes "b"

abbrev pub c : Bytes
c = codes "c"

abbrev pub d : Bytes
d = codes "d"

abbrev pub conn_b : ConnInfo
conn_b = record { ident = 7; cost = 1; has_write_chan = true }

-- Node a, connected to b, with the mesh a - b - c, a - c and d apart.
abbrev pub node_a : Netceptor
node_a = record {
  node_id = a;
  max_forwarding_hops = 30;
  max_connection_idle_time = 21000;
  seen_update_expire_time = 3600000;
  work_commands = [];
  epoch = 100;
  sequence = 0;
  connections = (b, conn_b) ∷ [];
  cancelled = λ i. false;
  last_received = λ i. 0;
  known_node_info = [];
  seen_updates = [];
  known_connection_costs =
      (a, (b, 1) ∷ (c, 5) ∷ [])
      ∷ (b, (a, 1) ∷ (c, 1) ∷ [])
      ∷ (c, (b, 1) ∷ (a, 5) ∷ [])
      ∷ (d, [])
      ∷ [];
  routing_table = [];
  routing_path_costs = [];
  listener_registry = [];
  name_hashes = [];
  service_ads_received = [];
  firewall_rules = [];
  shut_down = false;
}

-- What the code takes from outside, in small: a name hashes to its first byte, and a text of an
-- unreachable message is its five strings, each behind its length.
abbrev first_byte : Bytes → ℕ
first_byte [] = 0
first_byte (n ∷ ns) = n

abbrev sized : Bytes → Bytes
sized s = length s ∷ s

abbrev unsized : Bytes → Bytes × Bytes
unsized [] = ([], [])
unsized (n ∷ bytes) = (take n bytes, drop n bytes)

abbrev read_five : Bytes → UnreachableMessage
read_five bytes =
    let (f, r1) = unsized bytes in
    let (t, r2) = unsized r1 in
    let (fs, r3) = unsized r2 in
    let (ts, r4) = unsized r3 in
    let (p, r5) = unsized r4 in
    record { from_node = f; to_node = t; from_service = fs; to_service = ts; problem = p }

abbrev pub small : External
small = record {
  hash = first_byte;
  marshal = λ m.
      sized m.from_node
      ++ (sized m.to_node ++ (sized m.from_service ++ (sized m.to_service ++ sized m.problem)));
  unmarshal = λ bytes. some (read_five bytes);
}

-- A message from a to c.
abbrev pub hello : MessageData
hello = record {
  from_node = a;
  from_service = codes "src";
  to_node = c;
  to_service = codes "dst";
  hops_to_live = 3;
  content = 1 ∷ 2 ∷ [];
}

-- Node a with its routing table, and node b, which knows all the names.
abbrev pub sender : Netceptor
sender = record node_a { routing_table = (b, b) ∷ (c, b) ∷ [] }

abbrev pub receiver : Netceptor
receiver = record node_a { node_id = b; name_hashes = (97, a) ∷ (98, b) ∷ (99, c) ∷ [] }
