-- ===== src/Netceptor/Handle/Examples.antt =====
-- Messages in node a.
use receptor.Prelude.{◌≡◌, refl, ◌≢◌, ◌⊎◌, inl, inr, true, none, some, [], ◌∷◌, arith, same}
use receptor.Prelude.Map.{lookup}
use receptor.Netceptor.State.{Netceptor, MessageData, FirewallResult, proceed, drop, ping}
use receptor.Netceptor.Examples.{small, hello, sender, receiver, a, b, conn_b}
use receptor.Netceptor.Wire.{resolve, is_localhost, fold, get_name_from_hash, find_hash}
use receptor.Netceptor.Wire.RoundTrip.{IsSendable}
use receptor.Netceptor.Handle.{Reply, decide, handle_message_data}
use receptor.Netceptor.Handle.Total.{handle_message_data_total, ping_loop}
use receptor.Netceptor.Handle.Decide.{handle_blocked, undelivered}
use receptor.Netceptor.Handle.Forward.{Hop, Passes, SendsOne, one_less, handle_forwards}

handle_message_data_total_example :
    (r : Reply) × (handle_message_data small 3 hello sender ≡ some r)
handle_message_data_total_example =
    handle_message_data_total small 0 hello sender (λ l. ground arith)

-- A ping that node a seems to send to itself.
abbrev loop : MessageData
loop = record hello { from_service = ping; to_node = a; to_service = ping }

ping_loop_example : handle_message_data small 50 loop sender ≡ none
unfolding resolve is_localhost fold same
ping_loop_example = ping_loop small 50 loop sender refl ((refl, refl), refl, refl)

abbrev silent : MessageData → FirewallResult
silent md = proceed

abbrev closed : MessageData → FirewallResult
closed md = drop

abbrev guarded : Netceptor
guarded = record sender { firewall_rules = silent ∷ closed ∷ [] }

abbrev untouched : Reply
untouched = record { node = guarded; effects = []; error = none }

handle_blocked_example :
    (undelivered untouched.effects ≡ true)
    × (untouched.error ≡ none)
    × ((decide guarded.firewall_rules hello ≢ drop)
        ⊎ ((untouched.node ≡ guarded) × (untouched.effects ≡ [])))
unfolding handle_message_data decide
handle_blocked_example = handle_blocked small 1 hello guarded untouched (inr refl) refl

open_to_all : Passes sender hello
unfolding decide
open_to_all = inl refl

to_c : Hop sender hello
unfolding lookup same
to_c = record {
  next_hop = b;
  conn = conn_b;
  routed = refl;
  connected = refl;
  has_chan = refl;
  alive = refl;
}

hello-sent : IsSendable small (one_less hello)
unfolding is_localhost fold same
hello-sent = record {
  from_plain = refl;
  to_plain = refl;
  from_fits = omega arith;
  to_fits = omega arith;
  from_short = omega arith;
  to_short = omega arith;
  from_ends = omega arith;
  to_ends = omega arith;
}

handle_forwards_example :
    SendsOne small (handle_message_data small 1 hello sender) b conn_b receiver (one_less hello)
unfolding to_c get_name_from_hash find_hash
handle_forwards_example =
    handle_forwards small 0 hello sender receiver to_c open_to_all (λ e. ground arith) (omega arith)
      (omega arith) hello-sent (refl, refl)
