-- ===== src/Netceptor/Wire/Examples.antt =====
-- A message on the wire, and a name table.
use receptor.Prelude.{◌≡◌, refl, true, false, some, arith, codes, same}
use receptor.Netceptor.Examples.{small, hello, sender, receiver}
use receptor.Netceptor.Wire.{
  fold, is_localhost, get_name_from_hash, find_hash, translate_data_to_message,
  translate_data_from_message,
}
use receptor.Netceptor.Wire.RoundTrip.{IsSendable, translate-round_trip}

localhost_cases :
    (is_localhost (codes "LocalHost") ≡ true) × (is_localhost (codes "localhosts") ≡ false)
unfolding is_localhost fold same
localhost_cases = (refl, refl)

hello-IsSendable : IsSendable small hello
unfolding is_localhost fold same
hello-IsSendable = record {
  from_plain = refl;
  to_plain = refl;
  from_fits = omega arith;
  to_fits = omega arith;
  from_short = omega arith;
  to_short = omega arith;
  from_ends = omega arith;
  to_ends = omega arith;
}

translate-round_trip_example :
    translate_data_to_message (translate_data_from_message small hello sender).1 receiver
    ≡ some hello
unfolding get_name_from_hash find_hash
translate-round_trip_example =
    translate-round_trip small hello sender receiver hello-IsSendable refl refl
