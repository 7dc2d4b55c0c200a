-- ===== src/Framer/Examples.antt =====
-- Runs of the framer.
use receptor.Prelude.{◌≡◌, refl, false, List, [], ◌∷◌, arith, Bytes}
use receptor.Framer.{Turn, no_error, new, send_data, read_messages}
use receptor.Framer.Stream.{read_messages-frames}

abbrev hello : Bytes
hello = 104 ∷ 105 ∷ []

abbrev chunk : Bytes → Turn
chunk b = record { ctx_ended = false; bytes = b; error = no_error }

-- Two messages, the second empty, cut in the middle of the first header.
abbrev chunks : List Turn
chunks = chunk (2 ∷ []) ∷ chunk (0 ∷ 104 ∷ []) ∷ chunk (105 ∷ 0 ∷ 0 ∷ 9 ∷ []) ∷ []

read_messages-frames_example : (read_messages 2 new chunks).0 ≡ hello ∷ [] ∷ []
unfolding send_data new
read_messages-frames_example =
    (read_messages-frames (hello ∷ [] ∷ []) (9 ∷ []) new chunks (omega arith) (ground arith) refl).0
