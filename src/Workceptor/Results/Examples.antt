-- ===== src/Workceptor/Results/Examples.antt =====
-- Tests of the stream of results on small files.
use receptor.Prelude.{◌≡◌, refl, List, [], ◌∷◌, codes, arith}
use receptor.Workceptor.State.{running, succeeded, canceled}
use receptor.Workceptor.Results.{
  Stream, begin_stream, reads, completed, goes_on, ends, Moment, get_results,
}
use receptor.Workceptor.Results.Prefix.{IsStreamed, get_results-IsStreamed}
use receptor.Workceptor.Results.Ending.{later_turns, later_turns-completed, later_turns-canceled}

-- The command writes "cd" between two reads.
abbrev two_reads : List Moment
two_reads =
    record { written = []; look = reads 0; state = running; size = 0 }
    ∷ record { written = codes "cd"; look = reads 9; state = running; size = 2 }
    ∷ []

get_results-two_reads :
    get_results two_reads (codes "ab") (begin_stream 1)
    ≡ (codes "abcd", goes_on (record { file_pos = 4; sent = codes "bcd" }))
unfolding get_results
get_results-two_reads = refl

get_results-IsStreamed_example :
    IsStreamed 1
      (get_results two_reads (codes "ab") (begin_stream 1)).0
      (get_results two_reads (codes "ab") (begin_stream 1)).1
get_results-IsStreamed_example = get_results-IsStreamed 1 two_reads (codes "ab")

later_turns-completed_example :
    (s : Stream) × (get_results
        (later_turns succeeded 3 (0 ∷ 0 ∷ 0 ∷ []))
        (codes "abc")
        (begin_stream 1)
      ≡ (codes "abc", ends completed s))
    × (s.sent ≡ codes "bc")
later_turns-completed_example =
    later_turns-completed succeeded 3 1 (codes "abc") (0 ∷ 0 ∷ 0 ∷ []) refl (omega arith)
      (omega arith)

later_turns-canceled_example :
    (s : Stream) × (get_results
        (later_turns canceled 3 (9 ∷ 9 ∷ 9 ∷ []))
        (codes "abc")
        (begin_stream 0)
      ≡ (codes "abc", goes_on s))
later_turns-canceled_example = later_turns-canceled 3 0 (codes "abc") (9 ∷ 9 ∷ 9 ∷ [])
