-- ===== src/Workceptor/Results.antt =====
-- The stream of a unit's results (workceptor.go, GetResults): the output of the unit, read from its
-- stdout file while the unit may still write to it.
pub mod Prefix
pub mod Closing
pub mod Ending
pub mod Examples
use receptor.Prelude.{
  ℕ, suc, ◌+◌, Bool, ◌&&◌, List, [], ◌∷◌, ◌++◌, leb, if◌then◌else◌, length, take, drop, Bytes,
}
use receptor.Workceptor.State.{is_complete}

-- `utils.NormalBufferSize`
abbrev pub normal_buffer_size : ℕ
normal_buffer_size = 65536

-- What opening the stdout file gives.
pub data Opening : Type 0 where
  opened missing refused : Opening

pub data Waiting : Type 0 where
  ready waits : Waiting
  no_output : Waiting  -- the unit is complete without a stdout file
  abandoned inaccessible : Waiting

-- A turn of the loop that waits for the stdout file, with the state of the unit, and whether the
-- context is done before the next turn.
pub wait_turn : Opening → ℕ → Bool → Waiting
wait_turn opened state cancelled = ready
wait_turn missing state cancelled =
    if is_complete state then no_output else if cancelled then abandoned else waits
wait_turn refused state cancelled = inaccessible

-- What is sent to the client, and the position in the file.
pub record Stream : Type 0 where
  pub file_pos : ℕ
  pub sent : Bytes  -- the chunks, one after another

abbrev pub begin_stream : ℕ → Stream
begin_stream start_pos = record { file_pos = start_pos; sent = [] }

-- What a turn of the reading loop meets; a read gives at least a byte if there is one.
pub data Look : Type 0 where
  cancelled : Look  -- the context is done
  gone : Look  -- the stdout file was missing four times in a row
  seek_fails : Look
  reads : ℕ → Look  -- the read gives at most one byte more than this
  read_fails : ℕ → Look  -- it fails after so many bytes
  not_taken : ℕ → Look  -- the context is done before the chunk is taken

pub data End : Type 0 where
  completed abandoned disappeared seek_failed read_failed : End

-- What a turn leads to.
pub data StreamNext : Type 0 where
  goes_on : Stream → StreamNext
  ends : End → Stream → StreamNext

-- `stdout.Read(buf)` at the position, when the system gives that many bytes.
abbrev pub read_at : Bytes → ℕ → ℕ → Bytes
read_at text pos n =
    take (if leb normal_buffer_size n then normal_buffer_size else n) (drop pos text)

abbrev pub send : Bytes → Stream → Stream
send chunk s = record { file_pos = s.file_pos + length chunk; sent = s.sent ++ chunk }

-- What follows a read without an error; at the end of the file it gives nothing.
abbrev pub after_read : ℕ → ℕ → Stream → Bytes → StreamNext
after_read state size s [] =
    if is_complete state && leb size s.file_pos then ends completed s else goes_on s
after_read state size s (b ∷ chunk) = goes_on (send (b ∷ chunk) s)

-- A turn of the reading loop, with the text of the file, and the state and the size in the status
-- of the unit if the read is at the end of the file.
pub stream_turn : Look → Bytes → ℕ → ℕ → Stream → StreamNext
stream_turn cancelled text state size s = ends abandoned s
stream_turn gone text state size s = ends disappeared s
stream_turn seek_fails text state size s = ends seek_failed s
stream_turn (reads n) text state size s = after_read state size s (read_at text s.file_pos (suc n))
stream_turn (read_fails n) text state size s = ends read_failed (send (read_at text s.file_pos n) s)
stream_turn (not_taken n) text state size s =
    ends abandoned (record s { file_pos = s.file_pos + length (read_at text s.file_pos (suc n)) })

-- A turn while the unit runs: what its command has written to the file since the last turn, what
-- the turn meets, and the state and the size in the status then.
pub record Moment : Type 0 where
  pub written : Bytes
  pub look : Look
  pub state : ℕ
  pub size : ℕ

-- The turns, with the text of the file at the end.
unfoldable pub get_results : List Moment → Bytes → Stream → Bytes × StreamNext
unfolding stream_turn
get_results [] text s = (text, goes_on s)
get_results (m ∷ ms) text s = elim (stream_turn m.look (text ++ m.written) m.state m.size s) [
  | ends e s' ↦ (text ++ m.written, ends e s')
  | goes_on s' ↦ get_results ms (text ++ m.written) s'
]

-- The state of the stream after a turn.
abbrev pub stream_of : StreamNext → Stream
stream_of (goes_on s) = s
stream_of (ends e s) = s
