-- ===== src/Workceptor/Status.antt =====
-- The status file of a unit (workunitbase.go): a JSON text that the node and the process of the unit
-- share, each of which keeps a copy in memory. The file lock makes each operation one step.
pub mod Shared
pub mod Faults
use receptor.Prelude.{ℕ, ◌+◌, Option, none, some, [], ◌∷◌, ◌++◌, if◌then◌else◌, take, Bytes}
use receptor.Workceptor.State.{
  nil, StatusFileData, Codec, Fault, no_fault, lock_fails, open_fails, seek_fails, reseek_fails,
  truncate_fails, write_fails, IoError, not_locked, not_opened, not_sought, not_truncated,
  not_written, not_marshaled, not_loaded, panicked,
}

-- A file: none if there is none.
abbrev pub File : Type 0
File = Option Bytes

-- What an operation leaves: the copy in memory, the file, and the error.
pub record Stored : Type 0 where
  pub memory : StatusFileData
  pub file : File
  pub error : Option IoError

-- A change of the status; none if it panics.
abbrev pub Change : Type 0
Change = StatusFileData → Option StatusFileData

-- `saveToFile`, on an empty file.
pub save_to_file : Codec → Fault → StatusFileData → Bytes × Option IoError
save_to_file c fault sfd = elim (c.marshal sfd) [
  | none ↦ ([], some not_marshaled)
  | some text ↦
      let line = text ++ (10 ∷ []) in
      elim fault [
        | write_fails n ↦ (take n line, some not_written)
        | no_fault ↦ (line, none)
        | lock_fails ↦ (line, none)
        | open_fails ↦ (line, none)
        | seek_fails ↦ (line, none)
        | reseek_fails ↦ (line, none)
        | truncate_fails ↦ (line, none)
      ]
]

-- `StatusFileData.Save`
unfoldable pub save : Codec → Fault → StatusFileData → File → Stored
unfolding save_to_file
save c lock_fails sfd file = record { memory = sfd; file = file; error = some not_locked }
save c open_fails sfd file = record { memory = sfd; file = file; error = some not_opened }
save c fault sfd file =
    let (text, error) = save_to_file c fault sfd in
    record { memory = sfd; file = some text; error = error }

-- `loadFromFile`
unfoldable pub load_from_file : Codec → Bytes → StatusFileData → StatusFileData × Option IoError
load_from_file c text sfd =
    let (sfd', loaded) = c.unmarshal text sfd in (sfd', if loaded then none else some not_loaded)

-- `StatusFileData.Load`
unfoldable pub load : Codec → Fault → StatusFileData → File → Stored
unfolding load_from_file
load c lock_fails sfd file = record { memory = sfd; file = file; error = some not_locked }
load c open_fails sfd file = record { memory = sfd; file = file; error = some not_opened }
load c fault sfd none = record { memory = sfd; file = none; error = some not_opened }
load c fault sfd (some text) =
    let (sfd', error) = load_from_file c text sfd in
    record { memory = sfd'; file = some text; error = error }

-- The end of `UpdateFullStatus`: the change, and the new text.
pub rewrite : Codec → Fault → Change → StatusFileData → Bytes → Stored
unfolding save_to_file
rewrite c fault change sfd text = elim (change sfd) [
  | none ↦ record { memory = sfd; file = some text; error = some panicked }
  | some changed ↦
      let (text', error) = save_to_file c fault changed in
      let kept : IoError → Stored =
        λ e. record { memory = changed; file = some text; error = some e } in
      let written : Stored = record { memory = changed; file = some text'; error = error } in
      elim fault [
        | reseek_fails ↦ kept not_sought
        | truncate_fails ↦ kept not_truncated
        | no_fault ↦ written
        | lock_fails ↦ written
        | open_fails ↦ written
        | seek_fails ↦ written
        | write_fails n ↦ written
      ]
]

-- `StatusFileData.UpdateFullStatus` on a file that is open: an empty one is not loaded.
pub update_opened : Codec → Fault → Change → StatusFileData → Bytes → Stored
unfolding load_from_file rewrite
update_opened c fault change sfd [] = rewrite c fault change sfd []
update_opened c fault change sfd (b ∷ text) =
    let (loaded, error) = load_from_file c (b ∷ text) sfd in
    elim error [
      | none ↦ rewrite c fault change loaded (b ∷ text)
      | some e ↦ record { memory = loaded; file = some (b ∷ text); error = some e }
    ]

-- What opening with O_CREATE makes of the file.
abbrev pub created : File → Bytes
created none = []
created (some text) = text

-- `StatusFileData.UpdateFullStatus`
unfoldable pub update_full_status : Codec → Fault → Change → StatusFileData → File → Stored
unfolding update_opened
update_full_status c lock_fails change sfd file = record {
  memory = sfd;
  file = file;
  error = some not_locked;
}
update_full_status c open_fails change sfd file = record {
  memory = sfd;
  file = file;
  error = some not_opened;
}
update_full_status c seek_fails change sfd file = record {
  memory = sfd;
  file = some (created file);
  error = some not_sought;
}
update_full_status c fault change sfd file = update_opened c fault change sfd (created file)

-- The change of `UpdateBasicStatus`: a size of -1 is none.
abbrev pub basic : ℕ → Bytes → Option ℕ → Change
basic state detail none sfd = some (record sfd { state = state; detail = detail })
basic state detail (some size) sfd =
    some (record sfd { state = state; detail = detail; stdout_size = size })

-- `StatusFileData.UpdateBasicStatus`
unfoldable pub update_basic_status :
    Codec → Fault → ℕ → Bytes → Option ℕ → StatusFileData → File → Stored
unfolding update_full_status
update_basic_status c fault state detail size = update_full_status c fault (basic state detail size)

abbrev sized : ℕ → Change
sized size sfd = some (record sfd { stdout_size = size })

-- `saveStdoutSize`, which starts from an empty status.
unfoldable pub save_stdout_size : Codec → Fault → ℕ → File → Stored
unfolding update_full_status
save_stdout_size c fault size =
    update_full_status c fault (sized size)
      (record { state = 0; detail = []; stdout_size = 0; work_type = []; extra_data = nil })
