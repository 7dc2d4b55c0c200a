-- ===== src/Workceptor/State.antt =====
-- The data of pkg/workceptor: interfaces.go, workunitbase.go, remote_work.go and command.go.
use receptor.Prelude.{ℕ, Bool, ◌||◌, Option, Bytes, ◌==◌}
use receptor.Prelude.Map.{Map}

-- The work states, which are integers in the source and in the status file.
abbrev pub pending : ℕ
pending = 0

abbrev pub running : ℕ
running = 1

abbrev pub succeeded : ℕ
succeeded = 2

abbrev pub failed : ℕ
failed = 3

abbrev pub canceled : ℕ
canceled = 4

-- `IsComplete`
abbrev pub is_complete : ℕ → Bool
is_complete state = state == succeeded || state == failed

pub record RemoteExtraData : Type 0 where
  pub remote_node : Bytes
  pub remote_work_type : Bytes
  pub remote_params : Map Bytes
  pub remote_unit_id : Bytes
  pub remote_started : Bool
  pub adopted : Bool
  pub local_cancelled : Bool
  pub local_released : Bool
  pub sign_work : Bool
  pub tls_client : Bytes
  pub expiration : ℕ  -- 0 for the zero time

pub record CommandExtraData : Type 0 where
  pub pid : ℕ
  pub params : Bytes

-- `ExtraData interface{}`: nil, a pointer of one of the two types, or what JSON makes without a type.
pub data ExtraData : Type 0 where
  nil : ExtraData
  remote : RemoteExtraData → ExtraData
  command : CommandExtraData → ExtraData
  untyped : Bytes → ExtraData

pub record StatusFileData : Type 0 where
  pub state : ℕ
  pub detail : Bytes
  pub stdout_size : ℕ
  pub work_type : Bytes
  pub extra_data : ExtraData

-- `encoding/json` on a status: its text, if it has one, and what reading a text makes of the value
-- read into, with whether it succeeded.
pub record Codec : Type 0 where
  pub marshal : StatusFileData → Option Bytes
  pub unmarshal : Bytes → StatusFileData → StatusFileData × Bool

-- What the file system does not do in one operation on a status file. A failed write leaves a part
-- of the text.
pub data Fault : Type 0 where
  no_fault lock_fails open_fails seek_fails reseek_fails truncate_fails : Fault
  write_fails : ℕ → Fault

pub data IoError : Type 0 where
  not_locked not_opened not_sought not_truncated not_written not_marshaled not_loaded : IoError
  panicked : IoError  -- the callback's type assertion
