-- ===== src/RunWire.antt =====
-- The states and descriptors of crates/idk/src/run_wire.rs that the other modules share, and, in
-- Requests, the requests about runs.
pub mod Requests
pub mod Info
use idk.Common.{ℕ, Bool, true, false, Option, Text}

pub data RunState : Type 0 where
  preparing running cancelling succeeded failed cancelled unknown : RunState

abbrev pub is_live : RunState → Bool
is_live preparing = true
is_live running = true
is_live cancelling = true
is_live _ = false

pub data LogState : Type 0 where
  disabled recording complete limited write_failed expired partial : LogState

pub record LogDescriptor : Type 0 where
  pub run_id : Text
  pub generation : ℕ
  pub state : LogState
  pub bytes : ℕ
  pub observed_bytes : ℕ
  pub limit_bytes : ℕ
  pub merged_pty : Bool
  pub file_identity : Option (ℕ × ℕ)

pub record LogChunk : Type 0 where
  pub descriptor : LogDescriptor
  pub offset : ℕ
  pub next_offset : ℕ
  pub data_base64 : Text
  pub eof : Bool
