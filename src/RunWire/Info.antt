-- ===== src/RunWire/Info.antt =====
-- What the host keeps of a run and tells of it, crates/idk/src/run_wire.rs.
use idk.Common.{ℕ, ℤ, List, Option, Text, Bool, FilePath}
use idk.Structured.{StructuredResult, EventProgress, ArtifactSnapshot}
use idk.RunWire.{RunState, LogDescriptor}

pub record StepResult : Type 0 where
  pub index : ℕ
  pub name : Text
  pub exit_code : Option ℤ

pub record SourceObservation : Type 0 where
  pub identity : Option FilePath
  pub generation : Option ℕ
  pub git_head : Option Text
  pub dirty : Option Bool
  pub status_digest : Option Text
  pub error : Option Text

pub record ArtifactRelation : Type 0 where
  pub path : Option FilePath
  pub from_task : Option Text
  pub from_run : Option Text
  pub verified_bytes : Bool
  pub snapshot : Option ArtifactSnapshot
  pub snapshot_error : Option Text
  pub observed_at_ms : Option ℕ

pub record RunInfo (V : Type 0) : Type 0 where
  pub run_id : Text
  pub operation_id : Text
  pub project_id : Text
  pub task_id : Text
  pub name : Text
  pub session_id : Option Text
  pub state : RunState
  pub definition_revision : ℕ
  pub launch_digest : Text
  pub initialization_digest : Text
  pub cwd : FilePath
  pub source_roots : List FilePath
  pub build_outputs : List FilePath
  pub started_at_ms : ℕ
  pub finished_at_ms : Option ℕ
  pub timeout_seconds : Option ℕ
  pub timeout_requested : Bool
  pub cancel_requested : Bool
  pub cleanup_confirmed : Bool
  pub exit_code : Option ℕ
  pub signal_name : Option Text
  pub steps : List StepResult
  pub structured_result : Option (StructuredResult V)
  pub pinned : Bool
  pub events : Option EventProgress
  pub source_start : SourceObservation
  pub source_end : Option SourceObservation
  pub source_changed : Option Bool
  pub artifact : ArtifactRelation
  pub log : LogDescriptor
  pub error : Option Text

pub record RunStartReply (V : Type 0) : Type 0 where
  pub run : RunInfo V
  pub existing : Bool
