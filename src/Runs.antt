-- ===== src/Runs.antt =====
-- The registry of runs, `RunRegistry` of crates/idk/src/run.rs: what the host keeps of each run, the
-- leases of their sources, and the ledger that it saves. An operation returns the new registry with its
-- result. The file system answers by the functions of `World`, of which nothing is assumed; `key` takes
-- a path to the key under which the gate and the registry compare it.
pub mod Finish
pub mod Observed
pub mod Retention
pub mod Pins
pub mod Start
pub mod Begin
pub mod Outcome
pub mod Removal
pub mod Rotation
pub mod Rollback
mod Fixtures
mod Examples
use idk.Common.{
  ℕ, ◌+◌, List, [], ◌∷◌, Option, none, some, Text, text_eq, text_Eq, Eq, FilePath, Bool, true,
  false, ◌&&◌, ◌||◌, not, is_none, is_some, is_empty, ltb, ◌==◌, any, length, if◌then◌else◌, ℤ,
  up_to, Result, Check, ok, err, ensure, context, codes, ◌>>◌,
}
use idk.Common.Assoc.{lookup, contains_key}
use idk.Model.{TaskDefinition, TaskStep, Environment, NativeShell, SourceSpec, Repository}
use idk.Gate.{SourceGate, GateLease, set_ready, set_unavailable}
use idk.RunWire.{LogDescriptor, expired, partial, RunState, unknown}
use idk.RunWire.Info.{RunInfo, StepResult, SourceObservation}
use idk.Structured.{StructuredResult, EventProgress, ArtifactSnapshot}
use idk.RunLog.{RunOutputSink, descriptor, finish, is_disabled, min}
use idk.Ledger.Runs.{RunLedger, RetiredRun, validate_run_ledger, log_byte_limit}

pub record ShellPlan : Type 0 where
  pub native : Option NativeShell
  pub shell : FilePath
  pub login : Bool
  pub init_cwd : FilePath
  pub start_cwd : FilePath
  pub sources : List SourceSpec
  pub env : Environment
  pub command : Option Text

pub record TaskLaunchPlan : Type 0 where
  pub project_id : Text
  pub task : TaskDefinition
  pub shell : ShellPlan
  pub definition_revision : ℕ
  pub launch_digest : Text
  pub initialization_digest : Text
  pub repository : Option Repository
  pub source_roots : List FilePath

pub record ArtifactMeasurement : Type 0 where
  pub snapshot : Option ArtifactSnapshot
  pub error : Option Text
  pub observed_at_ms : ℕ

-- `run_use` tells whether the shared lock on the root is still held.
pub record Active (V K : Type 0) : Type 0 where
  pub plan : TaskLaunchPlan
  pub shell : ShellPlan
  pub sink : RunOutputSink
  pub lease : Option (GateLease K)
  pub run_use : Bool
  pub directory : Text
  pub started : ℕ
  pub finishing : Bool
  pub result_snapshot : Option (StructuredResult V)
  pub events_snapshot : Option EventProgress
  pub artifact_measurement : Option ArtifactMeasurement

pub record PendingStart : Type 0 where
  pub run_id : Text
  pub project_id : Text
  pub task_id : Text
  pub operation_id : Text
  pub build_outputs : List FilePath

pub record RunRegistry (V K : Type 0) : Type 0 where
  pub gate : SourceGate K
  pub runs : List (RunInfo V)
  pub retired : List RetiredRun
  pub active : List (Text × Active V K)
  pub published : List K
  pub pending_starts : List PendingStart

-- Why the registry refuses. `ledger` and `gated` carry the reasons of the ledger and of the gate.
pub data Refusal : Type 0 where
  run_missing run_not_owned run_not_live run_ended : Refusal
  still_tracked not_unknown pin_unconfirmed pin_expired : Refusal
  pin_count pin_bytes history_full unpin_full cannot_rotate journal_full : Refusal
  log_replaced directory_replaced directory_unexpected : Refusal
  operation_conflict task_changed being_prepared task_prepared cleanup_unknown : Refusal
  output_conflict source_unknown reconnecting invalid_session : Refusal
  ledger : (reason : idk.Model.Refusal) → Refusal
  gated : (reason : idk.Gate.Refusal) → Refusal
  io : Refusal

-- What the system tells of a file: that there is none to open, that its metadata cannot be read, or
-- whether it is of the expected kind, whether the host owns it, whether its mode is private
-- (`mode & 0o077 == 0`), its device and inode, and its length.
pub data Entry : Type 0 where
  absent failing : Entry
  found : (expected_kind owned private : Bool) → (identity : ℕ × ℕ) → (len : ℕ) → Entry

pub record World (V : Type 0) : Type 0 where
  pub log_file : Text → Entry
  pub retired_log : Text → Entry
  pub runtime_directory : Text → Entry
  pub remove_log : Text → Check Refusal
  pub remove_directory : Text → Check Refusal
  pub remove_body : Text → Check Refusal
  pub step_status : Text → ℕ → Option ℤ
  pub write_state : RunLedger V → Check Refusal
  pub now_ms : ℕ

-- `steps` of crates/idk/src/task.rs.
abbrev pub steps : TaskDefinition → List TaskStep
steps task =
    if is_empty task.steps
    then record { name = task.name; command = task.command } ∷ []
    else task.steps

abbrev pub status_code : Option ℤ → Option ℤ
status_code none = none
status_code (some code) = if up_to 255 code then some code else none

abbrev pub read_from : (ℕ → Option ℤ) → ℕ → List TaskStep → List StepResult
read_from status index [] = []
read_from status index (step ∷ rest) =
    record { index = index; name = step.name; exit_code = status_code (status index) }
    ∷ read_from status (index + 1) rest

abbrev pub saturating_next : ℕ → ℕ
saturating_next n = if ltb n 18446744073709551615 then n + 1 else n

abbrev same_identity : Option (ℕ × ℕ) → ℕ × ℕ → Bool
same_identity none now = false
same_identity (some (device, inode)) (d, i) = device == d && inode == i

-- The log as the file on the disk shows it; `owned` tells whether the run is still active.
unfoldable pub observed_log : LogDescriptor → Bool → Entry → Result Refusal LogDescriptor
observed_log log owned absent = ok (record log { state = expired })
observed_log log owned failing = err io
observed_log log owned (found kind mine private identity len) =
    if not (kind && mine && private)
    then ok (record log { state = expired })
    else if not (same_identity log.file_identity identity)
    then ok (record log { state = expired; generation = saturating_next log.generation })
    else if ltb len log.bytes
    then ok
        (record log { state = partial; bytes = len; generation = saturating_next log.generation })
    else if owned
    then ok log
    else ok (record log {
      state = if len == log.bytes then log.state else partial;
      bytes = min len log_byte_limit;
    })

abbrev pub lift : Check idk.Model.Refusal → Check Refusal
lift (ok _) = ok tt
lift (err reason) = err (ledger reason)

module _ {V : Type 0} where
  unfoldable pub find_run : Text → List (RunInfo V) → Option (RunInfo V)
  find_run id [] = none
  find_run id (run ∷ runs) = if text_eq run.run_id id then some run else find_run id runs

  -- `run_mut` and an assignment: the first run with the identifier.
  unfoldable pub update_run : Text → (RunInfo V → RunInfo V) → List (RunInfo V) → List (RunInfo V)
  update_run id f [] = []
  update_run id f (run ∷ runs) =
      let rest = update_run id f runs in if text_eq run.run_id id then f run ∷ runs else run ∷ rest

  abbrev pub with_log : RunInfo V → Result Refusal LogDescriptor → Result Refusal (RunInfo V)
  with_log run (ok log) = ok (record run { log = log })
  with_log run (err e) = err e

  abbrev or_unavailable : RunInfo V → Result Refusal (RunInfo V) → RunInfo V
  or_unavailable run (ok shown) = shown
  or_unavailable run (err reason) = record run {
    log = record run.log { state = partial };
    error = some (codes "run details unavailable");
  }

module _ {V K : Type 0} where
  abbrev pub has_execution : Active V K → Bool
  has_execution a = is_some a.plan.task.execution

  -- What a run that the host still owns shows of its log and its steps.
  unfoldable pub with_active : World V → RunInfo V → Option (Active V K) → RunInfo V
  with_active w run none = run
  with_active w run (some a) =
      let shown = record run { log = descriptor a.sink } in
      if has_execution a
      then shown
      else record shown { steps = read_from (w.step_status a.directory) 0 (steps a.plan.task) }

  unfoldable pub info_of :
      World V → List (Text × Active V K) → RunInfo V → Result Refusal (RunInfo V)
  unfolding with_active observed_log
  info_of w active run =
      let shown = with_active w run (lookup run.run_id active) in
      if is_disabled shown.log.state
      then ok shown
      else with_log shown
          (observed_log shown.log (contains_key run.run_id active) (w.log_file run.run_id))

  unfoldable pub inform :
      World V → List (Text × Active V K) → Option (RunInfo V) → Result Refusal (RunInfo V)
  inform w active none = err run_missing
  inform w active (some run) = info_of w active run

  unfoldable pub info : World V → RunRegistry V K → Text → Result Refusal (RunInfo V)
  unfolding find_run inform
  info w r id = inform w r.active (find_run id r.runs)

  -- `list(None)`, over the runs `rest` of the registry.
  unfoldable pub list_from : World V → RunRegistry V K → List (RunInfo V) → List (RunInfo V)
  unfolding info
  list_from w r [] = []
  list_from w r (run ∷ rest) = or_unavailable run (info w r run.run_id) ∷ list_from w r rest

  module _ (is_uuid : Text → Bool) (result_json : StructuredResult V → ℕ)
      (event_json : EventProgress → ℕ) where
    unfoldable pub persist : World V → RunRegistry V K → Check Refusal
    unfolding list_from
    persist w r =
        let l : RunLedger V = record {
          schema = 2;
          runs = list_from w r r.runs;
          retired = r.retired;
        } in
        lift (validate_run_ledger is_uuid result_json event_json l) >> w.write_state l
