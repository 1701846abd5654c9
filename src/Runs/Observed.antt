-- ===== src/Runs/Observed.antt =====
-- The end of a run: `finish_probe` and `finish_observed` of crates/idk/src/run.rs. `capture` and
-- `collect` are `ResultStore::capture` and `ResultStore::events`, which read the files of the run.
use idk.Common.{
  ℕ, List, [], ◌∷◌, Option, none, some, Text, text_eq, text_Eq, Eq, FilePath, Bool, true, false,
  ◌&&◌, is_none, if◌then◌else◌, Result, Check, ok, err,
}
use idk.Common.Assoc.{lookup, insert}
use idk.Model.{Repository}
use idk.Gate.{SourceGate, GateLease, drop_lease}
use idk.GitOperation.{TerminalExit}
use idk.RunWire.{LogDescriptor}
use idk.RunWire.Info.{RunInfo, StepResult, SourceObservation}
use idk.Structured.{StructuredResult, EventProgress, ArtifactSnapshot, result_summary}
use idk.RunLog.{descriptor, finish}
use idk.Runs.{
  RunRegistry, Active, World, Refusal, run_not_owned, update_run, info, persist, steps, read_from,
  has_execution,
}
use idk.Runs.Finish.{
  final_state, is_succeeded, source_change, measure_artifact, measured, equal_snapshots, step_code,
  same_text, same_path, exit_code_of, signal_of,
}

pub record SourceProbe (K : Type 0) : Type 0 where
  pub repository : Option Repository
  pub gate : SourceGate K
  pub artifact : Option FilePath

pub record Ended : Type 0 where
  pub exit : Option TerminalExit
  pub cleanup_confirmed : Bool
  pub error : Option Text
  pub source_end : SourceObservation

abbrev pub drop_held :
    {K : Type 0} → ⦃e : Eq K⦄ → SourceGate K → Option (GateLease K) → SourceGate K
drop_held g none = g
drop_held g (some lease) = drop_lease g lease

module _ {V : Type 0} where
  abbrev producer : StructuredResult V → Option Text
  producer result = elim (result_summary result) [
    | none ↦ none
    | some summary ↦ summary.producer_run_id
  ]

  -- The preceding run whose artifact this run may have reused.
  unfoldable pub predecessor : RunInfo V → List (RunInfo V) → Option (RunInfo V)
  predecessor existing [] = none
  predecessor existing (run ∷ runs) =
      let rest = predecessor existing runs in
      if same_text (some run.run_id) existing.artifact.from_run
        && text_eq run.project_id existing.project_id
        && same_text (some run.task_id) existing.artifact.from_task
        && is_succeeded run.state
        && run.cleanup_confirmed
        && same_path run.artifact.path existing.artifact.path
      then some run
      else rest

  abbrev snapshot_of : Option (RunInfo V) → Option ArtifactSnapshot
  snapshot_of none = none
  snapshot_of (some run) = run.artifact.snapshot

module _ {V K : Type 0} where
  unfoldable pub finish_probe :
      RunRegistry V K → Text → RunRegistry V K × Result Refusal (SourceProbe K)
  finish_probe r id = elim (lookup id r.active) [
    | none ↦ (r, err run_not_owned)
    | some a ↦ (
      record r { active = insert id (record a { finishing = true }) r.active },
      ok (record {
        repository = a.plan.repository;
        gate = r.gate;
        artifact = a.plan.task.artifact;
      }),
    )
  ]

  unfoldable pub step_results : World V → Active V K → Option TerminalExit → List StepResult
  step_results w a exit =
      if has_execution a
      then record { index = 0; name = a.plan.task.name; exit_code = step_code exit } ∷ []
      else read_from (w.step_status a.directory) 0 (steps a.plan.task)

  module _ (capture : Text → StructuredResult V)
      (collect : Text → Option Text → EventProgress) where
    -- The results are read once, when the cleanup is confirmed.
    unfoldable pub capture_results : Text → Bool → Active V K → Active V K
    capture_results id confirmed a =
        if confirmed && is_none a.result_snapshot
        then record a {
          result_snapshot = some (capture id);
          events_snapshot = some (collect id (producer (capture id)));
        }
        else a

    -- The run that is kept as ended: its sink is finished, and its results are read.
    unfoldable pub ending : Text → Bool → Active V K → Active V K
    unfolding capture_results finish
    ending id confirmed a =
        capture_results id confirmed (record a { finishing = true; sink = finish a.sink })

  unfoldable pub finished_run :
      World V → Active V K → List StepResult → LogDescriptor → Bool → Ended → RunInfo V → RunInfo V
  finished_run w a results log equal ended run = record run {
    artifact = measure_artifact run.artifact ended.cleanup_confirmed a.artifact_measurement equal;
    structured_result = a.result_snapshot;
    events = a.events_snapshot;
    source_changed = source_change run.source_start ended.source_end;
    source_end = some ended.source_end;
    steps = results;
    log = log;
    error = ended.error;
    exit_code = exit_code_of ended.exit;
    signal_name = signal_of ended.exit;
    state = final_state ended.cleanup_confirmed run.cancel_requested ended.exit ended.error;
    finished_at_ms = some w.now_ms;
    cleanup_confirmed = ended.cleanup_confirmed;
  }

  -- After the registry has been saved: the lease and the lock are let go where the cleanup is confirmed.
  unfoldable pub let_go :
      ⦃e : Eq K⦄ → RunRegistry V K → Text → Bool → Option (Active V K) → RunRegistry V K
  let_go r id confirmed none = r
  let_go r id confirmed (some a) =
      let over = record a {
        finishing = false;
        lease = if confirmed then none else a.lease;
        run_use = if confirmed then false else a.run_use;
      } in
      record r {
        active = insert id over r.active;
        gate = if confirmed then drop_held r.gate a.lease else r.gate;
      }

  module _ (capture : Text → StructuredResult V) (collect : Text → Option Text → EventProgress)
      (is_uuid : Text → Bool) (result_json : StructuredResult V → ℕ)
      (event_json : EventProgress → ℕ) (w : World V) where
    abbrev pub or_keep :
        ⦃e : Eq K⦄
        → RunRegistry V K
        → Text
        → Bool
        → Check Refusal
        → RunRegistry V K × Result Refusal (RunInfo V)
    or_keep r id confirmed (err reason) = (r, err reason)
    or_keep r id confirmed (ok _) =
        let over = let_go r id confirmed (lookup id r.active) in (over, info w over id)

    -- The run as it has ended; `existing` is what the registry told of it.
    unfoldable pub ended_run :
        Active V K → Ended → RunInfo V → List (RunInfo V) → RunInfo V → RunInfo V
    unfolding finished_run
    ended_run a ended existing runs =
        let equal =
          ended.cleanup_confirmed
          && equal_snapshots (measured a.artifact_measurement)
              (snapshot_of (predecessor existing runs)) in
        finished_run w a (step_results w a ended.exit) (descriptor a.sink) equal ended

    -- The registry in which the run is recorded as ended, before it is saved.
    unfoldable pub recorded :
        RunRegistry V K → Text → Active V K → Ended → RunInfo V → RunRegistry V K
    recorded r id a ended existing = record r {
      runs = update_run id (ended_run a ended existing r.runs) r.runs;
    }

    unfoldable pub finish_existing :
        ⦃e : Eq K⦄
        → RunRegistry V K
        → Text
        → Active V K
        → Ended
        → Result Refusal (RunInfo V)
        → RunRegistry V K × Result Refusal (RunInfo V)
    finish_existing r id a ended (err reason) = (r, err reason)
    finish_existing r id a ended (ok existing) =
        let done = recorded r id a ended existing in
        or_keep done id ended.cleanup_confirmed (persist is_uuid result_json event_json w done)

    unfoldable pub finish_active :
        ⦃e : Eq K⦄
        → RunRegistry V K
        → Text
        → Ended
        → Option (Active V K)
        → RunRegistry V K × Result Refusal (RunInfo V)
    finish_active r id ended none = (r, err run_not_owned)
    finish_active r id ended (some a) =
        let b = ending capture collect id ended.cleanup_confirmed a in
        let marked = record r { active = insert id b r.active } in
        finish_existing marked id b ended (info w marked id)

    unfoldable pub finish_observed :
        ⦃e : Eq K⦄ → RunRegistry V K → Text → Ended → RunRegistry V K × Result Refusal (RunInfo V)
    unfolding finish_active
    finish_observed r id ended = finish_active r id ended (lookup id r.active)
