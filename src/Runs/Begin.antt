-- ===== src/Runs/Begin.antt =====
-- `begin_reserve`, `begin_abandon` and `begin_commit` of crates/idk/src/run.rs.
use idk.Common.{
  ℕ, suc, List, [], ◌∷◌, ◌++◌, Option, none, some, Text, text_eq, text_Eq, Eq, FilePath, Bool, true,
  false, ◌&&◌, ◌||◌, not, is_none, any, length, if◌then◌else◌, codes, Result, ok, err, ensure, ◌>>◌,
  ◌>>=◌,
}
use idk.Common.Assoc.{insert}
use idk.Model.{TaskDefinition, TaskStep, TaskLogging, no_log, raw_log, Environment}
use idk.Model.Fields.{valid_id}
use idk.RunWire.{preparing, LogDescriptor, LogState, disabled, recording}
use idk.RunWire.Info.{RunInfo, RunStartReply, StepResult, SourceObservation}
use idk.Structured.{StructuredResult, EventProgress}
use idk.Ledger.Runs.{log_byte_limit}
use idk.RunLog.{RunOutputSink, with_file, descriptor}
use idk.Runs.{
  RunRegistry, Active, PendingStart, TaskLaunchPlan, ShellPlan, World, Refusal, operation_conflict,
  task_changed, being_prepared, history_full, ledger, info, persist, steps,
}
use idk.Runs.Finish.{is_succeeded, same_path}
use idk.Runs.Observed.{drop_held}
use idk.Runs.Retention.{make_room, cleanup_retired, expire_history}
use idk.Runs.Start.{
  Setting, BeginTicket, BeginReservation, check_start, check_outputs, existing_run, reply_to,
  same_intent, find_operation, outputs_of, take_lease, reserve_pending,
}

-- `retain(|pending| pending.run_id != run_id)`
unfoldable pub drop_pending : Text → List PendingStart → List PendingStart
drop_pending id [] = []
drop_pending id (p ∷ ps) =
    let rest = drop_pending id ps in if text_eq p.run_id id then rest else p ∷ rest

-- `run_environment`
unfoldable pub run_environment : Environment → Text → Text → Environment
run_environment env id directory =
    insert (codes "IDK_EVENTS_PATH") (directory ++ codes "/events.jsonl") (
      insert (codes "IDK_RESULT_PATH") (directory ++ codes "/result.json")
        (insert (codes "IDK_RUN_ID") id env))

abbrev pub log_state : TaskLogging → LogState
log_state no_log = disabled
log_state raw_log = recording

unfoldable pub new_log : Text → TaskDefinition → LogDescriptor
new_log id task = record {
  run_id = id;
  generation = 1;
  state = log_state task.logging;
  bytes = 0;
  observed_bytes = 0;
  limit_bytes = log_byte_limit;
  merged_pty = is_none task.execution || task.interactive;
  file_identity = none;
}

abbrev pub unstarted_steps : ℕ → List TaskStep → List StepResult
unstarted_steps index [] = []
unstarted_steps index (step ∷ rest) =
    record { index = index; name = step.name; exit_code = none } ∷ unstarted_steps (suc index) rest

module _ {V : Type 0} where
  -- The last run that made the artifact from which this one starts.
  unfoldable pub artifact_run : TaskLaunchPlan → Text → List (RunInfo V) → Option Text
  artifact_run plan task [] = none
  artifact_run plan task (run ∷ runs) = elim (artifact_run plan task runs) [
    | some later ↦ some later
    | none ↦
        if text_eq run.project_id plan.project_id
          && text_eq run.task_id task
          && is_succeeded run.state
          && same_path run.artifact.path plan.task.artifact
        then some run.run_id
        else none
  ]

  abbrev from_run_of : TaskLaunchPlan → Option Text → List (RunInfo V) → Option Text
  from_run_of plan none runs = none
  from_run_of plan (some task) runs = artifact_run plan task runs

  unfoldable pub new_run :
      TaskLaunchPlan
      → Text
      → Text
      → List FilePath
      → LogDescriptor
      → SourceObservation
      → ℕ
      → List (RunInfo V)
      → RunInfo V
  new_run plan id operation outputs log source now runs = record {
    run_id = id;
    operation_id = operation;
    project_id = plan.project_id;
    task_id = plan.task.id;
    name = plan.task.name;
    session_id = none;
    state = preparing;
    definition_revision = plan.definition_revision;
    launch_digest = plan.launch_digest;
    initialization_digest = plan.initialization_digest;
    cwd = plan.task.cwd;
    source_roots = plan.source_roots;
    build_outputs = outputs;
    started_at_ms = now;
    finished_at_ms = none;
    timeout_seconds = plan.task.timeout_seconds;
    timeout_requested = false;
    cancel_requested = false;
    cleanup_confirmed = false;
    exit_code = none;
    signal_name = none;
    steps = unstarted_steps 0 (steps plan.task);
    structured_result = none;
    pinned = false;
    events = none;
    source_start = source;
    source_end = none;
    source_changed = none;
    artifact = record {
      path = plan.task.artifact;
      from_task = plan.task.artifact_from_task;
      from_run = from_run_of plan plan.task.artifact_from_task runs;
      verified_bytes = false;
      snapshot = none;
      snapshot_error = none;
      observed_at_ms = none;
    };
    log = log;
    error = none;
  }

module _ {V K : Type 0} ⦃e : Eq K⦄ where
  -- The ticket is gone, and its lease with it.
  unfoldable pub begin_abandon : RunRegistry V K → BeginTicket K → RunRegistry V K
  begin_abandon r t = record r {
    pending_starts = drop_pending t.run_id r.pending_starts;
    gate = drop_held r.gate t.lease;
  }

  module _ (is_uuid : Text → Bool) (result_json : StructuredResult V → ℕ)
      (event_json : EventProgress → ℕ) (w : World V) (s : Setting K) where
    -- The files of the run: its directory, its steps and its log.
    unfoldable pub prepare_run : BeginTicket K → Result Refusal (Text × ShellPlan × RunOutputSink)
    prepare_run t = s.prepare_directory t.run_id >>= (λ directory.
        s.create_steps t.plan directory >>= (λ shell. s.create_log t.run_id >>= (λ identity. ok (
          directory,
          record shell { env = run_environment shell.env t.run_id directory },
          with_file (new_log t.run_id t.plan.task) identity,
        ))))

    abbrev active_run : BeginTicket K → Text → ShellPlan → RunOutputSink → Active V K
    active_run t directory shell sink = record {
      plan = t.plan;
      shell = shell;
      sink = sink;
      lease = t.lease;
      run_use = true;
      directory = directory;
      started = s.started;
      finishing = false;
      result_snapshot = none;
      events_snapshot = none;
      artifact_measurement = none;
    }

    -- The run joins the list, and leaves it again where the registry cannot be saved.
    unfoldable pub commit_run :
        RunRegistry V K
        → BeginTicket K
        → SourceObservation
        → Text × ShellPlan × RunOutputSink
        → RunRegistry V K × Result Refusal (RunStartReply V)
    commit_run r t source (directory, shell, sink) =
        let run =
          new_run t.plan t.run_id t.operation_id t.outputs (descriptor sink) source w.now_ms
            r.runs in
        let after = record r { runs = r.runs ++ (run ∷ []) } in
        elim (persist is_uuid result_json event_json w after) [
          | err reason ↦ (begin_abandon r t, err reason)
          | ok _ ↦ (
            record after {
              active = insert t.run_id (active_run t directory shell sink) after.active;
            },
            ok (record { run = run; existing = false }),
          )
        ]

    unfoldable pub begin_commit :
        RunRegistry V K
        → BeginTicket K
        → SourceObservation
        → RunRegistry V K × Result Refusal (RunStartReply V)
    unfolding commit_run prepare_run
    begin_commit r t source =
        let left = record r { pending_starts = drop_pending t.run_id r.pending_starts } in
        elim (prepare_run t) [
          | err reason ↦ (begin_abandon left t, err reason)
          | ok files ↦ commit_run left t source files
        ]

    -- Room in the history, and then the lease.
    unfoldable pub reserve_room :
        RunRegistry V K
        → TaskLaunchPlan
        → Text
        → List FilePath
        → RunRegistry V K × Result Refusal (BeginReservation V K)
    reserve_room r plan operation outputs =
        let cleaned = cleanup_retired is_uuid result_json event_json w r in
        let expired = expire_history is_uuid result_json event_json w cleaned.0 in
        let roomy =
          make_room is_uuid result_json event_json w (suc (length expired.0.runs))
            (length expired.0.pending_starts) history_full expired.0 in
        elim cleaned.1 [
          | err reason ↦ (cleaned.0, err reason)
          | ok _ ↦ elim expired.1 [
            | err reason ↦ (expired.0, err reason)
            | ok _ ↦ elim roomy.1 [
              | err reason ↦ (roomy.0, err reason)
              | ok _ ↦
                  reserve_pending s (take_lease s roomy.0 plan operation plan.repository) plan
                    operation outputs
            ]
          ]
        ]

    abbrev reserve_outputs :
        RunRegistry V K
        → TaskLaunchPlan
        → Text
        → Result Refusal (List FilePath)
        → RunRegistry V K × Result Refusal (BeginReservation V K)
    reserve_outputs r plan operation (err reason) = (r, err reason)
    reserve_outputs r plan operation (ok outputs) = elim (check_outputs r outputs) [
      | err reason ↦ (r, err reason)
      | ok _ ↦ reserve_room r plan operation outputs
    ]

    -- The start of `plan`, which is the plan of the task as it is now.
    unfoldable pub reserve_fresh :
        RunRegistry V K
        → TaskLaunchPlan
        → Text
        → Bool
        → Option (RunInfo V)
        → RunRegistry V K × Result Refusal (BeginReservation V K)
    unfolding reserve_room
    reserve_fresh r plan operation parallel (some run) = (r, reply_to (info w r run.run_id))
    reserve_fresh r plan operation parallel none = elim (check_start r plan parallel) [
      | err reason ↦ (r, err reason)
      | ok _ ↦
          reserve_outputs r plan operation (outputs_of s.output_identity plan.task.build_outputs)
    ]

    -- The plan that was captured must still be the plan of the task, under the lock on the root.
    unfoldable pub current_plan :
        RunRegistry V K → TaskLaunchPlan → Text → Result Refusal TaskLaunchPlan
    current_plan r plan operation =
        s.lock_root
        >> (s.launch_plan plan >>= (λ now.
            ensure (text_eq now.launch_digest plan.launch_digest) task_changed
            >> ensure (not (any (λ p. text_eq p.operation_id operation) r.pending_starts))
                being_prepared
            >> ok now))

    abbrev reserve_known :
        RunRegistry V K
        → TaskLaunchPlan
        → RunInfo V
        → RunRegistry V K × Result Refusal (BeginReservation V K)
    reserve_known r plan run =
        if same_intent run plan
        then (r, reply_to (info w r run.run_id))
        else (r, err operation_conflict)

    unfoldable pub begin_reserve :
        RunRegistry V K
        → TaskLaunchPlan
        → Text
        → Bool
        → RunRegistry V K × Result Refusal (BeginReservation V K)
    unfolding reserve_fresh current_plan
    begin_reserve r plan operation parallel = elim (valid_id is_uuid operation) [
      | err reason ↦ (r, err (ledger reason))
      | ok _ ↦ elim (find_operation operation r.runs) [
        | some run ↦ reserve_known r plan run
        | none ↦ elim (current_plan r plan operation) [
          | err reason ↦ (r, err reason)
          | ok now ↦ reserve_fresh r now operation parallel (existing_run r now parallel)
        ]
      ]
    ]
