-- ===== src/Ledger/Runs.antt =====
-- `RunLedger` of crates/idk/src/saved_state.rs. The lengths of a summary as JSON, which `serde_json`
-- writes, are parameters.
use idk.Common.{
  ℕ, ◌+◌, List, [], ◌∷◌, ◌++◌, Option, none, some, Text, text_eq, text_Eq, FilePath, path_eq, Bool,
  true, false, ◌&&◌, ◌||◌, not, is_some, is_empty, ◌==◌, ltb, leb, within, any, up_to, is_control,
  length, byte_len, Result, Check, ok, ensure, ◌>>◌, ◌>>=◌, when_some, for_each, try_fold,
  insert_new, contains, if◌then◌else◌,
}
use idk.Model.{
  Refusal, run_ledger, pinned_budget, invalid_journal, duplicate_retired, retired_body,
  duplicate_run, duplicate_run_session, inline_body, result_body_refused, summary_size, event_size,
  event_body, pinned_unconfirmed, run_bounds, step_order, step_exit_code, artifact_observation,
  artifact_error, artifact_equality, run_timeout, run_log,
}
use idk.Model.Fields.{valid_id, valid_name, absolute_path}
use idk.RunWire.{is_live, LogDescriptor}
use idk.RunWire.Info.{RunInfo, StepResult, ArtifactRelation}
use idk.Structured.{BodyReference, StructuredResult, EventProgress, result_body, is_available}
use idk.Ledger.{digest, observation}

pub record RetiredRun : Type 0 where
  pub run_id : Text
  pub result : Option BodyReference
  pub events : Option BodyReference
  pub log_identity : Option (ℕ × ℕ)
  pub runtime_identity : Option (ℕ × ℕ)

pub record RunLedger (V : Type 0) : Type 0 where
  pub schema : ℕ
  pub runs : List (RunInfo V)
  pub retired : List RetiredRun

abbrev pub run_record_limit : ℕ
run_record_limit = 64

abbrev pub pinned_run_limit : ℕ
pinned_run_limit = 16

abbrev pub log_byte_limit : ℕ
log_byte_limit = 4194304

abbrev pub max_result_bytes : ℕ
max_result_bytes = 16777216

abbrev pub max_event_bytes : ℕ
max_event_bytes = 8388608

abbrev pub max_auto_artifact_bytes : ℕ
max_auto_artifact_bytes = 16777216

abbrev pub pinned_result_bytes : ℕ
pinned_result_bytes = 134217728

-- `u64::saturating_add`
abbrev pub saturating_add : ℕ → ℕ → ℕ
saturating_add a b =
    let sum = a + b in if ltb 18446744073709551615 sum then 18446744073709551615 else sum

abbrev pub body_bytes : Option BodyReference → ℕ
body_bytes none = 0
body_bytes (some body) = body.bytes

abbrev pub body_of : {V : Type 0} → Option (StructuredResult V) → Option BodyReference
body_of none = none
body_of (some result) = result_body result

abbrev pub event_body_of : Option EventProgress → Option BodyReference
event_body_of none = none
event_body_of (some events) = events.body

abbrev pub saturating_sum : ℕ → List ℕ → ℕ
saturating_sum total [] = total
saturating_sum total (n ∷ ns) = saturating_sum (saturating_add total n) ns

-- `retired.result` and `retired.events`: a body that belongs to the run and is not too long.
abbrev check_body : Refusal → Text → ℕ → BodyReference → Check Refusal
check_body reason run_id limit body =
    ensure (text_eq body.run_id run_id && leb body.bytes limit) reason >> digest body.sha256

unfoldable pub check_steps : ℕ → List StepResult → Check Refusal
check_steps index [] = ok tt
check_steps index (step ∷ steps) =
    ensure (step.index == index) step_order
    >> valid_name step.name
    >> when_some step.exit_code (λ code. ensure (up_to 255 code) step_exit_code)
    >> check_steps (index + 1) steps

-- The runs that are pinned, or those that are not.
abbrev pub runs_pinned : {V : Type 0} → Bool → List (RunInfo V) → List (RunInfo V)
runs_pinned wanted [] = []
runs_pinned wanted (run ∷ runs) =
    let rest = runs_pinned wanted runs in
    if (if wanted then run.pinned else not run.pinned) then run ∷ rest else rest

abbrev pub retained_bytes : {V : Type 0} → RunInfo V → ℕ
retained_bytes run =
    saturating_add
      (saturating_add (body_bytes (body_of run.structured_result))
        (body_bytes (event_body_of run.events)))
      run.log.bytes

abbrev pub retained_by : {V : Type 0} → List (RunInfo V) → List ℕ
retained_by [] = []
retained_by (run ∷ runs) = retained_bytes run ∷ retained_by runs

abbrev pub run_ids : {V : Type 0} → List (RunInfo V) → List Text
run_ids [] = []
run_ids (run ∷ runs) = run.run_id ∷ run_ids runs

abbrev pub retired_ids : List RetiredRun → List Text
retired_ids [] = []
retired_ids (retired ∷ journal) = retired.run_id ∷ retired_ids journal

unfoldable pub check_log : Text → LogDescriptor → Check Refusal
check_log run_id log =
    ensure
      (text_eq log.run_id run_id
        && ltb 0 log.generation
        && leb log.limit_bytes log_byte_limit
        && leb log.bytes log.limit_bytes)
      run_log

abbrev same_path : FilePath → Option FilePath → Bool
same_path p none = false
same_path p (some q) = path_eq p q

unfoldable pub check_artifact : ℕ → Bool → ArtifactRelation → Check Refusal
check_artifact schema confirmed artifact =
    when_some artifact.snapshot (λ snapshot.
      ensure
        (schema == 2
          && same_path snapshot.path artifact.path
          && leb snapshot.size max_auto_artifact_bytes
          && snapshot.size == snapshot.identity.size
          && is_some artifact.observed_at_ms)
        artifact_observation
      >> digest snapshot.sha256)
    >> when_some artifact.snapshot_error
        (λ error. ensure (leb (byte_len error) 2048 && not (any is_control error)) artifact_error)
    >> ensure
        (not artifact.verified_bytes
          || (schema == 2
              && is_some artifact.snapshot
              && is_some artifact.from_run
              && is_some artifact.from_task
              && confirmed))
        artifact_equality

unfoldable pub check_sizes : {V : Type 0} → RunLedger V → Check Refusal
check_sizes l =
    ensure
      ((l.schema == 1 || l.schema == 2)
        && leb (length (runs_pinned false l.runs)) run_record_limit
        && leb (length (runs_pinned true l.runs)) pinned_run_limit
        && (l.schema == 2 || is_empty (runs_pinned true l.runs)))
      run_ledger
    >> ensure (leb (saturating_sum 0 (retained_by (runs_pinned true l.runs))) pinned_result_bytes)
        pinned_budget
    >> ensure (leb (length l.retired) run_record_limit && (l.schema == 2 || is_empty l.retired))
        invalid_journal

pub record RunSets : Type 0 where
  pub ids : List Text
  pub operations : List Text
  pub sessions : List Text

unfoldable pub check_result :
    {V : Type 0} → (StructuredResult V → ℕ) → ℕ → Text → StructuredResult V → Check Refusal
check_result result_json schema run_id result =
    ensure (schema == 1 || not (is_available result)) inline_body
    >> when_some (result_body result) (check_body result_body_refused run_id max_result_bytes)
    >> ensure (not (schema == 2) || leb (result_json result) 8192) summary_size

unfoldable pub check_events : (EventProgress → ℕ) → Text → EventProgress → Check Refusal
check_events event_json run_id events =
    ensure (leb (event_json events) 8192) event_size
    >> when_some events.body (check_body event_body run_id max_event_bytes)

module _ (is_uuid : Text → Bool) where
  unfoldable pub retired_step : List Text → List Text → RetiredRun → Result Refusal (List Text)
  retired_step kept ids retired =
      valid_id is_uuid retired.run_id
      >> ensure (not (contains retired.run_id ids) && not (contains retired.run_id kept))
          duplicate_retired
      >> when_some retired.result (check_body retired_body retired.run_id max_result_bytes)
      >> when_some retired.events (check_body retired_body retired.run_id max_event_bytes)
      >> ok (retired.run_id ∷ ids)

  unfoldable pub insert_session : List Text → Option Text → Result Refusal (List Text)
  insert_session sessions none = ok sessions
  insert_session sessions (some id) =
      valid_id is_uuid id >> insert_new sessions id duplicate_run_session

module _ {V : Type 0} (is_uuid : Text → Bool) (result_json : StructuredResult V → ℕ)
    (event_json : EventProgress → ℕ) where
  unfoldable pub check_kept : ℕ → RunInfo V → Check Refusal
  check_kept schema run =
      when_some run.structured_result (check_result result_json schema run.run_id)
      >> when_some run.events (check_events event_json run.run_id)
      >> ensure (not run.pinned || (not (is_live run.state) && run.cleanup_confirmed))
          pinned_unconfirmed

  unfoldable pub check_definition : RunInfo V → Check Refusal
  check_definition run =
      valid_name run.name
      >> absolute_path run.cwd
      >> digest run.launch_digest
      >> digest run.initialization_digest
      >> ensure
          (not (is_empty run.steps)
            && leb (length run.steps) 64
            && leb (length run.source_roots) 128
            && leb (length run.build_outputs) 32)
          run_bounds
      >> check_steps 0 run.steps

  unfoldable pub check_paths : RunInfo V → Check Refusal
  check_paths run =
      for_each (run.source_roots ++ run.build_outputs) absolute_path
      >> when_some run.artifact.path absolute_path
      >> when_some run.artifact.from_task (valid_id is_uuid)
      >> when_some run.artifact.from_run (valid_id is_uuid)

  -- What is checked of one run behind its identities.
  unfoldable pub check_run : ℕ → RunInfo V → Check Refusal
  check_run schema run =
      check_kept schema run
      >> check_definition run
      >> check_paths run
      >> check_artifact schema run.cleanup_confirmed run.artifact
      >> when_some run.timeout_seconds (λ seconds. ensure (within 1 604800 seconds) run_timeout)
      >> check_log run.run_id run.log
      >> observation run.source_start
      >> when_some run.source_end observation

  unfoldable pub run_step : ℕ → RunSets → RunInfo V → Result Refusal RunSets
  unfolding check_run insert_session
  run_step schema sets run =
      valid_id is_uuid run.run_id
      >> valid_id is_uuid run.operation_id
      >> valid_id is_uuid run.project_id
      >> valid_id is_uuid run.task_id
      >> ensure
          (not (contains run.run_id sets.ids) && not (contains run.operation_id sets.operations))
          duplicate_run
      >> (insert_session is_uuid sets.sessions run.session_id >>= (λ sessions.
          check_run schema run
          >> ok (record {
            ids = run.run_id ∷ sets.ids;
            operations = run.operation_id ∷ sets.operations;
            sessions = sessions;
          })))

  unfoldable pub check_journal : RunLedger V → Result Refusal (List Text)
  check_journal l = try_fold [] l.retired (retired_step is_uuid (run_ids l.runs))

  unfoldable pub check_runs : RunLedger V → Result Refusal RunSets
  check_runs l =
      try_fold (record { ids = []; operations = []; sessions = [] }) l.runs (run_step l.schema)

  unfoldable pub validate_run_ledger : RunLedger V → Check Refusal
  validate_run_ledger l =
      check_sizes l >> (check_journal l >>= (λ _. check_runs l >>= (λ _. ok tt)))
