-- ===== src/Ledger/Examples.antt =====
-- Saved ledgers that are accepted, and instances of the theorems. Every text that is not empty passes
-- for a UUID, and every summary for 10 bytes of JSON.
use idk.Common.{
  ℕ, ◌≡◌, ◌≤◌, refl, [], ◌∷◌, map, none, some, Text, text_Eq, pair_Eq, Bool, true, false, not,
  is_empty, codes, utf8, ok, All, Distinct, contains, length, pos,
}
use idk.RunWire.{complete, succeeded}
use idk.RunWire.Info.{RunInfo, SourceObservation}
use idk.Ledger.{digest, object_id, observation}
use idk.Ledger.Hosts.{
  HostLedger, exited, validate_host_ledger, validate_host_record, session_step, check_purpose,
}
use idk.Ledger.Runs.{
  RunLedger, validate_run_ledger, check_sizes, check_journal, check_runs, retired_step, run_step,
  check_run, check_kept, check_definition, check_paths, check_steps, check_artifact, check_log,
  insert_session, runs_pinned, run_ids, saturating_sum, retained_by,
}
use idk.Ledger.Unique.{validate_run_ledger_unique}
use idk.Ledger.Kept.{KeptRun, validate_run_ledger-KeptRun}
use idk.Ledger.Sessions.{validate_host_ledger_unique}
use idk.Model.Fields.{valid_id, valid_name, absolute_path}

abbrev is_uuid : Text → Bool
is_uuid s = not (is_empty s)

abbrev hash : Text
hash = codes "0123456789abcdef0123456789abcdef0123456789abcdef0123456789abcdef"

abbrev unobserved : SourceObservation
unobserved = record {
  identity = none;
  generation = none;
  git_head = none;
  dirty = none;
  status_digest = some hash;
  error = none;
}

abbrev finished_run : RunInfo ℕ
finished_run = record {
  run_id = codes "r";
  operation_id = codes "o";
  project_id = codes "p";
  task_id = codes "t";
  name = codes "build";
  session_id = none;
  state = succeeded;
  definition_revision = 1;
  launch_digest = hash;
  initialization_digest = hash;
  cwd = utf8 (codes "/w");
  source_roots = [];
  build_outputs = [];
  started_at_ms = 1;
  finished_at_ms = some 2;
  timeout_seconds = none;
  timeout_requested = false;
  cancel_requested = false;
  cleanup_confirmed = true;
  exit_code = some 0;
  signal_name = none;
  steps = record { index = 0; name = codes "build"; exit_code = some (pos 0) } ∷ [];
  structured_result = none;
  pinned = true;
  events = none;
  source_start = unobserved;
  source_end = none;
  source_changed = none;
  artifact = record {
    path = none;
    from_task = none;
    from_run = none;
    verified_bytes = false;
    snapshot = none;
    snapshot_error = none;
    observed_at_ms = none;
  };
  log = record {
    run_id = codes "r";
    generation = 1;
    state = complete;
    bytes = 5;
    observed_bytes = 5;
    limit_bytes = 4194304;
    merged_pty = true;
    file_identity = none;
  };
  error = none;
}

abbrev one_run : RunLedger ℕ
one_run = record {
  schema = 2;
  runs = finished_run ∷ [];
  retired =
      record {
        run_id = codes "old";
        result = none;
        events = none;
        log_identity = none;
        runtime_identity = none;
      }
      ∷ [];
}

one_run_accepted : validate_run_ledger is_uuid (λ r. 10) (λ e. 10) one_run ≡ ok tt
unfolding validate_run_ledger check_sizes check_journal check_runs retired_step run_step check_run
    check_kept check_definition check_paths check_steps check_artifact check_log insert_session
    digest object_id observation valid_id valid_name absolute_path
one_run_accepted = refl

validate_run_ledger_unique_example :
    Distinct (map (λ r. r.run_id) one_run.runs)
    × Distinct (map (λ r. r.operation_id) one_run.runs)
    × Distinct (map (λ r. r.run_id) one_run.retired)
    × All (λ r. contains r.run_id (run_ids one_run.runs) ≡ false) one_run.retired
    × (length (runs_pinned false one_run.runs) ≤ 64)
    × (length (runs_pinned true one_run.runs) ≤ 16)
    × (length one_run.retired ≤ 64)
    × (saturating_sum 0 (retained_by (runs_pinned true one_run.runs)) ≤ 134217728)
validate_run_ledger_unique_example =
    validate_run_ledger_unique is_uuid (λ r. 10) (λ e. 10) one_run one_run_accepted

validate_run_ledger-KeptRun_example : All (KeptRun ℕ) one_run.runs
validate_run_ledger-KeptRun_example =
    validate_run_ledger-KeptRun is_uuid (λ r. 10) (λ e. 10) one_run one_run_accepted

abbrev one_session : HostLedger
one_session = record {
  schema = 1;
  sessions =
      record {
        session_id = codes "s";
        project_id = codes "p";
        terminal_id = codes "t";
        name = codes "shell";
        persistent = true;
        state = exited;
        definition_revision = 1;
        launch_digest = some hash;
        exit = none;
        purpose = none;
        run_id = none;
      }
      ∷ [];
}

one_session_accepted : validate_host_ledger is_uuid one_session ≡ ok tt
unfolding validate_host_ledger session_step validate_host_record check_purpose digest valid_id
    valid_name
one_session_accepted = refl

validate_host_ledger_unique_example :
    Distinct (map (λ r. r.session_id) one_session.sessions)
    × Distinct {K = Text × Text} (map (λ r. (r.project_id, r.terminal_id)) one_session.sessions)
    × (length one_session.sessions ≤ 8256)
validate_host_ledger_unique_example =
    validate_host_ledger_unique is_uuid one_session one_session_accepted
