-- ===== src/Runs/Fixtures.antt =====
-- A registry with three runs, one active, one over and one whose end is unknown. Every text passes for a
-- UUID, a result for 10 bytes of JSON, and every file is missing.
use idk.Common.{ℕ, [], ◌∷◌, none, some, Option, Text, text_Eq, Bool, true, false, codes, utf8, ok}
use idk.Model.{TaskDefinition, stop, raw_log}
use idk.Gate.{GateLease}
use idk.RunWire.{recording, running, succeeded, unknown}
use idk.RunWire.Info.{RunInfo, SourceObservation}
use idk.Structured.{StructuredResult, EventProgress, EventState}
use idk.RunLog.{with_file}
use idk.Runs.{Active, RunRegistry, World, TaskLaunchPlan, ShellPlan, absent}
use idk.Runs.Observed.{Ended}

abbrev pub is_uuid : Text → Bool
is_uuid s = true

abbrev pub result_json : StructuredResult ℕ → ℕ
result_json r = 10

abbrev pub event_json : EventProgress → ℕ
event_json events = 10

abbrev pub no_events : EventProgress
no_events = record {
  state = EventState.missing;
  bytes_observed = 0;
  events_observed = 0;
  invalid_events = 0;
  sequence_gaps = 0;
  truncated_tail = false;
  latest = none;
  error = none;
  body = none;
}

abbrev pub capture : Text → StructuredResult ℕ
capture id = StructuredResult.missing

abbrev pub collect : Text → Option Text → EventProgress
collect id producer = no_events

abbrev pub disk : World ℕ
disk = record {
  log_file = λ id. absent;
  retired_log = λ id. absent;
  runtime_directory = λ id. absent;
  remove_log = λ id. ok tt;
  remove_directory = λ id. ok tt;
  remove_body = λ id. ok tt;
  step_status = λ directory index. none;
  write_state = λ l. ok tt;
  now_ms = 10;
}

-- Forty days later.
abbrev pub later_disk : World ℕ
later_disk = record disk { now_ms = 3456000000 }

abbrev pub task : TaskDefinition
task = record {
  execution = none;
  id = codes "t";
  name = codes "build";
  command = codes "make";
  cwd = utf8 (codes "/w");
  sources = [];
  artifact = none;
  approved_digest = none;
  steps = [];
  failure_policy = stop;
  logging = raw_log;
  interactive = false;
  build_outputs = [];
  artifact_from_task = none;
  timeout_seconds = none;
}

abbrev pub shell_plan : ShellPlan
shell_plan = record {
  native = none;
  shell = utf8 (codes "/bin/csh");
  login = false;
  init_cwd = utf8 (codes "/w");
  start_cwd = utf8 (codes "/w");
  sources = [];
  env = [];
  command = none;
}

abbrev pub plan : TaskLaunchPlan
plan = record {
  project_id = codes "p";
  task = task;
  shell = shell_plan;
  definition_revision = 1;
  launch_digest = codes "d";
  initialization_digest = codes "i";
  repository = none;
  source_roots = [];
}

abbrev pub hash : Text
hash = codes "0123456789abcdef0123456789abcdef0123456789abcdef0123456789abcdef"

abbrev pub observation : SourceObservation
observation = record {
  identity = none;
  generation = none;
  git_head = none;
  dirty = none;
  status_digest = some hash;
  error = none;
}

abbrev pub live_run : RunInfo ℕ
live_run = record {
  run_id = codes "r";
  operation_id = codes "o";
  project_id = codes "p";
  task_id = codes "t";
  name = codes "build";
  session_id = none;
  state = running;
  definition_revision = 1;
  launch_digest = hash;
  initialization_digest = hash;
  cwd = utf8 (codes "/w");
  source_roots = [];
  build_outputs = [];
  started_at_ms = 1;
  finished_at_ms = none;
  timeout_seconds = none;
  timeout_requested = false;
  cancel_requested = false;
  cleanup_confirmed = false;
  exit_code = none;
  signal_name = none;
  steps = record { index = 0; name = codes "build"; exit_code = none } ∷ [];
  structured_result = none;
  pinned = false;
  events = none;
  source_start = observation;
  source_end = none;
  source_changed = none;
  artifact = record {
    path = none;
    from_task = none;
    from_run = none;
    verified_bytes = false;
    snapshot = none;
    snapshot_error = none;
    observed_at_ms = none;
  };
  log = record {
    run_id = codes "r";
    generation = 1;
    state = recording;
    bytes = 0;
    observed_bytes = 0;
    limit_bytes = 4194304;
    merged_pty = true;
    file_identity = none;
  };
  error = none;
}

-- It is over, its cleanup is confirmed, and it is not pinned.
abbrev pub settled_run : RunInfo ℕ
settled_run = record live_run {
  run_id = codes "s";
  operation_id = codes "q";
  state = succeeded;
  finished_at_ms = some 2;
  cleanup_confirmed = true;
  exit_code = some 0;
  log = record {
    run_id = codes "s";
    generation = 1;
    state = recording;
    bytes = 0;
    observed_bytes = 0;
    limit_bytes = 4194304;
    merged_pty = true;
    file_identity = none;
  };
}

-- Nothing is known of its end.
abbrev pub unknown_run : RunInfo ℕ
unknown_run = record live_run {
  run_id = codes "u";
  operation_id = codes "v";
  state = unknown;
  finished_at_ms = some 3;
  log = record {
    run_id = codes "u";
    generation = 1;
    state = recording;
    bytes = 0;
    observed_bytes = 0;
    limit_bytes = 4194304;
    merged_pty = true;
    file_identity = none;
  };
}

abbrev pub lease : GateLease Text
lease = record { identity = codes "/w/.git"; operation = codes "o"; mutation = false }

abbrev pub active_run : Active ℕ Text
active_run = record {
  plan = plan;
  shell = shell_plan;
  sink = with_file live_run.log none;
  lease = some lease;
  run_use = true;
  directory = codes "/run/r";
  started = 1;
  finishing = false;
  result_snapshot = none;
  events_snapshot = none;
  artifact_measurement = none;
}

abbrev pub registry : RunRegistry ℕ Text
registry = record {
  gate = record { poisoned = false; states = [] };
  runs = live_run ∷ settled_run ∷ unknown_run ∷ [];
  retired = [];
  active = (codes "r", active_run) ∷ [];
  published = [];
  pending_starts = [];
}

abbrev pub ended : Ended
ended = record {
  exit = some (record { code = 0; signal_name = none });
  cleanup_confirmed = true;
  error = none;
  source_end = observation;
}
