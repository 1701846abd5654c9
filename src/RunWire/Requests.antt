-- ===== src/RunWire/Requests.antt =====
-- `RunRequest` and its check, crates/idk/src/run_wire.rs.
use idk.Common.{
  ℕ, Option, Bool, ◌&&◌, not, Text, FilePath, is_empty, any, every, ltb, leb, within, ◌==◌,
  byte_len, is_control, is_ascii_hexdigit, Result, Check, ok, err, ensure, when_some, ◌>>◌, ◌*◌,
}
use idk.Model.{
  Refusal, Environment, TaskDefinition, EditorConfig, invalid_digest, page_limit, invalid_query,
  invalid_problem_id, invalid_dimensions,
}
use idk.Model.Fields.{valid_id, absolute_path}
use idk.Model.Environments.{from_variables}

pub data RunRequest : Type 0 where
  tasks : (project_id : Text) → RunRequest
  list_runs : (project_id : Option Text) → RunRequest
  review_task : (project_id task_id : Text) → (environment : Environment) → RunRequest
  approve_task :
      (revision : ℕ) → (project_id task_id digest : Text) → (environment : Environment) → RunRequest
  save_task : (revision : ℕ) → (project_id : Text) → (task : TaskDefinition) → RunRequest
  start_run :
      (project_id task_id operation_id : Text)
      → (expected_digest : Option Text) → (environment : Environment) → (parallel : Bool)
      → (rows cols : ℕ) → RunRequest
  info : (run_id : Text) → RunRequest
  cancel : (run_id : Text) → (force : Bool) → RunRequest
  reconcile : (run_id : Text) → RunRequest
  log : (run_id : Text) → (generation offset limit : ℕ) → RunRequest
  search_log : (run_id : Text) → (generation : ℕ) → (query : Text) → RunRequest
  problems : (run_id : Text) → RunRequest
  result_raw : (run_id : Text) → (offset limit : ℕ) → RunRequest
  findings : (run_id : Text) → (offset limit : ℕ) → RunRequest
  result_pin : (run_id : Text) → (pinned : Bool) → RunRequest
  result_export : (run_id : Text) → (path : FilePath) → RunRequest
  compare_runs : (baseline_run_id run_id : Text) → RunRequest
  events : (run_id : Text) → RunRequest
  finding_editor_review : (run_id body_sha256 : Text) → (index : ℕ) → RunRequest
  editor_review : (run_id problem_id : Text) → (log_generation : ℕ) → RunRequest
  editor_open : (review_id : Text) → (environment : Environment) → (rows cols : ℕ) → RunRequest
  save_editor : (revision : ℕ) → (project_id : Text) → (config : EditorConfig) → RunRequest
  job : (job_id : Text) → RunRequest
  cancel_job : (job_id : Text) → RunRequest

abbrev pub max_terminal_cells : ℕ
max_terminal_cells = 12000

-- `validate_dimensions` of crates/idk/src/protocol.rs
unfoldable pub validate_dimensions : ℕ → ℕ → Check Refusal
validate_dimensions rows cols =
    ensure (ltb 0 rows && leb 2 cols && leb (rows * cols) max_terminal_cells) invalid_dimensions

-- 64 hexadecimal digits
abbrev pub is_digest : Text → Bool
is_digest digest = byte_len digest == 64 && every is_ascii_hexdigit digest

abbrev forget : Result Refusal Environment → Check Refusal
forget (ok a) = ok tt
forget (err e) = err e

-- The test of `ApproveTask` behind the `match`.
abbrev approval : RunRequest → Check Refusal
approval (approve_task revision project_id task_id digest environment) =
    ensure (is_digest digest) invalid_digest
approval _ = ok tt

module _ (is_uuid : Text → Bool) where
  check_review : Text → Text → Environment → Check Refusal
  check_review project_id task_id environment =
      valid_id is_uuid project_id >> valid_id is_uuid task_id >> forget (from_variables environment)

  -- The `match` of `validate`.
  unfoldable pub check_request : RunRequest → Check Refusal
  unfolding check_review
  check_request (tasks project_id) = valid_id is_uuid project_id
  check_request (save_task revision project_id task) = valid_id is_uuid project_id
  check_request (save_editor revision project_id config) = valid_id is_uuid project_id
  check_request (list_runs project_id) = when_some project_id (valid_id is_uuid)
  check_request (review_task project_id task_id environment) =
      check_review project_id task_id environment
  check_request (approve_task revision project_id task_id digest environment) =
      check_review project_id task_id environment
  check_request
        (start_run project_id task_id operation_id expected environment parallel rows cols) =
      valid_id is_uuid project_id
      >> valid_id is_uuid task_id
      >> valid_id is_uuid operation_id
      >> when_some expected (λ digest. ensure (is_digest digest) invalid_digest)
      >> forget (from_variables environment)
      >> validate_dimensions rows cols
  check_request (info run_id) = valid_id is_uuid run_id
  check_request (cancel run_id force) = valid_id is_uuid run_id
  check_request (reconcile run_id) = valid_id is_uuid run_id
  check_request (problems run_id) = valid_id is_uuid run_id
  check_request (result_pin run_id pinned) = valid_id is_uuid run_id
  check_request (events run_id) = valid_id is_uuid run_id
  check_request (result_raw run_id offset limit) =
      valid_id is_uuid run_id >> ensure (within 1 65536 limit) page_limit
  check_request (findings run_id offset limit) =
      valid_id is_uuid run_id >> ensure (within 1 100 limit) page_limit
  check_request (result_export run_id path) = valid_id is_uuid run_id >> absolute_path path
  check_request (compare_runs baseline_run_id run_id) =
      valid_id is_uuid baseline_run_id >> valid_id is_uuid run_id
  check_request (log run_id generation offset limit) =
      valid_id is_uuid run_id >> ensure (ltb 0 limit && leb limit 65536) page_limit
  check_request (search_log run_id generation query) =
      valid_id is_uuid run_id
      >> ensure (not (is_empty query) && leb (byte_len query) 1024 && not (any is_control query))
          invalid_query
  check_request (finding_editor_review run_id body_sha256 index) =
      valid_id is_uuid run_id >> ensure (is_digest body_sha256) invalid_digest
  check_request (editor_review run_id problem_id log_generation) =
      valid_id is_uuid run_id
      >> ensure (leb (byte_len problem_id) 128 && not (is_empty problem_id)) invalid_problem_id
  check_request (editor_open review_id environment rows cols) =
      valid_id is_uuid review_id
      >> forget (from_variables environment)
      >> validate_dimensions rows cols
  check_request (job job_id) = valid_id is_uuid job_id
  check_request (cancel_job job_id) = valid_id is_uuid job_id

  unfoldable pub validate_run_request : RunRequest → Check Refusal
  validate_run_request request = check_request request >> approval request
