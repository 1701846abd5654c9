-- ===== src/Model.antt =====
-- The workspace definitions of crates/idk/src/model.rs, with `Repository` of git.rs and
-- `PortableBinding` of portable.rs. A `BTreeMap` is the list of its entries in the order of the keys,
-- a `BTreeSet` the list of its elements.
pub mod Fields
pub mod Validate
pub mod Unique
pub mod Environments
mod Examples
use idk.Common.{ℕ, List, Option, Text, Bool, FilePath}

abbrev pub Environment : Type 0
Environment = List (Text × Text)

abbrev pub schema_version : ℕ
schema_version = 3

abbrev pub max_projects : ℕ
max_projects = 128

abbrev pub max_terminals : ℕ
max_terminals = 64

pub record Repository : Type 0 where
  pub root : FilePath
  pub git_dir : FilePath
  pub common_dir : FilePath

pub record NativeShell : Type 0 where
  pub args : List Text
  pub env : Environment

pub data TaskExecution : Type 0 where
  process : (program : FilePath) → (args : List Text) → (env : Environment) → TaskExecution
  script_task :
      (interpreter : FilePath)
      → (args : List Text) → (script : Text) → (env : Environment) → TaskExecution

pub record SourceSpec : Type 0 where
  pub path : FilePath
  pub args : List Text

pub record ShellConfig : Type 0 where
  pub native : Option NativeShell
  pub executable : FilePath
  pub login : Bool
  pub init_cwd : FilePath
  pub sources : List SourceSpec
  pub trusted_digest : Option Text

pub record TerminalDefinition : Type 0 where
  pub id : Text
  pub name : Text
  pub cwd : FilePath
  pub sources : List SourceSpec
  pub persistent : Bool
  pub trusted_digest : Option Text

pub record TaskStep : Type 0 where
  pub name : Text
  pub command : Text

pub data FailurePolicy : Type 0 where
  stop continue : FailurePolicy

pub data TaskLogging : Type 0 where
  raw_log no_log : TaskLogging

pub record TaskDefinition : Type 0 where
  pub execution : Option TaskExecution
  pub id : Text
  pub name : Text
  pub command : Text
  pub cwd : FilePath
  pub sources : List SourceSpec
  pub artifact : Option FilePath
  pub approved_digest : Option Text
  pub steps : List TaskStep
  pub failure_policy : FailurePolicy
  pub logging : TaskLogging
  pub interactive : Bool
  pub build_outputs : List FilePath
  pub artifact_from_task : Option Text
  pub timeout_seconds : Option ℕ

pub record EditorConfig : Type 0 where
  pub executable : FilePath
  pub args : List Text
  pub external_gui : Bool

pub record Project : Type 0 where
  pub id : Text
  pub name : Text
  pub root : FilePath
  pub repository : Option FilePath
  pub repository_binding : Option Repository
  pub related_repositories : List Repository
  pub default_terminal : Option Text
  pub shell : ShellConfig
  pub terminals : List TerminalDefinition
  pub tasks : List TaskDefinition
  pub editor : Option EditorConfig

pub record PortableBinding : Type 0 where
  pub project_id : Text
  pub path : FilePath
  pub digest : Text
  pub task_ids : List (Text × Text)
  pub terminal_ids : List (Text × Text)
  pub shell_review_required : Bool
  pub terminal_reviews : List Text
  pub resolved : Project

pub record Workspace : Type 0 where
  pub schema : ℕ
  pub revision : ℕ
  pub portable : List PortableBinding
  pub projects : List Project
  pub selected_project : Option Text
  pub recent_projects : List Text

-- The reasons for which a definition or a request is refused.
pub data Refusal : Type 0 where
  invalid_id invalid_name invalid_path too_many_sources invalid_source_arguments : Refusal
  invalid_execution unsupported_schema needs_schema_2 needs_schema_3 : Refusal
  too_many_mappings duplicate_mapping too_many_projects duplicate_project : Refusal
  selected_unregistered invalid_recent project_not_found binding_disagrees : Refusal
  duplicate_repository native_with_source too_many_definitions duplicate_definition : Refusal
  invalid_default_terminal mixed_execution invalid_script invalid_command : Refusal
  too_many_steps invalid_step invalid_timeout interactive_logging : Refusal
  invalid_editor_argv no_file_argument invalid_declaration_digest : Refusal
  binding_mismatch history_limit unknown_review duplicate_portable : Refusal
  environment_entries environment_entry environment_overflow environment_size no_home : Refusal
  relative_home invalid_git_name outside_repository invalid_object_id : Refusal
  invalid_git_field entry_index history_count entry_selection duplicate_entry : Refusal
  invalid_message invalid_digest page_limit invalid_query invalid_problem_id : Refusal
  invalid_dimensions too_many_targets duplicate_target input_too_large : Refusal
  persistent_transient protocol_mismatch deadline no_host request_id_mismatch : Refusal
  host_changed message_size response_size end_of_stream : Refusal
  host_ledger duplicate_session ordinary_with_run persistent_run run_mismatch : Refusal
  editor_terminal unsupported_purpose host_exit exit_before_start exit_detail : Refusal
  run_ledger pinned_budget invalid_journal duplicate_retired retired_body duplicate_run : Refusal
  duplicate_run_session inline_body result_body_refused summary_size event_size event_body : Refusal
  pinned_unconfirmed run_bounds step_order step_exit_code artifact_observation : Refusal
  artifact_error artifact_equality run_timeout run_log git_ledger duplicate_git : Refusal
  acknowledged_known saved_digest saved_object : Refusal
