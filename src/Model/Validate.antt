-- ===== src/Model/Validate.antt =====
-- `Project::validate`, `Workspace::validate` and `Workspace::project` of crates/idk/src/model.rs, and
-- `validate_binding` of crates/idk/src/portable.rs.
use idk.Common.{
  ℕ, List, [], ◌∷◌, ◌++◌, Option, none, some, Bool, true, false, ◌&&◌, ◌||◌, not, Text, text_eq,
  text_Eq, FilePath, utf8, raw, path_eq, codes, is_blank, is_empty, is_some, is_none, any, every,
  ltb, leb, ◌==◌, length, byte_len, contains_char, is_ascii_hexdigit, Result, Check, ok, err,
  ensure, context, when_some, ◌>>◌, ◌>>=◌, for_each, if◌then◌else◌, try_fold, insert_new, contains,
  strip_prefix,
}
use idk.Model.{
  Workspace, Project, TaskDefinition, TaskExecution, process, script_task, TerminalDefinition,
  EditorConfig, TaskStep, TaskLogging, raw_log, no_log, Repository, PortableBinding, max_projects,
  max_terminals, schema_version, Refusal, unsupported_schema, needs_schema_2, needs_schema_3,
  too_many_mappings, duplicate_mapping, too_many_projects, duplicate_project, selected_unregistered,
  invalid_recent, project_not_found, binding_disagrees, duplicate_repository, native_with_source,
  too_many_definitions, duplicate_definition, invalid_default_terminal, mixed_execution,
  invalid_script, invalid_command, too_many_steps, invalid_step, invalid_timeout,
  interactive_logging, invalid_editor_argv, no_file_argument, invalid_declaration_digest,
  binding_mismatch, history_limit, unknown_review, duplicate_portable,
}
use idk.Model.Fields.{
  valid_id, valid_name, absolute_path, validate_sources, validate_repository,
  validate_execution_arguments,
}

-- `HashSet::insert` on paths, which compares components.
abbrev path_in : FilePath → List FilePath → Bool
path_in p [] = false
path_in p (q ∷ qs) = path_eq p q || path_in p qs

abbrev insert_path : List FilePath → FilePath → Result Refusal (List FilePath)
insert_path seen p = if path_in p seen then err duplicate_repository else ok (p ∷ seen)

abbrev git_dirs : Option Repository → List FilePath
git_dirs none = []
git_dirs (some binding) = binding.git_dir ∷ []

abbrev same_root : Option FilePath → FilePath → Bool
same_root none root = false
same_root (some p) root = path_eq p root

-- The part about repositories, in the order of the source.
unfoldable pub check_repositories : Project → Check Refusal
check_repositories p =
    when_some p.repository absolute_path
    >> when_some p.repository_binding (λ binding.
      validate_repository binding >> ensure (same_root p.repository binding.root) binding_disagrees)
    >> (try_fold (git_dirs p.repository_binding) p.related_repositories
          (λ seen binding. validate_repository binding >> insert_path seen binding.git_dir)
        >>= (λ _. ok tt))

unfoldable pub check_shell : Project → Check Refusal
check_shell p =
    absolute_path p.shell.executable
    >> absolute_path p.shell.init_cwd
    >> validate_sources p.shell.sources
    >> when_some p.shell.native (λ native.
      validate_execution_arguments native.args native.env
      >> ensure
          (not (
            p.shell.login
            || not (is_empty p.shell.sources)
            || any (λ t. not (is_empty t.sources)) p.terminals))
          native_with_source)

check_execution : TaskExecution → Check Refusal
check_execution (process program args env) =
    absolute_path program >> validate_execution_arguments args env
check_execution (script_task interpreter args script env) =
    ensure (not (is_empty script || ltb 65536 (byte_len script) || contains_char 0 script))
      invalid_script
    >> absolute_path interpreter
    >> validate_execution_arguments args env

check_step : TaskStep → Check Refusal
check_step step =
    valid_name step.name
    >> ensure
        (not (
          is_blank step.command
          || ltb 65536 (byte_len step.command)
          || contains_char 0 step.command))
        invalid_step

abbrev bad_timeout : Option ℕ → Bool
bad_timeout none = false
bad_timeout (some seconds) = seconds == 0 || ltb 604800 seconds

abbrev pub is_disabled : TaskLogging → Bool
is_disabled no_log = true
is_disabled raw_log = false

contains_text : Text → Text → Bool
contains_text needle [] = is_some (strip_prefix needle [])
contains_text needle (c ∷ s) = is_some (strip_prefix needle (c ∷ s)) || contains_text needle s

unfoldable pub check_editor : EditorConfig → Check Refusal
unfolding contains_text
check_editor editor =
    absolute_path editor.executable
    >> ensure
        (not (
          ltb 64 (length editor.args)
          || any (λ arg. contains_char 0 arg || ltb 8192 (byte_len arg)) editor.args))
        invalid_editor_argv
    >> ensure (any (contains_text (codes "{file}")) editor.args) no_file_argument

abbrev pub is_default : Text → TerminalDefinition → Bool
is_default id t = text_eq t.id id && t.persistent

-- `Path::join` with a relative text.
abbrev join : FilePath → Text → FilePath
join (utf8 []) name = utf8 name
join (utf8 (c ∷ s)) name = utf8 ((c ∷ s) ++ b'/' ∷ name)
join (raw bs) name = raw (bs ++ b'/' ∷ name)

find_project : Text → List Project → Option Project
find_project id [] = none
find_project id (p ∷ ps) = let rest = find_project id ps in if text_eq p.id id then some p else rest

-- `Workspace::project`
project : Workspace → Text → Result Refusal Project
unfolding find_project
project w id = context (find_project id w.projects) project_not_found

module _ (is_uuid : Text → Bool) where
  -- The loop over the terminals.
  unfoldable pub terminal_step : List Text → TerminalDefinition → Result Refusal (List Text)
  terminal_step ids t =
      valid_id is_uuid t.id
      >> valid_name t.name
      >> absolute_path t.cwd
      >> validate_sources t.sources
      >> insert_new ids t.id duplicate_definition

  -- The loop over the tasks.
  unfoldable pub task_step : List Text → TaskDefinition → Result Refusal (List Text)
  unfolding check_execution check_step
  task_step ids task =
      valid_id is_uuid task.id
      >> valid_name task.name
      >> absolute_path task.cwd
      >> validate_sources task.sources
      >> when_some task.execution (λ execution.
        ensure (is_empty task.command && is_empty task.steps && is_empty task.sources)
          mixed_execution
        >> check_execution execution)
      >> ensure
          (not (
            (is_none task.execution && is_empty task.steps && is_blank task.command)
            || ltb 65536 (byte_len task.command)
            || contains_char 0 task.command))
          invalid_command
      >> ensure (not (ltb 64 (length task.steps) || ltb 32 (length task.build_outputs)))
          too_many_steps
      >> for_each task.steps check_step
      >> for_each task.build_outputs absolute_path
      >> when_some task.artifact_from_task (valid_id is_uuid)
      >> ensure (not (bad_timeout task.timeout_seconds)) invalid_timeout
      >> ensure (not (task.interactive && not (is_disabled task.logging))) interactive_logging
      >> when_some task.artifact absolute_path
      >> insert_new ids task.id duplicate_definition

  unfoldable pub check_default : Project → Check Refusal
  check_default p =
      when_some p.default_terminal
        (λ id. ensure (any (is_default id) p.terminals) invalid_default_terminal)

  -- The two loops, and the test of the default terminal between them: the identifiers.
  unfoldable pub definitions : Project → Result Refusal (List Text)
  definitions p =
      try_fold [] p.terminals terminal_step
      >>= (λ ids. check_default p >> try_fold ids p.tasks task_step)

  unfoldable pub validate_project : Project → Check Refusal
  validate_project p =
      valid_name p.name
      >> absolute_path p.root
      >> check_repositories p
      >> check_shell p
      >> ensure (not (ltb max_terminals (length p.terminals) || ltb 128 (length p.tasks)))
          too_many_definitions
      >> (definitions p >>= (λ ids. when_some p.editor check_editor))

  portable_step : List Text → Text × Text → Result Refusal (List Text)
  portable_step ids (key, id) =
      valid_name key >> valid_id is_uuid id >> insert_new ids id duplicate_portable

  unfoldable pub validate_binding : PortableBinding → Workspace → Check Refusal
  unfolding project portable_step
  validate_binding binding workspace =
      valid_id is_uuid binding.project_id
      >> absolute_path binding.path
      >> ensure (byte_len binding.digest == 64 && every is_ascii_hexdigit binding.digest)
          invalid_declaration_digest
      >> (project workspace binding.project_id >>= (λ p.
          ensure
            (path_eq binding.path (join p.root (codes "idk.toml"))
              && text_eq binding.resolved.id p.id)
            binding_mismatch))
      >> ensure (leb (length binding.task_ids) 1024 && leb (length binding.terminal_ids) 1024)
          history_limit
      >> (try_fold [] (binding.task_ids ++ binding.terminal_ids) portable_step >>= (λ _. ok tt))
      >> ensure
          (every (λ id. any (λ entry. text_eq entry.1 id) binding.terminal_ids)
            binding.terminal_reviews)
          unknown_review
      >> validate_project binding.resolved

  unfoldable pub mapping_step : Workspace → List Text → PortableBinding → Result Refusal (List Text)
  mapping_step w mapped binding =
      insert_new mapped binding.project_id duplicate_mapping
      >>= (λ mapped'. validate_binding binding w >> ok mapped')

  abbrev uses_execution : Project → Bool
  uses_execution p = is_some p.shell.native || any (λ t. is_some t.execution) p.tasks

  unfoldable pub check_mappings : Workspace → Check Refusal
  check_mappings w =
      if is_empty w.portable
      then ok tt
      else (ensure (not (ltb w.schema 3)) needs_schema_3
          >> ensure (not (ltb max_projects (length w.portable))) too_many_mappings
          >> (try_fold [] w.portable (mapping_step w) >>= (λ _. ok tt)))

  unfoldable pub project_step : List Text → Project → Result Refusal (List Text)
  project_step ids p =
      valid_id is_uuid p.id
      >> insert_new ids p.id duplicate_project
      >>= (λ ids'. validate_project p >> ok ids')

  unfoldable pub recent_step : List Text → List Text → Text → Result Refusal (List Text)
  recent_step ids recent id =
      if not (contains id ids) || contains id recent then err invalid_recent else ok (id ∷ recent)

  unfoldable pub check_selection : Workspace → List Text → Check Refusal
  check_selection w ids =
      when_some w.selected_project (λ id. ensure (contains id ids) selected_unregistered)

  unfoldable pub validate_workspace : Workspace → Check Refusal
  validate_workspace w =
      ensure (w.schema == 1 || w.schema == 2 || w.schema == schema_version) unsupported_schema
      >> ensure (not (w.schema == 1 && any uses_execution w.projects)) needs_schema_2
      >> check_mappings w
      >> ensure (not (ltb max_projects (length w.projects))) too_many_projects
      >> (try_fold [] w.projects project_step >>= (λ ids.
          check_selection w ids
          >> (try_fold [] w.recent_projects (recent_step ids) >>= (λ _. ok tt))))
