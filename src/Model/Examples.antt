-- ===== src/Model/Examples.antt =====
-- A small workspace that is accepted, and instances of the theorems. Every text is taken for a UUID.
use idk.Common.{
  ◌≡◌, ◌≤◌, refl, [], ◌∷◌, none, some, Bool, true, false, ◌&&◌, not, Text, text_Eq, FilePath, utf8,
  codes, map, ok, is_ok, All, any, contains, Distinct, length, is_control,
}
use idk.Common.Assoc.{lookup}
use idk.Model.{
  Workspace, Project, TaskDefinition, TerminalDefinition, ShellConfig, Environment, stop, raw_log,
  max_projects, max_terminals,
}
use idk.Model.Fields.{valid_id, valid_name, absolute_path, validate_sources}
use idk.Model.Validate.{
  validate_project, validate_workspace, definitions, check_default, check_selection, check_mappings,
  check_repositories, check_shell, terminal_step, task_step, project_step, recent_step, is_disabled,
}
use idk.Model.Unique.{
  validate_project_unique, validate_workspace_unique, persistent_default, to_list,
}
use idk.Model.Environments.{
  validate_environment, from_variables, from_variables-is_ok, home, home_is,
}

abbrev any_text : Text → Bool
any_text id = true

abbrev root : FilePath
root = utf8 (codes "/p")

abbrev csh : ShellConfig
csh = record {
  native = none;
  executable = utf8 (codes "/bin/csh");
  login = false;
  init_cwd = root;
  sources = [];
  trusted_digest = none;
}

abbrev terminal : TerminalDefinition
terminal = record {
  id = codes "t";
  name = codes "shell";
  cwd = root;
  sources = [];
  persistent = true;
  trusted_digest = none;
}

abbrev build : TaskDefinition
build = record {
  execution = none;
  id = codes "b";
  name = codes "build";
  command = codes "make";
  cwd = root;
  sources = [];
  artifact = none;
  approved_digest = none;
  steps = [];
  failure_policy = stop;
  logging = raw_log;
  interactive = false;
  build_outputs = [];
  artifact_from_task = none;
  timeout_seconds = some 60;
}

abbrev one_project : Project
one_project = record {
  id = codes "p";
  name = codes "demo";
  root = root;
  repository = none;
  repository_binding = none;
  related_repositories = [];
  default_terminal = some (codes "t");
  shell = csh;
  terminals = terminal ∷ [];
  tasks = build ∷ [];
  editor = none;
}

abbrev workspace : Workspace
workspace = record {
  schema = 3;
  revision = 0;
  portable = [];
  projects = one_project ∷ [];
  selected_project = some (codes "p");
  recent_projects = codes "p" ∷ [];
}

project_accepted : validate_project any_text one_project ≡ ok tt
unfolding validate_project definitions check_default check_repositories check_shell terminal_step
    task_step valid_id valid_name absolute_path validate_sources
project_accepted = refl

workspace_accepted : validate_workspace any_text workspace ≡ ok tt
unfolding validate_workspace check_mappings check_selection project_step recent_step
    validate_project definitions check_default check_repositories check_shell terminal_step
    task_step valid_id valid_name absolute_path validate_sources
workspace_accepted = refl

validate_project_unique_example :
    Distinct (map (λ t. t.id) one_project.terminals)
    × Distinct (map (λ t. t.id) one_project.tasks)
    × All (λ t. contains t.id (map (λ x. x.id) one_project.terminals) ≡ false) one_project.tasks
    × (persistent_default any_text one_project ≡ true)
    × All (λ t. (t.interactive && not (is_disabled t.logging)) ≡ false) one_project.tasks
    × (length one_project.terminals ≤ max_terminals)
    × (length one_project.tasks ≤ 128)
validate_project_unique_example = validate_project_unique any_text one_project project_accepted

validate_workspace_unique_example :
    Distinct (map (λ p. p.id) workspace.projects)
    × All
        (λ id. contains id (map (λ p. p.id) workspace.projects) ≡ true)
        (to_list any_text workspace.selected_project)
    × All (λ id. contains id (map (λ p. p.id) workspace.projects) ≡ true) workspace.recent_projects
    × Distinct workspace.recent_projects
    × (length workspace.projects ≤ max_projects)
    × All (λ p. validate_project any_text p ≡ ok tt) workspace.projects
validate_workspace_unique_example = validate_workspace_unique any_text workspace workspace_accepted

abbrev environment : Environment
environment = (codes "HOME", codes "/root") ∷ (codes "TERM", codes "xterm") ∷ []

from_variables-is_ok_example :
    is_ok (from_variables environment)
    ≡ is_ok (validate_environment environment)
      && home_is (λ path. not (any is_control path)) (lookup home environment)
from_variables-is_ok_example = from_variables-is_ok environment
