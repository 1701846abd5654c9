-- ===== src/Model/Unique.antt =====
-- What an accepted workspace guarantees: identifiers that are unique, and references that have a target.
use mathlib.Core.Path.{subst}
use idk.Common.{
  ◌≡◌, ◌≤◌, refl, ap, ◌∙◌, List, [], ◌∷◌, Option, none, some, Bool, true, false, ◌&&◌, ◌||◌, not,
  Text, text_Eq, map, ok, Result, All, Distinct, contains, Inserts, try_fold, try_fold_unique,
  insert_new-eq-ok, >>-eq-ok, >>=-eq-ok, ensure-eq-ok, length, any, arith, ◌>>◌, ◌>>=◌, ltb,
  when_some, ensure,
}
use idk.Model.{
  Workspace, Project, TaskDefinition, max_projects, max_terminals, Refusal, duplicate_definition,
  too_many_definitions, too_many_projects, interactive_logging, invalid_default_terminal,
  duplicate_project,
}
use idk.Model.Validate.{
  terminal_step, task_step, project_step, recent_step, check_selection, validate_project,
  validate_workspace, is_disabled, is_default, definitions, check_default, check_editor,
}

module _ (is_uuid : Text → Bool) where
  terminal_step-Inserts : Inserts (λ t. t.id) (terminal_step is_uuid)
  unfolding terminal_step
  terminal_step-Inserts s t s' h =
      insert_new-eq-ok s t.id duplicate_definition s' (>>-eq-ok _ _ h).1

  task_step-Inserts : Inserts (λ t. t.id) (task_step is_uuid)
  unfolding task_step
  task_step-Inserts s t s' h = insert_new-eq-ok s t.id duplicate_definition s' (>>-eq-ok _ _ h).1

  logged-off :
      (t : TaskDefinition)
      → ensure (not (t.interactive && not (is_disabled t.logging))) interactive_logging ≡ ok tt
      → (t.interactive && not (is_disabled t.logging)) ≡ false
  logged-off t h = ground arith

  sizes-le :
      (p : Project)
      → ensure
          (not (ltb max_terminals (length p.terminals) || ltb 128 (length p.tasks)))
          too_many_definitions
        ≡ ok tt
      → (length p.terminals ≤ max_terminals) × (length p.tasks ≤ 128)
  sizes-le p h = ground arith

  task_step-logging :
      (s : List Text) (t : TaskDefinition) (s' : List Text)
      → task_step is_uuid s t ≡ ok s'
      → (t.interactive && not (is_disabled t.logging)) ≡ false
  unfolding task_step
  task_step-logging s t s' h =
      let logged : ensure (not (t.interactive && not (is_disabled t.logging))) interactive_logging
          ≡ ok tt =
        (>>-eq-ok _ _ (>>-eq-ok _ _ (>>-eq-ok _ _ h).0).0).1 in
      logged-off t logged

  tasks-logging :
      (s s' : List Text) (ts : List TaskDefinition)
      → try_fold s ts (task_step is_uuid) ≡ ok s'
      → All (λ t. (t.interactive && not (is_disabled t.logging)) ≡ false) ts
  tasks-logging s s' [] h = tt
  tasks-logging s s' (t ∷ ts) h =
      let (s1, first, rest) =
        >>=-eq-ok (task_step is_uuid s t) (λ x. try_fold x ts (task_step is_uuid)) h in
      (task_step-logging s t s1 first, tasks-logging s1 s' ts rest)

  All-outside :
      (ts : List TaskDefinition) (ids known : List Text)
      → ((z : Text) → contains z ids ≡ false || contains z known)
      → All (λ t. contains t.id ids ≡ false) ts
      → All (λ t. contains t.id known ≡ false) ts
  All-outside [] ids known same h = tt
  All-outside (t ∷ ts) ids known same h =
      (ground (arith, same t.id, h.0), All-outside ts ids known same h.1)

  abbrev pub persistent_default : Project → Bool
  persistent_default p = elim p.default_terminal [
    | none ↦ true
    | some id ↦ any (is_default id) p.terminals
  ]

  when_some-eq-ok :
      (o : Option Text) (f : Text → Bool) (r : Refusal)
      → when_some o (λ x. ensure (f x) r) ≡ ok tt
      → elim o [ none ↦ true | some x ↦ f x ] ≡ true
  when_some-eq-ok none f r h = refl
  when_some-eq-ok (some x) f r h = ensure-eq-ok (f x) r h

  -- In a project that is accepted no two terminals, no two tasks, and no terminal and task have the
  -- same identifier; the default terminal is a persistent terminal of the project; no interactive task
  -- keeps a raw log; and there are at most 64 terminals and 128 tasks.
  pub validate_project_unique :
      (p : Project)
      → validate_project is_uuid p ≡ ok tt
      → Distinct (map (λ t. t.id) p.terminals)
        × Distinct (map (λ t. t.id) p.tasks)
        × All (λ t. contains t.id (map (λ x. x.id) p.terminals) ≡ false) p.tasks
        × (persistent_default p ≡ true)
        × All (λ t. (t.interactive && not (is_disabled t.logging)) ≡ false) p.tasks
        × (length p.terminals ≤ max_terminals)
        × (length p.tasks ≤ 128)
  unfolding validate_project definitions check_default
  validate_project_unique p h =
      let (checks, rest) = >>-eq-ok _ _ h in
      let sizes : ensure (not (ltb max_terminals (length p.terminals) || ltb 128 (length p.tasks)))
            too_many_definitions
          ≡ ok tt =
        (>>-eq-ok _ _ checks).1 in
      let (all_ids, loops, _) =
        >>=-eq-ok (definitions is_uuid p) (λ _. when_some p.editor check_editor) rest in
      let (ids, terms, others) =
        >>=-eq-ok (try_fold [] p.terminals (terminal_step is_uuid))
          (λ x. check_default is_uuid p >> try_fold x p.tasks (task_step is_uuid)) loops in
      let (default, tasks) = >>-eq-ok _ _ others in
      let (distinct, _, same) =
        try_fold_unique (λ t. t.id) (terminal_step is_uuid) terminal_step-Inserts [] ids p.terminals
          terms in
      let (distinct', outside, _) =
        try_fold_unique (λ t. t.id) (task_step is_uuid) task_step-Inserts ids all_ids p.tasks
          tasks in
      (
        distinct,
        distinct',
        All-outside p.tasks ids (map (λ x. x.id) p.terminals) same outside,
        when_some-eq-ok p.default_terminal (λ id. any (is_default id) p.terminals)
            invalid_default_terminal default,
        tasks-logging ids all_ids p.tasks tasks,
        (sizes-le p sizes).0,
        (sizes-le p sizes).1,
      )

  size-le :
      (w : Workspace)
      → ensure (not (ltb max_projects (length w.projects))) too_many_projects ≡ ok tt
      → length w.projects ≤ max_projects
  size-le w h = ground arith

  ok-inj : (a b : List Text) → ◌≡◌ {A = Result Refusal (List Text)} (ok a) (ok b) → a ≡ b
  ok-inj a b h = ground arith

  project_step-Inserts : Inserts (λ p. p.id) (project_step is_uuid)
  unfolding project_step
  project_step-Inserts s p s' h =
      let (ids, front, back) = >>=-eq-ok _ (λ ids. validate_project is_uuid p >> ok ids) h in
      let (fresh, grows) = insert_new-eq-ok s p.id duplicate_project ids (>>-eq-ok _ _ front).1 in
      let last : ◌≡◌ {A = Result Refusal (List Text)} (ok ids) (ok s') =
        (>>-eq-ok (validate_project is_uuid p) (ok ids) back).1 in
      (fresh, grows ∙ ok-inj ids s' last)

  project_step-valid :
      (s : List Text) (p : Project) (s' : List Text)
      → project_step is_uuid s p ≡ ok s'
      → validate_project is_uuid p ≡ ok tt
  unfolding project_step
  project_step-valid s p s' h =
      let (ids, front, back) = >>=-eq-ok _ (λ ids. validate_project is_uuid p >> ok ids) h in
      (>>-eq-ok (validate_project is_uuid p) (ok ids) back).0

  projects-valid :
      (s s' : List Text) (ps : List Project)
      → try_fold s ps (project_step is_uuid) ≡ ok s'
      → All (λ p. validate_project is_uuid p ≡ ok tt) ps
  projects-valid s s' [] h = tt
  projects-valid s s' (p ∷ ps) h =
      let (s1, first, rest) =
        >>=-eq-ok (project_step is_uuid s p) (λ x. try_fold x ps (project_step is_uuid)) h in
      (project_step-valid s p s1 first, projects-valid s1 s' ps rest)

  recent_step-Inserts : (ids : List Text) → Inserts (λ id. id) (recent_step is_uuid ids)
  unfolding recent_step
  recent_step-Inserts ids s id s' h = ground arith

  recents-registered :
      (ids s s' xs : List Text)
      → try_fold s xs (recent_step is_uuid ids) ≡ ok s'
      → All (λ id. contains id ids ≡ true) xs
  unfolding recent_step
  recents-registered ids s s' [] h = tt
  recents-registered ids s s' (x ∷ xs) h =
      let (s1, first, rest) =
        >>=-eq-ok (recent_step is_uuid ids s x) (λ t. try_fold t xs (recent_step is_uuid ids)) h in
      (ground (arith, first), recents-registered ids s1 s' xs rest)

  registered :
      (ids known xs : List Text)
      → ((z : Text) → contains z ids ≡ false || contains z known)
      → All (λ x. contains x ids ≡ true) xs
      → All (λ x. contains x known ≡ true) xs
  registered ids known [] same h = tt
  registered ids known (x ∷ xs) same h =
      (ground (arith, same x, h.0), registered ids known xs same h.1)

  abbrev pub to_list : Option Text → List Text
  to_list none = []
  to_list (some x) = x ∷ []

  selection-registered :
      (w : Workspace) (ids : List Text)
      → check_selection is_uuid w ids ≡ ok tt
      → All (λ x. contains x ids ≡ true) (to_list w.selected_project)
  unfolding check_selection
  selection-registered w ids h = ground arith

  map-id : (xs : List Text) → map (λ x. x) xs ≡ xs
  map-id [] = refl
  map-id (x ∷ xs) = ap (◌∷◌ x) (map-id xs)

  -- In a workspace that is accepted no two projects have the same identifier, the selected project and
  -- all recent projects are registered, no project is recent twice, there are at most 128 projects, and
  -- each of them is accepted by itself.
  pub validate_workspace_unique :
      (w : Workspace)
      → validate_workspace is_uuid w ≡ ok tt
      → Distinct (map (λ p. p.id) w.projects)
        × All (λ id. contains id (map (λ p. p.id) w.projects) ≡ true) (to_list w.selected_project)
        × All (λ id. contains id (map (λ p. p.id) w.projects) ≡ true) w.recent_projects
        × Distinct w.recent_projects
        × (length w.projects ≤ max_projects)
        × All (λ p. validate_project is_uuid p ≡ ok tt) w.projects
  unfolding validate_workspace
  validate_workspace_unique w h =
      let (checks, loops) = >>-eq-ok _ _ h in
      let size : ensure (not (ltb max_projects (length w.projects))) too_many_projects ≡ ok tt =
        (>>-eq-ok _ _ checks).1 in
      let (ids, projects, rest) =
        >>=-eq-ok (try_fold [] w.projects (project_step is_uuid))
          (λ x.
            check_selection is_uuid w x
            >> (try_fold [] w.recent_projects (recent_step is_uuid x) >>= (λ _. ok tt)))
          loops in
      let (selected, recent) = >>-eq-ok _ _ rest in
      let (last, loop, _) =
        >>=-eq-ok (try_fold [] w.recent_projects (recent_step is_uuid ids)) (λ _. ok tt) recent in
      let (distinct, _, same) =
        try_fold_unique (λ p. p.id) (project_step is_uuid) project_step-Inserts [] ids w.projects
          projects in
      let (once, _, _) =
        try_fold_unique (λ id. id) (recent_step is_uuid ids) (recent_step-Inserts ids) [] last
          w.recent_projects loop in
      let known : List Text = map (λ p. p.id) w.projects in
      (
        distinct,
        registered ids known (to_list w.selected_project) same
            (selection-registered w ids selected),
        registered ids known w.recent_projects same
            (recents-registered ids [] last w.recent_projects loop),
        subst Distinct (map-id w.recent_projects) once,
        size-le w size,
        projects-valid [] ids w.projects projects,
      )
