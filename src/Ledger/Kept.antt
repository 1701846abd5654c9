-- ===== src/Ledger/Kept.antt =====
-- What the check of a run ledger gives of each run in it.
use idk.Common.{
  ℕ, ◌+◌, ◌≤◌, ◌≡◌, List, [], ◌∷◌, Text, text_eq_iff, ◌==◌, within, ensure-eq-ok, Bool, true, false,
  ◌&&◌, ◌||◌, not, is_some, is_empty, All, length, leb, ok, ensure, >>-eq-ok, when_some,
  try_fold-All, arith,
}
use idk.Model.{pinned_unconfirmed, run_bounds, step_order, artifact_equality, run_timeout}
use idk.Ledger.{observation}
use idk.RunWire.{is_live, LogDescriptor}
use idk.RunWire.Info.{RunInfo, StepResult, ArtifactRelation}
use idk.Structured.{StructuredResult, EventProgress}
use idk.Ledger.Runs.{
  RunLedger, validate_run_ledger, check_runs, run_step, check_run, check_kept, check_definition,
  check_paths, check_log, check_steps, check_artifact,
}
use idk.Ledger.Unique.{parts, run_step-keeps}

-- The steps are numbered from `index` on.
abbrev pub Numbered : ℕ → List StepResult → Type 0
Numbered index [] = Unit
Numbered index (step ∷ steps) = (step.index ≡ index) × Numbered (index + 1) steps

check_steps-Numbered :
    (index : ℕ) (steps : List StepResult) → check_steps index steps ≡ ok tt → Numbered index steps
unfolding check_steps
check_steps-Numbered index [] h = tt
check_steps-Numbered index (step ∷ steps) h =
    let (a, rest) = >>-eq-ok _ (check_steps (index + 1) steps) h in
    let first : ensure (step.index == index) step_order ≡ ok tt =
      (>>-eq-ok _ _ (>>-eq-ok _ _ a).0).0 in
    (ground (arith, first), check_steps-Numbered (index + 1) steps rest)

pub record KeptRun (V : Type 0) (run : RunInfo V) : Type 0 where
  pub named : run.log.run_id ≡ run.run_id
  pub bounded : (run.log.bytes ≤ run.log.limit_bytes) × (run.log.limit_bytes ≤ 4194304)
  pub stepped : (1 ≤ length run.steps) × (length run.steps ≤ 64) × Numbered 0 run.steps
  pub settled : run.pinned ≡ true → (is_live run.state ≡ false) × (run.cleanup_confirmed ≡ true)
  pub verified :
      run.artifact.verified_bytes ≡ true
      → (is_some run.artifact.snapshot ≡ true)
        × (is_some run.artifact.from_run ≡ true)
        × (run.cleanup_confirmed ≡ true)

sized_steps :
    (steps : List StepResult) (more others : Bool)
    → (not (is_empty steps) && leb (length steps) 64 && more && others) ≡ true
    → (1 ≤ length steps) × (length steps ≤ 64)
sized_steps [] more others h = absurd cc
sized_steps (step ∷ steps) more others h = ground (arith, h)

log-named : (id : Text) (log : LogDescriptor) → check_log id log ≡ ok tt → log.run_id ≡ id
unfolding check_log
log-named id log h = ground (arith, h, text_eq_iff log.run_id id)

log-bounded :
    (id : Text) (log : LogDescriptor)
    → check_log id log ≡ ok tt
    → (log.bytes ≤ log.limit_bytes) × (log.limit_bytes ≤ 4194304)
unfolding check_log
log-bounded id log h = ground (arith, h)

artifact-verified :
    (schema : ℕ) (confirmed : Bool) (artifact : ArtifactRelation)
    → check_artifact schema confirmed artifact ≡ ok tt
    → artifact.verified_bytes ≡ true
    → (is_some artifact.snapshot ≡ true) × (is_some artifact.from_run ≡ true) × (confirmed ≡ true)
unfolding check_artifact
artifact-verified schema confirmed artifact h claimed =
    let equal =
      not artifact.verified_bytes
      || (schema == 2
          && is_some artifact.snapshot
          && is_some artifact.from_run
          && is_some artifact.from_task
          && confirmed) in
    let e =
      ensure-eq-ok equal artifact_equality (>>-eq-ok _ (ensure equal artifact_equality) h).1 in
    ground (arith, e, claimed)

module _ {V : Type 0} (is_uuid : Text → Bool) (result_json : StructuredResult V → ℕ)
    (event_json : EventProgress → ℕ) where
  kept-settled :
      (schema : ℕ) (run : RunInfo V)
      → check_kept is_uuid result_json event_json schema run ≡ ok tt
      → run.pinned ≡ true
      → (is_live run.state ≡ false) × (run.cleanup_confirmed ≡ true)
  unfolding check_kept
  kept-settled schema run h pinned =
      let e =
        ensure-eq-ok _ pinned_unconfirmed
          (>>-eq-ok _
            (ensure (not run.pinned || (not (is_live run.state) && run.cleanup_confirmed))
              pinned_unconfirmed)
            h).1 in
      ground (arith, e, pinned)

  definition-steps :
      (run : RunInfo V)
      → check_definition is_uuid result_json event_json run ≡ ok tt
      → (1 ≤ length run.steps) × (length run.steps ≤ 64) × Numbered 0 run.steps
  unfolding check_definition
  definition-steps run h =
      let bounds =
        not (is_empty run.steps)
        && leb (length run.steps) 64
        && leb (length run.source_roots) 128
        && leb (length run.build_outputs) 32 in
      let (a, numbered) = >>-eq-ok _ (check_steps 0 run.steps) h in
      let sized = ensure-eq-ok bounds run_bounds (>>-eq-ok _ (ensure bounds run_bounds) a).1 in
      let (some_steps, few) =
        sized_steps run.steps (leb (length run.source_roots) 128)
          (leb (length run.build_outputs) 32) sized in
      (some_steps, few, check_steps-Numbered 0 run.steps numbered)

  check_run-KeptRun :
      (schema : ℕ) (run : RunInfo V)
      → check_run is_uuid result_json event_json schema run ≡ ok tt
      → KeptRun V run
  unfolding check_run
  check_run-KeptRun schema run h =
      let (a, _) = >>-eq-ok _ (when_some run.source_end observation) h in
      let (b, _) = >>-eq-ok _ (observation run.source_start) a in
      let (c, logged) = >>-eq-ok _ (check_log run.run_id run.log) b in
      let (d, _) =
        >>-eq-ok _
          (when_some run.timeout_seconds (λ seconds. ensure (within 1 604800 seconds) run_timeout))
          c in
      let (e, related) = >>-eq-ok _ (check_artifact schema run.cleanup_confirmed run.artifact) d in
      let (f, _) = >>-eq-ok _ (check_paths is_uuid result_json event_json run) e in
      let (kept, defined) =
        >>-eq-ok (check_kept is_uuid result_json event_json schema run)
          (check_definition is_uuid result_json event_json run) f in
      let (some_steps, few, numbered) = definition-steps run defined in
      record {
        named = log-named run.run_id run.log logged;
        bounded = log-bounded run.run_id run.log logged;
        stepped = (some_steps, few, numbered);
        settled = kept-settled schema run kept;
        verified = artifact-verified schema run.cleanup_confirmed run.artifact related;
      }

  -- In a run ledger that is accepted every run has its own log, of at most its limit and that of at most
  -- 4 MiB, between 1 and 64 steps, numbered from zero on, and is pinned only with its cleanup confirmed,
  -- not while it is live; where it claims equal bytes of its artifact, there are a snapshot of them and a
  -- preceding run, and its cleanup is confirmed.
  pub validate_run_ledger-KeptRun :
      (l : RunLedger V)
      → validate_run_ledger is_uuid result_json event_json l ≡ ok tt
      → All (KeptRun V) l.runs
  unfolding check_runs
  validate_run_ledger-KeptRun l h =
      let (_, _, (sets, runs)) = parts is_uuid result_json event_json l h in
      try_fold-All (KeptRun V) (run_step is_uuid result_json event_json l.schema)
        (λ s r s' e.
          let (_, _, _, _, sound) =
            run_step-keeps is_uuid result_json event_json l.schema s r s' e in
          check_run-KeptRun l.schema r sound)
        (record { ids = []; operations = []; sessions = [] }) sets l.runs runs
