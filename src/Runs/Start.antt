-- ===== src/Runs/Start.antt =====
-- The start of a run in crates/idk/src/run.rs: `publish_source`, `begin_reserve`, `begin_abandon` and
-- `begin_commit`. `key` is the identity of a repository. `Setting` has what the rest of the program
-- answers: the lock on the root, the plan of the task as it is now, and the files of the run.
use idk.Common.{
  ℕ, List, [], ◌∷◌, ◌++◌, Option, none, some, Text, text_eq, text_Eq, Eq, FilePath, Bool, true,
  false, ◌&&◌, ◌||◌, not, any, if◌then◌else◌, Result, Check, ok, err, ensure, ◌>>◌, ◌>>=◌,
  path_starts_with,
}
use idk.Model.{Repository}
use idk.Gate.{SourceGate, GateLease, set_ready, reserve_run, drop_lease}
use idk.RunWire.{is_live}
use idk.RunWire.Info.{RunInfo, RunStartReply}
use idk.Runs.{
  RunRegistry, PendingStart, TaskLaunchPlan, ShellPlan, Refusal, task_prepared, cleanup_unknown,
  output_conflict, source_unknown, gated,
}
use idk.Runs.Finish.{is_unknown}

pub record BeginTicket (K : Type 0) : Type 0 where
  pub run_id : Text
  pub plan : TaskLaunchPlan
  pub operation_id : Text
  pub outputs : List FilePath
  pub lease : Option (GateLease K)

pub data BeginReservation (V K : Type 0) : Type 0 where
  already : (reply : RunStartReply V) → BeginReservation V K
  fresh : (ticket : BeginTicket K) → BeginReservation V K

pub record Setting (K : Type 0) : Type 0 where
  pub key : Repository → K
  pub path_key : FilePath → K
  pub lock_root : Check Refusal
  pub launch_plan : TaskLaunchPlan → Result Refusal TaskLaunchPlan
  pub output_identity : FilePath → Result Refusal FilePath
  pub verify : Repository → Check Refusal
  pub new_id : Text
  pub prepare_directory : Text → Result Refusal Text
  pub create_steps : TaskLaunchPlan → Text → Result Refusal ShellPlan
  pub create_log : Text → Result Refusal (Option (ℕ × ℕ))
  pub started : ℕ

module _ {V : Type 0} where
  abbrev pub unresolved : RunInfo V → Bool
  unresolved run = is_unknown run.state && not run.cleanup_confirmed

  unfoldable pub find_operation : Text → List (RunInfo V) → Option (RunInfo V)
  find_operation id [] = none
  find_operation id (run ∷ runs) =
      if text_eq run.operation_id id then some run else find_operation id runs

  abbrev same_task : TaskLaunchPlan → RunInfo V → Bool
  same_task plan run = text_eq run.project_id plan.project_id && text_eq run.task_id plan.task.id

  unfoldable pub same_intent : RunInfo V → TaskLaunchPlan → Bool
  same_intent run plan = same_task plan run && text_eq run.launch_digest plan.launch_digest

  -- `iter().rev().find(..)`
  unfoldable pub find_last : (RunInfo V → Bool) → List (RunInfo V) → Option (RunInfo V)
  find_last p [] = none
  find_last p (run ∷ runs) = elim (find_last p runs) [
    | some later ↦ some later
    | none ↦ if p run then some run else none
  ]

abbrev overlap : FilePath → FilePath → Bool
overlap p q = path_starts_with p q || path_starts_with q p

abbrev pub outputs_overlap : List FilePath → List FilePath → Bool
outputs_overlap outputs others = any (λ p. any (overlap p) others) outputs

abbrev pub outputs_of :
    (FilePath → Result Refusal FilePath) → List FilePath → Result Refusal (List FilePath)
outputs_of identity [] = ok []
outputs_of identity (p ∷ ps) =
    identity p >>= (λ first. outputs_of identity ps >>= (λ others. ok (first ∷ others)))

module _ {V K : Type 0} where
  -- The refusals that need neither files nor leases.
  unfoldable pub check_start : RunRegistry V K → TaskLaunchPlan → Bool → Check Refusal
  check_start r plan parallel =
      ensure
        (not (
          any
            (λ p.
              text_eq p.project_id plan.project_id
              && text_eq p.task_id plan.task.id
              && not parallel)
            r.pending_starts))
        task_prepared
      >> ensure (not (any (λ run. same_task plan run && unresolved run) r.runs)) cleanup_unknown

  unfoldable pub check_outputs : RunRegistry V K → List FilePath → Check Refusal
  check_outputs r outputs =
      ensure
        (not (
          any
            (λ run.
              (is_live run.state || unresolved run) && outputs_overlap outputs run.build_outputs)
            r.runs))
        output_conflict
      >> ensure (not (any (λ p. outputs_overlap outputs p.build_outputs) r.pending_starts))
          output_conflict

  -- A run that the start refers to instead of a new one.
  unfoldable pub existing_run : RunRegistry V K → TaskLaunchPlan → Bool → Option (RunInfo V)
  existing_run r plan parallel =
      if parallel then none else find_last (λ run. same_task plan run && is_live run.state) r.runs

  abbrev pub reply_to : Result Refusal (RunInfo V) → Result Refusal (BeginReservation V K)
  reply_to (ok run) = ok (already (record { run = run; existing = true }))
  reply_to (err reason) = err reason

abbrev path_identity : {K : Type 0} → ⦃e : Eq K⦄ → (FilePath → K) → Option FilePath → K → Bool
path_identity key none k = false
path_identity ⦃e⦄ key (some p) k = e.eqb (key p) k

module _ {V K : Type 0} ⦃e : Eq K⦄ (s : Setting K) where
  -- `publish_source`: a source is not made ready while an earlier run of it is unresolved.
  unfoldable pub publish_source : RunRegistry V K → K → RunRegistry V K × Check Refusal
  publish_source r k =
      if any (λ run. unresolved run && path_identity s.path_key run.source_start.identity k) r.runs
      then (r, err source_unknown)
      else let opened = set_ready r.gate k in
        elim opened.1 [
          | err reason ↦ (record r { gate = opened.0 }, err (gated reason))
          | ok _ ↦ (record r { gate = opened.0; published = k ∷ r.published }, ok tt)
        ]

  abbrev granted_lease :
      RunRegistry V K
      → SourceGate K × Result idk.Gate.Refusal (GateLease K)
      → RunRegistry V K × Result Refusal (Option (GateLease K))
  granted_lease r (gate, ok lease) = (record r { gate = gate }, ok (some lease))
  granted_lease r (gate, err reason) = (record r { gate = gate }, err (gated reason))

  unfoldable pub take_lease :
      RunRegistry V K
      → TaskLaunchPlan
      → Text
      → Option Repository
      → RunRegistry V K × Result Refusal (Option (GateLease K))
  unfolding publish_source
  take_lease r plan operation none = (r, ok none)
  take_lease r plan operation (some repository) = elim (s.verify repository) [
    | err reason ↦ (r, err reason)
    | ok _ ↦
        let published = publish_source r (s.key repository) in
        elim published.1 [
          | err reason ↦ (published.0, err reason)
          | ok _ ↦
              granted_lease published.0
                (reserve_run published.0.gate (s.key repository) operation plan.task.name)
        ]
  ]

  -- The reservation, once its lease is granted: the start is pending.
  unfoldable pub reserve_pending :
      RunRegistry V K × Result Refusal (Option (GateLease K))
      → TaskLaunchPlan
      → Text
      → List FilePath
      → RunRegistry V K × Result Refusal (BeginReservation V K)
  reserve_pending (r, err reason) plan operation outputs = (r, err reason)
  reserve_pending (r, ok lease) plan operation outputs =
      let waits : PendingStart = record {
        run_id = s.new_id;
        project_id = plan.project_id;
        task_id = plan.task.id;
        operation_id = operation;
        build_outputs = outputs;
      } in
      (
        record r { pending_starts = r.pending_starts ++ (waits ∷ []) },
        ok (
            fresh (record {
              run_id = s.new_id;
              plan = plan;
              operation_id = operation;
              outputs = outputs;
              lease = lease;
            })),
      )
