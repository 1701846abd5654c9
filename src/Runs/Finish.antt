-- ===== src/Runs/Finish.antt =====
-- The operations of crates/idk/src/run.rs on a run that has started: `mark_running`, `cancel`,
-- `acknowledge_unknown_cleanup`, `timed_out_at`, `finish_probe` and `finish_observed`. `capture` and
-- `collect` are `ResultStore::capture` and `ResultStore::events`.
use idk.Common.{
  ℕ, ◌-◌, ◌*◌, List, [], ◌∷◌, Option, none, some, Text, text_eq, text_Eq, FilePath, path_eq, Bool,
  true, false, ◌&&◌, ◌||◌, not, is_none, is_some, leb, ltb, ◌==◌, if◌then◌else◌, codes, ℤ, pos,
  Result, Check, ok, err,
}
use idk.Common.Assoc.{lookup, contains_key}
use idk.Model.Fields.{valid_id}
use idk.GitOperation.{TerminalExit}
use idk.RunWire.{
  RunState, preparing, running, cancelling, succeeded, failed, cancelled, unknown, is_live,
}
use idk.RunWire.Info.{RunInfo, SourceObservation, ArtifactRelation}
use idk.Structured.{StructuredResult, EventProgress, ArtifactSnapshot}
use idk.Runs.{
  RunRegistry, Active, ArtifactMeasurement, World, Refusal, run_missing, run_not_live, run_ended,
  still_tracked, not_unknown, ledger, find_run, update_run, info, persist,
}

abbrev pub is_preparing : RunState → Bool
is_preparing preparing = true
is_preparing _ = false

abbrev pub is_running : RunState → Bool
is_running running = true
is_running _ = false

abbrev pub is_unknown : RunState → Bool
is_unknown unknown = true
is_unknown _ = false

abbrev pub is_succeeded : RunState → Bool
is_succeeded succeeded = true
is_succeeded _ = false

abbrev exit_succeeded : TerminalExit → Bool
exit_succeeded exit = exit.code == 0 && is_none exit.signal_name

abbrev pub final_exit : Option TerminalExit → Option Text → RunState
final_exit (some exit) error = if exit_succeeded exit then succeeded else failed
final_exit none (some error) = failed
final_exit none none = unknown

-- The state that a finished run gets.
unfoldable pub final_state :
    (confirmed cancelled : Bool) → Option TerminalExit → Option Text → RunState
final_state confirmed was_cancelled exit error =
    if not confirmed then unknown else if was_cancelled then cancelled else final_exit exit error

-- `i32::try_from`
abbrev to_i32 : ℕ → Option ℤ
to_i32 n = if ltb n 2147483648 then some (pos n) else none

-- The exit code of the only step of a native task.
abbrev pub step_code : Option TerminalExit → Option ℤ
step_code none = none
step_code (some exit) = if is_none exit.signal_name then to_i32 exit.code else none

abbrev any_seconds : Option ℕ → (ℕ → Bool) → Bool
any_seconds none f = false
any_seconds (some n) f = f n

abbrev pub exit_code_of : Option TerminalExit → Option ℕ
exit_code_of none = none
exit_code_of (some exit) = some exit.code

abbrev pub signal_of : Option TerminalExit → Option Text
signal_of none = none
signal_of (some exit) = exit.signal_name

abbrev pub same_text : Option Text → Option Text → Bool
same_text none none = true
same_text (some a) (some b) = text_eq a b
same_text _ _ = false

abbrev same_number : Option ℕ → Option ℕ → Bool
same_number none none = true
same_number (some a) (some b) = a == b
same_number _ _ = false

abbrev pub same_path : Option FilePath → Option FilePath → Bool
same_path none none = true
same_path (some a) (some b) = path_eq a b
same_path _ _ = false

-- Whether the sources have changed, where both observations can tell.
unfoldable pub source_change : SourceObservation → SourceObservation → Option Bool
source_change before after =
    if is_none before.error && is_none after.error && is_some before.identity
    then some (
        not (same_text before.git_head after.git_head)
        || not (same_text before.status_digest after.status_digest)
        || not (same_number before.generation after.generation))
    else none

abbrev pub equal_snapshots : Option ArtifactSnapshot → Option ArtifactSnapshot → Bool
equal_snapshots (some now) (some previous) =
    text_eq now.sha256 previous.sha256 && now.size == previous.size
equal_snapshots _ _ = false

abbrev pub measured : Option ArtifactMeasurement → Option ArtifactSnapshot
measured none = none
measured (some m) = m.snapshot

-- The artifact of a run whose cleanup is confirmed.
unfoldable pub measure_artifact :
    ArtifactRelation → Bool → Option ArtifactMeasurement → Bool → ArtifactRelation
measure_artifact artifact confirmed measurement equal =
    if is_some artifact.path && confirmed
    then elim measurement [
      | some m ↦ record artifact {
        snapshot = m.snapshot;
        snapshot_error = m.error;
        observed_at_ms = some m.observed_at_ms;
        verified_bytes = equal;
      }
      | none ↦ record artifact {
        snapshot_error =
            some (codes "artifact measurement did not complete within the observation budget");
        verified_bytes = equal;
      }
    ]
    else artifact

module _ {V : Type 0} where
  abbrev pub cancelled_run : Bool → RunInfo V → RunInfo V
  cancelled_run timeout run = record run {
    state = cancelling;
    cancel_requested = true;
    timeout_requested = run.timeout_requested || timeout;
  }

  abbrev pub acknowledged_run : RunInfo V → RunInfo V
  acknowledged_run run = record run {
    cleanup_confirmed = true;
    error = some (codes "user confirmed old process cleanup; execution outcome remains unknown");
  }

module _ {V K : Type 0} where
  abbrev pub is_finishing : Option (Active V K) → Bool
  is_finishing none = false
  is_finishing (some a) = a.finishing

  -- `previous` is put back where the registry cannot be saved.
  abbrev pub or_restore :
      RunRegistry V K
      → RunRegistry V K
      → Check Refusal
      → Result Refusal (RunInfo V)
      → RunRegistry V K × Result Refusal (RunInfo V)
  or_restore before after (ok _) told = (after, told)
  or_restore before after (err reason) told = (before, err reason)

  module _ (is_uuid : Text → Bool) (result_json : StructuredResult V → ℕ)
      (event_json : EventProgress → ℕ) (w : World V) where
    abbrev pub saved : RunRegistry V K → Check Refusal
    saved r = persist is_uuid result_json event_json w r

    -- A session is noted also where the registry cannot be saved.
    unfoldable pub mark_running : RunRegistry V K → Text → Text → RunRegistry V K × Check Refusal
    unfolding find_run update_run
    mark_running r id session = elim (valid_id is_uuid session) [
      | err reason ↦ (r, err (ledger reason))
      | ok _ ↦ elim (find_run id r.runs) [
        | none ↦ (r, err run_missing)
        | some run ↦
            if not (is_live run.state)
            then (r, err run_not_live)
            else let after = record r {
              runs =
                  update_run id
                    (λ x. record x {
                      session_id = some session;
                      state = if is_preparing x.state then running else x.state;
                    })
                    r.runs;
            } in
              (after, saved after)
      ]
    ]

    unfoldable pub cancel_found :
        RunRegistry V K
        → Text
        → Bool
        → Option (RunInfo V)
        → RunRegistry V K × Result Refusal (RunInfo V)
    cancel_found r id timeout none = (r, err run_missing)
    cancel_found r id timeout (some run) =
        if not (is_live run.state)
        then (r, err run_not_live)
        else let after = record r {
          runs = update_run id (λ x. cancelled_run timeout run) r.runs;
        } in
          let restored = record r { runs = update_run id (λ x. run) after.runs } in
          or_restore restored after (saved after) (info w after id)

    unfoldable pub cancel :
        RunRegistry V K → Text → Bool → RunRegistry V K × Result Refusal (RunInfo V)
    unfolding cancel_found find_run
    cancel r id timeout =
        if is_finishing (lookup id r.active)
        then (r, err run_ended)
        else cancel_found r id timeout (find_run id r.runs)

    unfoldable pub acknowledge_found :
        RunRegistry V K → Text → Option (RunInfo V) → RunRegistry V K × Result Refusal (RunInfo V)
    acknowledge_found r id none = (r, err run_missing)
    acknowledge_found r id (some run) =
        if not (is_unknown run.state)
        then (r, err not_unknown)
        else let after = record r { runs = update_run id (λ x. acknowledged_run run) r.runs } in
          let restored = record r { runs = update_run id (λ x. run) after.runs } in
          or_restore restored after (saved after) (info w after id)

    unfoldable pub acknowledge_unknown_cleanup :
        RunRegistry V K → Text → RunRegistry V K × Result Refusal (RunInfo V)
    unfolding acknowledge_found find_run
    acknowledge_unknown_cleanup r id =
        if contains_key id r.active
        then (r, err still_tracked)
        else acknowledge_found r id (find_run id r.runs)

    abbrev overdue : ℕ → RunInfo V → Option (Active V K) → Bool
    overdue now run none = false
    overdue now run (some a) =
        any_seconds run.timeout_seconds
          (λ seconds. not a.finishing && leb (seconds * 1000000000) (now - a.started))

    -- The runs whose timeout has come; `now` and `started` are in nanoseconds.
    unfoldable pub timed_out_from : List (Text × Active V K) → ℕ → List (RunInfo V) → List Text
    timed_out_from active now [] = []
    timed_out_from active now (run ∷ runs) =
        let rest = timed_out_from active now runs in
        if (is_preparing run.state || is_running run.state)
          && overdue now run (lookup run.run_id active)
        then run.run_id ∷ rest
        else rest
