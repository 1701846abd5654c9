-- ===== src/Ledger/Unique.antt =====
-- What the check of a run ledger gives of the runs in it.
use idk.Common.{
  ℕ, ◌≤◌, ◌≡◌, ap, List, [], ◌∷◌, map, Text, text_Eq, Bool, true, false, ◌&&◌, not, All, contains,
  Distinct, length, ok, ensure, ◌>>=◌, >>-eq-ok, >>=-eq-ok, ok_injective, try_fold, try_fold_fresh,
  try_fold_unique, try_fold-All, arith,
}
use idk.Model.{duplicate_retired, duplicate_run}
use idk.RunWire.Info.{RunInfo}
use idk.Structured.{StructuredResult, EventProgress}
use idk.Ledger.Runs.{
  RunLedger, RetiredRun, RunSets, validate_run_ledger, check_sizes, retired_step, run_step,
  check_run, check_runs, check_journal, insert_session, runs_pinned, run_ids, saturating_sum,
  retained_by,
}

both_fresh :
    (a b : Bool) → ensure (not a && not b) duplicate_run ≡ ok tt → (a ≡ false) × (b ≡ false)
both_fresh a b h = ground arith

check_sizes-bounds :
    {V : Type 0} (l : RunLedger V)
    → check_sizes l ≡ ok tt
    → (length (runs_pinned false l.runs) ≤ 64)
      × (length (runs_pinned true l.runs) ≤ 16)
      × (length l.retired ≤ 64)
      × (saturating_sum 0 (retained_by (runs_pinned true l.runs)) ≤ 134217728)
unfolding check_sizes
check_sizes-bounds l h = ground (arith, h)

module _ {V : Type 0} (is_uuid : Text → Bool) (result_json : StructuredResult V → ℕ)
    (event_json : EventProgress → ℕ) where
  -- The parts of an accepted ledger.
  pub parts :
      (l : RunLedger V)
      → validate_run_ledger is_uuid result_json event_json l ≡ ok tt
      → (check_sizes l ≡ ok tt)
        × ((ids : List Text) × (check_journal is_uuid result_json event_json l ≡ ok ids))
        × ((sets : RunSets) × (check_runs is_uuid result_json event_json l ≡ ok sets))
  unfolding validate_run_ledger
  parts l h =
      let runs = check_runs is_uuid result_json event_json l in
      let journal = check_journal is_uuid result_json event_json l in
      let (sizes, rest) = >>-eq-ok (check_sizes l) (journal >>= (λ _. runs >>= (λ _. ok tt))) h in
      let (ids, first, more) = >>=-eq-ok journal (λ _. runs >>= (λ _. ok tt)) rest in
      let (sets, second, _) = >>=-eq-ok runs (λ _. ok tt) more in
      (sizes, (ids, first), (sets, second))

  retired_step-keeps :
      (kept ids : List Text) (r : RetiredRun) (ids' : List Text)
      → retired_step is_uuid kept ids r ≡ ok ids'
      → (contains r.run_id ids ≡ false) × (r.run_id ∷ ids ≡ ids') × (contains r.run_id kept ≡ false)
  unfolding retired_step
  retired_step-keeps kept ids r ids' h =
      let (checks, last) = >>-eq-ok _ (ok (r.run_id ∷ ids)) h in
      let once : ensure (not (contains r.run_id ids) && not (contains r.run_id kept))
            duplicate_retired
          ≡ ok tt =
        (>>-eq-ok _ _ (>>-eq-ok _ _ (>>-eq-ok _ _ checks).0).0).1 in
      ground (arith, once, ok_injective (r.run_id ∷ ids) ids' last)

  pub run_step-keeps :
      (schema : ℕ) (sets : RunSets) (run : RunInfo V) (sets' : RunSets)
      → run_step is_uuid result_json event_json schema sets run ≡ ok sets'
      → (contains run.run_id sets.ids ≡ false)
        × (run.run_id ∷ sets.ids ≡ sets'.ids)
        × (contains run.operation_id sets.operations ≡ false)
        × (run.operation_id ∷ sets.operations ≡ sets'.operations)
        × (check_run is_uuid result_json event_json schema run ≡ ok tt)
  unfolding run_step
  run_step-keeps schema sets run sets' h =
      let (checks, rest) =
        >>-eq-ok _ (insert_session is_uuid sets.sessions run.session_id >>= _) h in
      let once : ensure
            (not (contains run.run_id sets.ids) && not (contains run.operation_id sets.operations))
            duplicate_run
          ≡ ok tt =
        (>>-eq-ok _ _ checks).1 in
      let (sessions, _, back) =
        >>=-eq-ok (insert_session is_uuid sets.sessions run.session_id) _ rest in
      let (sound, last) = >>-eq-ok (check_run is_uuid result_json event_json schema run) _ back in
      let same =
        ok_injective
          (record {
            ids = run.run_id ∷ sets.ids;
            operations = run.operation_id ∷ sets.operations;
            sessions = sessions;
          })
          sets' last in
      let (one, two) =
        both_fresh (contains run.run_id sets.ids) (contains run.operation_id sets.operations)
          once in
      (one, ap (λ t. t.ids) same, two, ap (λ t. t.operations) same, sound)

  retained_apart :
      (kept ids ids' : List Text) (journal : List RetiredRun)
      → try_fold ids journal (retired_step is_uuid kept) ≡ ok ids'
      → All (λ r. contains r.run_id kept ≡ false) journal
  retained_apart kept ids ids' journal h =
      try_fold-All (λ r. contains r.run_id kept ≡ false) (retired_step is_uuid kept)
        (λ s r s' step. (retired_step-keeps kept s r s' step).2) ids ids' journal h

  -- In a run ledger that is accepted no two runs have the same identifier or the same operation, no two
  -- retired runs have the same identifier, no retired run is still among the runs, at most 64 runs are
  -- not pinned and at most 16 are, at most 64 are retired, and the pinned ones retain at most 128 MiB.
  pub validate_run_ledger_unique :
      (l : RunLedger V)
      → validate_run_ledger is_uuid result_json event_json l ≡ ok tt
      → Distinct (map (λ r. r.run_id) l.runs)
        × Distinct (map (λ r. r.operation_id) l.runs)
        × Distinct (map (λ r. r.run_id) l.retired)
        × All (λ r. contains r.run_id (run_ids l.runs) ≡ false) l.retired
        × (length (runs_pinned false l.runs) ≤ 64)
        × (length (runs_pinned true l.runs) ≤ 16)
        × (length l.retired ≤ 64)
        × (saturating_sum 0 (retained_by (runs_pinned true l.runs)) ≤ 134217728)
  unfolding check_journal check_runs check_sizes
  validate_run_ledger_unique l h =
      let (sizes, (ids, journal), (sets, runs)) = parts l h in
      let step = run_step is_uuid result_json event_json l.schema in
      let none_yet : RunSets = record { ids = []; operations = []; sessions = [] } in
      let (run_once, _, _) =
        try_fold_fresh (λ r. r.run_id) (λ t. t.ids) step
          (λ s r s' e. let (a, b, _, _, _) = run_step-keeps l.schema s r s' e in (a, b)) none_yet
          sets l.runs runs in
      let (operation_once, _, _) =
        try_fold_fresh (λ r. r.operation_id) (λ t. t.operations) step
          (λ s r s' e. let (_, _, a, b, _) = run_step-keeps l.schema s r s' e in (a, b)) none_yet
          sets l.runs runs in
      let (retired_once, _, _) =
        try_fold_unique (λ r. r.run_id) (retired_step is_uuid (run_ids l.runs))
          (λ s r s' e. let (a, b, _) = retired_step-keeps (run_ids l.runs) s r s' e in (a, b)) []
          ids l.retired journal in
      let (most, few, journaled, fits) = check_sizes-bounds l sizes in
      (
        run_once,
        operation_once,
        retired_once,
        retained_apart (run_ids l.runs) [] ids l.retired journal,
        most,
        few,
        journaled,
        fits,
      )
