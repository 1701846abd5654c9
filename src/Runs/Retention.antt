-- ===== src/Runs/Retention.antt =====
-- The retention of runs in crates/idk/src/run.rs: `can_rotate`, `cleanup_retired`, `remove_history`,
-- `expire_history` and `pin_result`. `verified` and `retained` are `ResultStore::verify` and
-- `retained_events`: whether a result or the events are still what they were.
use idk.Common.{
  ℕ, zero, suc, ◌+◌, ◌-◌, List, [], ◌∷◌, ◌++◌, Option, none, some, Text, text_Eq, Eq, Bool, false,
  ◌&&◌, not, ltb, ◌==◌, length, if◌then◌else◌, Result, Check, ok, err, ensure, when_some, ◌>>◌,
}
use idk.Common.Assoc.{lookup, remove}
use idk.RunWire.{is_live}
use idk.RunWire.Info.{RunInfo}
use idk.Structured.{StructuredResult, EventProgress}
use idk.Ledger.Runs.{RetiredRun, run_record_limit, body_of, event_body_of, runs_pinned}
use idk.Runs.{
  RunRegistry, Active, World, Entry, absent, failing, found, Refusal, log_replaced,
  directory_replaced, directory_unexpected, cannot_rotate, journal_full, io, persist,
}
use idk.Runs.Observed.{drop_held}
use idk.Gate.{GateLease}

abbrev same_identity : Option (ℕ × ℕ) → ℕ × ℕ → Bool
same_identity none now = false
same_identity (some (device, inode)) (d, i) = device == d && inode == i

-- What is removed must be what was retired.
abbrev check_entry : Entry → Option (ℕ × ℕ) → Refusal → Check Refusal → Check Refusal
check_entry absent identity reason removal = ok tt
check_entry failing identity reason removal = err io
check_entry (found kind owned private now len) identity reason removal =
    ensure (kind && same_identity identity now && owned) reason >> removal

abbrev pub position {ℓ} : {A : Type ℓ} → (A → Bool) → List A → Option ℕ
position p [] = none
position p (x ∷ xs) =
    let rest = position p xs in
    if p x then some 0 else elim rest [ none ↦ none | some n ↦ some (suc n) ]

-- What is done where nothing is found, and at a position.
abbrev pub at_position {ℓ} : {A : Type ℓ} → Option ℕ → A → (ℕ → A) → A
at_position none stop go = stop
at_position (some n) stop go = go n

abbrev pub nth {ℓ} : {A : Type ℓ} → ℕ → List A → Option A
nth n [] = none
nth zero (x ∷ xs) = some x
nth (suc n) (x ∷ xs) = nth n xs

abbrev pub remove_at {ℓ} : {A : Type ℓ} → ℕ → List A → List A
remove_at n [] = []
remove_at zero (x ∷ xs) = xs
remove_at (suc n) (x ∷ xs) = x ∷ remove_at n xs

abbrev pub retention_ms : ℕ
retention_ms = 2592000000

unfoldable pub remove_files : {V : Type 0} → World V → RetiredRun → Check Refusal
remove_files w old =
    when_some old.result (λ body. w.remove_body body.sha256)
    >> when_some old.events (λ body. w.remove_body body.sha256)
    >> check_entry (w.retired_log old.run_id) old.log_identity log_replaced
        (w.remove_log old.run_id)
    >> check_entry (w.runtime_directory old.run_id) old.runtime_identity directory_replaced
        (w.remove_directory old.run_id)

-- The identity of the runtime directory of a run, if there is one.
unfoldable pub runtime_identity : Entry → Result Refusal (Option (ℕ × ℕ))
runtime_identity absent = ok none
runtime_identity failing = err io
runtime_identity (found kind owned private identity len) =
    if kind && owned then ok (some identity) else err directory_unexpected

abbrev pub retire : {V : Type 0} → RunInfo V → Option (ℕ × ℕ) → RetiredRun
retire old identity = record {
  run_id = old.run_id;
  result = body_of old.structured_result;
  events = event_body_of old.events;
  log_identity = old.log.file_identity;
  runtime_identity = identity;
}

module _ {V K : Type 0} ⦃e : Eq K⦄ where
  abbrev pub finishing_now : Option (Active V K) → Bool
  finishing_now none = false
  finishing_now (some a) = a.finishing

  unfoldable pub can_rotate : List (Text × Active V K) → RunInfo V → Bool
  can_rotate active run =
      not run.pinned
      && not (is_live run.state)
      && run.cleanup_confirmed
      && not (finishing_now (lookup run.run_id active))

  abbrev lease_of : Option (Active V K) → Option (GateLease K)
  lease_of none = none
  lease_of (some a) = a.lease

  module _ (is_uuid : Text → Bool) (result_json : StructuredResult V → ℕ)
      (event_json : EventProgress → ℕ) (w : World V) where
    -- The journal from its first entry on; an entry leaves it when its files are gone.
    unfoldable pub cleanup_from :
        RunRegistry V K → List RetiredRun → RunRegistry V K × Check Refusal
    unfolding remove_files
    cleanup_from r [] = (r, ok tt)
    cleanup_from r (old ∷ rest) =
        let shorter = record r { retired = rest } in
        let further = cleanup_from shorter rest in
        elim (remove_files w old >> persist is_uuid result_json event_json w shorter) [
          | err reason ↦ (r, err reason)
          | ok _ ↦ further
        ]

    unfoldable pub cleanup_retired : RunRegistry V K → RunRegistry V K × Check Refusal
    unfolding cleanup_from
    cleanup_retired r = cleanup_from r r.retired

    abbrev pub forget : RunRegistry V K → Text → RunRegistry V K
    forget r id = record r {
      active = remove id r.active;
      gate = drop_held r.gate (lease_of (lookup id r.active));
    }

    abbrev pub after_retiring :
        RunRegistry V K → RunRegistry V K → Text → Check Refusal → RunRegistry V K × Check Refusal
    after_retiring r moved id (err reason) = (r, err reason)
    after_retiring r moved id (ok _) = cleanup_retired (forget moved id)

    -- The run leaves the list for the journal; both are put back where they cannot be saved.
    unfoldable pub retire_run :
        RunRegistry V K → ℕ → RunInfo V → Option (ℕ × ℕ) → RunRegistry V K × Check Refusal
    retire_run r index old identity =
        let moved = record r {
          runs = remove_at index r.runs;
          retired = r.retired ++ (retire old identity ∷ []);
        } in
        after_retiring r moved old.run_id (persist is_uuid result_json event_json w moved)

    abbrev pub retire_found :
        RunRegistry V K
        → ℕ
        → RunInfo V
        → Result Refusal (Option (ℕ × ℕ))
        → RunRegistry V K × Check Refusal
    retire_found r index old (err reason) = (r, err reason)
    retire_found r index old (ok identity) = retire_run r index old identity

    unfoldable pub remove_run : RunRegistry V K → ℕ → RunInfo V → RunRegistry V K × Check Refusal
    unfolding retire_run
    remove_run r index old =
        if not (can_rotate r.active old)
        then (r, err cannot_rotate)
        else if not (ltb (length r.retired) run_record_limit)
        then (r, err journal_full)
        else retire_found r index old (runtime_identity (w.runtime_directory old.run_id))

    -- An index out of range, which would be a panic, is refused; every caller has found the run.
    abbrev pub remove_found :
        RunRegistry V K → ℕ → Option (RunInfo V) → RunRegistry V K × Check Refusal
    remove_found r index none = (r, err cannot_rotate)
    remove_found r index (some old) = remove_run r index old

    unfoldable pub remove_history : RunRegistry V K → ℕ → RunRegistry V K × Check Refusal
    unfolding remove_run
    remove_history r index = remove_found r index (nth index r.runs)

    -- `?` behind a call in a loop, which goes on with `further`.
    abbrev pub and_then :
        RunRegistry V K × Check Refusal
        → RunRegistry V K × Check Refusal
        → RunRegistry V K × Check Refusal
    and_then (r, err reason) further = (r, err reason)
    and_then (r, ok _) further = further

    unfoldable pub is_expired : List (Text × Active V K) → RunInfo V → Bool
    is_expired active run = can_rotate active run && elim run.finished_at_ms [
      | none ↦ false
      | some finished ↦ ltb retention_ms (w.now_ms - finished)
    ]

    -- The loop; each turn that goes on has removed a run.
    unfoldable pub expire_loop : ℕ → RunRegistry V K → RunRegistry V K × Check Refusal
    unfolding is_expired
    expire_loop zero r = (r, ok tt)
    expire_loop (suc fuel) r =
        at_position (position (is_expired r.active) r.runs) (r, ok tt)
          (λ index.
            let removed = remove_history r index in and_then removed (expire_loop fuel removed.0))

    unfoldable pub expire_history : RunRegistry V K → RunRegistry V K × Check Refusal
    unfolding expire_loop
    expire_history r = expire_loop (suc (length r.runs)) r

    -- `while` the runs that are not pinned and the `extra` ones fill the history.
    unfoldable pub make_room : ℕ → ℕ → Refusal → RunRegistry V K → RunRegistry V K × Check Refusal
    make_room zero extra full r = (r, ok tt)
    make_room (suc fuel) extra full r =
        if ltb (length (runs_pinned false r.runs) + extra) run_record_limit
        then (r, ok tt)
        else at_position (position (can_rotate r.active) r.runs) (r, err full)
            (λ index.
              let removed = remove_history r index in
              and_then removed (make_room fuel extra full removed.0))
