-- ===== src/Runs/Removal.antt =====
-- What `remove_history` takes out of the history (crates/idk/src/run.rs): one run, at the position where
-- it was found.
use idk.Common.{
  ℕ, zero, suc, ◌+◌, ◌≡◌, refl, sym, ap, ◌∙◌, List, [], ◌∷◌, ◌++◌, Option, none, some, Text,
  text_Eq, Eq, Bool, true, false, ◌&&◌, not, ltb, length, Result, Check, ok, err, arith, Bool-cases,
  All, inl, inr, ◌>>◌,
}
use mathlib.Core.Path.{subst}
use idk.RunWire.{is_live}
use idk.RunWire.Info.{RunInfo}
use idk.Structured.{StructuredResult, EventProgress}
use idk.Ledger.Runs.{RetiredRun}
use idk.Runs.{RunRegistry, World, Refusal, persist}
use idk.Runs.Retention.{
  after_retiring, retire, retire_found, remove_found, forget, can_rotate, cleanup_from,
  cleanup_retired, remove_history, remove_run, retire_run, position, at_position, nth, remove_at,
  remove_files, runtime_identity,
}

same-some : {A : Type 0} (x y : A) → some x ≡ some y → x ≡ y
same-some x y h = cc

module _ {V : Type 0} where
  abbrev pub is_settled : RunInfo V → Bool
  is_settled run = not run.pinned && not (is_live run.state) && run.cleanup_confirmed

  -- The run ended more than 30 days before `now`.
  abbrev pub is_overdue : ℕ → RunInfo V → Bool
  is_overdue now run = elim run.finished_at_ms [
    | none ↦ false
    | some finished ↦ ltb (finished + 2592000000) now
  ]

  -- A settled run whose time is over.
  abbrev pub is_old : ℕ → RunInfo V → Bool
  is_old now run = is_settled run && is_overdue now run

  -- The first list is the second without some runs of which `q` holds.
  pub data Rotated (q : RunInfo V → Bool) : List (RunInfo V) → List (RunInfo V) → Type 0 where
    done : Rotated q [] []
    keeps :
        (run : RunInfo V) (after before : List (RunInfo V))
        → Rotated q after before
        → Rotated q (run ∷ after) (run ∷ before)
    drops :
        (run : RunInfo V) (after before : List (RunInfo V))
        → q run ≡ true
        → Rotated q after before
        → Rotated q after (run ∷ before)

  module _ (q : RunInfo V → Bool) where
    pub Rotated-refl : (runs : List (RunInfo V)) → Rotated q runs runs
    Rotated-refl [] = done
    Rotated-refl (run ∷ runs) = keeps run runs runs (Rotated-refl runs)

    pub Rotated-trans : (a b c : List (RunInfo V)) → Rotated q a b → Rotated q b c → Rotated q a c
    Rotated-trans a b c h (drops run x before good g) =
        drops run a before good (Rotated-trans a b before h g)
    Rotated-trans a b c done done = done
    Rotated-trans a b c (keeps run x y h) (keeps s y' before g) =
        keeps run x before (Rotated-trans x y before h g)
    Rotated-trans a b c (drops run x y good h) (keeps s y' before g) =
        drops run a before good (Rotated-trans a y before h g)

    remove_at-Rotated :
        (n : ℕ) (runs : List (RunInfo V)) (old : RunInfo V)
        → nth n runs ≡ some old
        → q old ≡ true
        → Rotated q (remove_at n runs) runs
    remove_at-Rotated n [] old h good = absurd cc
    remove_at-Rotated zero (run ∷ runs) old h good =
        drops run runs runs (ap q (same-some run old h) ∙ good) (Rotated-refl runs)
    remove_at-Rotated (suc n) (run ∷ runs) old h good =
        keeps run (remove_at n runs) runs (remove_at-Rotated n runs old h good)

  length-remove_at :
      (n : ℕ) (runs : List (RunInfo V)) (old : RunInfo V)
      → nth n runs ≡ some old
      → suc (length (remove_at n runs)) ≡ length runs
  length-remove_at n [] old h = absurd cc
  length-remove_at zero (run ∷ runs) old h = refl
  length-remove_at (suc n) (run ∷ runs) old h = ap suc (length-remove_at n runs old h)

module _ {A : Type 0} (p : A → Bool) where
  -- Nothing is found where nothing has the property.
  pub position-none : (xs : List A) → position p xs ≡ none → All (λ x. p x ≡ false) xs
  position-none [] h = tt
  position-none (x ∷ xs) h = elim (Bool-cases (p x)) [
    | inl here ↦ absurd (ground (arith, h, here))
    | inr other ↦ (other, position-none xs (ground (arith, h, other)))
  ]

  -- What is found has it.
  pub position-nth :
      (n : ℕ) (xs : List A) (x : A) → position p xs ≡ some n → nth n xs ≡ some x → p x ≡ true
  position-nth n [] x h at = absurd cc
  position-nth zero (y ∷ xs) x h at = elim (Bool-cases (p y)) [
    | inl here ↦ sym (ap p (same-some y x at)) ∙ here
    | inr other ↦ absurd (ground (arith, h, other))
  ]
  position-nth (suc n) (y ∷ xs) x h at = elim (Bool-cases (p y)) [
    | inl here ↦ absurd (ground (arith, h, here))
    | inr other ↦ position-nth n xs x (ground (arith, h, other)) at
  ]

pub at_position_holds {ℓ κ} :
    {A : Type ℓ} (P : A → Type κ) (o : Option ℕ) (stop : A) (go : ℕ → A)
    → (o ≡ none → P stop)
    → ((n : ℕ) → o ≡ some n → P (go n))
    → P (at_position o stop go)
at_position_holds P none stop go left found = left refl
at_position_holds P (some n) stop go left found = found n refl

module _ {V K : Type 0} ⦃e : Eq K⦄ (is_uuid : Text → Bool) (result_json : StructuredResult V → ℕ)
    (event_json : EventProgress → ℕ) (w : World V) where
  -- The runs are shorter by one of which `q` holds, unless it was refused.
  abbrev pub ShorterBy :
      (RunInfo V → Bool) → RunRegistry V K → RunRegistry V K × Check Refusal → Type 0
  ShorterBy q r (after, result) =
      Rotated q after.runs r.runs
      × (after.pending_starts ≡ r.pending_starts)
      × (result ≡ ok tt → suc (length after.runs) ≡ length r.runs)

  cleanup_from-runs :
      (r : RunRegistry V K) (journal : List RetiredRun)
      → let after = (cleanup_from is_uuid result_json event_json w r journal).0 in
        (after.runs ≡ r.runs) × (after.pending_starts ≡ r.pending_starts)
  unfolding cleanup_from
  cleanup_from-runs r [] = (refl, refl)
  cleanup_from-runs r (old ∷ rest) =
      let shorter : RunRegistry V K = record r { retired = rest } in
      outcome (remove_files w old >> persist is_uuid result_json event_json w shorter)
        (cleanup_from is_uuid result_json event_json w shorter rest)
        (cleanup_from-runs shorter rest)
    where
      outcome :
          (checked : Check Refusal) (further : RunRegistry V K × Check Refusal)
          → (further.0.runs ≡ r.runs) × (further.0.pending_starts ≡ r.pending_starts)
          → let after : RunRegistry V K × Check Refusal = elim checked [
            | err reason ↦ (r, err reason)
            | ok _ ↦ further
          ] in
            (after.0.runs ≡ r.runs) × (after.0.pending_starts ≡ r.pending_starts)
      outcome (err reason) further h = (refl, refl)
      outcome (ok _) further h = h

  after_retiring-ShorterBy :
      (q : RunInfo V → Bool) (r moved : RunRegistry V K) (id : Text) (saving : Check Refusal)
      → Rotated q moved.runs r.runs
      → moved.pending_starts ≡ r.pending_starts
      → suc (length moved.runs) ≡ length r.runs
      → ShorterBy q r (after_retiring is_uuid result_json event_json w r moved id saving)
  unfolding cleanup_retired
  after_retiring-ShorterBy q r moved id (err reason) rotated same less =
      (Rotated-refl q r.runs, refl, (λ h. absurd cc))
  after_retiring-ShorterBy q r moved id (ok _) rotated same less =
      let left = forget is_uuid result_json event_json w moved id in
      let (runs, pending) = cleanup_from-runs left left.retired in
      (
        subst (λ t. Rotated q t r.runs) (sym runs) rotated,
        pending ∙ same,
        (λ h. ap (λ t. suc (length t)) runs ∙ less),
      )

  retire_found-ShorterBy :
      (q : RunInfo V → Bool) (r : RunRegistry V K) (index : ℕ) (old : RunInfo V)
      (o : Result Refusal (Option (ℕ × ℕ)))
      → nth index r.runs ≡ some old
      → q old ≡ true
      → ShorterBy q r (retire_found is_uuid result_json event_json w r index old o)
  unfolding retire_run
  retire_found-ShorterBy q r index old (err reason) at good =
      (Rotated-refl q r.runs, refl, (λ h. absurd cc))
  retire_found-ShorterBy q r index old (ok identity) at good =
      let moved : RunRegistry V K = record r {
        runs = remove_at index r.runs;
        retired = r.retired ++ (retire old identity ∷ []);
      } in
      after_retiring-ShorterBy q r moved old.run_id (persist is_uuid result_json event_json w moved)
        (remove_at-Rotated q index r.runs old at good) refl (length-remove_at index r.runs old at)

  remove_run-ShorterBy :
      (q : RunInfo V → Bool) (r : RunRegistry V K) (index : ℕ) (old : RunInfo V)
      → nth index r.runs ≡ some old
      → q old ≡ true
      → ShorterBy q r (remove_run is_uuid result_json event_json w r index old)
  unfolding remove_run
  remove_run-ShorterBy q r index old at good = elim (Bool-cases (can_rotate r.active old)) [
    | inr fixed ↦ rw fixed (Rotated-refl q r.runs, refl, (λ h. absurd cc))
    | inl free ↦ elim (Bool-cases (ltb (length r.retired) 64)) [
      | inr full ↦ rw (free, full) (Rotated-refl q r.runs, refl, (λ h. absurd cc))
      | inl room ↦
          rw (free, room)
            (retire_found-ShorterBy q r index old
              (runtime_identity (w.runtime_directory old.run_id)) at good)
    ]
  ]

  remove_found-ShorterBy :
      (q : RunInfo V → Bool) (r : RunRegistry V K) (index : ℕ) (o : Option (RunInfo V))
      → nth index r.runs ≡ o
      → ((old : RunInfo V) → o ≡ some old → q old ≡ true)
      → ShorterBy q r (remove_found is_uuid result_json event_json w r index o)
  remove_found-ShorterBy q r index none at good = (Rotated-refl q r.runs, refl, (λ h. absurd cc))
  remove_found-ShorterBy q r index (some old) at good =
      remove_run-ShorterBy q r index old at (good old refl)

  pub remove_history-ShorterBy :
      (q : RunInfo V → Bool) (r : RunRegistry V K) (index : ℕ)
      → ((old : RunInfo V) → nth index r.runs ≡ some old → q old ≡ true)
      → ShorterBy q r (remove_history is_uuid result_json event_json w r index)
  unfolding remove_history
  remove_history-ShorterBy q r index good =
      remove_found-ShorterBy q r index (nth index r.runs) refl good
