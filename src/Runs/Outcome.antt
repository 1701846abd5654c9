-- ===== src/Runs/Outcome.antt =====
-- The lease of a run is let go only after its end, with a confirmed cleanup, has been saved.
use idk.Common.{
  ℕ, ◌≡◌, refl, ap, ◌∙◌, List, [], ◌∷◌, Option, none, some, Text, text_eq, text_Eq, Eq, Bool, true,
  false, ◌&&◌, is_none, Result, Check, ok, err, arith, Bool-cases, inl, inr, ◌⊎◌,
}
use idk.Common.Assoc.{lookup, insert, lookup-insert_same}
use idk.Gate.{GateLease, drop_lease}
use idk.GitOperation.{TerminalExit}
use idk.RunWire.{is_live}
use idk.RunWire.Info.{RunInfo}
use idk.Structured.{StructuredResult, EventProgress}
use idk.Runs.{Active, RunRegistry, World, Refusal, find_run, update_run, info, inform, persist}
use idk.Runs.Finish.{final_state, final_exit}
use idk.Runs.Observed.{
  Ended, finish_observed, finish_active, finish_existing, or_keep, let_go, recorded, ended_run,
  ending, capture_results, finished_run,
}

final_exit-is_live :
    (exit : Option TerminalExit) (error : Option Text) → is_live (final_exit exit error) ≡ false
final_exit-is_live (some exit) error = ground arith
final_exit-is_live none (some error) = refl
final_exit-is_live none none = refl

final_state-is_live :
    (confirmed cancelled : Bool) (exit : Option TerminalExit) (error : Option Text)
    → is_live (final_state confirmed cancelled exit error) ≡ false
unfolding final_state
final_state-is_live false cancelled exit error = refl
final_state-is_live true true exit error = refl
final_state-is_live true false exit error = final_exit-is_live exit error

module _ {V : Type 0} where
  find_run-update_run :
      (id : Text) (runs : List (RunInfo V)) (run : RunInfo V) (f : RunInfo V → RunInfo V)
      → ((x : RunInfo V) → (f x).run_id ≡ x.run_id)
      → find_run id runs ≡ some run
      → find_run id (update_run id f runs) ≡ some (f run)
  unfolding find_run update_run
  find_run-update_run id [] run f same h = absurd cc
  find_run-update_run id (x ∷ xs) run f same h = elim (Bool-cases (text_eq x.run_id id)) [
    | inl here ↦
        let first : x ≡ run = ground (arith, h, here) in
        let found : text_eq (f x).run_id id ≡ true = ground (arith, same x, here) in
        rw (here, found) (ap (λ y. some (f y)) first)
    | inr later ↦
        let rest : find_run id xs ≡ some run = ground (arith, h, later) in
        rw (later, later) (find_run-update_run id xs run f same rest)
  ]

module _ {V K : Type 0} (w : World V) where
  inform-found :
      (r : RunRegistry V K) (o : Option (RunInfo V)) (shown : RunInfo V)
      → inform w r.active o ≡ ok shown
      → (run : RunInfo V) × (o ≡ some run)
  unfolding inform
  inform-found r none shown h = absurd cc
  inform-found r (some run) shown h = (run, refl)

module _ {V K : Type 0} (capture : Text → StructuredResult V)
    (collect : Text → Option Text → EventProgress) where
  ending-lease :
      (id : Text) (confirmed : Bool) (a : Active V K)
      → (ending capture collect id confirmed a).lease ≡ a.lease
  unfolding ending capture_results
  ending-lease id confirmed a = elim (Bool-cases (confirmed && is_none a.result_snapshot)) [
    | inl first ↦ rw first refl
    | inr again ↦ rw again refl
  ]

module _ {V K : Type 0} ⦃e : Eq K⦄ (capture : Text → StructuredResult V)
    (collect : Text → Option Text → EventProgress) (is_uuid : Text → Bool)
    (result_json : StructuredResult V → ℕ) (event_json : EventProgress → ℕ) (w : World V) where
  -- The lease is still held.
  abbrev pub Held : RunRegistry V K → RunRegistry V K → Text → GateLease K → Type 0
  Held before after id l =
      (b : Active V K) × (lookup id after.active ≡ some b)
      × (b.lease ≡ some l)
      × (after.gate ≡ before.gate)

  -- The lease has been dropped, and a registry with these runs has been saved before, in which the run
  -- has ended with its cleanup confirmed.
  abbrev pub Released : RunRegistry V K → RunRegistry V K → Text → Bool → GateLease K → Type 0
  Released before after id confirmed l =
      (confirmed ≡ true)
      × (after.gate ≡ drop_lease before.gate l)
      × ((m : RunRegistry V K) × (persist is_uuid result_json event_json w m ≡ ok tt)
          × (m.runs ≡ after.runs))
      × ((run : RunInfo V) × (find_run id after.runs ≡ some run)
          × (run.cleanup_confirmed ≡ true)
          × (is_live run.state ≡ false))

  or_keep-releases :
      (r done : RunRegistry V K) (id : Text) (b : Active V K) (l : GateLease K) (confirmed : Bool)
      (saving : Check Refusal) (run : RunInfo V)
      → persist is_uuid result_json event_json w done ≡ saving
      → lookup id done.active ≡ some b
      → b.lease ≡ some l
      → done.gate ≡ r.gate
      → find_run id done.runs ≡ some run
      → run.cleanup_confirmed ≡ confirmed
      → is_live run.state ≡ false
      → let after =
          (or_keep capture collect is_uuid result_json event_json w done id confirmed saving).0 in
        Held r after id l ⊎ Released r after id confirmed l
  unfolding let_go
  or_keep-releases r done id b l confirmed (err reason) run saved at held same found settled dead =
      inl (b, at, held, same)
  or_keep-releases r done id b l false (ok _) run saved at held same found settled dead = rw at (
      inl (
        record b { finishing = false },
        lookup-insert_same id (record b { finishing = false }) done.active,
        held,
        same,
      ))
  or_keep-releases r done id b l true (ok _) run saved at held same found settled dead =
      rw at (inr (refl, rw (held, same) refl, (done, saved, refl), (run, found, settled, dead)))

  finish_existing-releases :
      (r marked : RunRegistry V K) (id : Text) (b : Active V K) (l : GateLease K) (ended : Ended)
      (told : Result Refusal (RunInfo V))
      → info w marked id ≡ told
      → lookup id marked.active ≡ some b
      → b.lease ≡ some l
      → marked.gate ≡ r.gate
      → let after =
          (finish_existing capture collect is_uuid result_json event_json w marked id b ended
            told).0 in
        Held r after id l ⊎ Released r after id ended.cleanup_confirmed l
  unfolding finish_existing recorded info ended_run finished_run
  finish_existing-releases r marked id b l ended (err reason) told at held same =
      inl (b, at, held, same)
  finish_existing-releases r marked id b l ended (ok existing) told at held same =
      let (run, found) = inform-found w marked (find_run id marked.runs) existing told in
      let f =
        ended_run capture collect is_uuid result_json event_json w b ended existing marked.runs in
      let done =
        recorded capture collect is_uuid result_json event_json w marked id b ended existing in
      or_keep-releases r done id b l ended.cleanup_confirmed
        (persist is_uuid result_json event_json w done) (f run) refl at held same
        (find_run-update_run id marked.runs run f (λ x. refl) found) refl
        (final_state-is_live ended.cleanup_confirmed run.cancel_requested ended.exit ended.error)

  finish_active-releases :
      (r : RunRegistry V K) (id : Text) (a : Active V K) (l : GateLease K) (ended : Ended)
      (o : Option (Active V K))
      → o ≡ some a
      → a.lease ≡ some l
      → let after =
          (finish_active capture collect is_uuid result_json event_json w r id ended o).0 in
        Held r after id l ⊎ Released r after id ended.cleanup_confirmed l
  unfolding finish_active
  finish_active-releases r id a l ended none at held = absurd cc
  finish_active-releases r id a l ended (some c) at held =
      let same : c ≡ a = cc in
      let b = ending capture collect id ended.cleanup_confirmed c in
      let marked : RunRegistry V K = record r { active = insert id b r.active } in
      finish_existing-releases r marked id b l ended (info w marked id) refl
        (lookup-insert_same id b r.active)
        (ending-lease capture collect id ended.cleanup_confirmed c ∙ ap (λ t. t.lease) same ∙ held)
        refl

  -- When a run with a lease ends, the lease is still held and the gate is as it was, or the cleanup is
  -- confirmed, the lease has been dropped from the gate, and the runs as they now are have been saved
  -- with the run not live any more and its cleanup confirmed.
  pub finish_observed-releases :
      (r : RunRegistry V K) (id : Text) (a : Active V K) (l : GateLease K) (ended : Ended)
      → lookup id r.active ≡ some a
      → a.lease ≡ some l
      → let after =
          (finish_observed capture collect is_uuid result_json event_json w r id ended).0 in
        Held r after id l ⊎ Released r after id ended.cleanup_confirmed l
  unfolding finish_observed
  finish_observed-releases r id a l ended at held =
      finish_active-releases r id a l ended (lookup id r.active) at held
