-- ===== src/Runs/Rollback.antt =====
-- A change of a run that cannot be saved is taken back.
use idk.Common.{
  ℕ, ◌≡◌, refl, sym, ap, ◌∙◌, List, [], ◌∷◌, Option, none, some, Text, text_eq, text_Eq, Eq, Bool,
  true, ◌||◌, not, Result, Check, ok, err, ok_injective, arith, Bool-cases, inl, inr, ◌⊎◌,
}
use idk.RunWire.{is_live}
use idk.RunWire.Info.{RunInfo}
use idk.Structured.{StructuredResult, EventProgress}
use idk.Common.Assoc.{lookup, contains_key}
use idk.Runs.Pins.{
  pin_result, pin_current, set_pin, prepare_pin, continue_pin, check_pin, same_bool,
}
use idk.RunWire.{LogDescriptor}
use idk.RunLog.{is_disabled}
use idk.Runs.{
  Active, RunRegistry, World, Refusal, find_run, update_run, info, persist, inform, info_of,
  with_active, has_execution, with_log, observed_log,
}
use idk.Runs.Finish.{
  or_restore, is_finishing, cancel, cancel_found, cancelled_run, acknowledge_found,
  acknowledged_run, acknowledge_unknown_cleanup, is_unknown,
}

module _ {V : Type 0} where
  find_run-run_id :
      (id : Text) (runs : List (RunInfo V)) (run : RunInfo V)
      → find_run id runs ≡ some run
      → text_eq run.run_id id ≡ true
  unfolding find_run
  find_run-run_id id [] run h = absurd cc
  find_run-run_id id (x ∷ xs) run h = ground (arith, h, find_run-run_id id xs run)

  update_run_back :
      (id : Text) (runs : List (RunInfo V)) (run changed : RunInfo V)
      → find_run id runs ≡ some run
      → changed.run_id ≡ run.run_id
      → update_run id (λ x. run) (update_run id (λ x. changed) runs) ≡ runs
  unfolding find_run update_run
  update_run_back id [] run changed h same = refl
  update_run_back id (x ∷ xs) run changed h same = elim (Bool-cases (text_eq x.run_id id)) [
    | inl here ↦
        let first : x ≡ run = ground (arith, h, here) in
        let found : text_eq changed.run_id id ≡ true = ground (arith, here, first, same) in
        rw (here, found) (ap (λ y. y ∷ xs) (sym first))
    | inr later ↦
        let rest : find_run id xs ≡ some run = ground (arith, h, later) in
        rw (later, later) (ap (◌∷◌ x) (update_run_back id xs run changed rest same))
  ]

module _ {V K : Type 0} (is_uuid : Text → Bool) (result_json : StructuredResult V → ℕ)
    (event_json : EventProgress → ℕ) (w : World V) where
  abbrev pub Durable : RunRegistry V K → RunRegistry V K → Type 0
  Durable before after = (after ≡ before) ⊎ (persist is_uuid result_json event_json w after ≡ ok tt)

  pub or_restore-Durable :
      (r before after : RunRegistry V K) (saving : Check Refusal)
      (told : Result Refusal (RunInfo V))
      → before ≡ r
      → persist is_uuid result_json event_json w after ≡ saving
      → Durable r (or_restore before after saving told).0
  or_restore-Durable r before after (ok _) told back same = inr same
  or_restore-Durable r before after (err reason) told back same = inl back

  cancel_found-Durable :
      (r : RunRegistry V K) (id : Text) (timeout : Bool) (o : Option (RunInfo V))
      → find_run id r.runs ≡ o
      → Durable r (cancel_found is_uuid result_json event_json w r id timeout o).0
  unfolding cancel_found
  cancel_found-Durable r id timeout none h = inl refl
  cancel_found-Durable r id timeout (some run) h = elim (Bool-cases (is_live run.state)) [
    | inr dead ↦ rw dead (inl refl)
    | inl live ↦ rw live (
        or_restore-Durable r _ _ _ _
          (ap (λ t. record r { runs = t })
            (update_run_back id r.runs run (cancelled_run timeout run) h refl))
          refl)
  ]

  -- A cancellation leaves the registry as it was, or the registry that it leaves has been saved: also
  -- when it is refused, and when the registry cannot be saved.
  pub cancel-Durable :
      (r : RunRegistry V K) (id : Text) (timeout : Bool)
      → Durable r (cancel is_uuid result_json event_json w r id timeout).0
  unfolding cancel
  cancel-Durable r id timeout = elim (Bool-cases (is_finishing (lookup id r.active))) [
    | inl over ↦ rw over (inl refl)
    | inr going ↦ rw going (cancel_found-Durable r id timeout (find_run id r.runs) refl)
  ]

  acknowledge_found-Durable :
      (r : RunRegistry V K) (id : Text) (o : Option (RunInfo V))
      → find_run id r.runs ≡ o
      → Durable r (acknowledge_found is_uuid result_json event_json w r id o).0
  unfolding acknowledge_found
  acknowledge_found-Durable r id none h = inl refl
  acknowledge_found-Durable r id (some run) h = elim (Bool-cases (is_unknown run.state)) [
    | inr known ↦ rw known (inl refl)
    | inl lost ↦ rw lost (
        or_restore-Durable r _ _ _ _
          (ap (λ t. record r { runs = t })
            (update_run_back id r.runs run (acknowledged_run run) h refl))
          refl)
  ]

  -- The acknowledgement of an unknown run leaves the registry as it was, or the registry that it leaves
  -- has been saved.
  pub acknowledge_unknown_cleanup-Durable :
      (r : RunRegistry V K) (id : Text)
      → Durable r (acknowledge_unknown_cleanup is_uuid result_json event_json w r id).0
  unfolding acknowledge_unknown_cleanup
  acknowledge_unknown_cleanup-Durable r id = elim (Bool-cases (contains_key id r.active)) [
    | inl tracked ↦ rw tracked (inl refl)
    | inr lost ↦ rw lost (acknowledge_found-Durable r id (find_run id r.runs) refl)
  ]

with_log-pinned :
    {V : Type 0} (run shown : RunInfo V) (log : Result Refusal LogDescriptor)
    → with_log run log ≡ ok shown
    → run.pinned ≡ shown.pinned
with_log-pinned run shown (ok log) h =
    ap (λ t. t.pinned) (ok_injective (record run { log = log }) shown h)
with_log-pinned run shown (err reason) h = absurd cc

module _ {V K : Type 0} (w : World V) where
  with_active-pinned :
      (run : RunInfo V) (o : Option (Active V K)) → (with_active w run o).pinned ≡ run.pinned
  unfolding with_active
  with_active-pinned run none = refl
  with_active-pinned run (some a) = elim (Bool-cases (has_execution a)) [
    | inl native ↦ rw native refl
    | inr shell ↦ rw shell refl
  ]

  info_of-pinned :
      (active : List (Text × Active V K)) (run shown : RunInfo V)
      → info_of w active run ≡ ok shown
      → run.pinned ≡ shown.pinned
  unfolding info_of
  info_of-pinned active run shown h =
      let seen = with_active w run (lookup run.run_id active) in
      let same = with_active-pinned run (lookup run.run_id active) in
      elim (Bool-cases (is_disabled seen.log.state)) [
        | inl off ↦
            sym same
            ∙ ap (λ t. t.pinned) (ok_injective {E = Refusal} seen shown (ground (arith, h, off)))
        | inr on ↦
            sym same
            ∙ with_log-pinned seen shown
                (observed_log seen.log (contains_key run.run_id active) (w.log_file run.run_id))
                (ground (arith, h, on))
      ]

  inform-pinned :
      (r : RunRegistry V K) (o : Option (RunInfo V)) (shown : RunInfo V)
      → inform w r.active o ≡ ok shown
      → (run : RunInfo V) × (o ≡ some run) × (run.pinned ≡ shown.pinned)
  unfolding inform
  inform-pinned r none shown h = absurd cc
  inform-pinned r (some run) shown h = (run, refl, info_of-pinned r.active run shown h)

update_run_pin :
    {V : Type 0} (id : Text) (runs : List (RunInfo V)) (run : RunInfo V) (before pinned : Bool)
    → find_run id runs ≡ some run
    → run.pinned ≡ before
    → update_run id
        (λ x. record x { pinned = before })
        (update_run id (λ x. record x { pinned = pinned }) runs)
      ≡ runs
unfolding find_run update_run
update_run_pin id [] run before pinned h same = refl
update_run_pin id (x ∷ xs) run before pinned h same = elim (Bool-cases (text_eq x.run_id id)) [
  | inl here ↦
      let first : x ≡ run = ground (arith, h, here) in
      let was : x.pinned ≡ before = ap (λ t. t.pinned) first ∙ same in
      rw (here, here) (ap (λ b. record x { pinned = b } ∷ xs) (sym was))
  | inr later ↦
      let rest : find_run id xs ≡ some run = ground (arith, h, later) in
      rw (later, later) (ap (◌∷◌ x) (update_run_pin id xs run before pinned rest same))
]

module _ {V K : Type 0} ⦃e : Eq K⦄ (is_gone : StructuredResult V → Bool)
    (are_gone : EventProgress → Bool) (is_uuid : Text → Bool) (result_json : StructuredResult V → ℕ)
    (event_json : EventProgress → ℕ) (w : World V) where
  set_pin-Durable :
      (r : RunRegistry V K) (id : Text) (run : RunInfo V) (before pinned : Bool)
      → find_run id r.runs ≡ some run
      → run.pinned ≡ before
      → Durable is_uuid result_json event_json w r
          (set_pin is_gone are_gone is_uuid result_json event_json w r id before pinned).0
  unfolding set_pin
  set_pin-Durable r id run before pinned h same =
      or_restore-Durable is_uuid result_json event_json w r _ _ _ _
        (ap (λ t. record r { runs = t }) (update_run_pin id r.runs run before pinned h same)) refl

  continue_pin-Durable :
      (r : RunRegistry V K) (checked : Check Refusal) (id : Text) (run : RunInfo V) (before : Bool)
      → find_run id r.runs ≡ some run
      → run.pinned ≡ before
      → Durable is_uuid result_json event_json w r
          (continue_pin is_gone are_gone is_uuid result_json event_json w
            (r, checked)
            id
            before
            true).0
  continue_pin-Durable r (err reason) id run before h same = inl refl
  continue_pin-Durable r (ok _) id run before h same = set_pin-Durable r id run before true h same

  pin_current-Durable :
      (r : RunRegistry V K) (id : Text) (o : Result Refusal (RunInfo V))
      → info w r id ≡ o
      → Durable is_uuid result_json event_json w r
          (pin_current is_gone are_gone is_uuid result_json event_json w r id true o).0
  unfolding pin_current info prepare_pin
  pin_current-Durable r id (err reason) h = inl refl
  pin_current-Durable r id (ok current) h =
      let (run, found, same) = inform-pinned w r (find_run id r.runs) current h in
      elim (Bool-cases (is_live current.state || not current.cleanup_confirmed)) [
        | inl early ↦ rw early (inl refl)
        | inr late ↦ elim (Bool-cases (same_bool current.pinned true)) [
          | inl already ↦ rw (late, already) (inl refl)
          | inr new ↦
              rw (late, new)
                (continue_pin-Durable r (check_pin is_gone are_gone r.runs current) id run
                  current.pinned found same)
        ]
      ]

  -- A new pin leaves the registry as it was, or the registry that it leaves has been saved.
  pub pin_result-Durable :
      (r : RunRegistry V K) (id : Text)
      → Durable is_uuid result_json event_json w r
          (pin_result is_gone are_gone is_uuid result_json event_json w r id true).0
  unfolding pin_result
  pin_result-Durable r id = pin_current-Durable r id (info w r id) refl
