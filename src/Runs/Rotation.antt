-- ===== src/Runs/Rotation.antt =====
-- The two loops that remove runs: `expire_history`, and the one that makes room in the history
-- (crates/idk/src/run.rs).
use idk.Common.{
  ℕ, zero, suc, ◌+◌, ◌<◌, ◌≡◌, refl, sym, ◌∙◌, List, [], ◌∷◌, Option, some, Text, text_Eq, Eq, Bool,
  true, false, ◌&&◌, not, ltb, length, Check, ok, err, arith, Bool-cases, All, inl, inr, ltb→lt,
  ◌⊎◌,
}
use idk.RunWire.Info.{RunInfo}
use idk.Structured.{StructuredResult, EventProgress}
use idk.Ledger.Runs.{runs_pinned}
use idk.Runs.{Active, RunRegistry, World, Refusal}
use idk.Runs.Retention.{
  and_then, can_rotate, remove_history, expire_loop, expire_history, is_expired, make_room,
  position, nth,
}
use idk.Common.Assoc.{lookup}
use idk.Runs.Retention.{finishing_now}
use idk.Runs.Removal.{
  is_settled, is_old, Rotated, Rotated-refl, Rotated-trans, position-none, position-nth,
  at_position_holds, ShorterBy, remove_history-ShorterBy,
}

or_refused :
    {P : Type 0} (result : Check Refusal)
    → (result ≡ ok tt → P)
    → P ⊎ ((reason : Refusal) × (result ≡ err reason))
or_refused (ok _) h = inl (h refl)
or_refused (err reason) h = inr (reason, refl)

module _ {V K : Type 0} ⦃e : Eq K⦄ (is_uuid : Text → Bool) (result_json : StructuredResult V → ℕ)
    (event_json : EventProgress → ℕ) (w : World V) where
  -- Among the runs that remain none is settled, not being finished, and out of its time.
  abbrev pub NoneOverdue : RunRegistry V K → Type 0
  NoneOverdue r =
      All (λ run. (is_old w.now_ms run && not (finishing_now (lookup run.run_id r.active))) ≡ false)
        r.runs

  rotating :
      (active : List (Text × Active V K)) (run : RunInfo V)
      → can_rotate active run ≡ true
      → is_settled run ≡ true
  unfolding can_rotate
  rotating active run h = ground (arith, h)

  -- The test of the loop, in the words of `is_old`.
  is_expired-old :
      (active : List (Text × Active V K)) (run : RunInfo V)
      → is_expired is_uuid result_json event_json w active run
        ≡ is_old w.now_ms run && not (finishing_now (lookup run.run_id active))
  unfolding is_expired can_rotate
  is_expired-old active run = ground arith

  none-overdue :
      (active : List (Text × Active V K)) (runs : List (RunInfo V))
      → All (λ run. is_expired is_uuid result_json event_json w active run ≡ false) runs
      → All
          (λ run. (is_old w.now_ms run && not (finishing_now (lookup run.run_id active))) ≡ false)
          runs
  none-overdue active [] h = tt
  none-overdue active (run ∷ runs) h =
      (sym (is_expired-old active run) ∙ h.0, none-overdue active runs h.1)

  abbrev expired_at : RunRegistry V K → Option ℕ
  expired_at r = position (is_expired is_uuid result_json event_json w r.active) r.runs

  found_old :
      (r : RunRegistry V K) (index : ℕ)
      → expired_at r ≡ some index
      → (old : RunInfo V) → nth index r.runs ≡ some old
      → is_old w.now_ms old ≡ true
  found_old r index found old at =
      let held =
        position-nth (is_expired is_uuid result_json event_json w r.active) index r.runs old found
          at in
      ground (arith, held, is_expired-old r.active old)

  abbrev Expires : RunRegistry V K → RunRegistry V K × Check Refusal → Type 0
  Expires r (after, result) =
      Rotated (is_old w.now_ms) after.runs r.runs
      × (after.pending_starts ≡ r.pending_starts)
      × (result ≡ ok tt → NoneOverdue after)

  and_then-Expires :
      (r : RunRegistry V K) (removed further : RunRegistry V K × Check Refusal)
      → ShorterBy is_uuid result_json event_json w (is_old w.now_ms) r removed
      → (removed.1 ≡ ok tt → Expires removed.0 further)
      → Expires r (and_then is_uuid result_json event_json w removed further)
  and_then-Expires r (next, err reason) further less rest = (less.0, less.1, (λ h. absurd cc))
  and_then-Expires r (next, ok _) further less rest =
      let (rotated, same, none_left) = rest refl in
      (
        Rotated-trans (is_old w.now_ms) further.0.runs next.runs r.runs rotated less.0,
        same ∙ less.1,
        none_left,
      )

  expire_loop-Expires :
      (fuel : ℕ) (r : RunRegistry V K)
      → length r.runs < fuel
      → Expires r (expire_loop is_uuid result_json event_json w fuel r)
  unfolding expire_loop
  expire_loop-Expires zero r enough = absurd (omega arith)
  expire_loop-Expires (suc fuel) r enough =
      at_position_holds (Expires r) (expired_at r) (r, ok tt)
        (λ index.
          let removed = remove_history is_uuid result_json event_json w r index in
          and_then is_uuid result_json event_json w removed
            (expire_loop is_uuid result_json event_json w fuel removed.0))
        (λ nothing_left. (
          Rotated-refl (is_old w.now_ms) r.runs,
          refl,
          (λ h. none-overdue r.active r.runs (
              position-none (is_expired is_uuid result_json event_json w r.active) r.runs
                nothing_left)),
        ))
        (λ index found.
          let removed = remove_history is_uuid result_json event_json w r index in
          let less =
            remove_history-ShorterBy is_uuid result_json event_json w (is_old w.now_ms) r index
              (found_old r index found) in
          and_then-Expires r removed (expire_loop is_uuid result_json event_json w fuel removed.0)
            less (λ fine. expire_loop-Expires fuel removed.0 (omega (arith, less.2 fine, enough))))

  -- `expire_history` removes only runs that are not pinned, have ended more than 30 days ago and have
  -- their cleanup confirmed, and leaves the starts that are pending; either every such run that is
  -- left is still being finished, or a step was refused.
  pub expire_history-expires :
      (r : RunRegistry V K)
      → let (after, result) = expire_history is_uuid result_json event_json w r in
        Rotated (is_old w.now_ms) after.runs r.runs
        × (after.pending_starts ≡ r.pending_starts)
        × (NoneOverdue after ⊎ ((reason : Refusal) × (result ≡ err reason)))
  unfolding expire_history
  expire_history-expires r =
      let (rotated, same, none_left) = expire_loop-Expires (suc (length r.runs)) r (omega arith) in
      (
        rotated,
        same,
        or_refused (expire_loop is_uuid result_json event_json w (suc (length r.runs)) r).1
            none_left,
      )

  abbrev Roomy : ℕ → RunRegistry V K → RunRegistry V K × Check Refusal → Type 0
  Roomy extra r (after, result) =
      Rotated is_settled after.runs r.runs
      × (after.pending_starts ≡ r.pending_starts)
      × (result ≡ ok tt → length (runs_pinned false after.runs) + extra < 64)

  and_then-Roomy :
      (extra : ℕ) (r : RunRegistry V K) (removed further : RunRegistry V K × Check Refusal)
      → ShorterBy is_uuid result_json event_json w is_settled r removed
      → (removed.1 ≡ ok tt → Roomy extra removed.0 further)
      → Roomy extra r (and_then is_uuid result_json event_json w removed further)
  and_then-Roomy extra r (next, err reason) further less rest = (less.0, less.1, (λ h. absurd cc))
  and_then-Roomy extra r (next, ok _) further less rest =
      let (rotated, same, fits) = rest refl in
      (Rotated-trans is_settled further.0.runs next.runs r.runs rotated less.0, same ∙ less.1, fits)

  make_room-Roomy :
      (fuel extra : ℕ) (full : Refusal) (r : RunRegistry V K)
      → length r.runs < fuel
      → Roomy extra r (make_room is_uuid result_json event_json w fuel extra full r)
  unfolding make_room
  make_room-Roomy zero extra full r enough = absurd (omega arith)
  make_room-Roomy (suc fuel) extra full r enough =
      elim (Bool-cases (ltb (length (runs_pinned false r.runs) + extra) 64)) [
        | inl room ↦ rw room (Rotated-refl is_settled r.runs, refl, (λ h. ltb→lt _ _ room))
        | inr crowded ↦ rw crowded (
            at_position_holds (Roomy extra r) (position (can_rotate r.active) r.runs) (r, err full)
              (λ index.
                let removed = remove_history is_uuid result_json event_json w r index in
                and_then is_uuid result_json event_json w removed
                  (make_room is_uuid result_json event_json w fuel extra full removed.0))
              (λ stuck. (Rotated-refl is_settled r.runs, refl, (λ h. absurd cc)))
              (λ index found.
                let removed = remove_history is_uuid result_json event_json w r index in
                let less =
                  remove_history-ShorterBy is_uuid result_json event_json w is_settled r index
                    (λ old at.
                      rotating r.active old
                        (position-nth (can_rotate r.active) index r.runs old found at)) in
                and_then-Roomy extra r removed
                  (make_room is_uuid result_json event_json w fuel extra full removed.0) less
                  (λ fine.
                    make_room-Roomy fuel extra full removed.0
                      (omega (arith, less.2 fine, enough)))))
      ]

  -- The loop that makes room in the history removes only runs that have ended with their cleanup
  -- confirmed and are not pinned, and leaves the starts that are pending; with more fuel than there are
  -- runs, either those that are not pinned and the `extra` ones are fewer than 64, or it was refused.
  pub make_room-bounds :
      (fuel extra : ℕ) (full : Refusal) (r : RunRegistry V K)
      → length r.runs < fuel
      → let (after, result) = make_room is_uuid result_json event_json w fuel extra full r in
        Rotated is_settled after.runs r.runs
        × (after.pending_starts ≡ r.pending_starts)
        × ((length (runs_pinned false after.runs) + extra < 64)
            ⊎ ((reason : Refusal) × (result ≡ err reason)))
  make_room-bounds fuel extra full r enough =
      let (rotated, same, fits) = make_room-Roomy fuel extra full r enough in
      (
        rotated,
        same,
        or_refused (make_room is_uuid result_json event_json w fuel extra full r).1 fits,
      )
