-- ===== src/Runs/Pins.antt =====
-- `pin_result` of crates/idk/src/run.rs. `is_gone` tells of a result, and `are_gone` of events, that the
-- result store finds them expired or tampered with (`verify` and `retained_events`).
use idk.Common.{
  ℕ, suc, List, Text, Eq, Bool, true, false, ◌||◌, not, leb, ltb, length, if◌then◌else◌, Result,
  Check, ok, err, ensure, when_some, ◌>>◌,
}
use idk.RunWire.{is_live}
use idk.RunWire.Info.{RunInfo}
use idk.Structured.{StructuredResult, EventProgress}
use idk.Ledger.Runs.{
  pinned_run_limit, pinned_result_bytes, retained_bytes, retained_by, runs_pinned, saturating_add,
  saturating_sum,
}
use idk.Runs.{
  RunRegistry, World, Refusal, pin_unconfirmed, pin_expired, pin_count, pin_bytes, unpin_full,
  update_run, info, persist,
}
use idk.Runs.Finish.{or_restore}
use idk.Runs.Retention.{make_room}

abbrev pub same_bool : Bool → Bool → Bool
same_bool true b = b
same_bool false b = not b

module _ {V : Type 0} (is_gone : StructuredResult V → Bool) (are_gone : EventProgress → Bool) where
  -- The conditions of a new pin.
  unfoldable pub check_pin : List (RunInfo V) → RunInfo V → Check Refusal
  check_pin runs current =
      when_some current.structured_result (λ result. ensure (not (is_gone result)) pin_expired)
      >> when_some current.events (λ events. ensure (not (are_gone events)) pin_expired)
      >> ensure (ltb (length (runs_pinned true runs)) pinned_run_limit) pin_count
      >> ensure
          (leb
            (saturating_add (saturating_sum 0 (retained_by (runs_pinned true runs)))
              (retained_bytes current))
            pinned_result_bytes)
          pin_bytes

module _ {V K : Type 0} ⦃e : Eq K⦄ (is_gone : StructuredResult V → Bool)
    (are_gone : EventProgress → Bool) (is_uuid : Text → Bool) (result_json : StructuredResult V → ℕ)
    (event_json : EventProgress → ℕ) (w : World V) where
  abbrev pub with_pin : RunRegistry V K → Text → Bool → RunRegistry V K
  with_pin r id pinned = record r {
    runs = update_run id (λ x. record x { pinned = pinned }) r.runs;
  }

  -- The pin is put back where the registry cannot be saved.
  unfoldable pub set_pin :
      RunRegistry V K → Text → Bool → Bool → RunRegistry V K × Result Refusal (RunInfo V)
  set_pin r id before pinned =
      let after = with_pin r id pinned in
      or_restore (with_pin after id before) after (persist is_uuid result_json event_json w after)
        (info w after id)

  -- What precedes the change: checks for a pin, room in the history for its removal.
  unfoldable pub prepare_pin : RunRegistry V K → RunInfo V → Bool → RunRegistry V K × Check Refusal
  prepare_pin r current true = (r, check_pin is_gone are_gone r.runs current)
  prepare_pin r current false =
      make_room is_uuid result_json event_json w (suc (length r.runs)) 0 unpin_full r

  abbrev pub continue_pin :
      RunRegistry V K × Check Refusal
      → Text
      → Bool
      → Bool
      → RunRegistry V K × Result Refusal (RunInfo V)
  continue_pin (r, err reason) id before pinned = (r, err reason)
  continue_pin (r, ok _) id before pinned = set_pin r id before pinned

  unfoldable pub pin_current :
      RunRegistry V K
      → Text
      → Bool
      → Result Refusal (RunInfo V)
      → RunRegistry V K × Result Refusal (RunInfo V)
  pin_current r id pinned (err reason) = (r, err reason)
  pin_current r id pinned (ok current) =
      if is_live current.state || not current.cleanup_confirmed
      then (r, err pin_unconfirmed)
      else if same_bool current.pinned pinned
      then (r, ok current)
      else continue_pin (prepare_pin r current pinned) id current.pinned pinned

  unfoldable pub pin_result :
      RunRegistry V K → Text → Bool → RunRegistry V K × Result Refusal (RunInfo V)
  unfolding pin_current
  pin_result r id pinned = pin_current r id pinned (info w r id)
