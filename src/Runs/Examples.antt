-- ===== src/Runs/Examples.antt =====
-- Runs of the operations on the registry, and instances of the theorems.
use idk.Common.{
  ◌+◌, ◌≡◌, ◌<◌, refl, [], text_Eq, ◌∷◌, true, false, codes, err, length, ◌⊎◌, arith, is_ok,
}
use idk.Common.Assoc.{lookup, contains_key, insert, remove}
use idk.Ledger.Runs.{
  runs_pinned, check_steps, check_log, check_artifact, check_sizes, check_result, check_events,
  retired_step, check_kept, check_definition, check_paths, run_step, check_journal, check_runs,
  validate_run_ledger, run_ids,
}
use idk.RunLog.{with_file}
use idk.Runs.{Refusal, history_full, find_run, update_run, info_of, persist}
use idk.Runs.Finish.{cancel, acknowledge_unknown_cleanup, measure_artifact}
use idk.Runs.Observed.{finish_observed, ending, let_go, ended_run, recorded, finish_existing}
use idk.Runs.Retention.{
  expire_history, make_room, runtime_identity, can_rotate, cleanup_retired, remove_history,
}
use idk.Runs.Pins.{pin_result, check_pin, set_pin, prepare_pin}
use idk.Runs.Rollback.{
  Durable, cancel-Durable, acknowledge_unknown_cleanup-Durable, pin_result-Durable,
}
use idk.Runs.Outcome.{Held, Released, finish_observed-releases}
use idk.Runs.Removal.{Rotated, is_settled, is_old}
use idk.Runs.Rotation.{NoneOverdue, expire_history-expires, make_room-bounds}
use idk.Ledger.{observation as ledger_observation}
use idk.Model.Fields.{valid_name, absolute_path, valid_id}
use idk.Runs.Fixtures.{
  is_uuid, result_json, event_json, capture, collect, disk, later_disk, lease, active_run, registry,
  ended,
}

cancel-Durable_example :
    Durable is_uuid result_json event_json disk registry
      (cancel is_uuid result_json event_json disk registry (codes "r") true).0
cancel-Durable_example =
    cancel-Durable is_uuid result_json event_json disk registry (codes "r") true

acknowledge_unknown_cleanup-Durable_example :
    Durable is_uuid result_json event_json disk registry
      (acknowledge_unknown_cleanup is_uuid result_json event_json disk registry (codes "u")).0
acknowledge_unknown_cleanup-Durable_example =
    acknowledge_unknown_cleanup-Durable is_uuid result_json event_json disk registry (codes "u")

pin_result-Durable_example :
    Durable is_uuid result_json event_json disk registry
      (pin_result
        (λ r. false)
        (λ events. false)
        is_uuid
        result_json
        event_json
        disk
        registry
        (codes "s")
        true).0
pin_result-Durable_example =
    pin_result-Durable (λ r. false) (λ events. false) is_uuid result_json event_json disk registry
      (codes "s")

finish_observed-releases_example :
    let after =
      (finish_observed capture collect is_uuid result_json event_json disk registry
        (codes "r")
        ended).0 in
    Held capture collect is_uuid result_json event_json disk registry after (codes "r") lease
    ⊎ Released capture collect is_uuid result_json event_json disk registry after
        (codes "r")
        true
        lease
unfolding lookup
finish_observed-releases_example =
    finish_observed-releases capture collect is_uuid result_json event_json disk registry
      (codes "r") active_run lease ended refl refl

expire_history-expires_example :
    let (after, result) = expire_history is_uuid result_json event_json later_disk registry in
    Rotated (is_old later_disk.now_ms) after.runs registry.runs
    × (after.pending_starts ≡ registry.pending_starts)
    × (NoneOverdue is_uuid result_json event_json later_disk after
        ⊎ ((reason : Refusal) × (result ≡ err reason)))
expire_history-expires_example =
    expire_history-expires is_uuid result_json event_json later_disk registry

make_room-bounds_example :
    let (after, result) = make_room is_uuid result_json event_json disk 4 1 history_full registry in
    Rotated is_settled after.runs registry.runs
    × (after.pending_starts ≡ registry.pending_starts)
    × ((length (runs_pinned false after.runs) + 1 < 64)
        ⊎ ((reason : Refusal) × (result ≡ err reason)))
make_room-bounds_example =
    make_room-bounds is_uuid result_json event_json disk 4 1 history_full registry (omega arith)

-- The settled run can be pinned, the end of the unknown one acknowledged, the active one finished, and
-- only the settled one expires.
pin_result-settled :
    is_ok
      (pin_result
        (λ r. false)
        (λ events. false)
        is_uuid
        result_json
        event_json
        disk
        registry
        (codes "s")
        true).1
    ≡ true
unfolding info_of persist find_run update_run check_pin set_pin prepare_pin pin_result check_steps
    check_log check_artifact check_sizes check_kept check_definition check_paths run_step
    check_journal check_runs validate_run_ledger ledger_observation valid_name absolute_path
    valid_id lookup idk.RunLog.descriptor with_file
pin_result-settled = refl

acknowledge_unknown_cleanup-unknown :
    is_ok (acknowledge_unknown_cleanup is_uuid result_json event_json disk registry (codes "u")).1
    ≡ true
unfolding info_of persist find_run update_run acknowledge_unknown_cleanup check_steps check_log
    check_artifact check_sizes check_kept check_definition check_paths run_step check_journal
    check_runs validate_run_ledger ledger_observation valid_name absolute_path valid_id lookup
    contains_key idk.RunLog.descriptor with_file
acknowledge_unknown_cleanup-unknown = refl

cancel-live : is_ok (cancel is_uuid result_json event_json disk registry (codes "r") true).1 ≡ true
unfolding info_of persist find_run update_run cancel check_steps check_log check_artifact
    check_sizes check_kept check_definition check_paths run_step check_journal check_runs
    validate_run_ledger ledger_observation valid_name absolute_path valid_id lookup
    idk.RunLog.descriptor with_file
cancel-live = refl

finish_observed-active :
    is_ok
      (finish_observed capture collect is_uuid result_json event_json disk registry
        (codes "r")
        ended).1
    ≡ true
unfolding info_of persist measure_artifact find_run update_run ending let_go ended_run recorded
    finish_existing finish_observed check_steps check_log check_artifact check_sizes check_result
    check_events check_kept check_definition check_paths run_step check_journal check_runs
    validate_run_ledger ledger_observation valid_name absolute_path valid_id lookup
    idk.RunLog.descriptor with_file insert
finish_observed-active = refl

expire_history-settled :
    run_ids (expire_history is_uuid result_json event_json later_disk registry).0.runs
    ≡ codes "r" ∷ codes "u" ∷ []
unfolding info_of persist runtime_identity can_rotate cleanup_retired remove_history expire_history
    check_steps check_log check_artifact check_sizes retired_step check_kept check_definition
    check_paths run_step check_journal check_runs validate_run_ledger ledger_observation valid_name
    absolute_path valid_id lookup idk.RunLog.descriptor with_file remove
expire_history-settled = refl
