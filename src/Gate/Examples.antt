-- ===== src/Gate/Examples.antt =====
-- The gate on a few concrete calls: the unit tests of model.rs, and instances of the theorems.
use idk.Common.{◌≡◌, refl, ◌&&◌, List, [], ◌∷◌, none, some, true, false, Text, text_Eq, is_ok}
use idk.Common.Assoc.{lookup, contains_key, insert}
use idk.Gate.{
  SourceGate, GateLease, entry, block, set_ready, update, reserve, reserve_run, reserve_mutation,
  drop_lease,
}
use idk.Gate.Steps.{Call, blocks, readies, runs, mutates, step, run}
use idk.Gate.Exclusion.{Exclusive, run-Exclusive, held_lease_refuses}
use idk.Gate.Leases.{drop_lease-reserve, block_lasts}

abbrev worktree : Text
worktree = b'w' ∷ []

abbrev build : Text
build = b'b' ∷ []

abbrev pull : Text
pull = b'p' ∷ []

abbrev fresh_gate : SourceGate Text
fresh_gate = record { poisoned = false; states = [] }

abbrev ready_gate : SourceGate Text
ready_gate = record {
  poisoned = false;
  states =
      (
        worktree,
        record { provider_ready = true; blocks = []; runs = []; mutation = none; generation = 0 },
      )
      ∷ [];
}

abbrev build_lease : GateLease Text
build_lease = record { identity = worktree; operation = build; mutation = false }

abbrev competing : List (Call Text)
competing = readies worktree ∷ runs worktree build build ∷ mutates worktree pull ∷ []

-- `competing_run_and_mutation_cannot_both_hold_a_lease`
competing_calls : (run (record { gate = fresh_gate; held = [] }) competing).held ≡ build_lease ∷ []
unfolding run step set_ready update reserve_run reserve_mutation reserve lookup insert contains_key
competing_calls = refl

run-Exclusive_example : Exclusive (run (record { gate = fresh_gate; held = [] }) competing).held
run-Exclusive_example = run-Exclusive fresh_gate competing

held_lease_refuses_example :
    let w = run (record { gate = fresh_gate; held = [] }) competing in
    (is_ok (reserve_mutation w.gate worktree pull).1 ≡ false)
    × ((false && is_ok (reserve_run w.gate worktree pull pull).1) ≡ false)
unfolding run step set_ready update reserve_run reserve_mutation reserve lookup insert contains_key
held_lease_refuses_example = held_lease_refuses fresh_gate competing 0 build_lease pull pull refl

drop_lease-reserve_example :
    entry worktree
      (drop_lease (reserve ready_gate worktree build (some build)).0 build_lease).states
    ≡ entry worktree ready_gate.states
unfolding reserve lookup contains_key
drop_lease-reserve_example =
    drop_lease-reserve ready_gate worktree worktree build (some build) build_lease refl

block_lasts_example :
    is_ok
      (reserve
        (run
          (step (record { gate = ready_gate; held = [] }) (blocks worktree pull build))
          (readies worktree ∷ [])).gate
        worktree
        build
        none).1
    ≡ false
unfolding block update
block_lasts_example =
    block_lasts (record { gate = ready_gate; held = [] }) (readies worktree ∷ []) worktree pull
      build build none refl (refl, tt)
