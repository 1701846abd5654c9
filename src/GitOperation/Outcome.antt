-- ===== src/GitOperation/Outcome.antt =====
-- An operation when it reports its outcome, and when it is finished (crates/idk/src/host/git_operation.rs).
use idk.Common.{
  ℕ, ◌≡◌, refl, sym, ap, ◌∙◌, List, Option, none, some, true, false, Text, is_none, is_some, Result,
  ok, err, arith,
}
use idk.GitWire.Results.{GitOperationInfo}
use idk.GitOperation.{
  Operation, Terminal, Kernel, TerminalExit, CommandOutcome, SendResult, new, waited, tick_live,
  tick_with, tick, observe_status, end_reading, freeze, report_outcome, reap, note_exit,
}
use idk.GitOperation.Steps.{Event, run, installs_active}
use idk.GitOperation.Settled.{Settled, is_complete_state, run-keeps}

module _ {T S C : Type 0} where
  module _ (terminals : Terminal T S) (try_send : C → CommandOutcome → SendResult) where
    freeze-cleanup :
        (now : ℕ) (o : Operation T S C) (t : T)
        → ((freeze terminals now o t).0.cleanup_done ≡ o.cleanup_done)
          × ((freeze terminals now o t).0.cancelled ≡ o.cancelled)
          × ((freeze terminals now o t).0.exit ≡ o.exit)
    unfolding freeze end_reading
    freeze-cleanup now o t = ground arith

    reap-reports :
        (now : ℕ) (o : Operation T S C) (t : T) (outcome : CommandOutcome)
        → (reap terminals try_send now o t).1 ≡ some outcome
        → (o.cleanup_done ≡ true)
          × (outcome.was_cancelled ≡ o.cancelled)
          × (is_none (reap terminals try_send now o t).0.terminal ≡ true)
          × (is_none (reap terminals try_send now o t).0.completion ≡ true)
          × ((reap terminals try_send now o t).0.exit ≡ o.exit)
    unfolding reap report_outcome
    reap-reports now o t outcome h = ground arith

    -- What is true when an outcome is sent.
    pub record Reported (o o' : Operation T S C) (outcome : CommandOutcome) : Type 0 where
      pub cleaned : o.cleanup_done ≡ true
      pub says_cancelled : outcome.was_cancelled ≡ o.cancelled
      pub owned_before : is_some o.terminal ≡ true
      pub exit_seen : is_some o'.exit ≡ true
      pub released : is_none o'.terminal ≡ true
      pub sent_once : is_none o'.completion ≡ true

    note-exit :
        (now : ℕ) (o : Operation T S C) (exit : TerminalExit)
        → is_some (note_exit now o exit).exit ≡ true
    note-exit now o exit = ground arith

    note-keeps :
        (now : ℕ) (o : Operation T S C) (exit : TerminalExit)
        → ((note_exit now o exit).cleanup_done ≡ o.cleanup_done)
          × ((note_exit now o exit).cancelled ≡ o.cancelled)
    note-keeps now o exit = (ground arith, ground arith)

    observe-keeps :
        (o : Operation T S C) (t : T)
        → ((observe_status terminals o t).0.cleanup_done ≡ o.cleanup_done)
          × ((observe_status terminals o t).0.cancelled ≡ o.cancelled)
    unfolding observe_status
    observe-keeps o t = (ground arith, ground arith)

    waited-reports :
        (now : ℕ) (o : Operation T S C) (t : T) (r : Result Text (Option TerminalExit))
        (outcome : CommandOutcome)
        → (waited terminals try_send now o t r).1 ≡ some outcome
        → (o.cleanup_done ≡ true)
          × (outcome.was_cancelled ≡ o.cancelled)
          × (is_some (waited terminals try_send now o t r).0.exit ≡ true)
          × (is_none (waited terminals try_send now o t r).0.terminal ≡ true)
          × (is_none (waited terminals try_send now o t r).0.completion ≡ true)
    unfolding waited
    waited-reports now o t (err e) outcome h = absurd (ground (arith, h))
    waited-reports now o t (ok none) outcome h = absurd (ground (arith, h))
    waited-reports now o t (ok (some exit)) outcome h =
        let o1 : Operation T S C = note_exit now o exit in
        let o2 : Operation T S C = (freeze terminals now o1 t).0 in
        let t2 : T = (freeze terminals now o1 t).1 in
        let (cleaned, says, gone, once, seen) = reap-reports now o2 t2 outcome h in
        let (a, b, c) = freeze-cleanup now o1 t in
        let (d, e) = note-keeps now o exit in
        (
          sym d ∙ sym a ∙ cleaned,
          says ∙ b ∙ e,
          ap is_some (seen ∙ c) ∙ note-exit now o exit,
          gone,
          once,
        )

    -- When a tick sends an outcome to the executor, the operation had a terminal and its cleanup
    -- was done, the outcome says whether the operation was cancelled, and the operation after it
    -- has an observed exit, and neither the terminal nor the channel.
    pub tick-Reported :
        (now : ℕ) (o : Operation T S C) (outcome : CommandOutcome)
        → (tick terminals try_send now o).1 ≡ some outcome
        → Reported o (tick terminals try_send now o).0 outcome
    unfolding tick tick_with tick_live
    tick-Reported now o outcome h = by_terminal o.terminal refl h
      where
        by_terminal :
            (terminal : Option T)
            → o.terminal ≡ terminal
            → (tick_with terminals try_send now o terminal).1 ≡ some outcome
            → Reported o (tick_with terminals try_send now o terminal).0 outcome
        by_terminal none same k = absurd (ground (arith, k))
        by_terminal (some t) same k =
            let (seen, t1) = observe_status terminals o t in
            let (t', r) = terminals.try_wait t1 in
            let (cleaned, says, exited, gone, once) =
              waited-reports now (record seen { terminal = some t' }) t' r outcome k in
            let (a, b) = observe-keeps o t in
            record {
              cleaned = sym a ∙ cleaned;
              says_cancelled = says ∙ b;
              owned_before = ap is_some same;
              exit_seen = exited;
              released = gone;
              sent_once = once;
            }

  module _ (terminals : Terminal T S) (k : Kernel) (decimal : ℕ → Text)
      (try_send : C → CommandOutcome → SendResult) where
    -- Whatever happens to an operation that begins in a state other than `complete`, if a terminal is
    -- only ever installed while the operation is active: when it is finished it has no terminal and no
    -- owner, and it is `complete` only when it is finished.
    pub run-Settled :
        (info : GitOperationInfo) (es : List (Event T C))
        → is_complete_state info.state ≡ false
        → installs_active terminals k decimal try_send (new info) es ≡ true
        → Settled (run terminals k decimal try_send (new info) es)
    run-Settled info es h allowed =
        run-keeps terminals k decimal try_send (new info) es allowed
          (record { quiet = refl; done = rw h refl })
