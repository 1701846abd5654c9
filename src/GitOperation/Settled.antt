-- ===== src/GitOperation/Settled.antt =====
-- What a finished operation keeps in every step (crates/idk/src/host/git_operation.rs).
use idk.Common.{
  ℕ, ◌+◌, ◌≡◌, refl, ap, List, [], ◌∷◌, Option, none, some, Bool, true, false, ◌&&◌, ◌||◌, not,
  Text, ◌==◌, is_none, is_some, Result, ok, err, arith, Bool-cases, inl, inr,
}
use idk.GitWire.Results.{GitOperationState, GitOperationResult, InputOwner, complete}
use idk.GitOperation.{
  Operation, Terminal, Kernel, Report, Process, Anchor, TerminalExit, CommandOutcome, SendResult,
  attach, detach, input, resize, cancel, install, inventory, inspect, waited, tick_live, tick_with,
  tick, finish, forget_screen, notice, owner, advance, hand_over, close_terminal, anchor, tend,
  tend_all, observe_status, end_reading, freeze, report_outcome, reap, note_exit, or_last,
}
use idk.GitOperation.Steps.{
  Event, step, run, attaches, detaches, inputs, resizes, cancels, installs, inventories, ticks,
  finishes, forgets, notices, may_happen, installs_active,
}

abbrev pub is_complete_state : GitOperationState → Bool
is_complete_state complete = true
is_complete_state _ = false

module _ {T S C : Type 0} where
  -- A finished operation has no terminal and no owner, and one whose state is `complete` is finished.
  pub record Settled (o : Operation T S C) : Type 0 where
    pub quiet : (is_none o.finished_at || (is_none o.terminal && is_none o.info.owner)) ≡ true
    pub done : (not (is_complete_state o.info.state) || is_some o.finished_at) ≡ true

  hand_over-Settled :
      (o : Operation T S C) (next : Option InputOwner)
      → is_none o.finished_at ≡ true
      → Settled o
      → Settled (hand_over o next).0
  unfolding hand_over advance
  hand_over-Settled o next live s = ground arith

  attach-Settled :
      (o : Operation T S C) (client : Text) (takeover : Bool)
      → Settled o
      → Settled (attach o client takeover).0
  unfolding attach
  attach-Settled o client takeover s = elim (Bool-cases (is_none o.finished_at)) [
    | inl live ↦ ground (arith, hand_over-Settled o (some (record { client_id = client })) live s)
    | inr over ↦ rw over s
  ]

  detach-Settled :
      (o : Operation T S C) (client : Text) (e : ℕ) → Settled o → Settled (detach o client e).0
  unfolding detach
  detach-Settled o client e s = elim (Bool-cases (is_none o.finished_at)) [
    | inl live ↦ ground (arith, hand_over-Settled o none live s)
    | inr over ↦ rw over s
  ]

  notice-Settled : (o : Operation T S C) (message : Text) → Settled o → Settled (notice o message)
  unfolding notice
  notice-Settled o message s = ground arith

  finish-Settled :
      (o : Operation T S C) (now : ℕ) (r : Result Text GitOperationResult)
      → Settled o
      → Settled (finish o now r)
  unfolding finish
  finish-Settled o now r s = ground arith

  -- An operation that runs.
  record Live (o : Operation T S C) : Type 0 where
    unfinished : is_none o.finished_at ≡ true
    going : is_complete_state o.info.state ≡ false

  terminal-Live : (o : Operation T S C) → is_some o.terminal ≡ true → Settled o → Live o
  terminal-Live o h s = ground arith

  Live-Settled : (o : Operation T S C) → Live o → Settled o
  Live-Settled o l = ground arith

  module _ (terminals : Terminal T S) (k : Kernel) (decimal : ℕ → Text)
      (try_send : C → CommandOutcome → SendResult) where
    reap-Settled :
        (now : ℕ) (o : Operation T S C) (t : T)
        → Live o
        → Settled (reap terminals try_send now o t).0
    unfolding reap report_outcome
    reap-Settled now o t l = ground arith

    freeze-Live :
        (now : ℕ) (o : Operation T S C) (t : T) → Live o → Live (freeze terminals now o t).0
    unfolding freeze end_reading
    freeze-Live now o t l = ground arith

    note-Live :
        (now : ℕ) (o : Operation T S C) (exit : TerminalExit) → Live o → Live (note_exit now o exit)
    note-Live now o exit l = ground arith

    observe-Live : (o : Operation T S C) (t : T) → Live o → Live (observe_status terminals o t).0
    unfolding observe_status
    observe-Live o t l = ground arith

    waited-Settled :
        (now : ℕ) (o : Operation T S C) (t : T) (r : Result Text (Option TerminalExit))
        → Live o
        → Settled (waited terminals try_send now o t r).0
    unfolding waited
    waited-Settled now o t (err e) l = ground arith
    waited-Settled now o t (ok none) l = Live-Settled o l
    waited-Settled now o t (ok (some exit)) l =
        let o1 : Operation T S C = note_exit now o exit in
        let (frozen, t') = freeze terminals now o1 t in
        reap-Settled now frozen t' (freeze-Live now o1 t (note-Live now o exit l))

    tick-Settled :
        (now : ℕ) (o : Operation T S C) (terminal : Option T)
        → o.terminal ≡ terminal
        → Settled o
        → Settled (tick_with terminals try_send now o terminal).0
    unfolding tick_with tick_live
    tick-Settled now o none same s = s
    tick-Settled now o (some t) same s =
        let live : Live o = terminal-Live o (ap is_some same) s in
        let (seen, t1) = observe_status terminals o t in
        let (t', r) = terminals.try_wait t1 in
        let still : Live seen = observe-Live o t live in
        waited-Settled now (record seen { terminal = some t' }) t' r
          (record { unfinished = still.unfinished; going = still.going })

    tend-Settled :
        (leader : ℕ) (o : Operation T S C) (p : Process)
        → Settled o
        → Settled (tend terminals k leader o p).0
    unfolding tend
    tend-Settled leader o p s = ground arith

    tend_all-Settled :
        (leader : ℕ) (o : Operation T S C) (ps : List Process) (found : ℕ) (failure : Option Text)
        → Settled o
        → Settled (tend_all terminals k leader o ps found failure).0
    unfolding tend_all
    tend_all-Settled leader o [] found failure s = s
    tend_all-Settled leader o (p ∷ ps) found failure s = elim (Bool-cases (p.session == leader)) [
      | inl own ↦ rw own (
          tend_all-Settled leader (tend terminals k leader o p).0 ps (found + 1)
            (or_last (tend terminals k leader o p).1 failure) (tend-Settled leader o p s))
      | inr other ↦ rw other (tend_all-Settled leader o ps found failure s)
    ]

    inspect-Settled :
        (o : Operation T S C) (report : Report) (a : Option Anchor)
        → Settled o
        → Settled (inspect terminals k decimal o report a)
    unfolding inspect notice
    inspect-Settled o report none s = s
    inspect-Settled o report (some a) s =
        ground (arith, tend_all-Settled a.pid o report.processes 0 report.error s)

    step-Settled :
        (o : Operation T S C) (e : Event T C)
        → may_happen o e ≡ true
        → Settled o
        → Settled (step terminals k decimal try_send o e)
    unfolding step
    step-Settled o (attaches client takeover) may s = attach-Settled o client takeover s
    step-Settled o (detaches client e) may s = detach-Settled o client e s
    step-Settled o (inputs client e bytes) may s = unfold input owner in ground arith
    step-Settled o (resizes client e rows cols) may s = unfold resize owner in ground arith
    step-Settled o (cancels client e force) may s =
        unfold cancel close_terminal owner in ground arith
    step-Settled o (installs t c) may s = unfold install close_terminal notice in ground arith
    step-Settled o (inventories report) may s =
        unfold inventory in inspect-Settled o report (anchor terminals o) s
    step-Settled o (ticks now) may s = unfold tick in tick-Settled now o o.terminal refl s
    step-Settled o (finishes now result) may s = finish-Settled o now result s
    step-Settled o forgets may s = unfold forget_screen in ground arith
    step-Settled o (notices message) may s = notice-Settled o message s

    pub run-keeps :
        (o : Operation T S C) (es : List (Event T C))
        → installs_active terminals k decimal try_send o es ≡ true
        → Settled o
        → Settled (run terminals k decimal try_send o es)
    unfolding run installs_active
    run-keeps o [] allowed s = s
    run-keeps o (e ∷ es) allowed s =
        run-keeps (step terminals k decimal try_send o e) es (ground (arith, allowed))
          (step-Settled o e (ground (arith, allowed)) s)
