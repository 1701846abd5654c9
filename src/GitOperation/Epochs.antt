-- ===== src/GitOperation/Epochs.antt =====
-- The input epoch only grows, so that who lost the ownership cannot act any more.
use idk.Common.{
  ℕ, ◌+◌, ◌≤◌, ◌<◌, ◌≡◌, ◌≢◌, refl, ◌∙◌, List, [], ◌∷◌, Option, none, some, Bool, true, false, Text,
  text_eq_iff, Bool-cases, inl, inr, is_none, Result, ok, err, is_ok, arith,
}
use idk.GitWire.Results.{GitOperationResult, InputOwner}
use idk.GitOperation.{
  Operation, Terminal, Kernel, Report, Process, TerminalExit, CommandOutcome, SendResult, attach,
  detach, input, resize, cancel, install, inventory, inspect, waited, tick_live, tick_with, tick,
  Anchor, finish, forget_screen, notice, owner, advance, hand_over, close_terminal, anchor, tend,
  tend_all, observe_status, end_reading, freeze, report_outcome, reap, note_exit, owned_by, or_last,
}
use idk.GitOperation.Steps.{
  Event, step, run, attaches, detaches, inputs, resizes, cancels, installs, inventories, ticks,
  finishes, forgets, notices,
}

module _ {T S C : Type 0} where
  hand_over-epoch :
      (o : Operation T S C) (next : Option InputOwner)
      → o.info.input_epoch ≤ (hand_over o next).0.info.input_epoch
  unfolding hand_over advance
  hand_over-epoch o next = ground arith

  attach-epoch :
      (o : Operation T S C) (client : Text) (takeover : Bool)
      → o.info.input_epoch ≤ (attach o client takeover).0.info.input_epoch
  unfolding attach
  attach-epoch o client takeover =
      ground (arith, hand_over-epoch o (some (record { client_id = client })))

  detach-epoch :
      (o : Operation T S C) (client : Text) (e : ℕ)
      → o.info.input_epoch ≤ (detach o client e).0.info.input_epoch
  unfolding detach
  detach-epoch o client e = ground (arith, hand_over-epoch o none)

  notice-epoch :
      (o : Operation T S C) (message : Text)
      → o.info.input_epoch ≡ (notice o message).info.input_epoch
  unfolding notice
  notice-epoch o message = ground arith

  finish-epoch :
      (o : Operation T S C) (now : ℕ) (r : Result Text GitOperationResult)
      → o.info.input_epoch ≡ (finish o now r).info.input_epoch
  unfolding finish
  finish-epoch o now r = ground arith

  module _ (terminals : Terminal T S) (k : Kernel) (decimal : ℕ → Text)
      (try_send : C → CommandOutcome → SendResult) where
    tend-epoch :
        (leader : ℕ) (o : Operation T S C) (p : Process)
        → o.info.input_epoch ≡ (tend terminals k leader o p).0.info.input_epoch
    unfolding tend
    tend-epoch leader o p = ground arith

    tend_all-epoch :
        (leader : ℕ) (o : Operation T S C) (ps : List Process) (found : ℕ) (failure : Option Text)
        → o.info.input_epoch ≡ (tend_all terminals k leader o ps found failure).0.info.input_epoch
    unfolding tend_all
    tend_all-epoch leader o [] found failure = refl
    tend_all-epoch leader o (p ∷ ps) found failure = ground (
      arith,
      tend-epoch leader o p,
      tend_all-epoch leader o ps found failure,
      tend_all-epoch leader (tend terminals k leader o p).0 ps (found + 1)
          (or_last (tend terminals k leader o p).1 failure),
    )

    inspect-epoch :
        (o : Operation T S C) (report : Report) (a : Option Anchor)
        → o.info.input_epoch ≡ (inspect terminals k decimal o report a).info.input_epoch
    unfolding inspect notice
    inspect-epoch o report none = refl
    inspect-epoch o report (some a) =
        ground (arith, tend_all-epoch a.pid o report.processes 0 report.error)

    observe-epoch :
        (o : Operation T S C) (t : T)
        → o.info.input_epoch ≡ (observe_status terminals o t).0.info.input_epoch
    unfolding observe_status
    observe-epoch o t = ground arith

    note-epoch :
        (now : ℕ) (o : Operation T S C) (exit : TerminalExit)
        → o.info.input_epoch ≡ (note_exit now o exit).info.input_epoch
    note-epoch now o exit = ground arith

    freeze-epoch :
        (now : ℕ) (o : Operation T S C) (t : T)
        → o.info.input_epoch ≡ (freeze terminals now o t).0.info.input_epoch
    unfolding freeze end_reading
    freeze-epoch now o t = ground arith

    reap-epoch :
        (now : ℕ) (o : Operation T S C) (t : T)
        → o.info.input_epoch ≡ (reap terminals try_send now o t).0.info.input_epoch
    unfolding reap report_outcome
    reap-epoch now o t = ground arith

    waited-epoch :
        (now : ℕ) (o : Operation T S C) (t : T) (r : Result Text (Option TerminalExit))
        → o.info.input_epoch ≡ (waited terminals try_send now o t r).0.info.input_epoch
    unfolding waited
    waited-epoch now o t (err e) = refl
    waited-epoch now o t (ok none) = refl
    waited-epoch now o t (ok (some exit)) =
        let o' : Operation T S C = note_exit now o exit in
        let (frozen, t') = freeze terminals now o' t in
        note-epoch now o exit ∙ freeze-epoch now o' t ∙ reap-epoch now frozen t'

    tick-epoch :
        (now : ℕ) (o : Operation T S C) (t : Option T)
        → o.info.input_epoch ≡ (tick_with terminals try_send now o t).0.info.input_epoch
    unfolding tick_with tick_live
    tick-epoch now o none = refl
    tick-epoch now o (some t) =
        let (seen, t1) = observe_status terminals o t in
        let (t', r) = terminals.try_wait t1 in
        observe-epoch o t ∙ waited-epoch now (record seen { terminal = some t' }) t' r

    -- Nothing that happens to an operation makes its epoch smaller.
    step-epoch :
        (o : Operation T S C) (e : Event T C)
        → o.info.input_epoch ≤ (step terminals k decimal try_send o e).info.input_epoch
    unfolding step
    step-epoch o (attaches client takeover) = attach-epoch o client takeover
    step-epoch o (detaches client e) = detach-epoch o client e
    step-epoch o (inputs client e bytes) = unfold input in ground arith
    step-epoch o (resizes client e rows cols) = unfold resize in ground arith
    step-epoch o (cancels client e force) = unfold cancel close_terminal in ground arith
    step-epoch o (installs t c) = unfold install close_terminal notice in ground arith
    step-epoch o (inventories report) =
        unfold inventory in omega (arith, inspect-epoch o report (anchor terminals o))
    step-epoch o (ticks now) = unfold tick in omega (arith, tick-epoch now o o.terminal)
    step-epoch o (finishes now result) = omega (arith, finish-epoch o now result)
    step-epoch o forgets = unfold forget_screen in ground arith
    step-epoch o (notices message) = omega (arith, notice-epoch o message)

    run-epoch :
        (o : Operation T S C) (es : List (Event T C))
        → o.info.input_epoch ≤ (run terminals k decimal try_send o es).info.input_epoch
    unfolding run
    run-epoch o [] = omega arith
    run-epoch o (e ∷ es) =
        omega (arith, step-epoch o e, run-epoch (step terminals k decimal try_send o e) es)

    other-owner :
        (now_owner : Option InputOwner) (old client : Text)
        → owned_by now_owner old ≡ true
        → old ≢ client
        → (is_none now_owner ≡ false) × (owned_by now_owner client ≡ false)
    other-owner none old client h other = absurd (ground (arith, h))
    other-owner (some x) old client h other =
        (refl, ground (arith, h, text_eq_iff x.client_id old, text_eq_iff x.client_id client))

    owner-holds :
        (o : Operation T S C) (client : Text) (e : ℕ)
        → owner o client e ≡ ok tt
        → (owned_by o.info.owner client ≡ true) × (o.info.input_epoch ≡ e)
    unfolding owner
    owner-holds o client e h = (ground (arith, h), ground (arith, h))

    hand_over-moves :
        (o : Operation T S C) (next : Option InputOwner)
        → (hand_over o next).1 ≡ ok tt
        → (hand_over o next).0.info.input_epoch ≡ o.info.input_epoch + 1
    unfolding hand_over advance
    hand_over-moves o next h = ground arith

    attach-moves :
        (o : Operation T S C) (old client : Text) (takeover : Bool) (stale : ℕ)
        → owner o old stale ≡ ok tt
        → old ≢ client
        → is_none o.finished_at ≡ true
        → (attach o client takeover).1 ≡ ok tt
        → stale < (attach o client takeover).0.info.input_epoch
    unfolding attach
    attach-moves o old client takeover stale h other live done =
        let (held, same) = owner-holds o old stale h in
        let (taken, foreign) = other-owner o.info.owner old client held other in
        let next : Option InputOwner = some (record { client_id = client }) in
        elim (Bool-cases takeover) [
          | inl forced ↦
              rw (live, taken, foreign, forced)
                (omega
                  (arith, same, hand_over-moves o next (rw (live, taken, foreign, forced) at done)))
          | inr polite ↦ absurd (ground (arith, rw (live, taken, foreign, polite) at done))
        ]

    -- When another client's attach to an active operation succeeds, the client and epoch that were
    -- accepted before it are refused for good, whatever happens to the operation afterwards.
    pub attach-fences :
        (o : Operation T S C) (old client : Text) (takeover : Bool) (stale : ℕ)
        (es : List (Event T C))
        → owner o old stale ≡ ok tt
        → old ≢ client
        → is_none o.finished_at ≡ true
        → (attach o client takeover).1 ≡ ok tt
        → is_ok (owner (run terminals k decimal try_send (attach o client takeover).0 es) old stale)
          ≡ false
    unfolding owner
    attach-fences o old client takeover stale es h other live done =
        let taken : Operation T S C = (attach o client takeover).0 in
        let later : Operation T S C = run terminals k decimal try_send taken es in
        let less : stale < later.info.input_epoch =
          omega (
            arith,
            run-epoch taken es,
            attach-moves o old client takeover stale h other live done,
          ) in
        ground (arith, less)
