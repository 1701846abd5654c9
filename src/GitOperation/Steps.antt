-- ===== src/GitOperation/Steps.antt =====
-- What happens to an operation, one call at a time: the calls of clients, of the host's loop and of the
-- executor (crates/idk/src/host/git_bridge.rs).
use idk.Common.{ℕ, List, [], ◌∷◌, Bool, true, ◌&&◌, Text, Result}
use idk.GitWire.Results.{GitOperationResult}
use idk.GitOperation.{
  Operation, Terminal, Kernel, Report, CommandOutcome, SendResult, attach, detach, input, resize,
  cancel, install, inventory, tick, finish, forget_screen, notice, active,
}

pub data Event (T C : Type 0) : Type 0 where
  attaches : (client : Text) → (takeover : Bool) → Event T C
  detaches : (client : Text) → (epoch : ℕ) → Event T C
  inputs : (client : Text) → (epoch : ℕ) → (bytes : List ℕ) → Event T C
  resizes : (client : Text) → (epoch rows cols : ℕ) → Event T C
  cancels : (client : Text) → (epoch : ℕ) → (force : Bool) → Event T C
  installs : (terminal : T) → (completion : C) → Event T C
  inventories : (report : Report) → Event T C
  ticks : (now : ℕ) → Event T C
  finishes : (now : ℕ) → (result : Result Text GitOperationResult) → Event T C
  forgets : Event T C
  notices : (message : Text) → Event T C

-- The executor runs one operation at a time, from its submission until its result is recorded by
-- `finish`, and installs the terminal inside: the installation finds the operation active.
abbrev pub may_happen : {T S C : Type 0} → Operation T S C → Event T C → Bool
may_happen o (installs t c) = active o
may_happen o _ = true

module _ {T S C : Type 0} (terminals : Terminal T S) (k : Kernel) (decimal : ℕ → Text)
    (try_send : C → CommandOutcome → SendResult) where
  unfoldable pub step : Operation T S C → Event T C → Operation T S C
  step o (attaches client takeover) = (attach o client takeover).0
  step o (detaches client epoch) = (detach o client epoch).0
  step o (inputs client epoch bytes) = (input terminals o client epoch bytes).0
  step o (resizes client epoch rows cols) = (resize terminals o client epoch rows cols).0
  step o (cancels client epoch force) = (cancel terminals o client epoch force).0
  step o (installs t c) = install terminals o t c
  step o (inventories report) = inventory terminals k decimal o report
  step o (ticks now) = (tick terminals try_send now o).0
  step o (finishes now result) = finish o now result
  step o forgets = forget_screen o
  step o (notices message) = notice o message

  unfoldable pub run : Operation T S C → List (Event T C) → Operation T S C
  run o [] = o
  run o (e ∷ events) = run (step o e) events

  unfoldable pub installs_active : Operation T S C → List (Event T C) → Bool
  unfolding step
  installs_active o [] = true
  installs_active o (e ∷ events) = may_happen o e && installs_active (step o e) events
