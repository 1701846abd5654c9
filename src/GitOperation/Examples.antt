-- ===== src/GitOperation/Examples.antt =====
-- An operation with a terminal whose child has exited, and instances of the theorems.
use idk.Common.{
  ℕ, ◌≡◌, ◌≢◌, refl, List, [], ◌∷◌, none, some, Bool, true, false, Text, text_eq_iff, codes, ok,
  err, is_ok, arith, utf8,
}
use idk.Model.{Repository}
use idk.GitWire.Results.{GitOperationInfo, pending, push_branch}
use idk.GitOperation.{
  Operation, Terminal, Kernel, Screen, TerminalExit, TerminalStatus, CommandOutcome, SendResult,
  sent, running_child, new, attach, hand_over, advance, owner, tick, tick_with, tick_live, waited,
  freeze, end_reading, observe_status, reap, report_outcome,
}
use idk.GitOperation.Steps.{Event, cancels, ticks, installs, finishes, run, installs_active}
use idk.GitOperation.Epochs.{attach-fences}
use idk.GitOperation.Settled.{Settled}
use idk.GitOperation.Outcome.{run-Settled, Reported, tick-Reported}

abbrev repository : Repository
repository = record {
  root = utf8 (codes "/r");
  git_dir = utf8 (codes "/r/.git");
  common_dir = utf8 (codes "/r/.git");
}

abbrev push_info : GitOperationInfo
push_info = record {
  id = codes "o";
  context_id = codes "c";
  project_id = codes "p";
  repository = repository;
  host_instance = codes "h";
  kind = push_branch;
  state = pending;
  cleanup_acknowledged = false;
  owner = some (record { client_id = codes "a" });
  input_epoch = 1;
  generation = 0;
  terminal_available = false;
  result = none;
  error = none;
}

abbrev screen : Screen ℕ
screen = record { generation = 1; error = none; output_limited = false; content = 0 }

abbrev exit_zero : TerminalExit
exit_zero = record { code = 0; signal_name = none }

abbrev idle_status : TerminalStatus
idle_status = record {
  generation = 1;
  rows = 24;
  cols = 80;
  reader_closed = true;
  error = none;
  output_limited = false;
}

abbrev exited_terminal : Terminal ℕ ℕ
exited_terminal = record {
  request_host_close = λ t force. (t, ok tt);
  send_input = λ t bytes. (t, ok tt);
  set_size = λ t rows cols. (t, ok tt);
  status = λ t. (t, ok idle_status);
  try_wait = λ t. (t, ok (some exit_zero));
  end_collection = λ t. (t, ok tt);
  snapshot_screen = λ t. ok screen;
  reap_exit = λ t. (t, ok exit_zero);
  child_pid = λ t. some 7;
}

abbrev quiet_kernel : Kernel
quiet_kernel = record {
  host_pid = 1;
  verify_child = λ pid leader. ok running_child;
  reap_child = λ pid. ok tt;
  signal_child = λ pid force. ok tt;
}

abbrev no_digits : ℕ → Text
no_digits n = []

abbrev always_sent : ℕ → CommandOutcome → SendResult
always_sent c outcome = sent

abbrev started : Operation ℕ ℕ ℕ
started = new push_info

abbrev events : List (Event ℕ ℕ)
events = cancels (codes "a") 1 true ∷ ticks 5 ∷ []

-- The terminal is installed, its child exits, and the executor reports.
abbrev pushed : List (Event ℕ ℕ)
pushed = installs 3 4 ∷ ticks 5 ∷ ticks 6 ∷ finishes 7 (err (codes "no")) ∷ []

two_bools : ◌≢◌ {A = Bool} false true
two_bools h = ground arith

other_client : codes "a" ≢ codes "b"
other_client h = absurd (two_bools ((text_eq_iff (codes "a") (codes "b")).1 h))

attach-fences_example :
    is_ok (
      owner
        (run exited_terminal quiet_kernel no_digits always_sent
          (attach started (codes "b") true).0
          events)
        (codes "a")
        1)
    ≡ false
unfolding attach hand_over advance owner
attach-fences_example =
    attach-fences exited_terminal quiet_kernel no_digits always_sent started (codes "a") (codes "b")
      true 1 events refl other_client refl refl

run-Settled_example :
    Settled (run exited_terminal quiet_kernel no_digits always_sent started pushed)
unfolding installs_active
run-Settled_example =
    run-Settled exited_terminal quiet_kernel no_digits always_sent push_info pushed refl refl

-- The screen is kept, the descendants are gone, and the child's exit comes next.
abbrev cleaned : Operation ℕ ℕ ℕ
cleaned = record {
  info = push_info;
  cancelled = true;
  finished_at = none;
  terminal = some 3;
  completion = some 4;
  frozen = some screen;
  exit = some exit_zero;
  exited_at = some 0;
  force = false;
  cleanup_done = true;
  signalled = [];
  executed = true;
}

abbrev outcome : CommandOutcome
outcome = record { exit_code = some 0; was_cancelled = true; output_limited = false }

tick-Reported_example :
    Reported exited_terminal always_sent cleaned
      (tick exited_terminal always_sent 9 cleaned).0
      outcome
unfolding tick tick_with tick_live waited freeze end_reading observe_status reap report_outcome
tick-Reported_example = tick-Reported exited_terminal always_sent 9 cleaned outcome refl
