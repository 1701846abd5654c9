-- ===== src/GitOperation.antt =====
-- A Git operation of the host, crates/idk/src/host/git_operation.rs: `Operation` with its owner and
-- input epoch, its terminal, its cleanup and its outcome.
-- The terminal, the channel to the executor, the kernel and the clock are outside this file of the
-- source: `Terminal` is the interface of `TerminalSession`, `Kernel` the calls about child processes
-- (children.rs), `try_send` the result of sending to the executor, and `now` the time in milliseconds.
-- Nothing is assumed of them. `Screen` has the fields of a `TerminalSnapshot` that are read here, and
-- the rest as `content`.
pub mod Steps
pub mod Epochs
pub mod Settled
pub mod Outcome
mod Examples
use idk.Common.{
  ℕ, ◌+◌, List, [], ◌∷◌, ◌++◌, Option, none, some, Bool, true, false, ◌&&◌, ◌||◌, not, Text,
  text_eq, text_Eq, if◌then◌else◌, ◌==◌, ltb, leb, any, is_none, is_some, Result, Check, ok, err,
  ensure, ◌>>◌, codes, strip_prefix,
}
use idk.Common.Assoc.{lookup, insert, remove}
use idk.GitWire.{nat_Eq}
use idk.GitWire.Results.{
  GitOperationInfo, GitOperationState, GitOperationResult, GitOutcome, InputOwner, pending, running,
  cancelling, complete, unknown_state, unknown,
}
use idk.Protocol.{safe_error}

pub record Screen (S : Type 0) : Type 0 where
  pub generation : ℕ
  pub error : Option Text
  pub output_limited : Bool
  pub content : S

pub record TerminalExit : Type 0 where
  pub code : ℕ
  pub signal_name : Option Text

pub record TerminalStatus : Type 0 where
  pub generation : ℕ
  pub rows : ℕ
  pub cols : ℕ
  pub reader_closed : Bool
  pub error : Option Text
  pub output_limited : Bool

pub record Terminal (T S : Type 0) : Type 0 where
  pub request_host_close : T → Bool → T × Check Text
  pub send_input : T → List ℕ → T × Check Text
  pub set_size : T → ℕ → ℕ → T × Check Text
  pub status : T → T × Result Text TerminalStatus  -- its reader may have read on meanwhile
  pub try_wait : T → T × Result Text (Option TerminalExit)
  pub end_collection : T → T × Check Text
  pub snapshot_screen : T → Result Text (Screen S)
  pub reap_exit : T → T × Result Text TerminalExit
  pub child_pid : T → Option ℕ

pub data ChildState : Type 0 where
  exited_child running_child : ChildState

pub record Kernel : Type 0 where
  pub host_pid : ℕ
  pub verify_child : ℕ → ℕ → Result Text ChildState
  pub reap_child : ℕ → Check Text
  pub signal_child : ℕ → Bool → Check Text

pub record CommandOutcome : Type 0 where
  pub exit_code : Option ℕ
  pub was_cancelled : Bool
  pub output_limited : Bool

pub data SendResult : Type 0 where
  sent full disconnected : SendResult

pub record Anchor : Type 0 where
  pub session : Text
  pub pid : ℕ

pub record Process : Type 0 where
  pub pid : ℕ
  pub parent : ℕ
  pub session : ℕ

pub record Report : Type 0 where
  pub anchors : List Anchor
  pub processes : List Process
  pub is_complete : Bool
  pub error : Option Text

pub record Operation (T S C : Type 0) : Type 0 where
  pub info : GitOperationInfo
  pub cancelled : Bool
  pub finished_at : Option ℕ
  pub terminal : Option T
  pub completion : Option C
  pub frozen : Option (Screen S)
  pub exit : Option TerminalExit
  pub exited_at : Option ℕ
  pub force : Bool
  pub cleanup_done : Bool
  pub signalled : List (ℕ × Bool)
  pub executed : Bool

-- owned by another client; ownership changed; epoch exhausted; not accepting input; no PTY; the
-- terminal's own error
pub data Refusal : Type 0 where
  owned_by_other ownership_changed epoch_exhausted not_accepting no_pty : Refusal
  terminal_error : Text → Refusal

abbrev pub lift : Check Text → Check Refusal
lift (ok u) = ok u
lift (err e) = err (terminal_error e)

abbrev cleanup_prefix : Text
cleanup_prefix = codes "Git process cleanup:"

-- `is_none_or` and `is_some_and` of `starts_with`
abbrev cleanup_error : Option Text → Bool
cleanup_error none = false
cleanup_error (some e) = is_some (strip_prefix cleanup_prefix e)

abbrev pub owned_by : Option InputOwner → Text → Bool
owned_by none client = false
owned_by (some o) client = text_eq o.client_id client

abbrev forgotten_warning : Text
forgotten_warning =
    codes "Historical post-operation snapshot is no longer retained; refresh repository state."

-- `result.after.take()` leaves a warning where there was a snapshot.
abbrev pub forgotten : Option GitOperationResult → Option GitOperationResult
forgotten none = none
forgotten (some r) =
    if is_some r.after
    then some (record r { after = none; warnings = r.warnings ++ forgotten_warning ∷ [] })
    else some r

-- `self.signalled.get(&pid).copied() == Some(self.force)`
abbrev pub signalled_with : Option Bool → Bool → Bool
signalled_with none force = false
signalled_with (some true) force = force
signalled_with (some false) force = not force

-- The last error replaces the one before.
abbrev pub or_last : Option Text → Option Text → Option Text
or_last none earlier = earlier
or_last (some e) earlier = some e

abbrev pub overdue : ℕ → Option ℕ → Bool
overdue now none = false
overdue now (some time) = leb (time + 2000) now

abbrev pub reader_closed : Result Text TerminalStatus → Bool
reader_closed (ok status) = status.reader_closed
reader_closed (err e) = false

abbrev limited : {S : Type 0} → Option (Screen S) → Bool
limited none = true
limited (some screen) = screen.output_limited || is_some screen.error

module _ {T S C : Type 0} where
  abbrev pub new : GitOperationInfo → Operation T S C
  new info = record {
    info = info;
    cancelled = false;
    finished_at = none;
    terminal = none;
    completion = none;
    frozen = none;
    exit = none;
    exited_at = none;
    force = false;
    cleanup_done = false;
    signalled = [];
    executed = false;
  }

  abbrev pub active : Operation T S C → Bool
  active o = is_none o.finished_at

  abbrev pub unspawned : Operation T S C → Bool
  unspawned o = active o && not o.executed

  abbrev pub reaped : Operation T S C → Bool
  reaped o = o.executed && is_none o.terminal

  abbrev pub with_info : Operation T S C → (GitOperationInfo → GitOperationInfo) → Operation T S C
  with_info o f = record o { info = f o.info }

  abbrev pub set_error : Operation T S C → Text → Operation T S C
  set_error o e = with_info o (λ i. record i { error = some e })

  unfoldable pub notice : Operation T S C → Text → Operation T S C
  notice o message =
      if is_none o.info.error || cleanup_error o.info.error
      then set_error o (safe_error (codes "Git process cleanup: " ++ message))
      else o

  unfoldable pub owner : Operation T S C → Text → ℕ → Check Refusal
  owner o client epoch =
      ensure (owned_by o.info.owner client && o.info.input_epoch == epoch) ownership_changed

  -- The epoch moves on, or is at its end: `checked_add`.
  unfoldable pub advance : Operation T S C → Operation T S C × Check Refusal
  advance o =
      if ltb (o.info.input_epoch + 1) 18446744073709551616
      then (with_info o (λ i. record i { input_epoch = i.input_epoch + 1 }), ok tt)
      else (o, err epoch_exhausted)

  -- `self.advance()?; self.info.owner = next;`
  unfoldable pub hand_over : Operation T S C → Option InputOwner → Operation T S C × Check Refusal
  hand_over o next =
      let (o', r) = advance o in
      elim r [ ok _ ↦ (with_info o' (λ i. record i { owner = next }), ok tt) | err e ↦ (o', err e) ]

  unfoldable pub attach : Operation T S C → Text → Bool → Operation T S C × Check Refusal
  attach o client takeover =
      let moved = hand_over o (some (record { client_id = client })) in
      if not (active o)
      then (o, ok tt)
      else if not (is_none o.info.owner || owned_by o.info.owner client || takeover)
      then (o, err owned_by_other)
      else if is_none o.info.owner || not (owned_by o.info.owner client)
      then moved
      else (o, ok tt)

  unfoldable pub detach : Operation T S C → Text → ℕ → Operation T S C × Check Refusal
  detach o client epoch =
      let moved = hand_over o none in
      if not (active o)
      then (o, ok tt)
      else elim (owner o client epoch) [ ok _ ↦ moved | err e ↦ (o, err e) ]

  unfoldable pub finish : Operation T S C → ℕ → Result Text GitOperationResult → Operation T S C
  finish o now result =
      if is_some o.terminal
      then with_info o (λ i. record i {
        state = unknown_state;
        error = some (
            codes "Git executor returned before its owned process cleanup; outcome is unconfirmed");
      })
      else (let done =
            record (with_info o (λ i. record i { owner = none; terminal_available = false })) {
              finished_at = some now;
            } in
          elim result [
            | ok r ↦ with_info done (λ i. record i {
              state = elim r.outcome [ unknown ↦ unknown_state | _ ↦ complete ];
              result = some r;
              error = if cleanup_error i.error then none else i.error;
            })
            | err e ↦ with_info done (λ i. record i {
              state = if o.executed then unknown_state else complete;
              error = some (safe_error e);
            })
          ])

  unfoldable pub forget_screen : Operation T S C → Operation T S C
  forget_screen o =
      if active o
      then o
      else record (with_info o (λ i. record i { result = forgotten i.result })) { frozen = none }

  abbrev pub note_exit : ℕ → Operation T S C → TerminalExit → Operation T S C
  note_exit now o exit =
      if is_none o.exit
      then record (with_info o (λ i. record i { terminal_available = false })) {
        exit = some exit;
        exited_at = some now;
      }
      else o

  module _ (terminals : Terminal T S) where
    -- `request_host_close(self.force)` of a terminal that stays.
    unfoldable pub close_terminal : Operation T S C → T → Operation T S C × Check Text
    close_terminal o t =
        let (t', r) = terminals.request_host_close t o.force in (record o { terminal = some t' }, r)

    unfoldable pub install : Operation T S C → T → C → Operation T S C
    install o t completion =
        let installed =
          record (with_info o (λ i. record i {
            terminal_available = true;
            state = if o.cancelled then cancelling else running;
          })) { terminal = some t; executed = true; completion = some completion } in
        let (closed, r) = close_terminal installed t in
        if o.cancelled
        then elim r [ ok _ ↦ closed | err e ↦ notice closed (safe_error e) ]
        else installed

    unfoldable pub input : Operation T S C → Text → ℕ → List ℕ → Operation T S C × Check Refusal
    input o client epoch bytes = elim (owner o client epoch) [
      | err e ↦ (o, err e)
      | ok _ ↦
          if not (active o && is_none o.exit) then (o, err not_accepting) else elim o.terminal [
            | none ↦ (o, err no_pty)
            | some t ↦
                let (t', r) = terminals.send_input t bytes in
                (record o { terminal = some t' }, lift r)
          ]
    ]

    unfoldable pub resize : Operation T S C → Text → ℕ → ℕ → ℕ → Operation T S C × Check Refusal
    resize o client epoch rows cols =
        if is_some o.exit || not (active o) || reaped o
        then (o, ok tt)
        else elim (owner o client epoch) [
          | err e ↦ (o, err e)
          | ok _ ↦ elim o.terminal [
            | none ↦ (o, err no_pty)
            | some t ↦
                let (t', r) = terminals.set_size t rows cols in
                (record o { terminal = some t' }, lift r)
          ]
        ]

    unfoldable pub cancel : Operation T S C → Text → ℕ → Bool → Operation T S C × Check Refusal
    cancel o client epoch force =
        let marked = record (with_info o (λ i. record i { state = cancelling })) {
          cancelled = true;
          force = o.force || force;
        } in
        if not (active o) then (o, ok tt) else elim (owner o client epoch) [
          | err e ↦ (o, err e)
          | ok _ ↦ elim o.terminal [
            | none ↦ (marked, ok tt)
            | some t ↦ let (o', r) = close_terminal marked t in (o', lift r)
          ]
        ]

    unfoldable pub anchor : Operation T S C → Option Anchor
    anchor o = if is_none o.exit || o.cleanup_done then none else elim o.terminal [
      | none ↦ none
      | some t ↦ elim (terminals.child_pid t) [
        | none ↦ none
        | some pid ↦ some (record { session = o.info.id; pid = pid })
      ]
    ]

    -- One process of the session: what is done about it, and the error of that.
    unfoldable pub tend : Kernel → ℕ → Operation T S C → Process → Operation T S C × Option Text
    tend k leader o process =
        let cleared = record o { signalled = remove process.pid o.signalled } in
        let marked = record o { signalled = insert process.pid o.force o.signalled } in
        if not (process.parent == k.host_pid)
        then (o, none)
        else elim (k.verify_child process.pid leader) [
          | err e ↦ (o, some (safe_error e))
          | ok exited_child ↦ elim (k.reap_child process.pid) [
            | ok _ ↦ (cleared, none)
            | err e ↦ (o, some (safe_error e))
          ]
          | ok running_child ↦
              if o.cancelled && not (signalled_with (lookup process.pid o.signalled) o.force)
              then elim (k.signal_child process.pid o.force) [
                | ok _ ↦ (marked, none)
                | err e ↦ (o, some (safe_error e))
              ]
              else (o, none)
        ]

    -- The loop over the processes of the session: how many there are, and the last error.
    unfoldable pub tend_all :
        Kernel
        → ℕ
        → Operation T S C
        → List Process
        → ℕ
        → Option Text
        → Operation T S C × ℕ × Option Text
    tend_all k leader o [] found failure = (o, found, failure)
    tend_all k leader o (process ∷ processes) found failure =
        let (o', e) = tend k leader o process in
        let tended = tend_all k leader o' processes (found + 1) (or_last e failure) in
        let skipped = tend_all k leader o processes found failure in
        if process.session == leader then tended else skipped

    -- `decimal` prints a number.
    unfoldable pub inspect :
        Kernel → (ℕ → Text) → Operation T S C → Report → Option Anchor → Operation T S C
    inspect k decimal o report none = o
    inspect k decimal o report (some a) =
        let (o', found, failure) = tend_all k a.pid o report.processes 0 report.error in
        let done = record o' {
          cleanup_done = report.is_complete && is_none failure && found == 0;
        } in
        if not (any (λ v. text_eq v.session a.session && v.pid == a.pid) report.anchors)
        then o
        else elim failure [
          | some e ↦ notice done (codes "descendant inventory incomplete: " ++ e)
          | none ↦
              if ltb 0 found
              then notice done (
                  decimal found
                  ++ codes
                      " same-session processes remain; completion and source lease remain pending; explicit force cancel is available")
              else done
        ]

    unfoldable pub inventory : Kernel → (ℕ → Text) → Operation T S C → Report → Operation T S C
    inventory k decimal o report = inspect k decimal o report (anchor o)

    -- What `tick` reads of the status of a terminal whose screen is not frozen.
    unfoldable pub observe_status : Operation T S C → T → Operation T S C × T
    observe_status o t =
        let (t', r) = terminals.status t in
        if is_some o.frozen then (o, t) else elim r [
          | err e ↦ (o, t')
          | ok status ↦ (
            with_info o (λ i. record i {
              generation = status.generation;
              error = elim status.error [ none ↦ i.error | some e ↦ some (safe_error e) ];
            }),
            t',
          )
        ]

    -- `end_collection`, if the reader is still open when the status is read again.
    unfoldable pub end_reading : Operation T S C → T → Operation T S C × T
    end_reading o t =
        let (t1, status) = terminals.status t in
        let (t2, r) = terminals.end_collection t1 in
        if reader_closed status
        then (o, t1)
        else elim r [ ok _ ↦ (o, t2) | err e ↦ (set_error o (safe_error e), t2) ]

    -- The last screen is kept once the reader is closed, or two seconds after the exit.
    unfoldable pub freeze : ℕ → Operation T S C → T → Operation T S C × T
    freeze now o t =
        let (t1, status) = terminals.status t in
        let (o', t') = end_reading o t1 in
        if is_none o.frozen && (reader_closed status || overdue now o.exited_at)
        then elim (terminals.snapshot_screen t') [
          | err e ↦ (record o' { frozen = none }, t')
          | ok screen ↦ (
            record (with_info o' (λ i. record i { generation = screen.generation })) {
              frozen = some screen;
            },
            t',
          )
        ]
        else (o, if is_none o.frozen then t1 else t)

    module _ (try_send : C → CommandOutcome → SendResult) where
      -- The leader is reaped: the outcome is sent to the executor, or lost with it.
      unfoldable pub report_outcome :
          ℕ → Operation T S C → TerminalExit → Operation T S C × Option CommandOutcome
      report_outcome now o exit =
          let outcome : CommandOutcome = record {
            exit_code = some exit.code;
            was_cancelled = o.cancelled;
            output_limited = limited o.frozen;
          } in
          let released = record o { terminal = none; signalled = []; completion = none } in
          elim o.completion [
            | none ↦ (released, none)
            | some c ↦ elim (try_send c outcome) [
              | sent ↦ (released, some outcome)
              | full ↦ (released, none)
              | disconnected ↦ (
                record (with_info released (λ i. record i {
                  owner = none;
                  state = unknown_state;
                  error = some (
                      codes
                        "Git executor exited before reporting an outcome; the owned process was reaped");
                })) { finished_at = some now },
                none,
              )
            ]
          ]

      unfoldable pub reap : ℕ → Operation T S C → T → Operation T S C × Option CommandOutcome
      reap now o t =
          let (t', r) = terminals.reap_exit t in
          let kept = record o { terminal = some t' } in
          if o.cleanup_done && (is_some o.frozen || overdue now o.exited_at)
          then elim r [
            | ok exit ↦ report_outcome now o exit
            | err e ↦ (set_error kept (safe_error e), none)
          ]
          else (record o { terminal = some t }, none)

      -- What the leader's `try_wait` told.
      unfoldable pub waited :
          ℕ
          → Operation T S C
          → T
          → Result Text (Option TerminalExit)
          → Operation T S C × Option CommandOutcome
      waited now o t (err e) = (set_error o (safe_error e), none)
      waited now o t (ok none) = (o, none)
      waited now o t (ok (some exit)) =
          let (o', t') = freeze now (note_exit now o exit) t in reap now o' t'

      unfoldable pub tick_live : ℕ → Operation T S C → T → Operation T S C × Option CommandOutcome
      tick_live now o t =
          let (observed, t1) = observe_status o t in
          let (t', r) = terminals.try_wait t1 in
          waited now (record observed { terminal = some t' }) t' r

      -- The operation, and the outcome that was sent.
      unfoldable pub tick_with :
          ℕ → Operation T S C → Option T → Operation T S C × Option CommandOutcome
      tick_with now o none = (o, none)
      tick_with now o (some t) = tick_live now o t

      unfoldable pub tick : ℕ → Operation T S C → Operation T S C × Option CommandOutcome
      tick now o = tick_with now o o.terminal
