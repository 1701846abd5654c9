-- ===== src/Ledger/Hosts.antt =====
-- `HostRecord`, `HostLedger` and `HostExit` of crates/idk/src/saved_state.rs.
use idk.Common.{
  ℕ, List, [], ◌∷◌, Option, none, some, Text, text_eq, text_Eq, pair_Eq, Bool, ◌&&◌, ◌||◌, not,
  is_none, ◌==◌, ltb, leb, any, is_control, codes, length, byte_len, Result, Check, ok, err, ensure,
  ◌>>◌, ◌>>=◌, when_some, try_fold, contains, if◌then◌else◌, ◌+◌, ◌*◌,
}
use idk.Model.{
  Refusal, host_ledger, duplicate_session, ordinary_with_run, persistent_run, run_mismatch,
  editor_terminal, unsupported_purpose, host_exit, exit_before_start, exit_detail, max_projects,
  max_terminals,
}
use idk.Model.Fields.{valid_id, valid_name}
use idk.GitOperation.{TerminalExit}
use idk.Ledger.{digest}

pub data SessionState : Type 0 where
  preparing running closing closed exited failed unknown : SessionState

pub record HostRecord : Type 0 where
  pub session_id : Text
  pub project_id : Text
  pub terminal_id : Text
  pub name : Text
  pub persistent : Bool
  pub state : SessionState
  pub definition_revision : ℕ
  pub launch_digest : Option Text
  pub exit : Option TerminalExit
  pub purpose : Option Text
  pub run_id : Option Text

pub record HostLedger : Type 0 where
  pub schema : ℕ
  pub sessions : List HostRecord

abbrev pub host_record_limit : ℕ
host_record_limit = max_projects * max_terminals + max_terminals

-- The sessions and the definitions met so far.
abbrev pub Seen : Type 0
Seen = List Text × List (Text × Text)

module _ (is_uuid : Text → Bool) where
  unfoldable pub check_purpose : HostRecord → Option Text → Check Refusal
  check_purpose r none = ensure (is_none r.run_id) ordinary_with_run
  check_purpose r (some purpose) =
      if text_eq purpose (codes "run")
      then ensure (not r.persistent) persistent_run
        >> when_some r.run_id
            (λ id. valid_id is_uuid id >> ensure (text_eq id r.terminal_id) run_mismatch)
      else if text_eq purpose (codes "editor")
      then ensure (not r.persistent && is_none r.run_id) editor_terminal
      else err unsupported_purpose

  unfoldable pub validate_host_record : HostRecord → Check Refusal
  unfolding check_purpose
  validate_host_record r =
      valid_id is_uuid r.session_id
      >> valid_id is_uuid r.project_id
      >> valid_id is_uuid r.terminal_id
      >> valid_name r.name
      >> when_some r.launch_digest digest
      >> check_purpose r r.purpose

  unfoldable pub session_step : Seen → HostRecord → Result Refusal Seen
  session_step (ids, definitions) r =
      validate_host_record r
      >> (if contains r.session_id ids || contains (r.project_id, r.terminal_id) definitions
          then err duplicate_session
          else ok (r.session_id ∷ ids, (r.project_id, r.terminal_id) ∷ definitions))

  unfoldable pub validate_host_ledger : HostLedger → Check Refusal
  validate_host_ledger l =
      ensure (l.schema == 1 && leb (length l.sessions) host_record_limit) host_ledger
      >> (try_fold ([], []) l.sessions session_step >>= (λ _. ok tt))

pub record HostExit : Type 0 where
  pub schema : ℕ
  pub host_instance : Text
  pub pid : ℕ
  pub started_at_ms : ℕ
  pub stopped_at_ms : Option ℕ
  pub error : Option Text

module _ (is_uuid : Text → Bool) where
  unfoldable pub validate_host_exit : HostExit → Check Refusal
  validate_host_exit e =
      ensure (e.schema == 1 && ltb 1 e.pid) host_exit
      >> valid_id is_uuid e.host_instance
      >> when_some e.stopped_at_ms
          (λ stopped. ensure (leb e.started_at_ms stopped) exit_before_start)
      >> when_some e.error
          (λ error. ensure (leb (byte_len error) 1024 && not (any is_control error)) exit_detail)
