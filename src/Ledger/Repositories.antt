-- ===== src/Ledger/Repositories.antt =====
-- `GitLedger` of crates/idk/src/saved_state.rs.
use idk.Common.{
  ℕ, List, [], Option, Text, text_Eq, Bool, true, false, ◌&&◌, ◌||◌, not, ◌==◌, leb, length, Result,
  Check, ok, ensure, ◌>>◌, ◌>>=◌, when_some, try_fold, insert_new,
}
use idk.Model.{Refusal, Repository, git_ledger, duplicate_git, acknowledged_known}
use idk.Model.Fields.{valid_id, validate_repository}
use idk.GitWire.Results.{GitOperationKind, GitOperationState, unknown_state, GitOutcome}
use idk.Ledger.{object_id}

pub record GitRecord : Type 0 where
  pub id : Text
  pub context_id : Text
  pub project_id : Text
  pub repository : Repository
  pub kind : GitOperationKind
  pub state : GitOperationState
  pub cleanup_acknowledged : Bool
  pub outcome : Option GitOutcome
  pub exit_code : Option ℕ
  pub commit_made : Option Text
  pub error : Option Text

pub record GitLedger : Type 0 where
  pub schema : ℕ
  pub operations : List GitRecord

abbrev pub git_record_limit : ℕ
git_record_limit = 128

abbrev pub is_unknown : GitOperationState → Bool
is_unknown unknown_state = true
is_unknown _ = false

module _ (is_uuid : Text → Bool) where
  unfoldable pub git_step : List Text → GitRecord → Result Refusal (List Text)
  git_step ids r =
      valid_id is_uuid r.id
      >> valid_id is_uuid r.context_id
      >> valid_id is_uuid r.project_id
      >> (insert_new ids r.id duplicate_git >>= (λ ids'.
          validate_repository r.repository
          >> when_some r.commit_made object_id
          >> ensure (not r.cleanup_acknowledged || is_unknown r.state) acknowledged_known
          >> ok ids'))

  unfoldable pub validate_git_ledger : GitLedger → Check Refusal
  validate_git_ledger l =
      ensure (l.schema == 1 && leb (length l.operations) git_record_limit) git_ledger
      >> (try_fold [] l.operations git_step >>= (λ _. ok tt))
