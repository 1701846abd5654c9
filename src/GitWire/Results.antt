-- ===== src/GitWire/Results.antt =====
-- The states and results of a Git operation, crates/idk/src/git_wire.rs, and its owner, protocol.rs.
use idk.Common.{ℕ, List, Option, Text, Bool}
use idk.Model.{Repository}

-- A path is shown, and carried as base64.
pub record GitPath : Type 0 where
  pub bytes_base64 : Text
  pub display : Text

pub data Head : Type 0 where
  unborn : (reference : Text) → Head
  branch_head : (reference oid : Text) → Head
  detached : (oid : Text) → Head

pub record GitRevision : Type 0 where
  pub repository : Repository
  pub head : Head
  pub index_digest : Text

pub record GitChange : Type 0 where
  pub path : GitPath
  pub original_path : Option GitPath
  pub index_status : ℕ
  pub worktree_status : ℕ
  pub conflict : Bool
  pub untracked : Bool
  pub submodule : Option Text

pub record GitSnapshot : Type 0 where
  pub revision : GitRevision
  pub entries : List GitChange
  pub upstream : Option Text
  pub ahead : Option ℕ
  pub behind : Option ℕ
  pub conversion_filters_disabled : Bool
  pub submodule_worktrees_unchecked : Bool

-- `authored_at` is an `i64`: its sign and its magnitude.
pub record CommitSummary : Type 0 where
  pub oid : Text
  pub parents : List Text
  pub author : Text
  pub authored_at : Bool × ℕ
  pub subject : Text

pub data GitOperationKind : Type 0 where
  stage_paths unstage_paths commit_index create_branch switch_branch fetch_remote : GitOperationKind
  pull_fast_forward push_branch : GitOperationKind

pub data GitOutcome : Type 0 where
  succeeded failed cancelled unknown changed_after_execution : GitOutcome

pub record GitOperationResult : Type 0 where
  pub id : Text
  pub kind : GitOperationKind
  pub outcome : GitOutcome
  pub exit_code : Option ℕ
  pub after : Option GitSnapshot
  pub commit_made : Option CommitSummary
  pub warnings : List Text

pub data GitOperationState : Type 0 where
  pending running cancelling complete unknown_state : GitOperationState

pub record InputOwner : Type 0 where
  pub client_id : Text

pub record GitOperationInfo : Type 0 where
  pub id : Text
  pub context_id : Text
  pub project_id : Text
  pub repository : Repository
  pub host_instance : Text
  pub kind : GitOperationKind
  pub state : GitOperationState
  pub cleanup_acknowledged : Bool
  pub owner : Option InputOwner
  pub input_epoch : ℕ
  pub generation : ℕ
  pub terminal_available : Bool
  pub result : Option GitOperationResult
  pub error : Option Text
