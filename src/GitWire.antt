-- ===== src/GitWire.antt =====
-- The Git messages of crates/idk/src/git_wire.rs: the tasks a client can submit, their check, and the
-- operations with their states; `GitPath::from_bytes` and `ObjectId::parse` of git/types.rs.
-- `is_uuid` is `uuid::Uuid::parse_str(..).is_ok()`; nothing is assumed of it.
pub mod Results
pub mod Laws
pub mod Paths
mod Examples
use idk.Common.{
  ℕ, List, [], ◌∷◌, Option, none, some, Bool, true, false, ◌&&◌, ◌||◌, not, Text, text_eq, FilePath,
  is_blank, is_empty, any, every, ltb, leb, within, ◌==◌, length, byte_len, is_control,
  contains_char, is_ascii_hexdigit, map, Result, Check, ok, err, ensure, when_some, ◌>>◌,
  if◌then◌else◌, segments, ◌+◌, contains, Eq, ==_iff,
}
use idk.Model.{
  Refusal, Repository, Environment, invalid_git_name, outside_repository, invalid_object_id,
  invalid_git_field, entry_index, history_count, entry_selection, duplicate_entry, invalid_message,
}
use idk.Model.Fields.{valid_id, absolute_path}
use idk.Model.Environments.{validate_environment}

instance abbrev pub nat_Eq : Eq ℕ
nat_Eq = record { eqb = ◌==◌; eqb_iff = ==_iff }

abbrev pub starts_with_slash : List ℕ → Bool
starts_with_slash [] = false
starts_with_slash (b ∷ bs) = b == b'/'

-- `..`, `.` or nothing
abbrev pub bad_part : List ℕ → Bool
bad_part part = text_eq part (b'.' ∷ b'.' ∷ []) || text_eq part (b'.' ∷ []) || is_empty part

pub from_bytes : List ℕ → Result Refusal (List ℕ)
from_bytes bytes =
    ensure (not (is_empty bytes) && leb (length bytes) 8192 && not (contains_char 0 bytes))
      invalid_git_name
    >> ensure (not (starts_with_slash bytes) && not (any bad_part (segments bytes)))
        outside_repository
    >> ok bytes

-- `to_ascii_lowercase`
abbrev pub to_lower : ℕ → ℕ
to_lower c = if within b'A' b'Z' c then c + 32 else c

pub parse_object_id : Text → Result Refusal Text
parse_object_id value =
    ensure ((byte_len value == 40 || byte_len value == 64) && every is_ascii_hexdigit value)
      invalid_object_id
    >> ok (map to_lower value)

pub data DiffTarget : Type 0 where
  index_target worktree_target : DiffTarget

pub data GitTask : Type 0 where
  open_context : (project : Text) → (repository : Option FilePath) → (env : Environment) → GitTask
  status : (context : Text) → (refresh : Bool) → GitTask
  diff : (context snapshot : Text) → (entry : Option ℕ) → (target : DiffTarget) → GitTask
  history : (context : Text) → (limit : ℕ) → GitTask
  commit_files : (context oid : Text) → GitTask
  branches : (context : Text) → GitTask
  remotes : (context : Text) → GitTask
  commit_review : (context : Text) → GitTask
  stage : (context snapshot : Text) → (entries : List ℕ) → GitTask
  unstage : (context snapshot : Text) → (entries : List ℕ) → GitTask
  commit : (context review message : Text) → GitTask
  create_branch : (context name : Text) → (start_point : Option Text) → GitTask
  switch_branch : (context snapshot name : Text) → GitTask
  fetch : (context remote : Text) → GitTask
  pull : (context snapshot remote branch : Text) → GitTask
  push : (context snapshot remote branch : Text) → GitTask

abbrev pub context_of : GitTask → Option Text
context_of (open_context project repository env) = none
context_of (status c refresh) = some c
context_of (diff c snapshot entry target) = some c
context_of (history c limit) = some c
context_of (commit_files c oid) = some c
context_of (branches c) = some c
context_of (remotes c) = some c
context_of (commit_review c) = some c
context_of (stage c snapshot entries) = some c
context_of (unstage c snapshot entries) = some c
context_of (commit c review message) = some c
context_of (create_branch c name start_point) = some c
context_of (switch_branch c snapshot name) = some c
context_of (fetch c remote) = some c
context_of (pull c snapshot remote branch) = some c
context_of (push c snapshot remote branch) = some c

-- The number of elements of `iter().collect::<HashSet<_>>()`.
abbrev pub count_distinct : List ℕ → ℕ
count_distinct [] = 0
count_distinct (x ∷ xs) = let rest = count_distinct xs in if contains x xs then rest else rest + 1

abbrev pub forget {ℓ} : {A : Type ℓ} → Result Refusal A → Check Refusal
forget (ok a) = ok tt
forget (err e) = err e

pub visible_text : Text → ℕ → Check Refusal
visible_text value limit =
    ensure (not (is_empty value) && leb (byte_len value) limit && not (any is_control value))
      invalid_git_field

abbrev bad_index : Option ℕ → Bool
bad_index none = false
bad_index (some entry) = leb 100000 entry

module _ (is_uuid : Text → Bool) where
  unfoldable pub check_entries : Text → List ℕ → Check Refusal
  check_entries snapshot entries =
      valid_id is_uuid snapshot
      >> ensure
          (not (is_empty entries)
            && leb (length entries) 4096
            && every (λ entry. ltb entry 100000) entries)
          entry_selection
      >> ensure (count_distinct entries == length entries) duplicate_entry

  check_target : Text → Text → Text → Check Refusal
  check_target snapshot remote branch =
      valid_id is_uuid snapshot >> visible_text remote 256 >> visible_text branch 1024

  -- The `match` of `validate`.
  unfoldable pub check_task : GitTask → Check Refusal
  unfolding check_target
  check_task (open_context project repository env) =
      valid_id is_uuid project >> when_some repository absolute_path >> validate_environment env
  check_task (diff c snapshot entry target) =
      valid_id is_uuid snapshot >> ensure (not (bad_index entry)) entry_index
  check_task (history c limit) = ensure (within 1 200 limit) history_count
  check_task (commit_files c oid) = forget (parse_object_id oid)
  check_task (stage c snapshot entries) = check_entries snapshot entries
  check_task (unstage c snapshot entries) = check_entries snapshot entries
  check_task (commit c review message) =
      valid_id is_uuid review
      >> ensure
          (not (is_blank message) && leb (byte_len message) 65536 && not (contains_char 0 message))
          invalid_message
  check_task (create_branch c name start_point) =
      visible_text name 1024 >> when_some start_point (λ oid. forget (parse_object_id oid))
  check_task (switch_branch c snapshot name) = valid_id is_uuid snapshot >> visible_text name 1024
  check_task (fetch c remote) = visible_text remote 256
  check_task (pull c snapshot remote branch) = check_target snapshot remote branch
  check_task (push c snapshot remote branch) = check_target snapshot remote branch
  check_task _ = ok tt

  unfoldable pub validate_task : GitTask → Check Refusal
  validate_task task = when_some (context_of task) (valid_id is_uuid) >> check_task task
