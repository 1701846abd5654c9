-- ===== src/Model/Fields.antt =====
-- The checks of single fields: `valid_id`, `valid_name`, `absolute_path`, `validate_sources`,
-- `validate_repository` and `validate_execution_arguments` of crates/idk/src/model.rs.
-- `is_uuid` is `uuid::Uuid::parse_str(..).is_ok()`, which is not in the repository; nothing is assumed
-- of it.
use idk.Common.{
  List, Option, none, some, Bool, false, ◌&&◌, ◌||◌, not, Text, FilePath, to_str, is_absolute,
  is_blank, is_empty, any, ltb, length, byte_len, is_control, contains_char, Check, ensure, ◌>>◌,
  for_each,
}
use idk.Model.{
  Refusal, invalid_id, invalid_name, invalid_path, too_many_sources, invalid_source_arguments,
  invalid_execution, Environment, Repository, SourceSpec,
}

abbrev pub visible_path : Option Text → Bool
visible_path none = false
visible_path (some s) = not (any is_control s)

unfoldable pub valid_name : Text → Check Refusal
valid_name value =
    ensure (not (is_blank value || ltb 100 (length value) || any is_control value)) invalid_name

unfoldable pub absolute_path : FilePath → Check Refusal
absolute_path path = ensure (is_absolute path && visible_path (to_str path)) invalid_path

unfoldable pub validate_sources : List SourceSpec → Check Refusal
validate_sources paths =
    ensure (not (ltb 32 (length paths))) too_many_sources
    >> for_each paths (λ source.
      absolute_path source.path
      >> ensure
          (not (
            ltb 64 (length source.args)
            || any (λ arg. ltb 8192 (byte_len arg) || any is_control arg) source.args))
          invalid_source_arguments)

unfoldable pub validate_repository : Repository → Check Refusal
validate_repository repo =
    absolute_path repo.root >> absolute_path repo.git_dir >> absolute_path repo.common_dir

-- `key.is_empty() || key.contains(['=', '\0']) || value.contains('\0')`
abbrev pub bad_entry : Text × Text → Bool
bad_entry (key, value) =
    is_empty key || (contains_char b'=' key || contains_char 0 key) || contains_char 0 value

unfoldable pub validate_execution_arguments : List Text → Environment → Check Refusal
validate_execution_arguments args env =
    ensure
      (not (
        ltb 1024 (length args)
        || any (λ arg. ltb 65536 (byte_len arg) || contains_char 0 arg) args
        || ltb 1024 (length env)
        || any bad_entry env))
      invalid_execution

module _ (is_uuid : Text → Bool) where
  unfoldable pub valid_id : Text → Check Refusal
  valid_id value = ensure (is_uuid value) invalid_id
