-- ===== src/Ledger.antt =====
-- The records that the host saves and their checks, crates/idk/src/saved_state.rs: the sessions of a
-- host and its exit in Hosts, runs in Runs, Git operations in Repositories.
pub mod Hosts
pub mod Runs
pub mod Repositories
pub mod Unique
pub mod Kept
pub mod Sessions
mod Examples
use idk.Common.{
  ℕ, Option, Text, Bool, ◌&&◌, ◌||◌, ◌==◌, byte_len, every, is_ascii_hexdigit, Check, ensure, ◌>>◌,
  when_some,
}
use idk.Model.{Refusal, saved_digest, saved_object}
use idk.Model.Fields.{absolute_path}
use idk.RunWire.Info.{SourceObservation}

unfoldable pub digest : Text → Check Refusal
digest value = ensure (byte_len value == 64 && every is_ascii_hexdigit value) saved_digest

unfoldable pub object_id : Text → Check Refusal
object_id value =
    ensure ((byte_len value == 40 || byte_len value == 64) && every is_ascii_hexdigit value)
      saved_object

unfoldable pub observation : SourceObservation → Check Refusal
unfolding digest object_id
observation source =
    when_some source.identity absolute_path
    >> when_some source.git_head object_id
    >> when_some source.status_digest digest
