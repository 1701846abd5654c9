-- ===== src/Structured.antt =====
-- What a run's structured result and its events amount to, as they are kept in the ledger:
-- `StructuredResult` of crates/idk/src/structured_result.rs, `EventProgress` of result_store.rs, and the
-- artifact snapshots of discovery.rs. A JSON document is a parameter.
use idk.Common.{
  ℕ, Option, none, some, Bool, true, false, Text, FilePath, codes, [], ◌∷◌, if◌then◌else◌,
  is_control, take, ℤ,
}

pub record BodyReference : Type 0 where
  pub run_id : Text
  pub sha256 : Text
  pub bytes : ℕ

pub record ResultSummary : Type 0 where
  pub schema_id : Text
  pub schema_version : ℕ
  pub producer : Text
  pub producer_version : Text
  pub producer_run_id : Option Text
  pub findings_count : ℕ
  pub complete : Option Bool
  pub selected_gate : Option Text
  pub workspace_gate : Option Text
  pub scope_kind : Option Text
  pub identity_digest : Text
  pub scope_digest : Text

pub data StructuredResult (V : Type 0) : Type 0 where
  missing : StructuredResult V
  invalid : (error : Text) → (body : Option BodyReference) → StructuredResult V
  unsupported :
      (schema_id : Text) → (schema_version : ℕ) → (body : Option BodyReference) → StructuredResult V
  oversize : (limit_bytes observed_bytes : ℕ) → StructuredResult V
  limited : (limit_bytes required_bytes : ℕ) → StructuredResult V
  storage_failed : (error : Text) → StructuredResult V
  expired : (body : BodyReference) → StructuredResult V
  tampered : (body : BodyReference) → (error : Text) → StructuredResult V
  stored : (summary : ResultSummary) → (body : BodyReference) → StructuredResult V
  available :
      (idk_run_id : Text)
      → (path : FilePath) → (sha256 schema_id : Text) → (schema_version : ℕ)
      → (producer_version : Text) → (producer_run_id : Option Text) → (document : V)
      → StructuredResult V

abbrev pub result_body : {V : Type 0} → StructuredResult V → Option BodyReference
result_body (stored summary body) = some body
result_body (expired body) = some body
result_body (tampered body error) = some body
result_body (invalid error body) = body
result_body (unsupported id version body) = body
result_body _ = none

abbrev pub result_summary : {V : Type 0} → StructuredResult V → Option ResultSummary
result_summary (stored summary body) = some summary
result_summary _ = none

abbrev pub status_label : {V : Type 0} → StructuredResult V → Text
status_label missing = codes "missing"
status_label (invalid error body) = codes "invalid"
status_label (unsupported id version body) = codes "unsupported"
status_label (oversize limit observed) = codes "oversize"
status_label (limited limit required) = codes "limited"
status_label (storage_failed error) = codes "storage_failed"
status_label (expired body) = codes "expired"
status_label (tampered body error) = codes "tampered"
status_label (stored summary body) = codes "stored"
status_label (available id path sha schema version producer run document) = codes "legacy_inline"

abbrev pub is_available : {V : Type 0} → StructuredResult V → Bool
is_available (available id path sha schema version producer run document) = true
is_available _ = false

-- A display text is passed through this filter before it is kept.
unfoldable pub without_controls : Text → Text
without_controls [] = []
without_controls (c ∷ s) = let rest = without_controls s in if is_control c then rest else c ∷ rest

unfoldable pub safe : Text → ℕ → Text
unfolding without_controls
safe value limit = take limit (without_controls value)

pub data EventState : Type 0 where
  missing observed partial invalid oversize expired tampered storage_failed : EventState

pub record ProgressEvent : Type 0 where
  pub seq : ℕ
  pub event_type : Text
  pub producer_run_id : Text
  pub task_id : Option Text
  pub message : Text

pub record EventProgress : Type 0 where
  pub state : EventState
  pub bytes_observed : ℕ
  pub events_observed : ℕ
  pub invalid_events : ℕ
  pub sequence_gaps : ℕ
  pub truncated_tail : Bool
  pub latest : Option ProgressEvent
  pub error : Option Text
  pub body : Option BodyReference

pub record FileIdentity : Type 0 where
  pub device : ℕ
  pub inode : ℕ
  pub size : ℕ
  pub mtime_seconds : ℤ
  pub mtime_nanos : ℤ
  pub ctime_seconds : ℤ
  pub ctime_nanos : ℤ

pub record ArtifactSnapshot : Type 0 where
  pub path : FilePath
  pub sha256 : Text
  pub size : ℕ
  pub identity : FileIdentity
