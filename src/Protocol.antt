-- ===== src/Protocol.antt =====
-- The messages between client and host, crates/idk/src/protocol.rs: `Request`, `Envelope`, `Response`
-- with their checks, the size of a frame and the cut of an error message.
-- `is_uuid` is `uuid::Uuid::parse_str(..).is_ok()`; nothing is assumed of it. `now` is the value of
-- `monotonic_ms` at the call. The payload of a response is JSON of a type `D`.
pub mod Laws
mod Examples
use idk.Common.{
  ℕ, ◌+◌, ◌*◌, ◌/◌, ◌%◌, List, [], ◌∷◌, Option, none, some, Bool, true, false, ◌&&◌, ◌||◌, not,
  Text, text_eq, text_Eq, is_empty, any, ltb, leb, ◌==◌, length, byte_len, len_utf8, is_control,
  Result, Check, ok, err, ensure, context, when_some, ◌>>◌, ◌>>=◌, if◌then◌else◌, try_fold,
  insert_new, ◌++◌, take, drop,
}
use idk.Model.{
  Refusal, Repository, Environment, TerminalDefinition, max_terminals, invalid_query,
  too_many_targets, duplicate_target, input_too_large, persistent_transient, protocol_mismatch,
  deadline, no_host, request_id_mismatch, host_changed, message_size, response_size, end_of_stream,
}
use idk.Model.Fields.{valid_id, absolute_path}
use idk.Model.Environments.{validate_environment}
use idk.GitWire.{GitTask, validate_task}
use idk.RunWire.Requests.{RunRequest, validate_run_request, validate_dimensions, job}

pub data Request : Type 0 where
  run : (request : RunRequest) → Request
  git_submit : (task : GitTask) → Request
  git_job : (job : Text) → Request
  git_execute : (plan : Text) → (rows cols : ℕ) → Request
  git_operations : (project : Option Text) → Request
  git_operation_attach : (operation : Text) → (takeover : Bool) → Request
  git_operation_detach : (operation : Text) → (epoch : ℕ) → Request
  git_operation_snapshot : (operation : Text) → (since : Option ℕ) → Request
  git_operation_input : (operation : Text) → (epoch : ℕ) → (data_base64 : Text) → Request
  git_operation_resize : (operation : Text) → (epoch rows cols : ℕ) → Request
  git_operation_reconcile : (operation : Text) → (repository : Repository) → Request
  git_operation_cancel : (operation : Text) → (epoch : ℕ) → (force : Bool) → Request
  hello : Request
  list_sessions : (project : Option Text) → Request
  definition : (session : Text) → Request
  start_terminal :
      (project terminal : Text) → (rows cols : ℕ) → (env : Environment) → (reopen : Bool) → Request
  start_transient :
      (project : Text)
      → (terminal : TerminalDefinition) → (rows cols : ℕ) → (env : Environment) → (reopen : Bool)
      → Request
  start_defaults : (project : Text) → (rows cols : ℕ) → (env : Environment) → Request
  batch continue_defaults cancel_defaults : (batch : Text) → Request
  attach : (session : Text) → (takeover : Bool) → Request
  detach : (session : Text) → (epoch : ℕ) → Request
  snapshot : (session : Text) → (since : Option ℕ) → Request
  input : (session data_base64 : Text) → (epoch : ℕ) → Request
  resize : (session : Text) → (rows cols epoch : ℕ) → Request
  scroll : (session : Text) → (delta : Bool × ℕ) → (epoch : ℕ) → Request
  search_screen : (session query : Text) → (backwards : Bool) → (epoch : ℕ) → Request
  close_session : (session : Text) → (epoch : ℕ) → (force : Bool) → Request
  preview_close : (project : Option Text) → Request
  close_project : (project : Text) → (sessions : List Text) → (force : Bool) → Request
  shutdown : (sessions : List Text) → (force : Bool) → Request

abbrev pub is_job : RunRequest → Bool
is_job (job job_id) = true
is_job _ = false

pub is_mutating : Request → Bool
is_mutating (run request) = not (is_job request)
is_mutating hello = false
is_mutating (list_sessions project) = false
is_mutating (definition session) = false
is_mutating (snapshot session since) = false
is_mutating (batch b) = false
is_mutating (preview_close project) = false
is_mutating (git_job j) = false
is_mutating (git_operations project) = false
is_mutating (git_operation_snapshot operation since) = false
is_mutating _ = true

abbrev pub max_input_packet : ℕ
max_input_packet = 65536

-- `MAX_INPUT_PACKET.div_ceil(3) * 4`
abbrev pub max_input_base64 : ℕ
max_input_base64 = (max_input_packet + 2) / 3 * 4

abbrev pub max_search_bytes : ℕ
max_search_bytes = 256

module _ (is_uuid : Text → Bool) where
  unfoldable pub target_step : List Text → Text → Result Refusal (List Text)
  target_step unique session =
      valid_id is_uuid session >> insert_new unique session duplicate_target

  unfoldable pub validate_targets : List Text → Check Refusal
  validate_targets sessions =
      ensure (leb (length sessions) max_terminals) too_many_targets
      >> (try_fold [] sessions target_step >>= (λ _. ok tt))

  check_input : Text → Text → Check Refusal
  check_input id data_base64 =
      valid_id is_uuid id >> ensure (leb (byte_len data_base64) max_input_base64) input_too_large

  check_launch : Text → ℕ → ℕ → Environment → Check Refusal
  check_launch id rows cols env =
      valid_id is_uuid id >> validate_dimensions rows cols >> validate_environment env

  unfoldable pub validate_request : Request → Check Refusal
  unfolding check_input check_launch
  validate_request (run request) = validate_run_request is_uuid request
  validate_request (git_submit task) = validate_task is_uuid task
  validate_request (git_job j) = valid_id is_uuid j
  validate_request (git_operation_reconcile operation repository) =
      valid_id is_uuid operation
      >> absolute_path repository.root
      >> absolute_path repository.git_dir
      >> absolute_path repository.common_dir
  validate_request (git_execute plan rows cols) =
      valid_id is_uuid plan >> validate_dimensions rows cols
  validate_request (git_operations project) = when_some project (valid_id is_uuid)
  validate_request (git_operation_attach operation takeover) = valid_id is_uuid operation
  validate_request (git_operation_detach operation epoch) = valid_id is_uuid operation
  validate_request (git_operation_snapshot operation since) = valid_id is_uuid operation
  validate_request (git_operation_cancel operation epoch force) = valid_id is_uuid operation
  validate_request (git_operation_input operation epoch data_base64) =
      check_input operation data_base64
  validate_request (git_operation_resize operation epoch rows cols) =
      valid_id is_uuid operation >> validate_dimensions rows cols
  validate_request hello = ok tt
  validate_request (list_sessions project) = when_some project (valid_id is_uuid)
  validate_request (preview_close project) = when_some project (valid_id is_uuid)
  validate_request (start_terminal project terminal rows cols env reopen) =
      valid_id is_uuid project
      >> valid_id is_uuid terminal
      >> validate_dimensions rows cols
      >> validate_environment env
  validate_request (start_transient project terminal rows cols env reopen) =
      valid_id is_uuid project
      >> valid_id is_uuid terminal.id
      >> validate_dimensions rows cols
      >> validate_environment env
      >> ensure (not terminal.persistent) persistent_transient
  validate_request (start_defaults project rows cols env) = check_launch project rows cols env
  validate_request (batch b) = valid_id is_uuid b
  validate_request (continue_defaults b) = valid_id is_uuid b
  validate_request (cancel_defaults b) = valid_id is_uuid b
  validate_request (definition session) = valid_id is_uuid session
  validate_request (attach session takeover) = valid_id is_uuid session
  validate_request (detach session epoch) = valid_id is_uuid session
  validate_request (snapshot session since) = valid_id is_uuid session
  validate_request (scroll session delta epoch) = valid_id is_uuid session
  validate_request (close_session session epoch force) = valid_id is_uuid session
  validate_request (resize session rows cols epoch) =
      valid_id is_uuid session >> validate_dimensions rows cols
  validate_request (input session data_base64 epoch) = check_input session data_base64
  validate_request (search_screen session query backwards epoch) =
      valid_id is_uuid session
      >> ensure
          (not (is_empty query)
            && leb (byte_len query) max_search_bytes
            && not (any is_control query))
          invalid_query
  validate_request (close_project project sessions force) =
      valid_id is_uuid project >> validate_targets sessions
  validate_request (shutdown sessions force) = validate_targets sessions

pub record Envelope : Type 0 where
  pub protocol : ℕ
  pub request_id : Text
  pub client_id : Text
  pub host_instance : Option Text
  pub deadline_ms : ℕ
  pub request : Request

abbrev pub protocol_version : ℕ
protocol_version = 3

abbrev pub max_request_ms : ℕ
max_request_ms = 5000

-- `u64::saturating_add`
abbrev pub saturating_add : ℕ → ℕ → ℕ
saturating_add a b = if ltb (a + b) 18446744073709551616 then a + b else 18446744073709551615

abbrev pub is_hello : Request → Bool
is_hello hello = true
is_hello _ = false

pub record Response (D : Type 0) : Type 0 where
  pub protocol : ℕ
  pub request_id : Text
  pub host_instance : Text
  pub response_data : Option D
  pub error : Option Text

-- The loop of `safe_error`: `size` is the length in bytes of what was kept so far.
unfoldable pub collect : ℕ → Text → Text
collect size [] = []
collect size (c ∷ s) =
    let kept = collect (size + len_utf8 c) s in
    let rest = collect size s in
    if is_control c then rest else if ltb 512 (size + len_utf8 c) then [] else c ∷ kept

unfoldable pub safe_error : Text → Text
safe_error error = collect 0 error

abbrev pub max_message : ℕ
max_message = 4194304

-- `u32::from_be_bytes`
abbrev pub from_be_bytes : ℕ → ℕ → ℕ → ℕ → ℕ
from_be_bytes a b c d = ((a * 256 + b) * 256 + c) * 256 + d

-- `u32::to_be_bytes`
abbrev pub to_be_bytes : ℕ → ℕ × ℕ × ℕ × ℕ
to_be_bytes n = (n / 16777216 % 256, n / 65536 % 256, n / 256 % 256, n % 256)

unfoldable pub frame_size : ℕ → ℕ → ℕ → ℕ → Result Refusal ℕ
frame_size a b c d =
    let size = from_be_bytes a b c d in
    ensure (ltb 0 size && leb size max_message) message_size >> ok size

-- `serde_json` makes the bytes of a message and reads them; both are outside.
unfoldable pub write_frame : List ℕ → Result Refusal (List ℕ)
write_frame bytes =
    let (a, b, c, d) = to_be_bytes (length bytes) in
    ensure (leb (length bytes) max_message) response_size >> ok (a ∷ b ∷ c ∷ d ∷ bytes)

-- `Read::read_exact`: the bytes and what is left of the stream.
abbrev pub read_exact : ℕ → List ℕ → Result Refusal (List ℕ × List ℕ)
read_exact n stream =
    if leb n (length stream) then ok (take n stream, drop n stream) else err end_of_stream

unfoldable pub read_frame : List ℕ → Result Refusal (List ℕ × List ℕ)
read_frame (a ∷ b ∷ c ∷ d ∷ stream) = frame_size a b c d >>= (λ size. read_exact size stream)
read_frame _ = err end_of_stream

module _ {D : Type 0} where
  abbrev pub success : Text → D → Response D
  success request_id value = record {
    protocol = protocol_version;
    request_id = request_id;
    host_instance = [];
    response_data = some value;
    error = none;
  }

  abbrev pub failure : Text → Text → Response D
  failure request_id reason = record {
    protocol = protocol_version;
    request_id = request_id;
    host_instance = [];
    response_data = none;
    error = some (safe_error reason);
  }

  abbrev pub with_host : Response D → Text → Response D
  with_host r instance_id = record r { host_instance = instance_id }

module _ (is_uuid : Text → Bool) where
  unfoldable pub validate_envelope : ℕ → Envelope → Check Refusal
  validate_envelope now envelope =
      ensure (envelope.protocol == protocol_version) protocol_mismatch
      >> valid_id is_uuid envelope.request_id
      >> valid_id is_uuid envelope.client_id
      >> ensure
          (ltb now envelope.deadline_ms
            && leb envelope.deadline_ms (saturating_add now max_request_ms))
          deadline
      >> (if is_hello envelope.request
          then ok tt
          else (context envelope.host_instance no_host >>= valid_id is_uuid))
      >> validate_request is_uuid envelope.request

  unfoldable pub validate_response : {D : Type 0} → Response D → Envelope → Check Refusal
  validate_response response request =
      ensure (response.protocol == protocol_version) protocol_mismatch
      >> ensure (text_eq response.request_id request.request_id) request_id_mismatch
      >> valid_id is_uuid response.host_instance
      >> when_some request.host_instance
          (λ expected. ensure (text_eq expected response.host_instance) host_changed)
