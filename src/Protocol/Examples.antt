-- ===== src/Protocol/Examples.antt =====
-- Small messages, and instances of the theorems. Every text is taken for a UUID.
use idk.Common.{
  ℕ, ◌*◌, ◌≡◌, ◌≢◌, ◌≤◌, refl, List, [], ◌∷◌, ◌++◌, none, some, Bool, true, false, ◌&&◌, Text,
  text_Eq, text_eq, text_eq_iff, Result, codes, ok, is_ok, All, Distinct, byte_len, length, arith,
  is_control,
}
use idk.Model.{max_terminals}
use idk.Model.Fields.{valid_id}
use idk.RunWire.Requests.{validate_dimensions, max_terminal_cells}
use idk.Protocol.{
  resize, snapshot, Envelope, Response, validate_request, validate_targets, target_step,
  validate_response, success, with_host, safe_error, read_frame, write_frame,
}
use idk.Protocol.Laws.{
  answer, read_frame-write_frame, safe_error-bounds, validate_targets-Distinct,
  validate_request-viewport, validate_response-with_host,
}

abbrev any_text : Text → Bool
any_text id = true

read_frame-write_frame_example :
    read_frame ((0 ∷ 0 ∷ 0 ∷ 2 ∷ codes "{}") ++ codes "x") ≡ ok (codes "{}", codes "x")
unfolding write_frame
read_frame-write_frame_example =
    read_frame-write_frame (codes "{}") (0 ∷ 0 ∷ 0 ∷ 2 ∷ codes "{}") (codes "x") (omega arith) refl

safe_error-bounds_example :
    (byte_len (safe_error (codes "no\n")) ≤ 512)
    × All (λ c. is_control c ≡ false) (safe_error (codes "no\n"))
    × (safe_error (safe_error (codes "no\n")) ≡ safe_error (codes "no\n"))
safe_error-bounds_example = safe_error-bounds (codes "no\n")

abbrev sessions : List Text
sessions = codes "a" ∷ codes "b" ∷ []

validate_targets-Distinct_example :
    Distinct sessions × All (λ id. any_text id ≡ true) sessions × (length sessions ≤ max_terminals)
unfolding validate_targets target_step valid_id
validate_targets-Distinct_example = validate_targets-Distinct any_text sessions refl

validate_request-viewport_example : (1 ≤ 24) × (2 ≤ 80) × (24 * 80 ≤ max_terminal_cells)
unfolding validate_request valid_id validate_dimensions
validate_request-viewport_example =
    validate_request-viewport any_text (resize (codes "s") 24 80 1) 24 80 refl refl

abbrev envelope : Envelope
envelope = record {
  protocol = 3;
  request_id = codes "r";
  client_id = codes "c";
  host_instance = some (codes "h");
  deadline_ms = 1500;
  request = snapshot (codes "s") none;
}

abbrev right_answer : Result Text ℕ
right_answer = ok 5

validate_response-with_host_example :
    is_ok (
      validate_response any_text
        (with_host (answer any_text (codes "r") right_answer) (codes "h"))
        envelope)
    ≡ any_text (codes "h")
      && elim envelope.host_instance [ none ↦ true | some expected ↦ text_eq expected (codes "h") ]
validate_response-with_host_example =
    validate_response-with_host any_text envelope (codes "h") right_answer

two_bools : ◌≢◌ {A = Bool} false true
two_bools h = ground arith

abbrev other_response : Response ℕ
other_response = with_host (success (codes "q") 5) (codes "h")

other_request : codes "q" ≢ codes "r"
other_request h = absurd (two_bools ((text_eq_iff (codes "q") (codes "r")).1 h))
