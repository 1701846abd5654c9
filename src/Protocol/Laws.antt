-- ===== src/Protocol/Laws.antt =====
-- What the checks of messages guarantee.
use idk.Common.{
  ℕ, ◌+◌, ◌*◌, ◌≤◌, ◌≡◌, ◌≢◌, refl, ap, List, [], ◌∷◌, Option, none, some, Bool, true, false, ◌&&◌,
  Text, text_eq, text_Eq, text_eq_iff, leb, length, byte_len, len_utf8, is_control, Result, ok, err,
  ensure, is_ok, arith, All, Distinct, Inserts, try_fold, try_fold_unique, insert_new-eq-ok, ◌++◌,
  take, drop, length-append, >>-eq-ok, >>=-eq-ok, map,
}
use mathlib.Core.Path.{subst}
use idk.Model.{max_terminals, duplicate_target, too_many_targets}
use idk.Model.Fields.{valid_id}
use idk.RunWire.Requests.{
  RunRequest, start_run, editor_open, validate_dimensions, validate_run_request, check_request,
  max_terminal_cells,
}
use idk.Protocol.{
  Request, run, git_execute, git_operation_resize, start_terminal, start_transient, start_defaults,
  resize, validate_request, target_step, validate_targets, Envelope, Response, validate_response,
  success, failure, with_host, collect, safe_error, frame_size, write_frame, read_frame,
  to_be_bytes, max_message,
}

frame_size-to_be_bytes :
    (n : ℕ)
    → 1 ≤ n
    → n ≤ max_message
    → (let (a, b, c, d) = to_be_bytes n in frame_size a b c d) ≡ ok n
unfolding frame_size
frame_size-to_be_bytes n h k = ground arith

take-append : (xs ys : List ℕ) → take (length xs) (xs ++ ys) ≡ xs
take-append [] ys = refl
take-append (x ∷ xs) ys = ground (arith, take-append xs ys)

drop-append : (xs ys : List ℕ) → drop (length xs) (xs ++ ys) ≡ ys
drop-append [] ys = refl
drop-append (x ∷ xs) ys = ground (arith, drop-append xs ys)

-- A message of at least a byte that could be written is read back as it was, and the stream stands
-- behind it.
pub read_frame-write_frame :
    (bytes frame rest : List ℕ)
    → 1 ≤ length bytes
    → write_frame bytes ≡ ok frame
    → read_frame (frame ++ rest) ≡ ok (bytes, rest)
unfolding write_frame read_frame
read_frame-write_frame bytes frame rest some_byte h =
    let fits : length bytes ≤ max_message = ground (arith, h) in
    let (a, b, c, d) = to_be_bytes (length bytes) in
    let same : a ∷ b ∷ c ∷ d ∷ bytes ≡ frame = ground (arith, h) in
    subst (λ f. read_frame (f ++ rest) ≡ ok (bytes, rest)) same
      (rw (frame_size-to_be_bytes (length bytes) some_byte fits)
        (ground (arith, take-append bytes rest, drop-append bytes rest, length-append bytes rest)))

collect-le : (size : ℕ) (s : Text) → size ≤ 512 → size + byte_len (collect size s) ≤ 512
unfolding collect
collect-le size [] h = omega arith
collect-le size (c ∷ s) h = ground (arith, collect-le size s h, collect-le (size + len_utf8 c) s)

collect-visible : (size : ℕ) (s : Text) → All (λ c. is_control c ≡ false) (collect size s)
unfolding collect
collect-visible size [] = tt
collect-visible size (c ∷ s) =
    ground (arith, collect-visible size s, collect-visible (size + len_utf8 c) s)

-- A text without control characters that fits is kept.
collect-whole :
    (size : ℕ) (s : Text)
    → All (λ c. is_control c ≡ false) s
    → size + byte_len s ≤ 512
    → collect size s ≡ s
unfolding collect
collect-whole size [] h fits = refl
collect-whole size (c ∷ s) h fits = ground (arith, h.0, collect-whole (size + len_utf8 c) s h.1)

-- What `safe_error` makes of a message has at most 512 bytes and no control character, and
-- `safe_error` changes nothing of it.
pub safe_error-bounds :
    (reason : Text)
    → (byte_len (safe_error reason) ≤ 512)
      × All (λ c. is_control c ≡ false) (safe_error reason)
      × (safe_error (safe_error reason) ≡ safe_error reason)
unfolding safe_error
safe_error-bounds reason =
    let le : 0 + byte_len (collect 0 reason) ≤ 512 = collect-le 0 reason (omega arith) in
    (
      omega (arith, le),
      collect-visible 0 reason,
      collect-whole 0 (collect 0 reason) (collect-visible 0 reason) le,
    )

module _ (is_uuid : Text → Bool) where
  target_step-Inserts : Inserts (λ id. id) (target_step is_uuid)
  unfolding target_step
  target_step-Inserts s id s' h = insert_new-eq-ok s id duplicate_target s' (>>-eq-ok _ _ h).1

  targets-valid :
      (s s' : List Text) (xs : List Text)
      → try_fold s xs (target_step is_uuid) ≡ ok s'
      → All (λ id. is_uuid id ≡ true) xs
  unfolding target_step valid_id
  targets-valid s s' [] h = tt
  targets-valid s s' (x ∷ xs) h =
      let (s1, first, rest) =
        >>=-eq-ok (target_step is_uuid s x) (λ t. try_fold t xs (target_step is_uuid)) h in
      (ground (arith, first), targets-valid s1 s' xs rest)

  map-id : (xs : List Text) → map (λ x. x) xs ≡ xs
  map-id [] = refl
  map-id (x ∷ xs) = ap (◌∷◌ x) (map-id xs)

  -- The sessions of an accepted request to close them are UUIDs, at most 64, and all different.
  pub validate_targets-Distinct :
      (sessions : List Text)
      → validate_targets is_uuid sessions ≡ ok tt
      → Distinct sessions
        × All (λ id. is_uuid id ≡ true) sessions
        × (length sessions ≤ max_terminals)
  unfolding validate_targets
  validate_targets-Distinct sessions h =
      let (size, loop) =
        >>-eq-ok (ensure (leb (length sessions) max_terminals) too_many_targets) _ h in
      let (last, folded, _) =
        >>=-eq-ok (try_fold [] sessions (target_step is_uuid)) (λ _. ok tt) loop in
      let (once, _, _) =
        try_fold_unique (λ id. id) (target_step is_uuid) target_step-Inserts [] last sessions
          folded in
      (
        subst Distinct (map-id sessions) once,
        targets-valid [] last sessions folded,
        ground (arith, size),
      )

  -- The viewport that a request asks for.
  abbrev run_viewport : RunRequest → Option (ℕ × ℕ)
  run_viewport (start_run p t o d e parallel rows cols) = some (rows, cols)
  run_viewport (editor_open r e rows cols) = some (rows, cols)
  run_viewport _ = none

  abbrev pub viewport : Request → Option (ℕ × ℕ)
  viewport (run request) = run_viewport request
  viewport (git_execute plan rows cols) = some (rows, cols)
  viewport (git_operation_resize operation epoch rows cols) = some (rows, cols)
  viewport (start_terminal p t rows cols e reopen) = some (rows, cols)
  viewport (start_transient p t rows cols e reopen) = some (rows, cols)
  viewport (start_defaults p rows cols e) = some (rows, cols)
  viewport (resize session rows cols epoch) = some (rows, cols)
  viewport _ = none

  -- Whatever request is accepted, the viewport that it asks for has at least a row and two columns, and
  -- at most 12000 cells.
  pub validate_request-viewport :
      (request : Request) (rows cols : ℕ)
      → viewport request ≡ some (rows, cols)
      → validate_request is_uuid request ≡ ok tt
      → (1 ≤ rows) × (2 ≤ cols) × (rows * cols ≤ max_terminal_cells)
  unfolding validate_request validate_run_request check_request validate_dimensions
  validate_request-viewport request rows cols asks h = ground arith

  abbrev pub answer : {D : Type 0} → Text → Result Text D → Response D
  answer request_id (ok value) = success request_id value
  answer request_id (err reason) = failure request_id reason

  -- The host's answer to a request, success or failure, made with the request's own identifier, is
  -- accepted by the client if and only if the host is named by a UUID and is the one that the
  -- request names, if it names one.
  pub validate_response-with_host :
      {D : Type 0} (envelope : Envelope) (host : Text) (outcome : Result Text D)
      → is_ok
          (validate_response is_uuid (with_host (answer envelope.request_id outcome) host) envelope)
        ≡ is_uuid host
          && elim envelope.host_instance [ none ↦ true | some expected ↦ text_eq expected host ]
  unfolding validate_response valid_id
  validate_response-with_host envelope host outcome =
      ground (arith, text_eq_iff envelope.request_id envelope.request_id)

  -- A response whose request identifier is not that of the request is refused, whatever else it
  -- holds.
  pub validate_response-request_id :
      {D : Type 0} (response : Response D) (envelope : Envelope)
      → response.request_id ≢ envelope.request_id
      → is_ok (validate_response is_uuid response envelope) ≡ false
  unfolding validate_response
  validate_response-request_id response envelope other =
      ground (arith, text_eq_iff response.request_id envelope.request_id)
