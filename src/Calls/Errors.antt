-- ===== src/Calls/Errors.antt =====
-- internal/calls/errors.go: the domain errors and their codes.
use combox_backend.Prelude.{String, ◌==◌, if◌then◌else◌, Bool, false, ◌≡◌}

pub record Error : Type 0 where
  pub code : String
  pub message : String

-- A Go `error`: one of this package, or one that another package made, with its text.
pub data GoError : Type 0 where
  call : Error → GoError
  foreign : String → GoError

abbrev pub new_error : String → String → GoError
new_error code message = call (record { code = code; message = message })

-- `(*Error).Error`
unfoldable pub error_text : GoError → String
error_text (call e) = if e.message == "" then e.code else e.message
error_text (foreign text) = text

-- `(*Error).Is`
unfoldable pub is_same : GoError → GoError → Bool
is_same (call e) (call t) = t.code == e.code
is_same _ _ = false

-- `Code`
unfoldable pub error_code : GoError → String
error_code (call e) = e.code
error_code (foreign text) = "internal"

abbrev pub err_call_not_found : GoError
err_call_not_found = new_error "call_not_found" "call not found"

abbrev pub err_call_full : GoError
err_call_full = new_error "call_full" "call is full"

abbrev pub err_call_ended : GoError
err_call_ended = new_error "call_ended" "call already ended"

abbrev pub err_not_member : GoError
err_not_member = new_error "not_member" "user is not a chat member"

abbrev pub err_not_participant : GoError
err_not_participant = new_error "not_participant" "user is not a call participant"

abbrev pub err_forbidden : GoError
err_forbidden = new_error "forbidden" "action is not allowed for this role"

abbrev pub err_invalid_message : GoError
err_invalid_message = new_error "invalid_message" "malformed signaling message"

abbrev pub err_invalid_state : GoError
err_invalid_state = new_error "invalid_state" "signaling state does not allow this operation"

abbrev pub err_topology : GoError
err_topology = new_error "invalid_topology" "operation is not available in the current topology"

abbrev pub err_duplicate_join : GoError
err_duplicate_join = new_error "duplicate_join" "user already joined this call"

-- A Go pair of a value and an error.
pub data Result {ℓ} (A : Type ℓ) : Type ℓ where
  ok : A → Result A
  err : GoError → Result A

pub ok_injective {ℓ} : {A : Type ℓ} {a b : A} → ok a ≡ ok b → a ≡ b
ok_injective h = cc

pub err_injective {ℓ} : {A : Type ℓ} {e f : GoError} → ◌≡◌ {A = Result A} (err e) (err f) → e ≡ f
err_injective h = cc
