-- ===== src/Error.antt =====
-- src/error.rs: the protocol-level errors, their codes and HTTP statuses.
use monty_server.Common.{ℕ, String, Option, none, some, Result}

-- `ApiError`
pub data ApiError : Type 0 where
  bad_request : String → ApiError
  unauthorized : ApiError
  rate_limited : (retry_after : ℕ) → ApiError
  session_not_found session_busy : ApiError
  unavailable : String → ApiError
  internal : ApiError

abbrev pub ApiResult : Type 0 → Type 0
ApiResult A = Result A ApiError

-- `ApiError::code`
unfoldable pub code : ApiError → String
code (bad_request _) = "bad_request"
code unauthorized = "unauthorized"
code (rate_limited _) = "rate_limited"
code session_not_found = "session_not_found"
code session_busy = "session_busy"
code (unavailable _) = "unavailable"
code internal = "internal"

-- `ApiError::status`
unfoldable pub status : ApiError → ℕ
status (bad_request _) = 400
status unauthorized = 401
status (rate_limited _) = 429
status session_not_found = 404
status session_busy = 409
status (unavailable _) = 503
status internal = 500

-- The `#[error("…")]` texts.
unfoldable pub message : ApiError → String
message (bad_request text) = text
message unauthorized = "missing or invalid API token"
message (rate_limited _) = "rate limit exceeded"
message session_not_found = "session not found"
message session_busy = "session is busy with another resume request"
message (unavailable text) = text
message internal = "internal server error"

pub record Response : Type 0 where
  pub status_code : ℕ
  pub body_code : String
  pub body_message : String
  pub retry_after_header : Option ℕ

abbrev retry_header : ApiError → Option ℕ
retry_header (rate_limited retry_after) = some retry_after
retry_header _ = none

-- `IntoResponse for ApiError`; the seconds of `Retry-After` always print as a header value.
unfoldable pub into_response : ApiError → Response
unfolding code status message
into_response e = record {
  status_code = status e;
  body_code = code e;
  body_message = message e;
  retry_after_header = retry_header e;
}
