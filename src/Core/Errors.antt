-- ===== src/Core/Errors.antt =====
-- src/core/error-codes.ts and core/errors.ts: the codes and the error object.
-- Of an error's context the model has the fields that its operations fill in; `remediation` (a
-- fixed text for each code) and `cause` (kept, never read) are left out.
use Prim.Native.String.{String}
use serial_broker.Prelude.{ℕ, Bool, true, false, Option, none}

pub data ErrorCode : Type 0 where
  invalid_argument unknown_configuration configuration_conflict configuration_released : ErrorCode
  web_serial_unavailable web_locks_unavailable transport_unavailable broker_unavailable : ErrorCode
  permission_required permission_denied user_gesture_required device_mismatch : ErrorCode
  open_failed open_timeout device_disconnected reconnect_exhausted read_failed : ErrorCode
  not_connected write_failed write_timeout write_queue_full owner_lost_during_write : ErrorCode
  protocol_version_mismatch storage_unavailable storage_corrupt : ErrorCode
  listener_threw internal_invariant unknown : ErrorCode

-- `RETRYABLE_CODES.has(code)`
abbrev pub is_retryable_code : ErrorCode → Bool
is_retryable_code ErrorCode.device_disconnected = true
is_retryable_code ErrorCode.open_failed = true
is_retryable_code ErrorCode.open_timeout = true
is_retryable_code ErrorCode.read_failed = true
is_retryable_code _ = false

-- `code === NOT_CONNECTED`
abbrev pub is_not_connected : ErrorCode → Bool
is_not_connected ErrorCode.not_connected = true
is_not_connected _ = false

pub record ErrorContext : Type 0 where
  pub request_id : Option ℕ
  pub byte_length : Option ℕ
  pub started : Option Bool

abbrev pub no_context : ErrorContext
no_context = record { request_id = none; byte_length = none; started = none }

pub record SerialBrokerError : Type 0 where
  pub code : ErrorCode
  pub message : String
  pub config_name : String
  pub context : ErrorContext
  pub is_retryable : Bool
  pub timestamp : ℕ

-- The constructor, for a call that does not set `isRetryable` itself.
abbrev pub new_error : ErrorCode → String → String → ErrorContext → ℕ → SerialBrokerError
new_error code message config_name context timestamp = record {
  code = code;
  message = message;
  config_name = config_name;
  context = context;
  is_retryable = is_retryable_code code;
  timestamp = timestamp;
}
