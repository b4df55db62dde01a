-- ===== src/AppError.antt =====
-- The failures of the application layer (crates/app/src/error.rs). A message is its fixed text. The
-- list of the failures of further accounts, `account_errors`, is left out.
use eas_mail_mcp.Base.{ℕ, String, Bool, true, false, Option, none, some, Bytes, ascii}
use eas_mail_mcp.Base

pub data ErrorCode : Type 0 where
  auth_required access_denied network_unreachable throttled service_unavailable : ErrorCode
  resource_busy config_invalid policy_blocked not_found reference_expired : ErrorCode
  validation_failed feature_unavailable account_selection_required result_too_large : ErrorCode
  interactive_required protocol_error sync_stale outcome_unknown remote_wipe : ErrorCode
  idempotency_conflict storage_error : ErrorCode

-- `ErrorEnvelope`, with the field of `ErrorContext` that is modelled.
pub record AppError : Type 0 where
  pub code : ErrorCode
  pub message : String
  pub retryable : Bool
  pub account_id : Option Bytes
  pub operation_id : Option Bytes
  pub remediation : Option String
  pub retry_after_seconds : Option ℕ

-- `AppError::new`
abbrev pub new : ErrorCode → String → AppError
new code message = record {
  code = code;
  message = message;
  retryable = false;
  account_id = none;
  operation_id = none;
  remediation = none;
  retry_after_seconds = none;
}

-- `AppError::account`
abbrev pub account : Bytes → AppError → AppError
account id e = record e { account_id = some id }

-- `AppError::operation`
abbrev pub operation : Bytes → AppError → AppError
operation id e = record e { operation_id = some id }

-- `AppError::remediation`
abbrev pub with_remediation : String → AppError → AppError
with_remediation value e = record e { remediation = some value }

-- `Result<T>` of the crate.
abbrev pub Result {ℓ} : Type ℓ → Type ℓ
Result A = Base.Result AppError A
