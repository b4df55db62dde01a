-- ===== src/Conversion.antt =====
-- `From<EasError> for AppError` (crates/app/src/error.rs).
use eas_mail_mcp.Base.{ℕ, true, Option, none, some}
use eas_mail_mcp.EasError.{EasError}
use eas_mail_mcp.AppError
use eas_mail_mcp.AppError.{AppError, ErrorCode}

-- `AppError::retryable`
abbrev pub retryable : AppError → AppError
retryable e = record e { retryable = true }

-- `AppError::retry_after`
abbrev pub retry_after : Option ℕ → AppError → AppError
retry_after seconds e = record e { retry_after_seconds = seconds }

abbrev pub stale : AppError
stale = retryable (AppError.new ErrorCode.sync_stale "Exchange state changed; refresh and retry")

-- The answer is `none` for `stuck` alone, which is no error of the source.
unfoldable pub from_eas_error : EasError → Option AppError
from_eas_error EasError.resource_busy =
    some (retryable (AppError.new ErrorCode.resource_busy "local Exchange request queue is busy"))
from_eas_error (EasError.feature_unavailable message) =
    some (AppError.new ErrorCode.feature_unavailable message)
from_eas_error EasError.authentication =
    some (AppError.new ErrorCode.auth_required "Exchange rejected the account credentials")
from_eas_error EasError.access_denied = some (
    AppError.with_remediation
      "Ask the Exchange administrator to verify EAS access and client allowlisting"
      (AppError.new ErrorCode.access_denied "Exchange denied ActiveSync access for this account"))
from_eas_error (EasError.network message) = some (
    retryable
      (AppError.new ErrorCode.network_unreachable "Cannot reach the managed Exchange endpoint"))
from_eas_error (EasError.throttled seconds) = some (
    retry_after seconds
      (retryable (AppError.new ErrorCode.throttled "Exchange throttled the request")))
from_eas_error (EasError.http_unavailable seconds) = some (
    retry_after seconds (
      retryable (AppError.new ErrorCode.service_unavailable "Exchange is temporarily unavailable")))
from_eas_error EasError.response_too_large =
    some
      (AppError.new ErrorCode.result_too_large "Exchange response exceeds the command byte limit")
from_eas_error EasError.service_unavailable = some (
    retryable (
      AppError.new ErrorCode.protocol_error
        "Exchange availability service is temporarily unavailable"))
from_eas_error EasError.outcome_unknown =
    some (AppError.new ErrorCode.outcome_unknown "The mutation outcome is unknown")
from_eas_error (EasError.invalid_configuration message) =
    some (AppError.new ErrorCode.config_invalid "The managed account configuration is invalid")
from_eas_error EasError.invalid_sync_key = some stale
from_eas_error EasError.invalid_folder_sync_key = some stale
from_eas_error EasError.policy_refresh_required = some stale
from_eas_error EasError.account_remote_wipe =
    some (AppError.new ErrorCode.remote_wipe "Exchange removed local data for this account")
from_eas_error (EasError.unsupported_device_policy message) =
    some (AppError.new ErrorCode.policy_blocked "Exchange requires an unsupported device policy")
from_eas_error (EasError.protocol message) =
    some (AppError.new ErrorCode.protocol_error "Exchange returned an invalid protocol response")
from_eas_error EasError.stuck = none
