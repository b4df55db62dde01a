-- ===== src/EasError.antt =====
-- The failures of the EAS layer (crates/eas/src/error.rs). A message is its fixed text; what
-- `format!` adds to it is left out.
use eas_mail_mcp.Base.{ℕ, String, Option}
use eas_mail_mcp.Base

-- `stuck` is no error of the source: it says that the fuel of a loop ran out.
pub data EasError : Type 0 where
  authentication : EasError
  access_denied : EasError
  network : String → EasError
  throttled : Option ℕ → EasError
  http_unavailable : Option ℕ → EasError
  response_too_large : EasError
  resource_busy : EasError
  outcome_unknown : EasError
  invalid_configuration : String → EasError
  protocol : String → EasError
  feature_unavailable : String → EasError
  service_unavailable : EasError
  invalid_sync_key : EasError
  invalid_folder_sync_key : EasError
  policy_refresh_required : EasError
  account_remote_wipe : EasError
  unsupported_device_policy : String → EasError
  stuck : EasError

-- `Result<T>` of the crate.
abbrev pub Result {ℓ} : Type ℓ → Type ℓ
Result A = Base.Result EasError A
