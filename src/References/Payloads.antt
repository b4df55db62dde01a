-- ===== src/References/Payloads.antt =====
-- The contents of the portable references to messages, events and attachments, and their checks
-- (crates/app/src/references/object.rs).
use eas_mail_mcp.Base.{
  ℕ, ◌*◌, Bool, true, false, ◌&&◌, ◌||◌, not, Option, none, some, [], ◌∷◌, Bytes, ascii, ltb, leb,
  ◌==◌, if◌then◌else◌, length, ok, err, ◌>>◌,
}
use eas_mail_mcp.AppError
use eas_mail_mcp.AppError.{AppError, ErrorCode}
use eas_mail_mcp.Journal.Model.{has_control}
use eas_mail_mcp.Policy.Integer.{ℤ, pos, negsuc}

pub data MailSource : Type 0 where
  item : Bytes → Bytes → MailSource
  long_id : Bytes → MailSource

-- `BackendMail` and `BackendEvent` without the fields that a reference leaves out.
pub record BackendMail : Type 0 where
  pub account_id : Bytes
  pub folder_id : Bytes
  pub source : MailSource

pub data Patch (A : Type 0) : Type 0 where
  missing : Patch A
  value : A → Patch A

pub record BackendEvent : Type 0 where
  pub occurrence_start : Option ℕ
  pub account_id : Bytes
  pub long_id : Bytes
  pub collection_id : Option Bytes
  pub server_id : Option Bytes
  pub uid : Patch Bytes

pub record AttachmentReference : Type 0 where
  pub account_id : Bytes
  pub file_reference : Bytes
  pub display_name : Bytes

pub record MailPayload : Type 0 where
  pub account_id : Bytes
  pub source : MailSource

pub record EventPayload : Type 0 where
  pub occurrence_start : Option ℕ
  pub account_id : Bytes
  pub uid : Option Bytes
  pub long_id : Bytes
  pub collection_id : Option Bytes
  pub server_id : Option Bytes

pub data MeetingReference : Type 0 where
  event : BackendEvent → MeetingReference
  mail : BackendMail → MeetingReference

-- What serde_json makes of a payload, and reads from bytes.
pub record Json (A : Type 0) : Type 0 where
  pub to_vec : A → Option Bytes
  pub from_slice : Bytes → Option A

-- The libraries: base64 in its URL-safe alphabet without padding, serde_json, and chrono's year and
-- nanosecond of an instant.
pub record Libraries : Type 0 where
  pub base64_encode : Bytes → Bytes
  pub base64_decode : Bytes → Option Bytes
  pub mail_json : Json MailPayload
  pub event_json : Json EventPayload
  pub attachment_json : Json AttachmentReference
  pub year : ℕ → ℤ
  pub nanosecond : ℕ → ℕ

abbrev pub max_reference_bytes : ℕ
max_reference_bytes = 48 * 1024

abbrev pub max_payload_bytes : ℕ
max_payload_bytes = 32 * 1024

abbrev pub max_account_bytes : ℕ
max_account_bytes = 256

abbrev pub max_locator_bytes : ℕ
max_locator_bytes = 8 * 1024

abbrev pub max_filename_bytes : ℕ
max_filename_bytes = 1024

abbrev pub prefix : Bytes
prefix = ascii "ref1"

abbrev pub invalid : AppError
invalid =
    AppError.new ErrorCode.validation_failed
      "object reference is invalid or unsupported; run list or search again"

abbrev pub is_empty : Bytes → Bool
is_empty [] = true
is_empty (b ∷ bs) = false

abbrev pub validate_required : Bytes → ℕ → AppError.Result (Unit {0})
validate_required given maximum =
    if is_empty given || ltb maximum (length given) || has_control given then err invalid else ok tt

abbrev pub validate_optional : Bytes → ℕ → AppError.Result (Unit {0})
validate_optional given maximum =
    if ltb maximum (length given) || has_control given then err invalid else ok tt

-- `if let Some(value) = … { validate_required(value, MAX_LOCATOR_BYTES)? }`
abbrev pub validate_some : Option Bytes → AppError.Result (Unit {0})
validate_some none = ok tt
validate_some (some given) = validate_required given max_locator_bytes

abbrev pub validate_source : MailSource → AppError.Result (Unit {0})
validate_source (MailSource.item folder server) =
    validate_required folder max_locator_bytes >> validate_required server max_locator_bytes
validate_source (MailSource.long_id id) = validate_required id max_locator_bytes

abbrev pub validate_mail : MailPayload → AppError.Result (Unit {0})
validate_mail payload =
    validate_required payload.account_id max_account_bytes >> validate_source payload.source

abbrev pub common_year : ℤ → Bool
common_year (pos n) = leb 1 n && leb n 9999
common_year (negsuc n) = false

abbrev pub is_none : Option Bytes → Bool
is_none none = true
is_none (some given) = false

abbrev pub validate_attachment : AttachmentReference → AppError.Result (Unit {0})
validate_attachment payload =
    validate_required payload.account_id max_account_bytes
    >> validate_required payload.file_reference max_locator_bytes
    >> validate_required payload.display_name max_filename_bytes

module _ (libraries : Libraries) where
  abbrev pub validate_start : Option ℕ → AppError.Result (Unit {0})
  validate_start none = ok tt
  validate_start (some instant) =
      if not (common_year (libraries.year instant)) || not (libraries.nanosecond instant == 0)
      then err invalid
      else ok tt

  unfoldable pub validate_event : EventPayload → AppError.Result (Unit {0})
  validate_event payload =
      validate_start payload.occurrence_start
      >> validate_required payload.account_id max_account_bytes
      >> validate_some payload.uid
      >> validate_optional payload.long_id max_locator_bytes
      >> validate_some payload.collection_id
      >> validate_some payload.server_id
      >> (if is_empty payload.long_id
            && (is_none payload.collection_id || is_none payload.server_id)
          then err invalid
          else ok tt)
