-- ===== src/Journal/Model.antt =====
-- The rows of the journal (crates/app/src/journal/model.rs).
use eas_mail_mcp.Base.{
  ℕ, Bool, true, false, ◌&&◌, ◌||◌, Option, [], ◌∷◌, Bytes, ascii, bytes_eq, ltb, ◌==◌,
  if◌then◌else◌, length, ok, err,
}
use eas_mail_mcp.AppError
use eas_mail_mcp.AppError.{AppError, ErrorCode}

pub data OperationStatus : Type 0 where
  pending succeeded failed partial unknown : OperationStatus

abbrev pub status_eq : OperationStatus → OperationStatus → Bool
status_eq OperationStatus.pending other = elim other [ OperationStatus.pending ↦ true | _ ↦ false ]
status_eq OperationStatus.succeeded other = elim other [
  | OperationStatus.succeeded ↦ true
  | _ ↦ false
]
status_eq OperationStatus.failed other = elim other [ OperationStatus.failed ↦ true | _ ↦ false ]
status_eq OperationStatus.partial other = elim other [ OperationStatus.partial ↦ true | _ ↦ false ]
status_eq OperationStatus.unknown other = elim other [ OperationStatus.unknown ↦ true | _ ↦ false ]

abbrev pub storage_error : AppError
storage_error = AppError.new ErrorCode.storage_error "operation journal is unavailable"

abbrev pub as_str : OperationStatus → Bytes
as_str OperationStatus.pending = ascii "pending"
as_str OperationStatus.succeeded = ascii "succeeded"
as_str OperationStatus.failed = ascii "failed"
as_str OperationStatus.partial = ascii "partial"
as_str OperationStatus.unknown = ascii "unknown"

abbrev pub parse_status : Bytes → AppError.Result OperationStatus
parse_status value =
    if bytes_eq value (ascii "pending")
    then ok OperationStatus.pending
    else if bytes_eq value (ascii "succeeded")
    then ok OperationStatus.succeeded
    else if bytes_eq value (ascii "failed")
    then ok OperationStatus.failed
    else if bytes_eq value (ascii "partial")
    then ok OperationStatus.partial
    else if bytes_eq value (ascii "unknown")
    then ok OperationStatus.unknown
    else err storage_error

pub record JournalRecord : Type 0 where
  pub operation_id : Bytes
  pub account_id : Bytes
  pub kind : Bytes
  pub payload_hmac : Bytes
  pub client_id : Bytes
  pub status : OperationStatus
  pub completed_steps : ℕ

-- `JournalBegin`, whose field `record` is called `row` here.
pub record JournalBegin : Type 0 where
  pub row : JournalRecord
  pub inserted : Bool

pub record MailResultLocator : Type 0 where
  pub folder_id : Bytes
  pub server_id : Bytes

-- `chars().any(char::is_control)` on the bytes of a text: U+0000 to U+001F, and U+007F to U+009F,
-- which from U+0080 on are two bytes of which the first is 0xC2.
abbrev pub has_control : Bytes → Bool
has_control [] = false
has_control (b ∷ bs) = ltb b 32 || (b == 127) || ((b == 0xC2) && starts_low bs) || has_control bs
  where
    starts_low : Bytes → Bool
    starts_low [] = false
    starts_low (c ∷ cs) = ltb c 0xA0

abbrev pub bad_identifier : Bytes → Bool
bad_identifier value = (length value == 0) || ltb 8192 (length value) || has_control value

abbrev pub validate_locator : MailResultLocator → AppError.Result (Unit {0})
validate_locator locator =
    if bad_identifier locator.folder_id || bad_identifier locator.server_id
    then err (
        AppError.new ErrorCode.validation_failed
          "operation result locator is invalid or exceeds 8 KiB per identifier")
    else ok tt

-- `JournalEntry`, whose field `record` is called `row` here.
pub record JournalEntry : Type 0 where
  pub row : JournalRecord
  pub created_at : ℕ
  pub updated_at : ℕ
  pub result_locator : Option MailResultLocator
