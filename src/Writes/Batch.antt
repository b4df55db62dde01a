-- ===== src/Writes/Batch.antt =====
-- Batches of changes (crates/app/src/runtime/mail_batch.rs).
use eas_mail_mcp.Base.{
  ℕ, Bool, true, false, ◌&&◌, ◌||◌, Option, none, some, List, [], ◌∷◌, Bytes, bytes_eq, ltb, ◌==◌,
  String, if◌then◌else◌, length, ok, err, ◌>>=◌, ok_or,
}
use eas_mail_mcp.AppError
use eas_mail_mcp.AppError.{AppError, ErrorCode}
use eas_mail_mcp.Journal.Table.{lookup_record}
use eas_mail_mcp.References.Payloads.{MailSource, BackendMail, Libraries}
use eas_mail_mcp.References.Object.{decode_mail}
use eas_mail_mcp.Writes.World.{
  World, Step, then_step, lift, Accounts, require_write, is_outcome_unknown,
}
use eas_mail_mcp.Writes.Handlers.{Fetch, fetch}
use eas_mail_mcp.Writes.Mail.{MailMutationResult, has_text, validate_item}
use eas_mail_mcp.Writes.Mutation.{MailBatchItem, MailAnswers, mutate_mail}

-- An entry of a batch, with all that it is answered: what the check of the batch reads of its
-- message, and what its change is answered.
pub record Entry : Type 0 where
  pub item : MailBatchItem
  pub parsed_key : Option Bytes
  pub resolved : Fetch BackendMail
  pub answers : MailAnswers

pub record MailBatchEntry : Type 0 where
  pub mail_ref : Bytes
  pub operation_id : Bytes
  pub result : Option MailMutationResult
  pub error : Option AppError
  pub skipped : Bool

abbrev pub validation : String → AppError
validation message = AppError.new ErrorCode.validation_failed message

-- `validate_count`
unfoldable pub validate_count : ℕ → AppError.Result (Unit {0})
validate_count count =
    if count == 0 || ltb 20 count then err (validation "request requires 1–20 messages") else ok tt

-- `identity`, whose text tells accounts and sources apart.
pub record Identity : Type 0 where
  pub account : Bytes
  pub source : MailSource

abbrev pub source_eq : MailSource → MailSource → Bool
source_eq (MailSource.item folder server) other = elim other [
  | MailSource.item f s ↦ bytes_eq folder f && bytes_eq server s
  | MailSource.long_id id ↦ false
]
source_eq (MailSource.long_id id) other = elim other [
  | MailSource.item f s ↦ false
  | MailSource.long_id i ↦ bytes_eq id i
]

abbrev pub has_identity : List Identity → Identity → Bool
has_identity [] identity = false
has_identity (i ∷ identities) identity =
    (bytes_eq i.account identity.account && source_eq i.source identity.source)
    || has_identity identities identity

-- The sets `uuids` and `identities`.
pub record Seen : Type 0 where
  pub uuids : List Bytes
  pub identities : List Identity

abbrev pub insert_uuid : Seen → Bytes → AppError.Result Seen
insert_uuid seen uuid =
    if has_text seen.uuids uuid
    then err (validation "each batch entry requires a distinct UUID")
    else ok (record seen { uuids = uuid ∷ seen.uuids })

abbrev pub insert_identity : Seen → Identity → AppError.Result Seen
insert_identity seen identity =
    if has_identity seen.identities identity
    then err (validation "a message may appear only once in a batch")
    else ok (record seen { identities = identity ∷ seen.identities })

abbrev pub name_entry : Seen → Option Bytes → AppError.Result (Bytes × Seen)
name_entry seen parsed_key = ok_or parsed_key (validation "invalid operation UUID") >>= λ uuid.
    insert_uuid seen uuid >>= λ after. ok (uuid, after)

-- Where the message of an entry is, or why it cannot be changed.
pub record Resolved : Type 0 where
  pub source : MailSource
  pub failure : Option AppError

-- The result of a step as a value: `match … { Ok(…) => …, Err(error) => failure = Some(error) }`.
abbrev pub resolved_or :
    MailSource → AppError.Result BackendMail × World → AppError.Result Resolved × World
resolved_or source (ok mail, world) = (ok (record { source = mail.source; failure = none }), world)
resolved_or source (err failure, world) =
    (ok (record { source = source; failure = some failure }), world)

abbrev pub resolve_entry : Accounts → Bytes → BackendMail → Fetch BackendMail → Step Resolved
resolve_entry accounts uuid mail answer world = elim (lookup_record world.journal uuid) [
  | some row ↦ (ok (record { source = mail.source; failure = none }), world)
  | none ↦ resolved_or mail.source (
      then_step (require_write accounts mail.account_id world)
        (λ allowed. fetch mail.account_id answer))
]

module _ (libraries : Libraries) (accounts : Accounts) where
  abbrev pub validate_entry : Entry → Seen → Step (Option AppError × Seen)
  validate_entry entry seen world =
      then_step (lift (validate_item entry.parsed_key entry.item.action) world) (λ valid. λ w1.
        then_step (lift (name_entry seen entry.parsed_key) w1) (λ named. λ w2.
          then_step (lift (decode_mail libraries entry.item.mail_ref) w2) (λ mail. λ w3.
            then_step (resolve_entry accounts named.0 mail entry.resolved w3) (λ found. lift (
              insert_identity named.1 (record { account = mail.account_id; source = found.source })
              >>= λ s. ok (found.failure, s))))))

  unfoldable pub validate_entries : List Entry → Seen → Step (List (Option AppError))
  validate_entries [] seen world = (ok [], world)
  validate_entries (entry ∷ entries) seen world =
      then_step (validate_entry entry seen world) (λ checked. λ after.
        then_step (validate_entries entries checked.1 after)
          (λ failures. lift (ok (checked.0 ∷ failures))))

  unfoldable pub validate_batch : List Entry → Step (List (Option AppError))
  validate_batch entries world =
      then_step (lift (validate_count (length entries)) world)
        (λ valid. validate_entries entries (record { uuids = []; identities = [] }))

-- `blocked`: the account, and the operation that stopped it.
abbrev pub Blocked : Type 0
Blocked = List (Bytes × Bytes)

abbrev pub find_blocked : Blocked → Bytes → Option Bytes
find_blocked [] account = none
find_blocked ((a, operation) ∷ blocked) account =
    if bytes_eq a account then some operation else find_blocked blocked account

-- `blocked.entry(account).or_insert_with(…)`
abbrev pub block : Blocked → Bytes → Bytes → Blocked
block blocked account operation = elim (find_blocked blocked account) [
  | some first ↦ blocked
  | none ↦ (account, operation) ∷ blocked
]

abbrev pub block_after : Blocked → Bytes → Bytes → AppError.Result MailMutationResult → Blocked
block_after blocked account key (ok result) = blocked
block_after blocked account key (err failure) =
    if is_outcome_unknown failure.code then block blocked account key else blocked

abbrev pub skip_error : Bytes → Bytes → AppError
skip_error account operation = AppError.operation operation (
    AppError.account account (
      AppError.new ErrorCode.outcome_unknown
        "entry skipped because a previous operation for this account has an unknown outcome"))

abbrev pub is_some : Option Bytes → Bool
is_some (some operation) = true
is_some none = false

abbrev pub report :
    MailBatchItem → Option Bytes → AppError.Result MailMutationResult → MailBatchEntry
report item stopped response = record {
  mail_ref = item.mail_ref;
  operation_id = item.idempotency_key;
  result = elim response [ ok result ↦ some result | err failure ↦ none ];
  error = elim response [ ok result ↦ none | err failure ↦ some failure ];
  skipped = is_some stopped;
}

abbrev pub zip_failures : List Entry → List (Option AppError) → List (Entry × Option AppError)
zip_failures [] failures = []
zip_failures (entry ∷ entries) [] = []
zip_failures (entry ∷ entries) (failure ∷ failures) =
    (entry, failure) ∷ zip_failures entries failures

module _ (libraries : Libraries) (accounts : Accounts) where
  unfoldable pub respond : Entry → Bytes → Option Bytes → Option AppError → Step MailMutationResult
  respond entry account (some operation) failure world = (err (skip_error account operation), world)
  respond entry account none (some failure) world = (err (AppError.account account failure), world)
  respond entry account none none world =
      mutate_mail libraries accounts entry.item entry.answers world

  -- The warnings of the source repeat the errors of the entries, and are left out.
  unfoldable pub run_entries : List (Entry × Option AppError) → Blocked → Step (List MailBatchEntry)
  run_entries [] blocked world = (ok [], world)
  run_entries ((entry, failure) ∷ rest) blocked world =
      then_step (lift (decode_mail libraries entry.item.mail_ref) world) (λ mail. λ w1.
        let stopped = find_blocked blocked mail.account_id in
        let response = respond entry mail.account_id stopped failure w1 in
        then_step
          (run_entries rest
            (block_after blocked mail.account_id entry.item.idempotency_key response.0) response.1)
          (λ items. lift (ok (report entry.item stopped response.0 ∷ items))))

  unfoldable pub run_batch : List Entry → Step (List MailBatchEntry)
  run_batch entries world =
      then_step (validate_batch libraries accounts entries world)
        (λ failures. run_entries (zip_failures entries failures) [])
