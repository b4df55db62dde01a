-- ===== src/Journal/Table.antt =====
-- The operations on the journal (crates/app/src/journal/sqlite.rs). The table of SQLite is the list
-- of its rows, each SQL statement a function on it, and `unixepoch()` the argument `now`, in seconds.
-- A row holds the locator in place of its JSON text. Failures of SQLite itself are not modelled.
use eas_mail_mcp.Base.{
  ℕ, suc, ◌+◌, Bool, true, false, ◌&&◌, ◌||◌, not, Option, none, some, List, [], ◌∷◌, ◌++◌, Bytes,
  bytes_eq, ltb, ◌==◌, if◌then◌else◌, ok, err, ◌>>=◌,
}
use eas_mail_mcp.AppError
use eas_mail_mcp.AppError.{AppError, ErrorCode}
use eas_mail_mcp.Journal.Model.{
  OperationStatus, status_eq, storage_error, JournalRecord, JournalBegin, MailResultLocator,
  validate_locator, JournalEntry,
}

abbrev pub Table : Type 0
Table = List JournalEntry

abbrev pub inspect : Table → Bytes → Option JournalEntry
inspect [] id = none
inspect (e ∷ table) id = if bytes_eq e.row.operation_id id then some e else inspect table id

abbrev pub lookup_record : Table → Bytes → Option JournalRecord
lookup_record table id = elim (inspect table id) [ none ↦ none | some e ↦ some e.row ]

-- `UPDATE operations SET … WHERE …`: the number of rows changed, and the table.
unfoldable pub update : (JournalEntry → Bool) → (JournalEntry → JournalEntry) → Table → ℕ × Table
update holds set [] = (0, [])
update holds set (e ∷ table) =
    let rest = update holds set table in
    if holds e then (suc rest.0, set e ∷ rest.1) else (rest.0, e ∷ rest.1)

-- `DELETE FROM operations WHERE …`
unfoldable pub delete : (JournalEntry → Bool) → Table → ℕ × Table
delete holds [] = (0, [])
delete holds (e ∷ table) =
    let rest = delete holds table in if holds e then (suc rest.0, rest.1) else (rest.0, e ∷ rest.1)

abbrev pub is_pending : JournalEntry → Bool
is_pending e = status_eq e.row.status OperationStatus.pending

abbrev pub recover_account : Bytes → ℕ → Table → ℕ × Table
recover_account account_id now table =
    update (λ e. bytes_eq e.row.account_id account_id && is_pending e)
      (λ e. record e {
        row = record (e.row) { status = OperationStatus.unknown };
        updated_at = now;
      })
      table

abbrev pub same_input : JournalRecord → JournalRecord → Bool
same_input old new =
    bytes_eq old.account_id new.account_id
    && bytes_eq old.kind new.kind
    && bytes_eq old.payload_hmac new.payload_hmac

abbrev pub conflict : AppError
conflict =
    AppError.new ErrorCode.idempotency_conflict
      "idempotency key was already used for different input"

-- The row that `begin` inserts.
abbrev pub new_entry : JournalRecord → ℕ → JournalEntry
new_entry row now = record {
  row = record row { status = OperationStatus.pending };
  created_at = now;
  updated_at = now;
  result_locator = none;
}

abbrev pub begin_found :
    JournalRecord → ℕ → Table → Option JournalEntry → AppError.Result JournalBegin × Table
begin_found row now table (some existing) =
    if same_input existing.row row
    then (ok (record { row = existing.row; inserted = false }), table)
    else (err conflict, table)
begin_found row now table none =
    (ok (record { row = row; inserted = true }), table ++ (new_entry row now ∷ []))

unfoldable pub begin : JournalRecord → ℕ → Table → AppError.Result JournalBegin × Table
begin row now table = begin_found row now table (inspect table row.operation_id)

abbrev pub require_updated : ℕ → AppError.Result (Unit {0})
require_updated count = if count == 1 then ok tt else err storage_error

-- What the `SET` of `checkpoint` makes of a row, and that of `finish_with_locator`.
abbrev pub checkpointed : ℕ → ℕ → JournalEntry → JournalEntry
checkpointed steps now e = record e {
  row = record (e.row) { completed_steps = steps };
  updated_at = now;
}

abbrev pub finished :
    OperationStatus → ℕ → Option MailResultLocator → ℕ → JournalEntry → JournalEntry
finished status steps encoded now e = record e {
  row = record (e.row) { status = status; completed_steps = steps };
  updated_at = now;
  result_locator = encoded;
}

unfoldable pub checkpoint : Bytes → ℕ → ℕ → Table → AppError.Result (Unit {0}) × Table
checkpoint id steps now table =
    let updated =
      update (λ e. bytes_eq e.row.operation_id id && is_pending e) (checkpointed steps now) table in
    (require_updated updated.0, updated.1)

abbrev pub encode_locator :
    OperationStatus → Option MailResultLocator → AppError.Result (Option MailResultLocator)
encode_locator status locator =
    if status_eq status OperationStatus.pending
    then err (AppError.new ErrorCode.storage_error "cannot finish an operation as pending")
    else elim locator [
      | none ↦ ok none
      | some l ↦
          if not (status_eq status OperationStatus.succeeded)
          then err (
              AppError.new ErrorCode.validation_failed
                "a move result locator requires confirmed success")
          else (validate_locator l >>= λ valid. ok (some l))
    ]

unfoldable pub finish_with_locator :
    Bytes
    → OperationStatus
    → ℕ
    → Option MailResultLocator
    → ℕ
    → Table
    → AppError.Result (Unit {0}) × Table
finish_with_locator id status steps locator now table = elim (encode_locator status locator) [
  | err failure ↦ (err failure, table)
  | ok encoded ↦
      let updated =
        update (λ e. bytes_eq e.row.operation_id id) (finished status steps encoded now) table in
      (require_updated updated.0, updated.1)
]

-- `updated_at < unixepoch() - 7776000`
abbrev pub is_old : ℕ → JournalEntry → Bool
is_old now e = ltb (e.updated_at + 7_776_000) now

abbrev pub is_settled : JournalEntry → Bool
is_settled e =
    status_eq e.row.status OperationStatus.succeeded
    || status_eq e.row.status OperationStatus.failed

abbrev pub prune_settled : ℕ → Table → ℕ × Table
prune_settled now table = delete (λ e. is_settled e && is_old now e) table

abbrev pub purge_rows : Bytes → Table → ℕ × Table
purge_rows account_id table = delete (λ e. bytes_eq e.row.account_id account_id) table
