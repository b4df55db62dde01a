-- ===== src/Writes/World.antt =====
-- What the write handlers share: the journal, the accounts that Exchange had wiped, and the calls
-- that reached a backend (crates/app/src/runtime/mod.rs and mutation_journal.rs).
use eas_mail_mcp.Base.{
  ℕ, String, Bool, true, false, ◌||◌, none, List, [], ◌∷◌, Bytes, bytes_eq, if◌then◌else◌, ok, err,
  ◌>>=◌,
}
use eas_mail_mcp.AppError
use eas_mail_mcp.AppError.{AppError, ErrorCode}
use eas_mail_mcp.Journal.Model.{OperationStatus, JournalRecord}
use eas_mail_mcp.Journal.Table.{Table, purge_rows, finish_with_locator, checkpoint}

-- The part of `Runtime` that a write changes. `sent` is no field of the source: it has the account
-- and the operation of every mutation that was handed to a backend.
pub record World : Type 0 where
  pub journal : Table
  pub disabled_accounts : List Bytes
  pub sent : List (Bytes × Bytes)

abbrev pub has_account : List Bytes → Bytes → Bool
has_account [] account = false
has_account (a ∷ accounts) account = bytes_eq a account || has_account accounts account

pub data OperationState : Type 0 where
  succeeded failed unknown : OperationState

pub record OperationResult : Type 0 where
  pub operation_id : Bytes
  pub status : OperationState
  pub message : String

-- A step that answers and changes the world.
abbrev pub Step : Type 0 → Type 0
Step A = World → AppError.Result A × World

abbrev pub then_step :
    {A B : Type 0} → AppError.Result A × World → (A → Step B) → AppError.Result B × World
then_step (ok a, world) next = next a world
then_step (err failure, world) next = (err failure, world)

abbrev pub lift : {A : Type 0} → AppError.Result A → Step A
lift result world = (result, world)

abbrev pub remote_wiped : Bytes → AppError
remote_wiped account = AppError.account account (
    AppError.new ErrorCode.remote_wipe
      "Exchange removed local account data; configure the account again")

-- The accounts of the configuration: whether one is there and enabled, and whether it may be
-- written to.
pub record Accounts : Type 0 where
  pub is_enabled : Bytes → Bool
  pub is_write_enabled : Bytes → Bool

-- `backend` and `require_write`
abbrev pub find_backend : Accounts → Bytes → List Bytes → AppError.Result (Unit {0})
find_backend accounts account disabled =
    if has_account disabled account
    then err (remote_wiped account)
    else if accounts.is_enabled account
    then ok tt
    else err (
        AppError.account account
          (AppError.new ErrorCode.not_found "account is not configured or enabled"))

abbrev pub write_allowed : Accounts → Bytes → AppError.Result (Unit {0})
write_allowed accounts account =
    if accounts.is_write_enabled account
    then ok tt
    else err (
        AppError.account account
          (AppError.new ErrorCode.validation_failed "write tools are disabled for this account"))

unfoldable pub require_write : Accounts → Bytes → Step (Unit {0})
require_write accounts account world = (
  find_backend accounts account world.disabled_accounts >>= λ found. write_allowed accounts account,
  world,
)

-- `Runtime::purge_account`; `purged` is what clearing the cursors and the cached attachments
-- answers, which touches nothing that is modelled here.
unfoldable pub purge_account : Bytes → AppError.Result (Unit {0}) → Step (Unit {0})
purge_account account purged world = (
  purged,
  record world {
    disabled_accounts = account ∷ world.disabled_accounts;
    journal = (purge_rows account world.journal).1;
  },
)

abbrev pub is_remote_wipe : ErrorCode → Bool
is_remote_wipe code = elim code [ ErrorCode.remote_wipe ↦ true | _ ↦ false ]

abbrev pub is_outcome_unknown : ErrorCode → Bool
is_outcome_unknown code = elim code [ ErrorCode.outcome_unknown ↦ true | _ ↦ false ]

-- `account_result`
unfoldable pub account_result :
    {A : Type 0} → Bytes → AppError.Result (Unit {0}) → AppError.Result A → Step A
account_result account purged (ok value) world = (ok value, world)
account_result account purged (err failure) world =
    if is_remote_wipe failure.code
    then then_step (purge_account account purged world) (λ done. lift (err failure))
    else (err failure, world)

-- `journal_after_mutation`
abbrev pub journal_after_mutation :
    {A : Type 0} → Bytes → Bytes → AppError.Result A → AppError.Result A
journal_after_mutation account operation (ok value) = ok value
journal_after_mutation account operation (err failure) = err (
    AppError.with_remediation
      "Inspect the operation and Exchange state; do not retry with a new UUID"
      (AppError.operation operation (
        AppError.account account (
          AppError.new ErrorCode.outcome_unknown
            "Exchange may have applied the operation, but local result handling failed"))))

-- A call of the journal, its answer put through `journal_after_mutation`.
abbrev pub journaled :
    Bytes → Bytes → (Table → AppError.Result (Unit {0}) × Table) → Step (Unit {0})
journaled account operation call world =
    let called = call world.journal in
    (journal_after_mutation account operation called.0, record world { journal = called.1 })

unfoldable pub checkpoint_mutation : JournalRecord → ℕ → ℕ → Step (Unit {0})
checkpoint_mutation row steps now =
    journaled row.account_id row.operation_id (checkpoint row.operation_id steps now)

-- `OperationJournal::finish`
abbrev pub finish : Bytes → OperationStatus → ℕ → ℕ → Table → AppError.Result (Unit {0}) × Table
finish operation status steps now table = finish_with_locator operation status steps none now table
