-- ===== src/Writes/Finish.antt =====
-- The end of a write: its outcome goes into the journal
-- (crates/app/src/runtime/mutation_journal.rs and writes.rs).
use eas_mail_mcp.Base.{ℕ, Bytes, if◌then◌else◌, ok, err}
use eas_mail_mcp.AppError
use eas_mail_mcp.AppError.{AppError, ErrorCode}
use eas_mail_mcp.Journal.Model.{OperationStatus, JournalRecord}
use eas_mail_mcp.Writes.World.{
  OperationState, OperationResult, Step, then_step, lift, is_remote_wipe, is_outcome_unknown,
  journaled, finish, purge_account, journal_after_mutation,
}

abbrev pub confirmed : Bytes → OperationResult
confirmed operation = record {
  operation_id = operation;
  status = OperationState.succeeded;
  message = "Exchange confirmed the operation";
}

abbrev pub purge_after : Bytes → Bytes → AppError.Result (Unit {0}) → Step (Unit {0})
purge_after account operation purged world =
    let done = purge_account account purged world in
    (journal_after_mutation account operation done.0, done.1)

-- The arm of `finish_write` for a failure with this code.
abbrev pub settle_failure :
    Bytes → Bytes → AppError.Result (Unit {0}) → ℕ → ErrorCode → Step (Unit {0})
settle_failure account operation purged now code =
    if is_outcome_unknown code
    then journaled account operation (finish operation OperationStatus.unknown 0 now)
    else if is_remote_wipe code
    then purge_after account operation purged
    else journaled account operation (finish operation OperationStatus.failed 0 now)

unfoldable pub finish_write :
    Bytes
    → Bytes
    → AppError.Result (Unit {0})
    → ℕ
    → AppError.Result (Unit {0})
    → Step OperationResult
finish_write account operation purged now (ok done) world =
    then_step (journaled account operation (finish operation OperationStatus.succeeded 1 now) world)
      (λ stored. lift (ok (confirmed operation)))
finish_write account operation purged now (err failure) world =
    then_step (settle_failure account operation purged now failure.code world)
      (λ stored. lift (err (AppError.operation operation failure)))

-- `existing_result`
abbrev pub state_of : OperationStatus → OperationState
state_of OperationStatus.succeeded = OperationState.succeeded
state_of OperationStatus.failed = OperationState.failed
state_of OperationStatus.partial = OperationState.failed
state_of OperationStatus.pending = OperationState.unknown
state_of OperationStatus.unknown = OperationState.unknown

unfoldable pub existing_result : JournalRecord → OperationResult
existing_result row = record {
  operation_id = row.operation_id;
  status = state_of row.status;
  message = elim row.status [
    | OperationStatus.succeeded ↦ "the prior operation was confirmed"
    | OperationStatus.failed ↦ "the prior operation failed safely"
    | OperationStatus.partial ↦ "the prior operation completed only some Calendar steps"
    | OperationStatus.pending ↦ "the prior operation outcome is unknown"
    | OperationStatus.unknown ↦ "the prior operation outcome is unknown"
  ];
}
