-- ===== src/Writes/Mutation.antt =====
-- The change of one message: mail_move, mail_delete, mail_set_flag, mail_set_categories and the entries of
-- a batch (crates/app/src/runtime/mail_mutation.rs).
use eas_mail_mcp.Base.{
  ℕ, Bool, true, false, Option, none, some, List, Bytes, if◌then◌else◌, ok, err, ◌>>=◌, ok_or,
}
use eas_mail_mcp.AppError
use eas_mail_mcp.AppError.{AppError, ErrorCode}
use eas_mail_mcp.Journal.Model.{OperationStatus, JournalRecord, JournalBegin, MailResultLocator}
use eas_mail_mcp.Journal.Table.{Table, inspect, finish_with_locator}
use eas_mail_mcp.References.Payloads.{MailSource, BackendMail, Libraries}
use eas_mail_mcp.References.Object.{encode_mail, decode_mail}
use eas_mail_mcp.Writes.World.{
  World, OperationState, Step, then_step, lift, Accounts, is_remote_wipe, is_outcome_unknown,
  finish,
}
use eas_mail_mcp.Writes.Finish.{purge_after, existing_result}
use eas_mail_mcp.Writes.Handlers.{
  Request, begin_write, replay_write, hand_over, Lock, enter, Fetch, fetch,
}
use eas_mail_mcp.Writes.Mail.{
  MailAction, kind_of_action, moves, MailMutationResult, validate_item, Folder, destination,
}

pub record MailBatchItem : Type 0 where
  pub mail_ref : Bytes
  pub idempotency_key : Bytes
  pub action : MailAction

-- The calls of the backend, and what follows them: what a move answers, and what another change.
pub record MailCall : Type 0 where
  pub moved : AppError.Result MailSource
  pub changed : AppError.Result (Unit {0})
  pub meanwhile : World → World
  pub purged : AppError.Result (Unit {0})
  pub begin_at : ℕ
  pub finish_at : ℕ

pub record MailAnswers : Type 0 where
  pub request : Request
  pub lock : Lock
  pub resolved : Fetch BackendMail
  pub folders : Fetch (List Folder)
  pub verified : AppError.Result (Unit {0})
  pub ready : Fetch (Unit {0})
  pub call : MailCall

-- `unknown`
abbrev pub unknown_outcome : Bytes → AppError
unknown_outcome operation = AppError.operation operation (
    AppError.new ErrorCode.outcome_unknown
      "operation outcome is unknown; inspect the UUID and do not repeat it with a new UUID")

abbrev pub disappeared : AppError
disappeared = AppError.new ErrorCode.storage_error "operation disappeared"

-- `map_err(|_| failure)`
abbrev pub replace_error : {A : Type 0} → AppError.Result A → AppError → AppError.Result A
replace_error (ok value) failure = ok value
replace_error (err other) failure = err failure

-- A call of the journal after which nothing but `unknown` may fail.
abbrev pub settled : Bytes → (Table → AppError.Result (Unit {0}) × Table) → Step (Unit {0})
settled operation call world =
    let called = call world.journal in
    (replace_error called.0 (unknown_outcome operation), record world { journal = called.1 })

abbrev pub failure_status : ErrorCode → OperationStatus
failure_status code =
    if is_outcome_unknown code then OperationStatus.unknown else OperationStatus.failed

abbrev pub settle_mail_failure :
    Bytes → Bytes → AppError.Result (Unit {0}) → ℕ → ErrorCode → Step (Unit {0})
settle_mail_failure account operation purged now code =
    if is_remote_wipe code
    then purge_after account operation purged
    else settled operation (finish operation (failure_status code) 0 now)

abbrev pub is_open : OperationStatus → Bool
is_open OperationStatus.pending = true
is_open OperationStatus.unknown = true
is_open OperationStatus.succeeded = false
is_open OperationStatus.failed = false
is_open OperationStatus.partial = false

abbrev pub answer_or : Option MailMutationResult → Step MailMutationResult → Step MailMutationResult
answer_or (some result) next world = (ok result, world)
answer_or none next world = next world

-- `self.account_result(…, destination(…).await)?`: only a move waits for the folders.
abbrev pub find_destination : Bytes → MailAction → Fetch (List Folder) → Step (Option Bytes)
find_destination account action answer =
    if moves action
    then fetch account (record {
      fetched = destination action answer.fetched;
      others = answer.others;
      purged = answer.purged;
    })
    else lift (ok none)

abbrev pub check_ready : Bytes → MailAction → Fetch (Unit {0}) → Step (Unit {0})
check_ready account action answer = if moves action then lift (ok tt) else fetch account answer

abbrev pub performed : MailAction → BackendMail → MailCall → AppError.Result MailSource
performed action mail call =
    if moves action then call.moved else (call.changed >>= λ done. ok mail.source)

abbrev pub lacks : MailAction → Option Bytes → Bool
lacks action none = moves action
lacks action (some target) = false

module _ (libraries : Libraries) where
  -- The new place of a message, in the journal and as a reference.
  abbrev pub store_source : Bytes → BackendMail → ℕ → MailSource → Step MailMutationResult
  store_source operation mail now (MailSource.long_id id) world =
      (err (unknown_outcome operation), world)
  store_source operation mail now (MailSource.item folder server) world =
      then_step
        (settled operation
          (finish_with_locator operation OperationStatus.succeeded 1
            (some (record { folder_id = folder; server_id = server })) now)
          world)
        (λ stored. lift (
          replace_error
            (encode_mail libraries
              (record mail { folder_id = folder; source = MailSource.item folder server }))
            (unknown_outcome operation)
          >>= λ mail_ref. ok (record {
            operation_id = operation;
            status = OperationState.succeeded;
            message = "Exchange confirmed the operation";
            mail_ref = some mail_ref;
          })))

  unfoldable pub finish_mail_mutation :
      Bytes
      → BackendMail
      → AppError.Result (Unit {0})
      → ℕ
      → AppError.Result MailSource
      → Step MailMutationResult
  finish_mail_mutation operation mail purged now (ok source) world =
      store_source operation mail now source world
  finish_mail_mutation operation mail purged now (err failure) world =
      then_step (settle_mail_failure mail.account_id operation purged now failure.code world)
        (λ stored.
          lift (err (AppError.operation operation (AppError.account mail.account_id failure))))

  abbrev pub replayed_ref :
      JournalRecord → Option MailResultLocator → AppError.Result (Option Bytes)
  replayed_ref row none = ok none
  replayed_ref row (some locator) =
      encode_mail libraries (record {
        account_id = row.account_id;
        folder_id = locator.folder_id;
        source = MailSource.item locator.folder_id locator.server_id;
      })
      >>= λ mail_ref. ok (some mail_ref)

  abbrev pub replayed_result :
      Table → Option JournalRecord → AppError.Result (Option MailMutationResult)
  replayed_result table none = ok none
  replayed_result table (some row) =
      if is_open row.status
      then err (unknown_outcome row.operation_id)
      else (ok_or (inspect table row.operation_id) disappeared >>= λ entry.
          replayed_ref row entry.result_locator >>= λ mail_ref. ok (
            some (record {
              operation_id = row.operation_id;
              status = (existing_result row).status;
              message = (existing_result row).message;
              mail_ref = mail_ref;
            })))

  unfoldable pub replay_mail_mutation : Request → Step (Option MailMutationResult)
  replay_mail_mutation request world =
      then_step (replay_write request world)
        (λ replayed. λ after. (replayed_result after.journal replayed, after))

  unfoldable pub perform :
      MailAction
      → Request
      → BackendMail
      → Option Bytes
      → MailCall
      → JournalBegin
      → Step MailMutationResult
  perform action request mail target call begun world =
      if begun.inserted
      then (if lacks action target
          then (err (AppError.new ErrorCode.validation_failed "missing destination"), world)
          else finish_mail_mutation begun.row.operation_id mail call.purged call.finish_at
              (performed action mail call)
              (call.meanwhile (hand_over mail.account_id begun.row.operation_id world)))
      else then_step (replay_mail_mutation request world)
          (λ replayed. lift (ok_or replayed disappeared))

  -- The part of `mutate_mail` under the lock.
  unfoldable pub mutate_locked :
      MailAction → Request → Bytes → MailAnswers → Step MailMutationResult
  mutate_locked action request account answers w3 =
      then_step (fetch account answers.resolved w3) (λ mail. λ w4.
        then_step (find_destination account action answers.folders w4) (λ target. λ w5.
          then_step (lift answers.verified w5) (λ verified. λ w6.
            then_step (check_ready account action answers.ready w6) (λ ready. λ w7.
              then_step (begin_write request mail.account_id answers.call.begin_at w7)
                (perform action request mail target answers.call)))))

  unfoldable pub mutate_mail : Accounts → MailBatchItem → MailAnswers → Step MailMutationResult
  mutate_mail accounts item answers world =
      let request = record (answers.request) { kind = kind_of_action item.action } in
      then_step (lift (validate_item request.parsed_key item.action) world) (λ valid. λ before.
        then_step (replay_mail_mutation request before) (λ replayed. answer_or replayed (λ w0.
          then_step (lift (decode_mail libraries item.mail_ref) w0) (λ source. λ w1.
            then_step (enter accounts source.account_id answers.lock w1) (λ entered. λ w2.
              then_step (replay_mail_mutation request w2) (λ again.
                answer_or again (mutate_locked item.action request source.account_id answers)))))))
