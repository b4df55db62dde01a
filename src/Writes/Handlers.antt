-- ===== src/Writes/Handlers.antt =====
-- The handlers of mail_send, mail_reply, mail_forward and mail_mark_read
-- (crates/app/src/runtime/writes.rs). What other parts answer a handler is its record of answers;
-- where it awaits, other tasks may run, and what they do to the world is a function there.
use eas_mail_mcp.Base.{
  ℕ, ◌&&◌, Option, none, some, [], ◌∷◌, ◌++◌, Bytes, bytes_eq, if◌then◌else◌, ok, err, ◌>>=◌, ok_or,
}
use eas_mail_mcp.AppError
use eas_mail_mcp.AppError.{AppError, ErrorCode}
use eas_mail_mcp.Journal.Model.{OperationStatus, JournalRecord, JournalBegin}
use eas_mail_mcp.Journal.Table.{Table, lookup_record, begin, conflict}
use eas_mail_mcp.Writes.World.{
  World, OperationResult, Step, then_step, lift, Accounts, require_write, account_result,
}
use eas_mail_mcp.Writes.Finish.{finish_write, existing_result}

-- The answers of the uuid, serde_json and hmac libraries for one request: the canonical text of its
-- idempotency key, the serialised payload, and the keyed hash of a text.
pub record Request : Type 0 where
  pub kind : Bytes
  pub parsed_key : Option Bytes
  pub canonical : Option Bytes
  pub fingerprint : Bytes → AppError.Result Bytes

abbrev pub invalid_key : AppError
invalid_key = AppError.new ErrorCode.validation_failed "idempotency_key must be a UUID"

abbrev pub not_canonical : AppError
not_canonical = AppError.new ErrorCode.validation_failed "cannot canonicalize operation input"

abbrev pub write_record : Request → Bytes → AppError.Result JournalRecord
write_record request account = ok_or request.parsed_key invalid_key >>= λ key.
    ok_or request.canonical not_canonical >>= λ text. request.fingerprint text >>= λ hash.
    ok (record {
      operation_id = key;
      account_id = account;
      kind = request.kind;
      payload_hmac = hash;
      client_id = key;
      status = OperationStatus.pending;
      completed_steps = 0;
    })

abbrev pub begin_row : ℕ → JournalRecord → Step JournalBegin
begin_row now row world =
    let begun = begin row now world.journal in (begun.0, record world { journal = begun.1 })

abbrev pub begin_write : Request → Bytes → ℕ → Step JournalBegin
begin_write request account now world =
    then_step (lift (write_record request account) world) (begin_row now)

abbrev pub same_request : JournalRecord → JournalRecord → AppError.Result (Option JournalRecord)
same_request existing candidate =
    if bytes_eq existing.kind candidate.kind
      && bytes_eq existing.payload_hmac candidate.payload_hmac
    then ok (some existing)
    else err conflict

abbrev pub replay_row : Table → JournalRecord → AppError.Result (Option JournalRecord)
replay_row table candidate = elim (lookup_record table candidate.operation_id) [
  | none ↦ ok none
  | some existing ↦ same_request existing candidate
]

unfoldable pub replay_write : Request → Step (Option JournalRecord)
replay_write request world =
    ((write_record request [] >>= λ candidate. replay_row world.journal candidate), world)

-- A handler that finds the operation in the journal answers at once.
abbrev pub replay_or : Option JournalRecord → Step OperationResult → Step OperationResult
replay_or (some row) next world = (ok (existing_result row), world)
replay_or none next world = next world

-- The call of the backend, and what follows it.
pub record Call : Type 0 where
  pub outcome : AppError.Result (Unit {0})
  pub meanwhile : World → World
  pub purged : AppError.Result (Unit {0})
  pub begin_at : ℕ
  pub finish_at : ℕ

abbrev pub hand_over : Bytes → Bytes → World → World
hand_over account operation world = record world {
  sent = world.sent ++ ((account, operation) ∷ []);
}

unfoldable pub send_begun : Bytes → Call → JournalBegin → Step OperationResult
send_begun account call begun world =
    if begun.inserted
    then finish_write account begun.row.operation_id call.purged call.finish_at call.outcome
        (call.meanwhile (hand_over account begun.row.operation_id world))
    else (ok (existing_result begun.row), world)

-- The end of all four handlers.
unfoldable pub commit_write : Request → Bytes → Call → Step OperationResult
commit_write request account call world =
    then_step (begin_write request account call.begin_at world) (send_begun account call)

-- The write lock of the account, with what others did while the handler waited for it.
pub record Lock : Type 0 where
  pub acquired : AppError.Result (Unit {0})
  pub waited : World → World

abbrev pub acquire : Lock → Step (Unit {0})
acquire lock world = (lock.acquired, lock.waited world)

-- `require_write`, the lock, and `require_write` once more.
unfoldable pub enter : Accounts → Bytes → Lock → Step (Unit {0})
enter accounts account lock world = then_step (require_write accounts account world) (λ first.
    λ unlocked. then_step (acquire lock unlocked) (λ held. require_write accounts account))

-- `mail_send`: the attachments and the payload, the check of the message, the preview.
pub record SendAnswers : Type 0 where
  pub prepared : AppError.Result Request
  pub valid : AppError.Result (Unit {0})
  pub lock : Lock
  pub verified : AppError.Result (Unit {0})
  pub call : Call

unfoldable pub send_result : Accounts → Bytes → SendAnswers → Step OperationResult
send_result accounts account answers world = then_step (lift answers.prepared world) (λ request.
    λ before. then_step (replay_write request before) (λ replayed. replay_or replayed (λ w0.
      then_step (lift answers.valid w0) (λ valid. λ w1.
        then_step (enter accounts account answers.lock w1) (λ entered. λ w2.
          then_step (lift answers.verified w2)
            (λ verified. commit_write request account answers.call))))))

-- A read of the mailbox under the lock, with what others did meanwhile.
pub record Fetch (A : Type 0) : Type 0 where
  pub fetched : AppError.Result A
  pub others : World → World
  pub purged : AppError.Result (Unit {0})

unfoldable pub fetch : {A : Type 0} → Bytes → Fetch A → Step A
fetch account answer world =
    account_result account answer.purged answer.fetched (answer.others world)

-- `mail_reply` and `mail_forward`: the message is built from the one fetched.
pub record ReplyAnswers : Type 0 where
  pub prepared : AppError.Result Request
  pub reference : AppError.Result Bytes
  pub lock : Lock
  pub source : Fetch (Unit {0})
  pub message : AppError.Result (Unit {0})
  pub verified : AppError.Result (Unit {0})
  pub call : Call

unfoldable pub reply_result : Accounts → ReplyAnswers → Step OperationResult
reply_result accounts answers world = then_step (lift answers.prepared world) (λ request. λ before.
    then_step (replay_write request before) (λ replayed. replay_or replayed (λ w0.
      then_step (lift answers.reference w0) (λ account. λ w1.
        then_step (enter accounts account answers.lock w1) (λ entered. λ w2.
          then_step (fetch account answers.source w2) (λ fetched. λ w3.
            then_step (lift answers.message w3) (λ built. λ w4.
              then_step (lift answers.verified w4)
                (λ verified. commit_write request account answers.call))))))))

-- `mail_mark_read`
pub record MarkReadAnswers : Type 0 where
  pub request : Request
  pub reference : AppError.Result Bytes
  pub lock : Lock
  pub source : Fetch (Unit {0})
  pub verified : AppError.Result (Unit {0})
  pub ready : Fetch (Unit {0})
  pub call : Call

unfoldable pub mark_read_result : Accounts → MarkReadAnswers → Step OperationResult
mark_read_result accounts answers world =
    then_step (replay_write answers.request world) (λ replayed. replay_or replayed (λ w0.
      then_step (lift answers.reference w0) (λ account. λ w1.
        then_step (enter accounts account answers.lock w1) (λ entered. λ w2.
          then_step (fetch account answers.source w2) (λ fetched. λ w3.
            then_step (lift answers.verified w3) (λ verified. λ w4.
              then_step (fetch account answers.ready w4)
                (λ ready. commit_write answers.request account answers.call)))))))
