-- ===== src/Writes/Served.antt =====
-- The write handlers of mail one after the other and through one another
-- (crates/app/src/runtime/writes.rs and mail_mutation.rs).
use eas_mail_mcp.Base.{◌≤◌, ◌≡◌, Option, none, some, List, [], ◌∷◌, Bytes, arith, ok, All}
use eas_mail_mcp.Journal.Model.{JournalRecord}
use eas_mail_mcp.Journal.Table.{Table}
use eas_mail_mcp.Writes.World.{World, OperationResult, Step, then_step, Accounts}
use eas_mail_mcp.Writes.Handlers.{
  Request, replay_write, replay_or, enter, SendAnswers, send_result, fetch, ReplyAnswers,
  reply_result, MarkReadAnswers, mark_read_result,
}
use eas_mail_mcp.References.Payloads.{Libraries}
use eas_mail_mcp.Writes.Mutation.{MailBatchItem, MailAnswers, mutate_mail}
use eas_mail_mcp.Writes.Batch.{Entry, run_batch}
use eas_mail_mcp.Writes.BatchOnce.{EntryWaits, run_batch-Once}
use eas_mail_mcp.Writes.MutationOnce.{MutationWaits, mutate_mail-Once}
use eas_mail_mcp.Writes.Covers.{calls, Once, then_step-Once}
use eas_mail_mcp.Writes.Opens.{Spares, after_Opens, enter-Opens, fetch-Opens}
use eas_mail_mcp.Writes.Once.{KeepsOnce, commit_write-Once}

replay_or-Once :
    (replayed : Option JournalRecord) (next : Step OperationResult) (world : World)
    → Once world
    → Once (next world).1
    → Once (replay_or replayed next world).1
replay_or-Once (some row) next world once rest = once
replay_or-Once none next world once rest = rest

pub replayed-Once :
    (request : Request) (next : Step OperationResult) (world : World)
    → Once world
    → Once (next world).1
    → Once (then_step (replay_write request world) (λ replayed. replay_or replayed next)).1
unfolding replay_write
replayed-Once request next world once rest =
    then_step-Once (replay_write request world).0 world (λ replayed. replay_or replayed next) once
      (λ replayed answered. replay_or-Once replayed next world once rest)

-- What the others do while `mail_send` waits.
abbrev pub SendWaits : SendAnswers → Type 0
SendWaits answers = KeepsOnce answers.lock.waited × KeepsOnce answers.call.meanwhile

pub send_result-Once :
    (accounts : Accounts) (account : Bytes) (answers : SendAnswers) (world : World)
    → SendWaits answers
    → Once world
    → Once (send_result accounts account answers world).1
unfolding send_result
send_result-Once accounts account answers world (waited, meanwhile) once =
    then_step-Once answers.prepared world _ once (λ request prepared.
      replayed-Once request _ world once (
        then_step-Once answers.valid world _ once (λ valid checked.
          after_Opens account (enter accounts account answers.lock world) _
            (enter-Opens account accounts answers.lock world waited once)
            (λ entered w2 once2 enabled2.
              then_step-Once answers.verified w2 _ once2 (λ verified seen.
                commit_write-Once request account answers.call w2 meanwhile once2 enabled2)))))

abbrev pub ReplyWaits : ReplyAnswers → Type 0
ReplyWaits answers =
    KeepsOnce answers.lock.waited
    × ((account : Bytes) → answers.reference ≡ ok account → Spares account answers.source.others)
    × KeepsOnce answers.call.meanwhile

pub reply_result-Once :
    (accounts : Accounts) (answers : ReplyAnswers) (world : World)
    → ReplyWaits answers
    → Once world
    → Once (reply_result accounts answers world).1
unfolding reply_result
reply_result-Once accounts answers world (waited, spares, meanwhile) once =
    then_step-Once answers.prepared world _ once (λ request prepared.
      replayed-Once request _ world once (
        then_step-Once answers.reference world _ once (λ account named.
          after_Opens account (enter accounts account answers.lock world) _
            (enter-Opens account accounts answers.lock world waited once)
            (λ entered w2 once2 enabled2.
              after_Opens account (fetch account answers.source w2) _
                (fetch-Opens account answers.source w2 (spares account named) once2 enabled2)
                (λ fetched w3 once3 enabled3.
                  then_step-Once answers.message w3 _ once3 (λ built made.
                    then_step-Once answers.verified w3 _ once3 (λ verified seen.
                      commit_write-Once request account answers.call w3 meanwhile once3
                        enabled3)))))))

abbrev pub MarkReadWaits : MarkReadAnswers → Type 0
MarkReadWaits answers =
    KeepsOnce answers.lock.waited
    × ((account : Bytes) → answers.reference ≡ ok account → Spares account answers.source.others)
    × ((account : Bytes) → answers.reference ≡ ok account → Spares account answers.ready.others)
    × KeepsOnce answers.call.meanwhile

pub mark_read_result-Once :
    (accounts : Accounts) (answers : MarkReadAnswers) (world : World)
    → MarkReadWaits answers
    → Once world
    → Once (mark_read_result accounts answers world).1
unfolding mark_read_result
mark_read_result-Once accounts answers world (waited, spares, spares_ready, meanwhile) once =
    replayed-Once answers.request _ world once (
      then_step-Once answers.reference world _ once (λ account named.
        after_Opens account (enter accounts account answers.lock world) _
          (enter-Opens account accounts answers.lock world waited once)
          (λ entered w2 once2 enabled2.
            after_Opens account (fetch account answers.source w2) _
              (fetch-Opens account answers.source w2 (spares account named) once2 enabled2)
              (λ fetched w3 once3 enabled3.
                then_step-Once answers.verified w3 _ once3 (λ verified seen.
                  after_Opens account (fetch account answers.ready w3) _
                    (fetch-Opens account answers.ready w3 (spares_ready account named) once3
                      enabled3)
                    (λ ready w4 once4 enabled4.
                      commit_write-Once answers.request account answers.call w4 meanwhile once4
                        enabled4))))))

-- A request that a handler serves, with all that it is answered.
pub data Write : Type 0 where
  mail_send : Bytes → SendAnswers → Write
  mail_reply mail_forward : ReplyAnswers → Write
  mail_mark_read : MarkReadAnswers → Write
  mail_mutation : MailBatchItem → MailAnswers → Write
  mail_batch : List Entry → Write

abbrev pub serve : Libraries → Accounts → Write → World → World
serve libraries accounts (mail_send account answers) world =
    (send_result accounts account answers world).1
serve libraries accounts (mail_reply answers) world = (reply_result accounts answers world).1
serve libraries accounts (mail_forward answers) world = (reply_result accounts answers world).1
serve libraries accounts (mail_mark_read answers) world =
    (mark_read_result accounts answers world).1
serve libraries accounts (mail_mutation item answers) world =
    (mutate_mail libraries accounts item answers world).1
serve libraries accounts (mail_batch entries) world = (run_batch libraries accounts entries world).1

-- What other tasks do while a handler waits keeps the invariant; while it reads the mailbox they do
-- not have its account wiped.
abbrev pub Waits : Libraries → Accounts → Write → Type 0
Waits libraries accounts (mail_send account answers) = SendWaits answers
Waits libraries accounts (mail_reply answers) = ReplyWaits answers
Waits libraries accounts (mail_forward answers) = ReplyWaits answers
Waits libraries accounts (mail_mark_read answers) = MarkReadWaits answers
Waits libraries accounts (mail_mutation item answers) = MutationWaits libraries item answers
Waits libraries accounts (mail_batch entries) = All (EntryWaits libraries accounts) entries

pub serve-Once :
    (libraries : Libraries) (accounts : Accounts) (write : Write) (world : World)
    → Waits libraries accounts write
    → Once world
    → Once (serve libraries accounts write world)
serve-Once libraries accounts (mail_send account answers) world waits once =
    send_result-Once accounts account answers world waits once
serve-Once libraries accounts (mail_reply answers) world waits once =
    reply_result-Once accounts answers world waits once
serve-Once libraries accounts (mail_forward answers) world waits once =
    reply_result-Once accounts answers world waits once
serve-Once libraries accounts (mail_mark_read answers) world waits once =
    mark_read_result-Once accounts answers world waits once
serve-Once libraries accounts (mail_mutation item answers) world waits once =
    mutate_mail-Once libraries accounts item answers world waits once
serve-Once libraries accounts (mail_batch entries) world waits once =
    run_batch-Once libraries accounts entries world waits once

abbrev pub serve_all : Libraries → Accounts → List Write → World → World
serve_all libraries accounts [] world = world
serve_all libraries accounts (write ∷ writes) world =
    serve_all libraries accounts writes (serve libraries accounts write world)

serve_all-Once :
    (libraries : Libraries) (accounts : Accounts) (writes : List Write) (world : World)
    → All (Waits libraries accounts) writes
    → Once world
    → Once (serve_all libraries accounts writes world)
serve_all-Once libraries accounts [] world waits once = once
serve_all-Once libraries accounts (write ∷ writes) world (first, rest) once =
    serve_all-Once libraries accounts writes (serve libraries accounts write world) rest
      (serve-Once libraries accounts write world first once)

none_yet-Once :
    (journal : Table) (disabled : List Bytes)
    → Once (record { journal = journal; disabled_accounts = disabled; sent = [] })
unfolding Once
none_yet-Once journal disabled account operation = (omega arith, λ h. absurd (omega arith))

-- Whatever the journal holds at first, and however often and with whatever keys the requests of
-- mail_send, mail_reply, mail_forward, mail_mark_read, mail_move, mail_delete, mail_set_flag,
-- mail_set_categories and mail_batch repeat, no operation of an account is handed to a backend twice
-- while the process lives, if what other tasks do while a handler waits keeps every operation handed over at
-- most once and covered by the journal or by a wiped account, if they do not have the account of a
-- request wiped while its message is read, and if a change reads a message of that account.
pub serve_all_at_most_once :
    (libraries : Libraries) (accounts : Accounts) (writes : List Write) (journal : Table)
    (disabled : List Bytes) (account operation : Bytes)
    → All (Waits libraries accounts) writes
    → calls account operation
        (serve_all libraries accounts writes
          (record { journal = journal; disabled_accounts = disabled; sent = [] })).sent
      ≤ 1
unfolding Once
serve_all_at_most_once libraries accounts writes journal disabled account operation waits =
    (serve_all-Once libraries accounts writes _ waits (none_yet-Once journal disabled) account
      operation).0
