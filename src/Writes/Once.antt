-- ===== src/Writes/Once.antt =====
-- No operation reaches Exchange twice (crates/app/src/runtime/writes.rs), handler by handler.
use eas_mail_mcp.Base.{
  ℕ, ◌≡◌, refl, ap, ◌∙◌, subst, true, false, Bool-cases, inl, inr, Bytes, arith, ok, err, >>=-eq-ok,
  ok_or,
}
use eas_mail_mcp.AppError
use eas_mail_mcp.AppError.{AppError}
use eas_mail_mcp.Journal.Model.{JournalRecord, JournalBegin}
use eas_mail_mcp.Journal.Table.{begin}
use eas_mail_mcp.Writes.World.{World, has_account, then_step}
use eas_mail_mcp.Writes.Handlers.{
  Request, invalid_key, not_canonical, write_record, begin_row, begin_write, Call, send_begun,
  commit_write,
}
use eas_mail_mcp.Writes.Recorded.{recorded, recorded-begin, recorded_inserted, begin-Inserts}
use eas_mail_mcp.Writes.Covers.{
  calls, Once, Covers-Once, journal-Covers, finish_write-Covers, then_step-Once, fresh_calls,
  hand_over-Once,
}

-- An operation that was never handed over, and whose row is there.
abbrev pub Fresh : Bytes → Bytes → World → Type 0
Fresh account operation world =
    (calls account operation world.sent ≡ 0) × (recorded account operation world.journal ≡ true)

abbrev pub BeginsFresh : Bytes → AppError.Result JournalBegin × World → Type 0
BeginsFresh account (answer, world) =
    Once world
    × ((begun : JournalBegin)
        → answer ≡ ok begun
        → begun.inserted ≡ true
        → Fresh account begun.row.operation_id world)

begin_row-BeginsFresh :
    (row : JournalRecord) (now : ℕ) (world : World)
    → Once world
    → has_account world.disabled_accounts row.account_id ≡ false
    → BeginsFresh row.account_id (begin_row now row world)
begin_row-BeginsFresh row now world once enabled = (
  Covers-Once world _ (journal-Covers world _ (λ a i h. recorded-begin a i row now world.journal h))
      once,
  λ begun answered inserted.
      let (same, absent, table) = begin-Inserts row now world.journal begun answered inserted in
      (
        ap (λ r. calls row.account_id r.operation_id world.sent) same
            ∙ fresh_calls row.account_id row.operation_id world once absent enabled,
        ap (λ r. recorded row.account_id r.operation_id (begin row now world.journal).1) same
            ∙ ap (recorded row.account_id row.operation_id) table
            ∙ recorded_inserted row now world.journal,
      ),
)

write_record_account :
    (request : Request) (account : Bytes) (row : JournalRecord)
    → write_record request account ≡ ok row
    → row.account_id ≡ account
write_record_account request account row h =
    let (key, k, rest) = >>=-eq-ok (ok_or request.parsed_key invalid_key) _ h in
    let (text, t, last) = >>=-eq-ok (ok_or request.canonical not_canonical) _ rest in
    let (hash, f, done) = >>=-eq-ok (request.fingerprint text) _ last in ground arith

begin_answer-BeginsFresh :
    (answer : AppError.Result JournalRecord) (account : Bytes) (now : ℕ) (world : World)
    → ((row : JournalRecord) → answer ≡ ok row → row.account_id ≡ account)
    → Once world
    → has_account world.disabled_accounts account ≡ false
    → BeginsFresh account (then_step (answer, world) (begin_row now))
begin_answer-BeginsFresh (err failure) account now world own once enabled =
    (once, λ begun answered inserted. cc)
begin_answer-BeginsFresh (ok row) account now world own once enabled =
    let same = own row refl in
    subst (λ a. BeginsFresh a (begin_row now row world)) same
      (begin_row-BeginsFresh row now world once
        (ap (has_account world.disabled_accounts) same ∙ enabled))

pub begin_write-BeginsFresh :
    (request : Request) (account : Bytes) (now : ℕ) (world : World)
    → Once world
    → has_account world.disabled_accounts account ≡ false
    → BeginsFresh account (begin_write request account now world)
begin_write-BeginsFresh request account now world once enabled =
    begin_answer-BeginsFresh (write_record request account) account now world
      (write_record_account request account) once enabled

abbrev pub KeepsOnce : (World → World) → Type 0
KeepsOnce others = (world : World) → Once world → Once (others world)

send_begun-Once :
    (account : Bytes) (call : Call) (begun : JournalBegin) (world : World)
    → KeepsOnce call.meanwhile
    → Once world
    → (begun.inserted ≡ true → Fresh account begun.row.operation_id world)
    → Once (send_begun account call begun world).1
unfolding send_begun
send_begun-Once account call begun world keeps once fresh = elim (Bool-cases begun.inserted) [
  | inl new ↦ rw new (
      Covers-Once _ _
        (finish_write-Covers account begun.row.operation_id call.purged call.finish_at call.outcome
          _)
        (keeps _ (
          let (none_yet, row) = fresh new in
          hand_over-Once account begun.row.operation_id world once none_yet row)))
  | inr old ↦ rw old once
]

pub commit_write-Once :
    (request : Request) (account : Bytes) (call : Call) (world : World)
    → KeepsOnce call.meanwhile
    → Once world
    → has_account world.disabled_accounts account ≡ false
    → Once (commit_write request account call world).1
unfolding commit_write
commit_write-Once request account call world keeps once enabled =
    let (begun_once, fresh) =
      begin_write-BeginsFresh request account call.begin_at world once enabled in
    then_step-Once (begin_write request account call.begin_at world).0
      (begin_write request account call.begin_at world).1 (send_begun account call) begun_once
      (λ begun answered.
        send_begun-Once account call begun _ keeps begun_once (fresh begun answered))
