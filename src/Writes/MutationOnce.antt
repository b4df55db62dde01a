-- ===== src/Writes/MutationOnce.antt =====
-- The changes of single messages keep it that no operation reaches Exchange twice
-- (crates/app/src/runtime/mail_mutation.rs).
use eas_mail_mcp.Base.{
  ℕ, ◌≡◌, refl, ap, sym, subst, ◌∙◌, true, false, Bool-cases, inl, inr, Option, none, some, List,
  Bytes, ok, err,
}
use eas_mail_mcp.AppError
use eas_mail_mcp.AppError.{AppError, ErrorCode}
use eas_mail_mcp.Journal.Model.{OperationStatus, JournalBegin, MailResultLocator}
use eas_mail_mcp.Journal.Table.{finish_with_locator}
use eas_mail_mcp.References.Payloads.{MailSource, BackendMail, Libraries}
use eas_mail_mcp.References.Object.{decode_mail}
use eas_mail_mcp.Writes.World.{World, has_account, Step, then_step, Accounts, is_remote_wipe}
use eas_mail_mcp.Writes.Handlers.{Request, begin_write, replay_write, enter, Fetch, fetch}
use eas_mail_mcp.Writes.Mail.{
  MailAction, kind_of_action, moves, MailMutationResult, validate_item, Folder,
}
use eas_mail_mcp.Writes.Mutation.{
  MailBatchItem, MailCall, MailAnswers, settled, failure_status, settle_mail_failure, answer_or,
  find_destination, check_ready, performed, lacks, store_source, finish_mail_mutation,
  replay_mail_mutation, perform, mutate_locked, mutate_mail,
}
use eas_mail_mcp.Writes.Recorded.{recorded-finish}
use eas_mail_mcp.Writes.Covers.{
  Once, Covers, Covers-Once, journal-Covers, purge_account-Covers, after_lift, then_step-Once,
  hand_over-Once,
}
use eas_mail_mcp.Writes.Once.{Fresh, KeepsOnce, begin_write-BeginsFresh}
use eas_mail_mcp.Writes.Opens.{Opens, Spares, after_Opens, enter-Opens, fetch-Opens, fetch_answer}

settled-Covers :
    (operation id : Bytes) (status : OperationStatus) (steps now : ℕ)
    (locator : Option MailResultLocator) (world : World)
    → Covers world (settled operation (finish_with_locator id status steps locator now) world).1
settled-Covers operation id status steps now locator world =
    journal-Covers world _
      (λ a i h. recorded-finish a i id status steps now locator world.journal ∙ h)

settle_mail_failure-Covers :
    (account operation : Bytes) (purged : AppError.Result (Unit {0})) (now : ℕ) (code : ErrorCode)
    (world : World)
    → Covers world (settle_mail_failure account operation purged now code world).1
settle_mail_failure-Covers account operation purged now code world =
    elim (Bool-cases (is_remote_wipe code)) [
      | inl wiped ↦ rw wiped (purge_account-Covers account purged world)
      | inr other ↦
          rw other (settled-Covers operation operation (failure_status code) 0 now none world)
    ]

answered_same :
    {A B : Type 0} (answer : AppError.Result A) (world : World)
    (result : A → World → AppError.Result B)
    → (then_step (answer, world) (λ value. λ after. (result value after, after))).1 ≡ world
answered_same (ok value) world result = refl
answered_same (err failure) world result = refl

module _ (libraries : Libraries) where
  store_source-Covers :
      (operation : Bytes) (mail : BackendMail) (now : ℕ) (source : MailSource) (world : World)
      → Covers world (store_source libraries operation mail now source world).1
  store_source-Covers operation mail now (MailSource.long_id id) world = (refl, λ a i h. h)
  store_source-Covers operation mail now (MailSource.item folder server) world =
      after_lift world _ _ (
        settled-Covers operation operation OperationStatus.succeeded 1 now
          (some (record { folder_id = folder; server_id = server })) world)

  finish_mail_mutation-Covers :
      (operation : Bytes) (mail : BackendMail) (purged : AppError.Result (Unit {0})) (now : ℕ)
      (outcome : AppError.Result MailSource) (world : World)
      → Covers world (finish_mail_mutation libraries operation mail purged now outcome world).1
  unfolding finish_mail_mutation
  finish_mail_mutation-Covers operation mail purged now (ok source) world =
      store_source-Covers operation mail now source world
  finish_mail_mutation-Covers operation mail purged now (err failure) world =
      after_lift world _ _
        (settle_mail_failure-Covers mail.account_id operation purged now failure.code world)

  replay_mail_mutation_same :
      (request : Request) (world : World) → (replay_mail_mutation libraries request world).1 ≡ world
  unfolding replay_mail_mutation replay_write
  replay_mail_mutation_same request world = answered_same (replay_write request world).0 world _

  replay_mail_mutation_world :
      (request : Request) (world : World)
      → Once world
      → Once (replay_mail_mutation libraries request world).1
  replay_mail_mutation_world request world once =
      subst Once (sym (replay_mail_mutation_same request world)) once

  answer_or-Once :
      (replayed : Option MailMutationResult) (next : Step MailMutationResult) (world : World)
      → Once world
      → Once (next world).1
      → Once (answer_or replayed next world).1
  answer_or-Once (some row) next world once rest = once
  answer_or-Once none next world once rest = rest

  replayed_or-Once :
      (request : Request) (next : Step MailMutationResult) (world : World)
      → Once world
      → Once (next world).1
      → Once
          (then_step
            (replay_mail_mutation libraries request world)
            (λ replayed. answer_or replayed next)).1
  replayed_or-Once request next world once rest =
      let once_there = replay_mail_mutation_world request world once in
      then_step-Once (replay_mail_mutation libraries request world).0 _ _ once_there
        (λ replayed answered.
          answer_or-Once replayed next _ once_there
            (subst (λ w. Once (next w).1) (sym (replay_mail_mutation_same request world)) rest))

  perform-Once :
      (action : MailAction) (request : Request) (mail : BackendMail) (target : Option Bytes)
      (call : MailCall) (begun : JournalBegin) (world : World)
      → KeepsOnce call.meanwhile
      → Once world
      → (begun.inserted ≡ true → Fresh mail.account_id begun.row.operation_id world)
      → Once (perform libraries action request mail target call begun world).1
  unfolding perform
  perform-Once action request mail target call begun world keeps once fresh =
      elim (Bool-cases begun.inserted) [
        | inl new ↦ elim (Bool-cases (lacks action target)) [
          | inl lacking ↦ rw (new, lacking) once
          | inr there ↦
              rw (new, there)
                (let (none_yet, row) = fresh new in
                  Covers-Once _ _
                    (finish_mail_mutation-Covers begun.row.operation_id mail call.purged
                      call.finish_at (performed action mail call) _)
                    (keeps _ (
                      hand_over-Once mail.account_id begun.row.operation_id world once none_yet
                        row)))
        ]
        | inr old ↦ rw old (
            then_step-Once (replay_mail_mutation libraries request world).0 _ _
              (replay_mail_mutation_world request world once)
              (λ replayed answered. replay_mail_mutation_world request world once))
      ]

  find_destination-Opens :
      (account : Bytes) (action : MailAction) (answer : Fetch (List Folder)) (world : World)
      → Spares account answer.others
      → Once world
      → has_account world.disabled_accounts account ≡ false
      → Opens account (find_destination account action answer world)
  find_destination-Opens account action answer world spares once enabled =
      elim (Bool-cases (moves action)) [
        | inl moving ↦ rw moving (fetch-Opens account _ world spares once enabled)
        | inr other ↦ rw other (once, λ value h. enabled)
      ]

  check_ready-Opens :
      (account : Bytes) (action : MailAction) (answer : Fetch (Unit {0})) (world : World)
      → Spares account answer.others
      → Once world
      → has_account world.disabled_accounts account ≡ false
      → Opens account (check_ready account action answer world)
  check_ready-Opens account action answer world spares once enabled =
      elim (Bool-cases (moves action)) [
        | inl moving ↦ rw moving (once, λ value h. enabled)
        | inr other ↦ rw other (fetch-Opens account answer world spares once enabled)
      ]

  -- While the mailbox is read, others do not have the account wiped, and the message that is read is
  -- one of this account.
  abbrev pub LockedWaits : Bytes → MailAnswers → Type 0
  LockedWaits account answers =
      Spares account answers.resolved.others
      × Spares account answers.folders.others
      × Spares account answers.ready.others
      × KeepsOnce answers.call.meanwhile
      × ((mail : BackendMail) → answers.resolved.fetched ≡ ok mail → mail.account_id ≡ account)

  begin_perform-Once :
      (action : MailAction) (request : Request) (mail : BackendMail) (target : Option Bytes)
      (call : MailCall) (world : World)
      → KeepsOnce call.meanwhile
      → Once world
      → has_account world.disabled_accounts mail.account_id ≡ false
      → Once
          (then_step
            (begin_write request mail.account_id call.begin_at world)
            (perform libraries action request mail target call)).1
  begin_perform-Once action request mail target call world keeps once enabled =
      let (begun_once, fresh) =
        begin_write-BeginsFresh request mail.account_id call.begin_at world once enabled in
      then_step-Once (begin_write request mail.account_id call.begin_at world).0
        (begin_write request mail.account_id call.begin_at world).1 _ begun_once
        (λ begun answered.
          perform-Once action request mail target call begun _ keeps begun_once
            (fresh begun answered))

  mutate_locked-Once :
      (action : MailAction) (request : Request) (account : Bytes) (answers : MailAnswers)
      (world : World)
      → LockedWaits account answers
      → Once world
      → has_account world.disabled_accounts account ≡ false
      → Once (mutate_locked libraries action request account answers world).1
  unfolding mutate_locked
  mutate_locked-Once action request account answers w3
        (mail_spares, folder_spares, ready_spares, keeps, own) once enabled =
      let (once4, enabled4) = fetch-Opens account answers.resolved w3 mail_spares once enabled in
      then_step-Once (fetch account answers.resolved w3).0 (fetch account answers.resolved w3).1 _
        once4
        (λ mail answered.
          let same = own mail (fetch_answer account answers.resolved w3 mail answered) in
          after_Opens account (find_destination account action answers.folders _) _
            (find_destination-Opens account action answers.folders _ folder_spares once4
              (enabled4 mail answered))
            (λ target w5 once5 enabled5.
              then_step-Once answers.verified w5 _ once5 (λ verified seen.
                after_Opens account (check_ready account action answers.ready w5) _
                  (check_ready-Opens account action answers.ready w5 ready_spares once5 enabled5)
                  (λ ready w7 once7 enabled7.
                    begin_perform-Once action request mail target answers.call w7 keeps once7
                      (ap (has_account w7.disabled_accounts) same ∙ enabled7)))))

  abbrev pub MutationWaits : MailBatchItem → MailAnswers → Type 0
  MutationWaits item answers =
      KeepsOnce answers.lock.waited
      × ((source : BackendMail)
          → decode_mail libraries item.mail_ref ≡ ok source
          → LockedWaits source.account_id answers)

  pub mutate_mail-Once :
      (accounts : Accounts) (item : MailBatchItem) (answers : MailAnswers) (world : World)
      → MutationWaits item answers
      → Once world
      → Once (mutate_mail libraries accounts item answers world).1
  unfolding mutate_mail
  mutate_mail-Once accounts item answers world (waited, locked) once =
      let request = record (answers.request) { kind = kind_of_action item.action } in
      then_step-Once (validate_item request.parsed_key item.action) world _ once (λ valid checked.
        replayed_or-Once request _ world once (
          then_step-Once (decode_mail libraries item.mail_ref) world _ once (λ source named.
            after_Opens source.account_id (enter accounts source.account_id answers.lock world) _
              (enter-Opens source.account_id accounts answers.lock world waited once)
              (λ entered w2 once2 enabled2. replayed_or-Once request _ w2 once2 (
                mutate_locked-Once item.action request source.account_id answers w2
                  (locked source named) once2 enabled2)))))
