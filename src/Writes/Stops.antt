-- ===== src/Writes/Stops.antt =====
-- After an unknown outcome a batch changes nothing more of the account
-- (crates/app/src/runtime/mail_batch.rs).
use eas_mail_mcp.Base.{
  ok_injective, err_not_ok, suc, ◌≡◌, refl, ap, sym, subst, ◌∙◌, true, Bool-cases, inl, inr, Option,
  none, some, List, [], ◌∷◌, Bytes, bytes_eq_refl, length, All, ok, err, arith,
}
use eas_mail_mcp.AppError
use eas_mail_mcp.AppError.{AppError}
use eas_mail_mcp.References.Payloads.{BackendMail, Libraries}
use eas_mail_mcp.References.Object.{decode_mail}
use eas_mail_mcp.Journal.Idempotent.{injective}
use eas_mail_mcp.Writes.World.{World, Step, then_step, lift, Accounts, is_outcome_unknown}
use eas_mail_mcp.Writes.Mail.{MailMutationResult}
use eas_mail_mcp.Writes.Mutation.{MailBatchItem}
use eas_mail_mcp.Writes.Batch.{
  Entry, MailBatchEntry, Blocked, find_blocked, block, block_after, is_some, report, respond,
  run_entries,
}
use eas_mail_mcp.Writes.Replayed.{after_lift_both}

pub then_step_ok :
    {A B : Type 0} (stepped : AppError.Result A × World) (next : A → Step B) (last : B)
    → (then_step stepped next).0 ≡ ok last
    → (value : A) × (stepped.0 ≡ ok value) × ((next value stepped.1).0 ≡ ok last)
then_step_ok (ok value, after) next last h = (value, refl, h)
then_step_ok (err failure, after) next last h = absurd (err_not_ok h)

All-map :
    {A : Type 0} {P Q : A → Type 0} (xs : List A) → ((x : A) → P x → Q x) → All P xs → All Q xs
All-map [] f all = tt
All-map (x ∷ xs) f (first, rest) = (f x first, All-map xs f rest)

-- The report of an entry that was not executed.
abbrev pub Skipped : MailBatchEntry → Type 0
Skipped entry = (entry.skipped ≡ true) × (entry.result ≡ none)

find_blocked-block :
    (blocked : Blocked) (account operation : Bytes)
    → is_some (find_blocked (block blocked account operation) account) ≡ true
find_blocked-block blocked account operation = ground (arith, bytes_eq_refl account)

block_grows :
    (blocked : Blocked) (account operation other : Bytes)
    → is_some (find_blocked blocked other) ≡ true
    → is_some (find_blocked (block blocked account operation) other) ≡ true
block_grows blocked account operation other h = ground arith

block_after_grows :
    (blocked : Blocked) (account operation : Bytes) (response : AppError.Result MailMutationResult)
    (other : Bytes)
    → is_some (find_blocked blocked other) ≡ true
    → is_some (find_blocked (block_after blocked account operation response) other) ≡ true
block_after_grows blocked account operation (ok result) other h = h
block_after_grows blocked account operation (err failure) other h =
    elim (Bool-cases (is_outcome_unknown failure.code)) [
      | inl lost ↦ rw lost (block_grows blocked account operation other h)
      | inr known ↦ rw known h
    ]

module _ (libraries : Libraries) (accounts : Accounts) where
  -- Every entry of the account is skipped.
  abbrev pub SkippedFor : Bytes → MailBatchEntry → Type 0
  SkippedFor account entry =
      (mail : BackendMail)
      → decode_mail libraries entry.mail_ref ≡ ok mail
      → mail.account_id ≡ account
      → Skipped entry

  -- After an entry whose outcome is unknown, those of its account are skipped.
  abbrev pub Stops : List MailBatchEntry → Type 0
  Stops [] = Unit {0}
  Stops (entry ∷ entries) =
      ((mail : BackendMail) (failure : AppError)
        → decode_mail libraries entry.mail_ref ≡ ok mail
        → entry.error ≡ some failure
        → is_outcome_unknown failure.code ≡ true
        → All (SkippedFor mail.account_id) entries)
      × Stops entries

  abbrev pub Obeys : Blocked → MailBatchEntry → Type 0
  Obeys blocked entry =
      (mail : BackendMail)
      → decode_mail libraries entry.mail_ref ≡ ok mail
      → is_some (find_blocked blocked mail.account_id) ≡ true
      → Skipped entry

  report-Skipped :
      (entry : Entry) (account : Bytes) (stopped : Option Bytes) (failure : Option AppError)
      (world : World)
      → is_some stopped ≡ true
      → Skipped (
          report entry.item stopped
            (respond libraries accounts entry account stopped failure world).0)
  unfolding respond
  report-Skipped entry account (some operation) failure world h = (refl, refl)
  report-Skipped entry account none failure world h = cc

  report_unknown :
      (item : MailBatchItem) (stopped : Option Bytes)
      (response : AppError.Result MailMutationResult) (failure : AppError) (blocked : Blocked)
      (account : Bytes)
      → (report item stopped response).error ≡ some failure
      → is_outcome_unknown failure.code ≡ true
      → is_some (find_blocked (block_after blocked account item.idempotency_key response) account)
        ≡ true
  report_unknown item stopped (ok result) failure blocked account h lost = cc
  report_unknown item stopped (err other) failure blocked account h lost =
      let same = injective h in
      rw (ap (λ (f : AppError). is_outcome_unknown f.code) same ∙ lost)
        (find_blocked-block blocked account item.idempotency_key)

  pub run_entries-Stops :
      (pairs : List (Entry × Option AppError)) (blocked : Blocked) (world : World)
      (entries : List MailBatchEntry)
      → (run_entries libraries accounts pairs blocked world).0 ≡ ok entries
      → All (Obeys blocked) entries × Stops entries × (length entries ≡ length pairs)
  unfolding run_entries
  run_entries-Stops [] blocked world entries h =
      subst (λ es. All (Obeys blocked) es × Stops es × (length es ≡ 0)) (ok_injective h)
        (tt, tt, refl)
  run_entries-Stops ((entry, failure) ∷ pairs) blocked world entries h =
      let (mail, named, ran) =
        then_step_ok (lift (decode_mail libraries entry.item.mail_ref) world) _ entries h in
      let stopped = find_blocked blocked mail.account_id in
      let response = respond libraries accounts entry mail.account_id stopped failure world in
      let blocked' = block_after blocked mail.account_id entry.item.idempotency_key response.0 in
      let (rest, inner, same) =
        after_lift_both (run_entries libraries accounts pairs blocked' response.1) _ entries ran in
      let (obeys, stops, count) = run_entries-Stops pairs blocked' response.1 rest inner in
      let first = report entry.item stopped response.0 in
      let of_first : (m : BackendMail)
          → decode_mail libraries entry.item.mail_ref ≡ ok m
          → mail ≡ m =
        λ m given. ok_injective (sym named ∙ given) in
      subst (λ es. All (Obeys blocked) es × Stops es × (length es ≡ suc (length pairs)))
        (ok_injective same)
        (
          (
            (λ m given held. report-Skipped entry mail.account_id stopped failure world (
                ap (λ (x : BackendMail). is_some (find_blocked blocked x.account_id))
                  (of_first m given)
                ∙ held)),
            All-map rest
                (λ item obey m given held. obey m given (
                  block_after_grows blocked mail.account_id entry.item.idempotency_key response.0
                    m.account_id held))
                obeys,
          ),
          (
            (λ m failed given failing lost.
                All-map rest
                  (λ item obey later given_later own. obey later given_later (
                    ap (λ a. is_some (find_blocked blocked' a))
                      (own ∙ ap (λ (x : BackendMail). x.account_id) (sym (of_first m given)))
                    ∙ report_unknown entry.item stopped response.0 failed blocked mail.account_id
                        failing lost))
                  obeys),
            stops,
          ),
          ap suc count,
        )
