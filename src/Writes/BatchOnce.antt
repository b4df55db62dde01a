-- ===== src/Writes/BatchOnce.antt =====
-- Batches keep it that no operation reaches Exchange twice (crates/app/src/runtime/mail_batch.rs).
use eas_mail_mcp.Base.{
  inl, inr, Option, none, some, Option-cases, List, [], ◌∷◌, Bytes, All, length, ok, err,
}
use eas_mail_mcp.AppError
use eas_mail_mcp.AppError.{AppError}
use eas_mail_mcp.Journal.Table.{lookup_record}
use eas_mail_mcp.References.Payloads.{MailSource, BackendMail, Libraries}
use eas_mail_mcp.References.Object.{decode_mail}
use eas_mail_mcp.Writes.World.{World, Accounts, require_write}
use eas_mail_mcp.Writes.Handlers.{Fetch, fetch}
use eas_mail_mcp.Writes.Mail.{validate_item}
use eas_mail_mcp.Writes.MutationOnce.{MutationWaits, mutate_mail-Once}
use eas_mail_mcp.Writes.Batch.{
  Entry, Seen, Blocked, validate_count, name_entry, resolved_or, resolve_entry, validate_entry,
  validate_entries, validate_batch, find_blocked, block_after, zip_failures, respond, run_entries,
  run_batch,
}
use eas_mail_mcp.Writes.Covers.{Once, Covers-Once, account_result-Covers, then_step-Once}
use eas_mail_mcp.Writes.Once.{KeepsOnce}

fetch-Once :
    {A : Type 0} (account : Bytes) (answer : Fetch A) (world : World)
    → KeepsOnce answer.others
    → Once world
    → Once (fetch account answer world).1
unfolding fetch
fetch-Once account answer world keeps once =
    Covers-Once _ _ (account_result-Covers account answer.purged answer.fetched _)
      (keeps world once)

resolved_or-Once :
    (source : MailSource) (stepped : AppError.Result BackendMail × World)
    → Once stepped.1
    → Once (resolved_or source stepped).1
resolved_or-Once source (ok mail, world) once = once
resolved_or-Once source (err failure, world) once = once

resolve_entry-Once :
    (accounts : Accounts) (uuid : Bytes) (mail : BackendMail) (answer : Fetch BackendMail)
    (world : World)
    → KeepsOnce answer.others
    → Once world
    → Once (resolve_entry accounts uuid mail answer world).1
unfolding require_write
resolve_entry-Once accounts uuid mail answer world keeps once =
    elim (Option-cases (lookup_record world.journal uuid)) [
      | inl absent ↦
          rw (absent, resolve_entry)
            (resolved_or-Once mail.source _ (
              then_step-Once (require_write accounts mail.account_id world).0 world _ once
                (λ allowed answered. fetch-Once mail.account_id answer world keeps once)))
      | inr (row, found) ↦ rw (found, resolve_entry) once
    ]

module _ (libraries : Libraries) (accounts : Accounts) where
  -- What the others do while a batch waits.
  abbrev pub EntryWaits : Entry → Type 0
  EntryWaits entry =
      KeepsOnce entry.resolved.others × MutationWaits libraries entry.item entry.answers

  validate_entry-Once :
      (entry : Entry) (seen : Seen) (world : World)
      → KeepsOnce entry.resolved.others
      → Once world
      → Once (validate_entry libraries accounts entry seen world).1
  validate_entry-Once entry seen world keeps once =
      then_step-Once (validate_item entry.parsed_key entry.item.action) world _ once
        (λ valid checked. then_step-Once (name_entry seen entry.parsed_key) world _ once (λ named n.
          then_step-Once (decode_mail libraries entry.item.mail_ref) world _ once (λ mail m.
            let there = resolve_entry-Once accounts named.0 mail entry.resolved world keeps once in
            then_step-Once (resolve_entry accounts named.0 mail entry.resolved world).0 _ _ there
              (λ found f. there))))

  validate_entries-Once :
      (entries : List Entry) (seen : Seen) (world : World)
      → All EntryWaits entries
      → Once world
      → Once (validate_entries libraries accounts entries seen world).1
  unfolding validate_entries
  validate_entries-Once [] seen world waits once = once
  validate_entries-Once (entry ∷ entries) seen world ((keeps, waits), rest) once =
      let there = validate_entry-Once entry seen world keeps once in
      then_step-Once (validate_entry libraries accounts entry seen world).0 _ _ there (λ checked c.
        let later = validate_entries-Once entries checked.1 _ rest there in
        then_step-Once
          (validate_entries libraries accounts entries checked.1
            (validate_entry libraries accounts entry seen world).1).0
          _ _ later (λ failures f. later))

  respond-Once :
      (entry : Entry) (account : Bytes) (stopped : Option Bytes) (failure : Option AppError)
      (world : World)
      → MutationWaits libraries entry.item entry.answers
      → Once world
      → Once (respond libraries accounts entry account stopped failure world).1
  unfolding respond
  respond-Once entry account (some operation) failure world waits once = once
  respond-Once entry account none (some failure) world waits once = once
  respond-Once entry account none none world waits once =
      mutate_mail-Once libraries accounts entry.item entry.answers world waits once

  run_entries-Once :
      (entries : List Entry) (failures : List (Option AppError)) (blocked : Blocked) (world : World)
      → All EntryWaits entries
      → Once world
      → Once (run_entries libraries accounts (zip_failures entries failures) blocked world).1
  unfolding run_entries
  run_entries-Once [] failures blocked world waits once = once
  run_entries-Once (entry ∷ entries) [] blocked world waits once = once
  run_entries-Once (entry ∷ entries) (failure ∷ failures) blocked world ((keeps, waits), rest)
        once =
      then_step-Once (decode_mail libraries entry.item.mail_ref) world _ once (λ mail m.
        let stopped = find_blocked blocked mail.account_id in
        let response = respond libraries accounts entry mail.account_id stopped failure world in
        let there = respond-Once entry mail.account_id stopped failure world waits once in
        let blocked' = block_after blocked mail.account_id entry.item.idempotency_key response.0 in
        let later = run_entries-Once entries failures blocked' response.1 rest there in
        then_step-Once
          (run_entries libraries accounts (zip_failures entries failures) blocked' response.1).0 _ _
          later (λ items i. later))

  pub run_batch-Once :
      (entries : List Entry) (world : World)
      → All EntryWaits entries
      → Once world
      → Once (run_batch libraries accounts entries world).1
  unfolding run_batch validate_batch
  run_batch-Once entries world waits once =
      let no_one : Seen = record { uuids = []; identities = [] } in
      let there : Once (validate_batch libraries accounts entries world).1 =
        then_step-Once (validate_count (length entries)) world _ once
          (λ valid counted. validate_entries-Once entries no_one world waits once) in
      then_step-Once (validate_batch libraries accounts entries world).0 _ _ there
        (λ failures listed. run_entries-Once entries failures [] _ waits there)
