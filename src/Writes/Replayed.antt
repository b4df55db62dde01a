-- ===== src/Writes/Replayed.antt =====
-- A change of a message that is asked for again is answered with the reference that was given at
-- first (crates/app/src/runtime/mail_mutation.rs).
use eas_mail_mcp.Base.{
  ok_injective, err_not_ok, ℕ, ◌≡◌, refl, ap, sym, ◌∙◌, inl, inr, Option, some, [], Bytes,
  bytes_eq_refl, ok, err, ◌>>=◌, >>=-eq-ok, Result-cases, arith,
}
use eas_mail_mcp.AppError
use eas_mail_mcp.AppError.{AppError, ErrorCode}
use eas_mail_mcp.Journal.Model.{
  OperationStatus, JournalRecord, MailResultLocator, validate_locator, JournalEntry,
}
use eas_mail_mcp.Journal.Table.{Table, inspect, finished, encode_locator, finish_with_locator}
use eas_mail_mcp.Journal.Finished.{finished_table}
use eas_mail_mcp.References.Payloads.{MailSource, BackendMail, Libraries}
use eas_mail_mcp.References.Object.{encode_mail}
use eas_mail_mcp.Writes.World.{World, OperationState, then_step, lift}
use eas_mail_mcp.Writes.Finish.{existing_result}
use eas_mail_mcp.Writes.Handlers.{Request, write_record, same_request, replay_row, replay_write}
use eas_mail_mcp.Writes.Mail.{MailMutationResult}
use eas_mail_mcp.Writes.Mutation.{
  unknown_outcome, replace_error, settled, settle_mail_failure, store_source, finish_mail_mutation,
  replayed_result, replay_mail_mutation,
}
use eas_mail_mcp.Writes.Settled.{inspect-update, after_lift_journal}

-- The request of an entry of the journal, put once more.
abbrev pub RequestOf : Request → JournalEntry → Type 0
RequestOf request e =
    (candidate : JournalRecord) × (write_record request [] ≡ ok candidate)
    × (candidate.operation_id ≡ e.row.operation_id)
    × (candidate.kind ≡ e.row.kind)
    × (candidate.payload_hmac ≡ e.row.payload_hmac)

encode_locator_stored :
    (locator : MailResultLocator) (encoded : Option MailResultLocator)
    → encode_locator OperationStatus.succeeded (some locator) ≡ ok encoded
    → encoded ≡ some locator
encode_locator_stored locator encoded h =
    let (valid, checked, same) = >>=-eq-ok (validate_locator locator) _ h in sym (ok_injective same)

finish_refused :
    (id : Bytes) (status : OperationStatus) (steps now : ℕ) (locator : Option MailResultLocator)
    (failure : AppError) (table : Table)
    → encode_locator status locator ≡ err failure
    → (finish_with_locator id status steps locator now table).0 ≡ err failure
unfolding finish_with_locator
finish_refused id status steps now locator failure table h = rw (h, finish_with_locator) refl

-- A move that is stored without an error is in the row.
stored_row :
    (operation : Bytes) (now : ℕ) (locator : MailResultLocator) (table : Table) (e : JournalEntry)
    (value : Unit {0})
    → inspect table operation ≡ some e
    → (finish_with_locator operation OperationStatus.succeeded 1 (some locator) now table).0
      ≡ ok value
    → inspect
        (finish_with_locator operation OperationStatus.succeeded 1 (some locator) now table).1
        operation
      ≡ some (finished OperationStatus.succeeded 1 (some locator) now e)
stored_row operation now locator table e value h stored =
    elim (Result-cases (encode_locator OperationStatus.succeeded (some locator))) [
      | inl (encoded, accepted) ↦
          ap (λ t. inspect t operation)
            (finished_table operation OperationStatus.succeeded 1 now (some locator) encoded table
              accepted)
          ∙ inspect-update operation (finished OperationStatus.succeeded 1 encoded now) table e
              (λ x. refl) h
          ∙ ap (λ l. some (finished OperationStatus.succeeded 1 l now e))
              (encode_locator_stored locator encoded accepted)
      | inr (failure, refused) ↦ absurd (
          err_not_ok (
            sym (
              finish_refused operation OperationStatus.succeeded 1 now (some locator) failure table
                refused)
            ∙ stored))
    ]

pub after_lift_both :
    {A B : Type 0} (stepped : AppError.Result A × World) (result : A → AppError.Result B) (last : B)
    → (then_step stepped (λ value. lift (result value))).0 ≡ ok last
    → (value : A) × (stepped.0 ≡ ok value) × (result value ≡ ok last)
after_lift_both (ok value, after) result last h = (value, refl, h)
after_lift_both (err failure, after) result last h = absurd (err_not_ok h)

replace_error_ok :
    {A : Type 0} (result : AppError.Result A) (failure : AppError) {value : A}
    → replace_error result failure ≡ ok value
    → result ≡ ok value
replace_error_ok (ok v) failure h = h
replace_error_ok (err other) failure h = absurd (err_not_ok h)

same_request_same :
    (stored candidate : JournalRecord)
    → stored.kind ≡ candidate.kind
    → stored.payload_hmac ≡ candidate.payload_hmac
    → same_request stored candidate ≡ ok (some stored)
same_request_same stored candidate kinds hashes =
    ground (arith, bytes_eq_refl stored.kind, bytes_eq_refl stored.payload_hmac)

replay_row_found :
    (table : Table) (candidate : JournalRecord) (stored : JournalEntry)
    → inspect table candidate.operation_id ≡ some stored
    → stored.row.kind ≡ candidate.kind
    → stored.row.payload_hmac ≡ candidate.payload_hmac
    → replay_row table candidate ≡ ok (some stored.row)
replay_row_found table candidate stored found kinds hashes =
    rw (found, replay_row) (same_request_same stored.row candidate kinds hashes)

-- A row that is found for its request is the one that the replay answers from.
replay_write_found :
    (request : Request) (world : World) (e : JournalEntry) (stored : JournalEntry)
    → RequestOf request e
    → inspect world.journal e.row.operation_id ≡ some stored
    → (stored.row.kind ≡ e.row.kind) × (stored.row.payload_hmac ≡ e.row.payload_hmac)
    → replay_write request world ≡ (ok (some stored.row), world)
unfolding replay_write
replay_write_found request world e stored (candidate, made, id, kind, hash) found (kinds, hashes) =
    ap (λ r. (r >>= λ c. replay_row world.journal c, world)) made
    ∙ ap (λ r. (r, world))
        (replay_row_found world.journal candidate stored (ap (inspect world.journal) id ∙ found)
          (kinds ∙ sym kind) (hashes ∙ sym hash))

module _ (libraries : Libraries) where
  stored_replay :
      (request : Request) (world : World) (e : JournalEntry) (now : ℕ) (locator : MailResultLocator)
      (mail_ref : Bytes)
      → RequestOf request e
      → inspect world.journal e.row.operation_id
        ≡ some (finished OperationStatus.succeeded 1 (some locator) now e)
      → encode_mail libraries (record {
        account_id = e.row.account_id;
        folder_id = locator.folder_id;
        source = MailSource.item locator.folder_id locator.server_id;
      })
        ≡ ok mail_ref
      → (replay_mail_mutation libraries request world).0
        ≡ ok (
            some (record {
              operation_id = e.row.operation_id;
              status = OperationState.succeeded;
              message = "the prior operation was confirmed";
              mail_ref = some mail_ref;
            }))
  unfolding replay_mail_mutation existing_result
  stored_replay request world e now locator mail_ref asked found wrote =
      rw (replay_write_found request world e _ asked found (refl, refl))
        (rw (found, replayed_result) (rw wrote refl))

  -- The reference that a stored change answers with is the one that a replay builds from its row.
  moved_replay :
      (request : Request) (mail : BackendMail) (now : ℕ) (folder server : Bytes) (world : World)
      (e : JournalEntry) (result : MailMutationResult)
      → RequestOf request e
      → inspect world.journal e.row.operation_id ≡ some e
      → mail.account_id ≡ e.row.account_id
      → (store_source libraries e.row.operation_id mail now (MailSource.item folder server) world).0
        ≡ ok result
      → (replay_mail_mutation libraries request
          (store_source libraries e.row.operation_id mail now
            (MailSource.item folder server)
            world).1).0
        ≡ ok (some (record result { message = "the prior operation was confirmed" }))
  moved_replay request mail now folder server world e result asked row own answered =
      let operation = e.row.operation_id in
      let locator : MailResultLocator = record { folder_id = folder; server_id = server } in
      let stepped =
        settled operation
          (finish_with_locator operation OperationStatus.succeeded 1 (some locator) now) world in
      let (value, stored, rest) = after_lift_both stepped _ result answered in
      let (mail_ref, wrote, same) =
        >>=-eq-ok
          (replace_error
            (encode_mail libraries
              (record mail { folder_id = folder; source = MailSource.item folder server }))
            (unknown_outcome operation))
          _ rest in
      let found = stored_row operation now locator world.journal e value row (
        replace_error_ok
          (finish_with_locator operation OperationStatus.succeeded 1 (some locator) now
            world.journal).0
          (unknown_outcome operation) stored) in
      ap (λ w. (replay_mail_mutation libraries request w).0) (after_lift_journal stepped _)
      ∙ stored_replay request stepped.1 e now locator mail_ref asked found (
          ap
            (λ a. encode_mail libraries (record {
              account_id = a;
              folder_id = folder;
              source = MailSource.item folder server;
            }))
            (sym own)
          ∙ replace_error_ok _ (unknown_outcome operation) wrote)
      ∙ ap
          (λ (r : MailMutationResult).
            ok (some (record r { message = "the prior operation was confirmed" })))
          (ok_injective same)

  -- A change that was confirmed with an answer, and is asked for once more with the same request, is
  -- answered the same from the journal, the reference included; only the message says that it was
  -- confirmed before.
  pub replay_mail_mutation-finish_mail_mutation :
      (request : Request) (mail : BackendMail) (purged : AppError.Result (Unit {0})) (now : ℕ)
      (outcome : AppError.Result MailSource) (world : World) (e : JournalEntry)
      (result : MailMutationResult)
      → RequestOf request e
      → inspect world.journal e.row.operation_id ≡ some e
      → mail.account_id ≡ e.row.account_id
      → (finish_mail_mutation libraries e.row.operation_id mail purged now outcome world).0
        ≡ ok result
      → (replay_mail_mutation libraries request
          (finish_mail_mutation libraries e.row.operation_id mail purged now outcome world).1).0
        ≡ ok (some (record result { message = "the prior operation was confirmed" }))
  unfolding finish_mail_mutation
  replay_mail_mutation-finish_mail_mutation request mail purged now
        (ok (MailSource.item folder server)) world e result asked row own answered =
      moved_replay request mail now folder server world e result asked row own answered
  replay_mail_mutation-finish_mail_mutation request mail purged now (ok (MailSource.long_id id))
        world e result asked row own answered =
      absurd (err_not_ok answered)
  replay_mail_mutation-finish_mail_mutation request mail purged now (err failure) world e result
        asked row own answered =
      let (value, stored, never) =
        after_lift_both
          (settle_mail_failure mail.account_id e.row.operation_id purged now failure.code world) _
          result answered in
      absurd (err_not_ok never)
