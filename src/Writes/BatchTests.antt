-- ===== src/Writes/BatchTests.antt =====
-- Concrete changes and a batch, and the theorems at them
-- (crates/app/src/runtime/mail_mutation.rs and mail_batch.rs).
use eas_mail_mcp.Base.{
  ◌≤◌, ◌≡◌, refl, true, false, some, none, [], ◌∷◌, ◌++◌, List, Bytes, ascii, ok, err, length,
}
use eas_mail_mcp.AppError
use eas_mail_mcp.AppError.{AppError, ErrorCode}
use eas_mail_mcp.Journal.Model.{OperationStatus, JournalRecord}
use eas_mail_mcp.Journal.Table.{begin, new_entry, update, finish_with_locator}
use eas_mail_mcp.References.Payloads.{MailSource, BackendMail}
use eas_mail_mcp.References.Object.{decode_mail, decode, kind, encode_mail, encode}
use eas_mail_mcp.References.Simple.{simple, armoured, mail_vec}
use eas_mail_mcp.Writes.World.{World, OperationState, Accounts, require_write, account_result}
use eas_mail_mcp.Writes.Handlers.{Request, replay_write, enter, fetch}
use eas_mail_mcp.Writes.Mail.{MailFlagState, MailAction, MailMutationResult, validate_item}
use eas_mail_mcp.Writes.Mutation.{
  MailAnswers, finish_mail_mutation, replay_mail_mutation, perform, mutate_locked, mutate_mail,
}
use eas_mail_mcp.Writes.Batch.{
  Entry, MailBatchEntry, skip_error, validate_count, validate_entries, validate_batch, respond,
  run_entries, run_batch,
}
use eas_mail_mcp.Writes.Replayed.{replay_mail_mutation-finish_mail_mutation}
use eas_mail_mcp.Writes.Stops.{Stops}
use eas_mail_mcp.Writes.Orderly.{DistinctKeys, run_batch_orderly}

abbrev accounts : Accounts
accounts = record { is_enabled = λ account. true; is_write_enabled = λ account. true }

abbrev letter : Bytes → BackendMail
letter id = record {
  account_id = ascii "work";
  folder_id = ascii "5";
  source = MailSource.item (ascii "5") id;
}

abbrev letter_ref : Bytes → Bytes
letter_ref id =
    ascii "ref1.mail." ++ armoured (mail_vec (ascii "work") (MailSource.item (ascii "5") id))

letter_read : decode_mail simple (letter_ref (ascii "a")) ≡ ok (letter (ascii "a"))
unfolding decode_mail decode kind
letter_read = refl

abbrev request : Bytes → Request
request key = record {
  kind = ascii "mail_set_flag";
  parsed_key = some key;
  canonical = some (ascii "text");
  fingerprint = λ text. ok text;
}

abbrev answers : Bytes → Bytes → AppError.Result (Unit {0}) → MailAnswers
answers id key changed = record {
  request = request key;
  lock = record { acquired = ok tt; waited = λ world. world };
  resolved = record { fetched = ok (letter id); others = λ world. world; purged = ok tt };
  folders = record { fetched = ok []; others = λ world. world; purged = ok tt };
  verified = ok tt;
  ready = record { fetched = ok tt; others = λ world. world; purged = ok tt };
  call = record {
    moved = ok (MailSource.long_id []);
    changed = changed;
    meanwhile = λ world. world;
    purged = ok tt;
    begin_at = 100;
    finish_at = 101;
  };
}

abbrev flagging : Bytes → Bytes → AppError.Result (Unit {0}) → Entry
flagging id key changed = record {
  item = record {
    mail_ref = letter_ref id;
    idempotency_key = key;
    action = MailAction.set_flag MailFlagState.active;
  };
  parsed_key = some key;
  resolved = record { fetched = ok (letter id); others = λ world. world; purged = ok tt };
  answers = answers id key changed;
}

abbrev at_rest : World
at_rest = record { journal = []; disabled_accounts = []; sent = [] }

abbrev lost : AppError
lost = AppError.new ErrorCode.outcome_unknown "connection closed"

abbrev two : List Entry
two = flagging (ascii "a") (ascii "u1") (err lost) ∷ flagging (ascii "b") (ascii "u2") (ok tt) ∷ []

abbrev reports : List MailBatchEntry
reports =
    record {
      mail_ref = letter_ref (ascii "a");
      operation_id = ascii "u1";
      result = none;
      error = some (AppError.operation (ascii "u1") (AppError.account (ascii "work") lost));
      skipped = false;
    }
    ∷ record {
      mail_ref = letter_ref (ascii "b");
      operation_id = ascii "u2";
      result = none;
      error = some (skip_error (ascii "work") (ascii "u1"));
      skipped = true;
    }
    ∷ []

two_reported : (run_batch simple accounts two at_rest).0 ≡ ok reports
unfolding run_batch validate_batch validate_count validate_entries validate_item decode_mail decode
    kind require_write fetch account_result run_entries respond mutate_mail replay_mail_mutation
    replay_write enter mutate_locked perform begin finish_mail_mutation finish_with_locator update
two_reported = refl

run_batch_orderly_example :
    (1 ≤ length two)
    × (length two ≤ 20)
    × DistinctKeys [] two
    × (length reports ≡ length two)
    × Stops simple accounts reports
run_batch_orderly_example = run_batch_orderly simple accounts two at_rest reports two_reported

abbrev row : JournalRecord
row = record {
  operation_id = ascii "u1";
  account_id = ascii "work";
  kind = ascii "mail_set_flag";
  payload_hmac = ascii "text";
  client_id = ascii "u1";
  status = OperationStatus.pending;
  completed_steps = 0;
}

abbrev flagged : MailMutationResult
flagged = record {
  operation_id = ascii "u1";
  status = OperationState.succeeded;
  message = "Exchange confirmed the operation";
  mail_ref = some (letter_ref (ascii "a"));
}

abbrev begun : World
begun = record at_rest { journal = new_entry row 100 ∷ [] }

flagged_stored :
    (finish_mail_mutation simple
      (ascii "u1")
      (letter (ascii "a"))
      (ok tt)
      101
      (ok (MailSource.item (ascii "5") (ascii "a")))
      begun).0
    ≡ ok flagged
unfolding finish_mail_mutation finish_with_locator update encode_mail encode
flagged_stored = refl

replay_mail_mutation-finish_mail_mutation_example :
    (replay_mail_mutation simple
      (request (ascii "u1"))
      (finish_mail_mutation simple
        (ascii "u1")
        (letter (ascii "a"))
        (ok tt)
        101
        (ok (MailSource.item (ascii "5") (ascii "a")))
        begun).1).0
    ≡ ok (some (record flagged { message = "the prior operation was confirmed" }))
replay_mail_mutation-finish_mail_mutation_example =
    replay_mail_mutation-finish_mail_mutation simple (request (ascii "u1")) (letter (ascii "a"))
      (ok tt) 101 (ok (MailSource.item (ascii "5") (ascii "a"))) begun (new_entry row 100) flagged
      (record row { account_id = [] }, refl, refl, refl, refl) refl refl flagged_stored
