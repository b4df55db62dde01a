-- ===== src/Writes/Tests.antt =====
-- Concrete requests, and the theorems at them (crates/app/src/runtime/writes.rs).
use eas_mail_mcp.Base.{◌≤◌, ◌≡◌, refl, true, some, [], ◌∷◌, List, ascii, ok}
use eas_mail_mcp.AppError
use eas_mail_mcp.AppError.{ErrorCode}
use eas_mail_mcp.Journal.Model.{OperationStatus, JournalRecord}
use eas_mail_mcp.Journal.Table.{begin, new_entry, update, finish_with_locator}
use eas_mail_mcp.References.Simple.{simple}
use eas_mail_mcp.Writes.World.{World, Accounts, require_write}
use eas_mail_mcp.Writes.Finish.{finish_write}
use eas_mail_mcp.Writes.Handlers.{
  Request, replay_write, Call, send_begun, commit_write, Lock, enter, SendAnswers, send_result,
}
use eas_mail_mcp.Writes.Covers.{calls}
use eas_mail_mcp.Writes.Served.{Write, serve_all, serve-Once, serve_all_at_most_once}

abbrev accounts : Accounts
accounts = record { is_enabled = λ account. true; is_write_enabled = λ account. true }

abbrev request : Request
request = record {
  kind = ascii "mail_send";
  parsed_key = some (ascii "u1");
  canonical = some (ascii "text");
  fingerprint = λ text. ok text;
}

abbrev call : Call
call = record {
  outcome = ok tt;
  meanwhile = λ world. world;
  purged = ok tt;
  begin_at = 100;
  finish_at = 101;
}

abbrev free : Lock
free = record { acquired = ok tt; waited = λ world. world }

abbrev one_send : SendAnswers
one_send = record {
  prepared = ok request;
  valid = ok tt;
  lock = free;
  verified = ok tt;
  call = call;
}

-- The same request, which waits for the lock while the first one is served.
abbrev late_send : SendAnswers
late_send = record one_send {
  lock = record {
    acquired = ok tt;
    waited = λ world. (send_result accounts (ascii "work") one_send world).1;
  };
}

abbrev at_rest : World
at_rest = record { journal = []; disabled_accounts = []; sent = [] }

abbrev both : List Write
both = Write.mail_send (ascii "work") late_send ∷ Write.mail_send (ascii "work") one_send ∷ []

sent_once : (serve_all simple accounts both at_rest).sent ≡ (ascii "work", ascii "u1") ∷ []
unfolding send_result replay_write enter require_write commit_write begin send_begun finish_write
    finish_with_locator update
sent_once = refl

serve_all_at_most_once_example :
    calls (ascii "work") (ascii "u1") (serve_all simple accounts both at_rest).sent ≤ 1
serve_all_at_most_once_example =
    serve_all_at_most_once simple accounts both [] [] (ascii "work") (ascii "u1") (
      (
        (λ world once.
            serve-Once simple accounts (Write.mail_send (ascii "work") one_send) world
              (λ w h. h, λ w h. h) once),
        λ world once. once,
      ),
      ((λ world once. once, λ world once. once), tt),
    )

abbrev row : JournalRecord
row = record {
  operation_id = ascii "u1";
  account_id = ascii "work";
  kind = ascii "mail_send";
  payload_hmac = ascii "text";
  client_id = ascii "u1";
  status = OperationStatus.pending;
  completed_steps = 0;
}

abbrev begun : World
begun = record at_rest { journal = new_entry row 100 ∷ [] }
