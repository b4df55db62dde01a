-- ===== src/Journal/Tests.antt =====
-- Concrete operations, and the theorems at them (crates/app/src/journal/sqlite.rs).
use eas_mail_mcp.Base.{List, ◌≡◌, refl, some, none, [], ◌∷◌, ascii, err}
use eas_mail_mcp.Journal.Model.{OperationStatus, JournalRecord, JournalEntry, storage_error}
use eas_mail_mcp.Journal.Table.{
  Table, inspect, prune_settled, checkpoint, finish_with_locator, new_entry, delete,
}
use eas_mail_mcp.Journal.Pruned.{PrunedRight, prune_settled_lem}
use eas_mail_mcp.Journal.View.{IsKeyed, Operation, apply_all, view, meanings}
use eas_mail_mcp.Journal.Abstract.{apply_all-meanings}
use eas_mail_mcp.Journal.Finished.{checkpoint-finish_with_locator}

abbrev send : JournalRecord
send = record {
  operation_id = ascii "op-1";
  account_id = ascii "work";
  kind = ascii "send";
  payload_hmac = ascii "aa";
  client_id = ascii "c1";
  status = OperationStatus.pending;
  completed_steps = 0;
}

abbrev one_row : Table
one_row = new_entry send 100 ∷ []

pruned_late :
    inspect (prune_settled 10_000_000 one_row).1 (ascii "op-1") ≡ some (new_entry send 100)
unfolding delete
pruned_late = refl

-- One that was confirmed long ago, one that no answer came for, and one of today.
abbrev done : JournalEntry
done = record (new_entry (record send { operation_id = ascii "op-2" }) 100) {
  row = record send { operation_id = ascii "op-2"; status = OperationStatus.succeeded };
}

abbrev lost : JournalEntry
lost = record (new_entry send 100) { row = record send { status = OperationStatus.unknown } }

abbrev two_rows : Table
two_rows = done ∷ lost ∷ []

pruned_done : inspect (prune_settled 10_000_000 two_rows).1 (ascii "op-2") ≡ none
unfolding delete
pruned_done = refl

kept_lost : inspect (prune_settled 10_000_000 two_rows).1 (ascii "op-1") ≡ some lost
unfolding delete
kept_lost = refl

prune_settled_lem_example :
    PrunedRight 10_000_000 done (inspect (prune_settled 10_000_000 two_rows).1 (ascii "op-2"))
prune_settled_lem_example =
    prune_settled_lem 10_000_000 two_rows (ascii "op-2") done (refl, (refl, tt)) refl

checkpoint-finish_with_locator_example :
    checkpoint
      (ascii "op-1")
      3
      300
      (finish_with_locator (ascii "op-1") OperationStatus.unknown 1 none 200 one_row).1
    ≡ (
      err storage_error,
      (finish_with_locator (ascii "op-1") OperationStatus.unknown 1 none 200 one_row).1,
    )
checkpoint-finish_with_locator_example =
    checkpoint-finish_with_locator (ascii "op-1") OperationStatus.unknown 1 3 200 300 none none
      one_row refl

-- The operation begins a second time, is finished, and another account is purged.
abbrev history : List Operation
history =
    Operation.begins send 200
    ∷ Operation.finishes (ascii "op-1") OperationStatus.succeeded 1 none 300
    ∷ Operation.purges (ascii "home")
    ∷ []

apply_all-meanings_example :
    IsKeyed (apply_all history one_row)
    × (view (apply_all history one_row) ≡ meanings history (view one_row))
apply_all-meanings_example = apply_all-meanings history one_row (refl, tt)
