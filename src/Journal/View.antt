-- ===== src/Journal/View.antt =====
-- The map from operations to entries that the journal keeps, and what each operation on the journal
-- does to it (crates/app/src/journal.rs and journal/sqlite.rs).
use eas_mail_mcp.Base.{
  ℕ, ◌≡◌, Bool, ◌&&◌, Option, none, some, List, [], ◌∷◌, Bytes, bytes_eq, if◌then◌else◌, ok, err,
}
use eas_mail_mcp.Journal.Model.{OperationStatus, JournalRecord, MailResultLocator, JournalEntry}
use eas_mail_mcp.Journal.Table.{
  Table, inspect, is_pending, recover_account, new_entry, begin, checkpointed, finished, checkpoint,
  encode_locator, finish_with_locator, is_old, is_settled, prune_settled, purge_rows,
}

-- The abstract journal.
abbrev pub View : Type 0
View = Bytes → Option JournalEntry

abbrev pub view : Table → View
view table id = inspect table id

-- Each operation has one row, as the primary key of the table demands.
abbrev pub IsKeyed : Table → Type 0
IsKeyed [] = Unit {0}
IsKeyed (e ∷ table) = (inspect table e.row.operation_id ≡ none) × IsKeyed table

pub data Operation : Type 0 where
  begins : JournalRecord → ℕ → Operation
  checkpoints : Bytes → ℕ → ℕ → Operation
  finishes : Bytes → OperationStatus → ℕ → Option MailResultLocator → ℕ → Operation
  recovers : Bytes → ℕ → Operation
  prunes : ℕ → Operation
  purges : Bytes → Operation

abbrev pub apply : Operation → Table → Table
apply (begins row now) table = (begin row now table).1
apply (checkpoints id steps now) table = (checkpoint id steps now table).1
apply (finishes id status steps locator now) table =
    (finish_with_locator id status steps locator now table).1
apply (recovers account now) table = (recover_account account now table).1
apply (prunes now) table = (prune_settled now table).1
apply (purges account) table = (purge_rows account table).1

abbrev pub or_insert : Option JournalEntry → JournalEntry → Option JournalEntry
or_insert none fresh = some fresh
or_insert (some e) fresh = some e

abbrev pub change :
    (JournalEntry → Bool)
    → (JournalEntry → JournalEntry)
    → Option JournalEntry
    → Option JournalEntry
change holds set none = none
change holds set (some e) = if holds e then some (set e) else some e

abbrev pub keep : (JournalEntry → Bool) → Option JournalEntry → Option JournalEntry
keep holds none = none
keep holds (some e) = if holds e then none else some e

-- What each operation does to the map, at one key.
abbrev pub meaning : Operation → View → View
meaning (begins row now) v id =
    if bytes_eq row.operation_id id then or_insert (v id) (new_entry row now) else v id
meaning (checkpoints key steps now) v id =
    change (λ e. bytes_eq e.row.operation_id key && is_pending e) (checkpointed steps now) (v id)
meaning (finishes key status steps locator now) v id = elim (encode_locator status locator) [
  | err failure ↦ v id
  | ok encoded ↦
      change (λ e. bytes_eq e.row.operation_id key) (finished status steps encoded now) (v id)
]
meaning (recovers account now) v id =
    change (λ e. bytes_eq e.row.account_id account && is_pending e)
      (λ e. record e {
        row = record (e.row) { status = OperationStatus.unknown };
        updated_at = now;
      })
      (v id)
meaning (prunes now) v id = keep (λ e. is_settled e && is_old now e) (v id)
meaning (purges account) v id = keep (λ e. bytes_eq e.row.account_id account) (v id)

-- A history of the journal, the first operation first, on the table and on the map.
abbrev pub apply_all : List Operation → Table → Table
apply_all [] table = table
apply_all (op ∷ rest) table = apply_all rest (apply op table)

abbrev pub meanings : List Operation → View → View
meanings [] v = v
meanings (op ∷ rest) v = meanings rest (meaning op v)
