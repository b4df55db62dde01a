-- ===== src/Journal/Finished.antt =====
-- A finished operation takes no further checkpoint (crates/app/src/journal/sqlite.rs).
use eas_mail_mcp.Base.{
  ℕ, zero, ◌≡◌, refl, ap, sym, subst, Bool, true, false, ◌&&◌, Bool-cases, inl, inr, Option, [],
  ◌∷◌, Bytes, bytes_eq, arith, ok, err,
}
use eas_mail_mcp.Journal.Model.{
  OperationStatus, status_eq, storage_error, MailResultLocator, JournalEntry,
}
use eas_mail_mcp.Journal.Table.{
  Table, checkpointed, finished, update, is_pending, require_updated, checkpoint, encode_locator,
  finish_with_locator,
}

module _ (id : Bytes) (status : OperationStatus) (set finish : JournalEntry → JournalEntry) where
  abbrev named : JournalEntry → Bool
  named e = bytes_eq e.row.operation_id id

  abbrev open_named : JournalEntry → Bool
  open_named e = named e && is_pending e

  -- Where no row of that name is pending any more, a checkpoint changes none.
  update-update :
      (table : Table)
      → ((e : JournalEntry) → named e ≡ true → open_named (finish e) ≡ false)
      → update open_named set (update named finish table).1 ≡ (zero, (update named finish table).1)
  unfolding update
  update-update [] h = refl
  update-update (e ∷ table) h = elim (Bool-cases (named e)) [
    | inl hit ↦ rw (hit, h e hit, update-update table h) refl
    | inr miss ↦ rw (miss, miss, update-update table h) refl
  ]

encode_locator_open :
    (status : OperationStatus) (locator encoded : Option MailResultLocator)
    → encode_locator status locator ≡ ok encoded
    → status_eq status OperationStatus.pending ≡ false
encode_locator_open OperationStatus.pending locator encoded h = ground (arith, h)
encode_locator_open OperationStatus.succeeded locator encoded h = refl
encode_locator_open OperationStatus.failed locator encoded h = refl
encode_locator_open OperationStatus.partial locator encoded h = refl
encode_locator_open OperationStatus.unknown locator encoded h = refl

pub finished_table :
    (id : Bytes) (status : OperationStatus) (steps now : ℕ)
    (locator encoded : Option MailResultLocator) (table : Table)
    → encode_locator status locator ≡ ok encoded
    → (finish_with_locator id status steps locator now table).1
      ≡ (update (λ e. bytes_eq e.row.operation_id id) (finished status steps encoded now) table).1
unfolding finish_with_locator
finished_table id status steps now locator encoded table h = rw (h, finish_with_locator) refl

checkpoint_nothing :
    (id : Bytes) (steps now : ℕ) (table : Table)
    → update (λ e. bytes_eq e.row.operation_id id && is_pending e) (checkpointed steps now) table
      ≡ (zero, table)
    → checkpoint id steps now table ≡ (err storage_error, table)
unfolding checkpoint
checkpoint_nothing id steps now table h = ap (λ r. (require_updated r.0, r.1)) h

-- Once an operation is finished with a state and a locator that are accepted, a checkpoint of it
-- fails and changes nothing.
pub checkpoint-finish_with_locator :
    (id : Bytes) (status : OperationStatus) (steps later_steps now later : ℕ)
    (locator encoded : Option MailResultLocator) (table : Table)
    → encode_locator status locator ≡ ok encoded
    → checkpoint id later_steps later (finish_with_locator id status steps locator now table).1
      ≡ (err storage_error, (finish_with_locator id status steps locator now table).1)
checkpoint-finish_with_locator id status steps later_steps now later locator encoded table h =
    subst (λ t. checkpoint id later_steps later t ≡ (err storage_error, t))
      (sym (finished_table id status steps now locator encoded table h))
      (checkpoint_nothing id later_steps later _ (
        update-update id status (checkpointed later_steps later) (finished status steps encoded now)
          table (λ e hit. ground (arith, hit, encode_locator_open status locator encoded h))))
