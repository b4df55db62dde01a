-- ===== src/Journal/Pruned.antt =====
-- Which operations a pruning of the journal takes (crates/app/src/journal/sqlite.rs).
use eas_mail_mcp.Base.{
  ℕ, ◌+◌, ◌*◌, ◌≤◌, ◌<◌, ◌≡◌, ◌||◌, ltb→lt, ltb_false→le, ◌⊎◌, inl, inr, refl, sym, ap, ◌∙◌, subst,
  true, false, ◌&&◌, Bool-cases, Option, none, some, Bytes,
}
use eas_mail_mcp.Journal.Model.{OperationStatus, status_eq, JournalEntry}
use eas_mail_mcp.Journal.Table.{Table, inspect, is_old, is_settled, prune_settled}
use eas_mail_mcp.Journal.View.{IsKeyed, keep}
use eas_mail_mcp.Journal.Abstract.{view-delete}

-- Whether the journal knows how an operation ended.
abbrev pub IsOpen : OperationStatus → Type 0
IsOpen OperationStatus.pending = Unit {0}
IsOpen OperationStatus.succeeded = ⊥
IsOpen OperationStatus.failed = ⊥
IsOpen OperationStatus.partial = Unit {0}
IsOpen OperationStatus.unknown = Unit {0}

abbrev pub IsOver : OperationStatus → Type 0
IsOver OperationStatus.pending = ⊥
IsOver OperationStatus.succeeded = Unit {0}
IsOver OperationStatus.failed = Unit {0}
IsOver OperationStatus.partial = ⊥
IsOver OperationStatus.unknown = ⊥

abbrev pub ninety_days : ℕ
ninety_days = 90 * 24 * 60 * 60

-- What becomes of an operation that the journal has.
abbrev pub PrunedRight : ℕ → JournalEntry → Option JournalEntry → Type 0
PrunedRight now e after =
    ((IsOpen e.row.status ⊎ (now ≤ e.updated_at + ninety_days)) × (after ≡ some e))
    ⊎ (IsOver e.row.status × (e.updated_at + ninety_days < now) × (after ≡ none))

status_cases :
    (status : OperationStatus)
    → (IsOpen status
        × ((status_eq status OperationStatus.succeeded || status_eq status OperationStatus.failed)
            ≡ false))
      ⊎ (IsOver status
          × ((status_eq status OperationStatus.succeeded || status_eq status OperationStatus.failed)
              ≡ true))
status_cases OperationStatus.pending = inl (tt, refl)
status_cases OperationStatus.succeeded = inr (tt, refl)
status_cases OperationStatus.failed = inr (tt, refl)
status_cases OperationStatus.partial = inl (tt, refl)
status_cases OperationStatus.unknown = inl (tt, refl)

keep_right :
    (now : ℕ) (e : JournalEntry)
    → PrunedRight now e (keep (λ x. is_settled x && is_old now x) (some e))
keep_right now e = elim (status_cases e.row.status) [
  | inl (is_open, unsettled) ↦ inl (inl is_open, rw unsettled refl)
  | inr (over, settled) ↦ elim (Bool-cases (is_old now e)) [
    | inl old ↦ inr (over, ltb→lt (e.updated_at + ninety_days) now old, rw (settled, old) refl)
    | inr recent ↦
        inl (inr (ltb_false→le (e.updated_at + ninety_days) now recent), rw (settled, recent) refl)
  ]
]

-- In a table with one row for each operation, pruning leaves an operation as it was if it has
-- neither succeeded nor failed, whatever its age, or was changed in the last 90 days; it removes
-- one that has succeeded or failed and was last changed before that.
pub prune_settled_lem :
    (now : ℕ) (table : Table) (id : Bytes) (e : JournalEntry)
    → IsKeyed table
    → inspect table id ≡ some e
    → PrunedRight now e (inspect (prune_settled now table).1 id)
prune_settled_lem now table id e keyed found =
    subst (PrunedRight now e)
      (sym (
        view-delete (λ x. is_settled x && is_old now x) table id keyed
        ∙ ap (keep (λ x. is_settled x && is_old now x)) found))
      (keep_right now e)
