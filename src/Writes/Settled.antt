-- ===== src/Writes/Settled.antt =====
-- What the journal holds once a write has ended (crates/app/src/runtime/mutation_journal.rs).
use eas_mail_mcp.Base.{
  ℕ, ◌≡◌, refl, ap, ◌∙◌, sym, false, Bool-cases, inl, inr, none, some, [], ◌∷◌, Bytes, bytes_eq,
  arith, ok, err,
}
use eas_mail_mcp.AppError
use eas_mail_mcp.AppError.{AppError, ErrorCode}
use eas_mail_mcp.Journal.Model.{OperationStatus, JournalEntry}
use eas_mail_mcp.Journal.Idempotent.{injective, inspect_hit, inspect_miss}
use eas_mail_mcp.Journal.Table.{Table, inspect, update, finished}
use eas_mail_mcp.Writes.World.{World, then_step, lift}
use eas_mail_mcp.Writes.Recorded.{recorded}

-- The row `e` of the operation as a status and a number of steps leave it.
abbrev pub Says : Table → Bytes → OperationStatus → ℕ → ℕ → JournalEntry → Type 0
Says table operation status steps now e =
    inspect table operation ≡ some (finished status steps none now e)

pub inspect-update :
    (id : Bytes) (set : JournalEntry → JournalEntry) (table : Table) (e : JournalEntry)
    → ((x : JournalEntry) → bytes_eq (set x).row.operation_id id ≡ bytes_eq x.row.operation_id id)
    → inspect table id ≡ some e
    → inspect (update (λ x. bytes_eq x.row.operation_id id) set table).1 id ≡ some (set e)
unfolding update
inspect-update id set [] e same h = ground (arith, h)
inspect-update id set (x ∷ table) e same h = elim (Bool-cases (bytes_eq x.row.operation_id id)) [
  | inl hit ↦ rw hit (
      inspect_hit (set x) _ id (same x ∙ hit)
      ∙ ap (λ y. some (set y)) (injective (sym (inspect_hit x table id hit) ∙ h)))
  | inr miss ↦
      rw (miss, miss) (inspect-update id set table e same (sym (inspect_miss x table id miss) ∙ h))
]

-- The journal after a failure with this code.
abbrev pub SaysFailure : Table → Bytes → Bytes → ℕ → JournalEntry → ErrorCode → Type 0
SaysFailure table account operation now e ErrorCode.outcome_unknown =
    Says table operation OperationStatus.unknown 0 now e
SaysFailure table account operation now e ErrorCode.remote_wipe =
    (i : Bytes) → recorded account i table ≡ false
SaysFailure table account operation now e code = Says table operation OperationStatus.failed 0 now e

abbrev pub SaysOutcome :
    Table → Bytes → Bytes → ℕ → JournalEntry → AppError.Result (Unit {0}) → Type 0
SaysOutcome table account operation now e (ok done) =
    Says table operation OperationStatus.succeeded 1 now e
SaysOutcome table account operation now e (err failure) =
    SaysFailure table account operation now e failure.code

pub after_lift_journal :
    {A B : Type 0} (stepped : AppError.Result A × World) (result : A → AppError.Result B)
    → (then_step stepped (λ value. lift (result value))).1 ≡ stepped.1
after_lift_journal (ok value, after) result = refl
after_lift_journal (err failure, after) result = refl
