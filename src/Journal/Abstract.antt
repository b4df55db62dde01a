-- ===== src/Journal/Abstract.antt =====
-- The journal keeps a finite map from operations to entries (crates/app/src/journal/sqlite.rs).
use mathlib.Core.Path.{fun_ext}
use eas_mail_mcp.Base.{
  ℕ, ◌≡◌, refl, ap, sym, ◌∙◌, subst, Bool, false, Bool-cases, inl, inr, Option, none, some,
  Option-cases, List, [], ◌∷◌, ◌++◌, Bytes, bytes_eq, bytes_eq→eq, bytes_eq_refl, if◌then◌else◌,
  err, Result-cases, arith,
}
use eas_mail_mcp.AppError.{AppError}
use eas_mail_mcp.Journal.Model.{OperationStatus, JournalRecord, MailResultLocator, JournalEntry}
use eas_mail_mcp.Journal.Table.{
  Table, inspect, update, delete, new_entry, begin, checkpoint, encode_locator, finish_with_locator,
}
use eas_mail_mcp.Journal.Idempotent.{inspect_miss}
use eas_mail_mcp.Journal.Finished.{finished_table}
use eas_mail_mcp.Journal.View.{
  view, IsKeyed, Operation, apply, change, keep, meaning, apply_all, meanings,
}
use eas_mail_mcp.Journal.View.Operation.{begins, checkpoints, finishes, recovers, prunes, purges}

module _ (holds : JournalEntry → Bool) (set : JournalEntry → JournalEntry) where
  -- A change that leaves the operation of an entry alone.
  abbrev KeepsId : Type 0
  KeepsId =
      (e : JournalEntry) (id : Bytes)
      → bytes_eq (set e).row.operation_id id ≡ bytes_eq e.row.operation_id id

  view-update :
      (table : Table) (id : Bytes)
      → KeepsId
      → view (update holds set table).1 id ≡ change holds set (view table id)
  unfolding update
  view-update [] id same = refl
  view-update (x ∷ table) id same = ground (arith, same x id, view-update table id same)

  IsKeyed-update : (table : Table) → KeepsId → IsKeyed table → IsKeyed (update holds set table).1
  unfolding update
  IsKeyed-update [] same keyed = tt
  IsKeyed-update (x ∷ table) same (fresh, keyed) = elim (Bool-cases (holds x)) [
    | inl hit ↦
        let id = (set x).row.operation_id in
        let alike = bytes_eq→eq x.row.operation_id id (sym (same x id) ∙ bytes_eq_refl id) in
        rw hit (
          view-update table id same
              ∙ ap (change holds set) (ap (inspect table) (sym alike) ∙ fresh),
          IsKeyed-update table same keyed,
        )
    | inr miss ↦ rw miss (
      view-update table x.row.operation_id same ∙ ap (change holds set) fresh,
      IsKeyed-update table same keyed,
    )
  ]

module _ (holds : JournalEntry → Bool) where
  pub view-delete :
      (table : Table) (id : Bytes)
      → IsKeyed table
      → view (delete holds table).1 id ≡ keep holds (view table id)
  unfolding delete
  view-delete [] id keyed = refl
  view-delete (x ∷ table) id (fresh, keyed) = elim (Bool-cases (bytes_eq x.row.operation_id id)) [
    | inl here ↦
        let absent = ap (inspect table) (sym (bytes_eq→eq x.row.operation_id id here)) ∙ fresh in
        ground (arith, view-delete table id keyed, absent)
    | inr there ↦ ground (arith, view-delete table id keyed)
  ]

  IsKeyed-delete : (table : Table) → IsKeyed table → IsKeyed (delete holds table).1
  unfolding delete
  IsKeyed-delete [] keyed = tt
  IsKeyed-delete (x ∷ table) (fresh, keyed) = elim (Bool-cases (holds x)) [
    | inl gone ↦ rw gone (IsKeyed-delete table keyed)
    | inr kept ↦ rw kept (
      view-delete table x.row.operation_id keyed ∙ ap (keep holds) fresh,
      IsKeyed-delete table keyed,
    )
  ]

view-append :
    (table : Table) (e : JournalEntry) (id : Bytes)
    → inspect table e.row.operation_id ≡ none
    → view (table ++ (e ∷ [])) id
      ≡ (if bytes_eq e.row.operation_id id then some e else view table id)
view-append [] e id absent = refl
view-append (x ∷ table) e id absent = ground (
  arith,
  view-append table e id,
  bytes_eq→eq x.row.operation_id id,
  bytes_eq→eq e.row.operation_id id,
  bytes_eq_refl e.row.operation_id,
)

apart : (a b : Bytes) → bytes_eq a b ≡ false → bytes_eq b a ≡ false
apart a b h = ground (arith, h, bytes_eq→eq b a, bytes_eq_refl a)

IsKeyed-append :
    (table : Table) (e : JournalEntry)
    → inspect table e.row.operation_id ≡ none
    → IsKeyed table
    → IsKeyed (table ++ (e ∷ []))
IsKeyed-append [] e absent keyed = (refl, tt)
IsKeyed-append (x ∷ table) e absent (fresh, keyed) =
    elim (Bool-cases (bytes_eq x.row.operation_id e.row.operation_id)) [
      | inl same ↦ ground (arith, absent, same)
      | inr other ↦
          let missing = sym (inspect_miss x table e.row.operation_id other) ∙ absent in
          let other_way = apart x.row.operation_id e.row.operation_id other in
          (
            view-append table e x.row.operation_id missing ∙ (rw (other_way, fresh) refl),
            IsKeyed-append table e missing keyed,
          )
    ]

-- The journal with the row `begin` inserts.
begin_new :
    (row : JournalRecord) (now : ℕ) (table : Table)
    → inspect table row.operation_id ≡ none
    → (begin row now table).1 ≡ table ++ (new_entry row now ∷ [])
unfolding begin
begin_new row now table h = rw h refl

begin_old :
    (row : JournalRecord) (now : ℕ) (table : Table) (e : JournalEntry)
    → inspect table row.operation_id ≡ some e
    → (begin row now table).1 ≡ table
unfolding begin
begin_old row now table e h = ground (arith, h)

refused_table :
    (id : Bytes) (status : OperationStatus) (steps now : ℕ) (locator : Option MailResultLocator)
    (failure : AppError) (table : Table)
    → encode_locator status locator ≡ err failure
    → (finish_with_locator id status steps locator now table).1 ≡ table
unfolding finish_with_locator
refused_table id status steps now locator failure table h = rw (h, finish_with_locator) refl

module _ (row : JournalRecord) (now : ℕ) (table : Table) where
  view_absent :
      (id : Bytes)
      → inspect table row.operation_id ≡ none
      → (if bytes_eq row.operation_id id then some (new_entry row now) else view table id)
        ≡ meaning (begins row now) (view table) id
  view_absent id absent = elim (Bool-cases (bytes_eq row.operation_id id)) [
    | inl here ↦
        let missing = ap (inspect table) (sym (bytes_eq→eq row.operation_id id here)) ∙ absent in
        rw (here, missing) refl
    | inr there ↦ rw there refl
  ]

  view_present :
      (id : Bytes) (e : JournalEntry)
      → inspect table row.operation_id ≡ some e
      → view table id ≡ meaning (begins row now) (view table) id
  view_present id e present = elim (Bool-cases (bytes_eq row.operation_id id)) [
    | inl here ↦
        let there = ap (inspect table) (sym (bytes_eq→eq row.operation_id id here)) ∙ present in
        rw (here, there) refl
    | inr there ↦ rw there refl
  ]

  apply_begins :
      IsKeyed table
      → IsKeyed (begin row now table).1
        × ((id : Bytes)
            → view (begin row now table).1 id ≡ meaning (begins row now) (view table) id)
  apply_begins keyed = elim (Option-cases (inspect table row.operation_id)) [
    | inl absent ↦
        let new = begin_new row now table absent in
        (
          subst IsKeyed (sym new) (IsKeyed-append table (new_entry row now) absent keyed),
          λ id.
              ap (λ t. view t id) new
              ∙ view-append table (new_entry row now) id absent
              ∙ view_absent id absent,
        )
    | inr (e, present) ↦
        let old = begin_old row now table e present in
        (subst IsKeyed (sym old) keyed, λ id. ap (λ t. view t id) old ∙ view_present id e present)
  ]

module _ (key : Bytes) (status : OperationStatus) (steps now : ℕ)
    (locator : Option MailResultLocator) where
  apply_finishes :
      (table : Table)
      → IsKeyed table
      → IsKeyed (finish_with_locator key status steps locator now table).1
        × ((id : Bytes)
            → view (finish_with_locator key status steps locator now table).1 id
              ≡ meaning (finishes key status steps locator now) (view table) id)
  apply_finishes table keyed = elim (Result-cases (encode_locator status locator)) [
    | inl (encoded, accepted) ↦
        let new = finished_table key status steps now locator encoded table accepted in
        (
          subst IsKeyed (sym new) (IsKeyed-update _ _ table (λ e id. refl) keyed),
          λ id.
              ap (λ t. view t id) new
              ∙ rw (accepted, meaning) (view-update _ _ table id (λ e id. refl)),
        )
    | inr (failure, refused) ↦
        let old = refused_table key status steps now locator failure table refused in
        (subst IsKeyed (sym old) keyed, λ id. ap (λ t. view t id) old ∙ rw (refused, meaning) refl)
  ]

apply-meaning :
    (op : Operation) (table : Table)
    → IsKeyed table
    → IsKeyed (apply op table)
      × ((id : Bytes) → view (apply op table) id ≡ meaning op (view table) id)
unfolding checkpoint
apply-meaning (begins row now) table keyed = apply_begins row now table keyed
apply-meaning (checkpoints key steps now) table keyed =
    (IsKeyed-update _ _ table (λ e id. refl) keyed, λ id. view-update _ _ table id (λ e id. refl))
apply-meaning (finishes key status steps locator now) table keyed =
    apply_finishes key status steps now locator table keyed
apply-meaning (recovers account now) table keyed =
    (IsKeyed-update _ _ table (λ e id. refl) keyed, λ id. view-update _ _ table id (λ e id. refl))
apply-meaning (prunes now) table keyed =
    (IsKeyed-delete _ table keyed, λ id. view-delete _ table id keyed)
apply-meaning (purges account) table keyed =
    (IsKeyed-delete _ table keyed, λ id. view-delete _ table id keyed)

-- The journal refines the map from operations to entries: a history of operations on a table with
-- one row for each operation leaves such a table, and what it maps each operation to is what the
-- same history of changes makes of the map that the table stood for.
pub apply_all-meanings :
    (history : List Operation) (table : Table)
    → IsKeyed table
    → IsKeyed (apply_all history table)
      × (view (apply_all history table) ≡ meanings history (view table))
apply_all-meanings [] table keyed = (keyed, refl)
apply_all-meanings (op ∷ rest) table keyed =
    let (kept, changed) = apply-meaning op table keyed in
    let (still_kept, then_changed) = apply_all-meanings rest (apply op table) kept in
    (still_kept, then_changed ∙ ap (meanings rest) (fun_ext changed))
