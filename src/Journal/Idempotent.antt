-- ===== src/Journal/Idempotent.antt =====
-- What a caller who repeats an operation may rely on
-- (crates/app/src/journal/sqlite.rs).
use eas_mail_mcp.Base.{
  ℕ, ◌≡◌, refl, ap, ◌∙◌, Bool, true, false, none, some, [], ◌∷◌, ◌++◌, Bytes, bytes_eq,
  if◌then◌else◌, ok, err,
}
use eas_mail_mcp.AppError
use eas_mail_mcp.Journal.Model.{JournalRecord, JournalBegin, JournalEntry}
use eas_mail_mcp.Journal.Table.{
  Table, inspect, delete, same_input, conflict, new_entry, begin_found, begin,
}

-- The answer of `begin` where the row is there.
abbrev pub answered : JournalRecord → JournalRecord → JournalRecord → AppError.Result JournalBegin
answered stored row new =
    if same_input row new then ok (record { row = stored; inserted = false }) else err conflict

if_pair :
    {A B : Type 0} (b c : Bool) (x y : A) (t : B)
    → b ≡ c
    → ◌≡◌ {A = A × B} (if b then (x, t) else (y, t)) ((if c then x else y), t)
if_pair true c x y t h = rw (← h) refl
if_pair false c x y t h = rw (← h) refl

begin_found-answered :
    (row new : JournalRecord) (later : ℕ) (table : Table) (e : JournalEntry)
    → same_input e.row new ≡ same_input row new
    → begin_found new later table (some e) ≡ (answered e.row row new, table)
begin_found-answered row new later table e h =
    if_pair (same_input e.row new) (same_input row new) _ _ table h

module _ (x : JournalEntry) (table : Table) (id : Bytes) where
  pub inspect_hit : bytes_eq x.row.operation_id id ≡ true → inspect (x ∷ table) id ≡ some x
  inspect_hit h = rw (h) refl

  pub inspect_miss :
      bytes_eq x.row.operation_id id ≡ false → inspect (x ∷ table) id ≡ inspect table id
  inspect_miss h = rw (h) refl

delete_kept :
    (holds : JournalEntry → Bool) (x : JournalEntry) (table : Table)
    → holds x ≡ false
    → (delete holds (x ∷ table)).1 ≡ x ∷ (delete holds table).1
unfolding delete
delete_kept holds x table h = rw (h) refl

delete_gone :
    (holds : JournalEntry → Bool) (x : JournalEntry) (table : Table)
    → holds x ≡ true
    → (delete holds (x ∷ table)).1 ≡ (delete holds table).1
unfolding delete
delete_gone holds x table h = rw (h) refl

pub injective : {A : Type 0} {a b : A} → some a ≡ some b → a ≡ b
injective e = cc

-- What a repeated `begin` does, once the operation has begun.
abbrev pub Repeats : JournalRecord → JournalRecord → ℕ → Table → Type 0
Repeats row new later table =
    (e : JournalEntry) × (inspect table row.operation_id ≡ some e)
    × (begin new later table ≡ (answered e.row row new, table))

pub begin_absent :
    (row : JournalRecord) (now : ℕ) (table : Table)
    → inspect table row.operation_id ≡ none
    → begin row now table
      ≡ (ok (record { row = row; inserted = true }), table ++ (new_entry row now ∷ []))
unfolding begin
begin_absent row now table h = ap (begin_found row now table) h

pub begin_present :
    (row : JournalRecord) (now : ℕ) (table : Table) (e : JournalEntry)
    → inspect table row.operation_id ≡ some e
    → begin row now table ≡ (answered e.row e.row row, table)
unfolding begin
begin_present row now table e h =
    ap (begin_found row now table) h ∙ begin_found-answered e.row row now table e refl
