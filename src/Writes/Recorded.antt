-- ===== src/Writes/Recorded.antt =====
-- Which operations the journal holds a row of, and what the operations on the journal do to that
-- (crates/app/src/journal/sqlite.rs).
use eas_mail_mcp.Base.{
  ℕ, ◌≡◌, refl, ap, ◌∙◌, sym, Bool, true, false, ◌&&◌, ◌||◌, Bool-cases, inl, inr, Option, none,
  some, Option-cases, [], ◌∷◌, ◌++◌, Bytes, bytes_eq, bytes_eq→eq, bytes_eq_refl, arith, ok,
  Result-cases,
}
use eas_mail_mcp.Journal.Model.{
  OperationStatus, JournalRecord, JournalBegin, JournalEntry, MailResultLocator,
}
use eas_mail_mcp.Journal.Idempotent.{answered, begin_absent, begin_present}
use eas_mail_mcp.Journal.Table.{
  Table, inspect, update, delete, new_entry, begin_found, begin, encode_locator, finished,
  finish_with_locator, purge_rows,
}

-- A row of this account and this operation.
abbrev pub is_row : Bytes → Bytes → JournalEntry → Bool
is_row account operation e =
    bytes_eq e.row.account_id account && bytes_eq e.row.operation_id operation

abbrev pub recorded : Bytes → Bytes → Table → Bool
recorded account operation [] = false
recorded account operation (e ∷ table) =
    is_row account operation e || recorded account operation table

module _ (account operation : Bytes) where
  recorded-append :
      (table : Table) (e : JournalEntry)
      → recorded account operation (table ++ (e ∷ []))
        ≡ (recorded account operation table || is_row account operation e)
  recorded-append [] e = ground arith
  recorded-append (x ∷ table) e = ground (arith, recorded-append table e)

  pub recorded_absent :
      (table : Table) → inspect table operation ≡ none → recorded account operation table ≡ false
  recorded_absent [] h = refl
  recorded_absent (x ∷ table) h = ground (arith, recorded_absent table)

  recorded-update :
      (holds : JournalEntry → Bool) (set : JournalEntry → JournalEntry) (table : Table)
      → ((e : JournalEntry) → is_row account operation (set e) ≡ is_row account operation e)
      → recorded account operation (update holds set table).1 ≡ recorded account operation table
  unfolding update
  recorded-update holds set [] h = refl
  recorded-update holds set (x ∷ table) h = elim (Bool-cases (holds x)) [
    | inl hit ↦ rw (hit) (ground (arith, h x, recorded-update holds set table h))
    | inr miss ↦ rw (miss) (ground (arith, recorded-update holds set table h))
  ]

  -- The end of an operation keeps every row.
  pub recorded-finish :
      (id : Bytes) (status : OperationStatus) (steps now : ℕ) (locator : Option MailResultLocator)
      (table : Table)
      → recorded account operation (finish_with_locator id status steps locator now table).1
        ≡ recorded account operation table
  unfolding finish_with_locator
  recorded-finish id status steps now locator table =
      elim (Result-cases (encode_locator status locator)) [
        | inl (encoded, e) ↦
            rw (e, finish_with_locator)
              (recorded-update (λ x. bytes_eq x.row.operation_id id)
                (finished status steps encoded now) table (λ x. refl))
        | inr (failure, e) ↦ rw (e, finish_with_locator)
      ]

  other_account :
      (x : JournalEntry) (purged : Bytes)
      → bytes_eq purged account ≡ false
      → bytes_eq x.row.account_id purged ≡ true
      → is_row account operation x ≡ false
  other_account x purged h gone =
      let same = bytes_eq→eq x.row.account_id purged gone in
      ap (λ b. b && bytes_eq x.row.operation_id operation) (ap (λ a. bytes_eq a account) same ∙ h)

  -- A purge takes the rows of its own account only.
  pub recorded-purge :
      (purged : Bytes) (table : Table)
      → bytes_eq purged account ≡ false
      → recorded account operation (purge_rows purged table).1 ≡ recorded account operation table
  unfolding delete
  recorded-purge purged [] h = refl
  recorded-purge purged (x ∷ table) h = elim (Bool-cases (bytes_eq x.row.account_id purged)) [
    | inl gone ↦
        rw gone (ground (arith, other_account x purged h gone, recorded-purge purged table h))
    | inr kept ↦ rw kept (ground (arith, recorded-purge purged table h))
  ]

  begin_found_table :
      (row : JournalRecord) (now : ℕ) (table : Table) (e : JournalEntry)
      → recorded account operation table ≡ true
      → recorded account operation (begin_found row now table (some e)).1 ≡ true
  begin_found_table row now table e h = ground arith

  pub recorded-begin :
      (row : JournalRecord) (now : ℕ) (table : Table)
      → recorded account operation table ≡ true
      → recorded account operation (begin row now table).1 ≡ true
  unfolding begin
  recorded-begin row now table h = elim (Option-cases (inspect table row.operation_id)) [
    | inl absent ↦
        rw (absent, begin_found)
          (recorded-append table (new_entry row now)
            ∙ ap (λ b. b || is_row account operation (new_entry row now)) h)
    | inr (e, found) ↦ rw found (begin_found_table row now table e h)
  ]

pub recorded_inserted :
    (row : JournalRecord) (now : ℕ) (table : Table)
    → recorded row.account_id row.operation_id (table ++ (new_entry row now ∷ [])) ≡ true
recorded_inserted row now table = ground (
  arith,
  recorded-append row.account_id row.operation_id table (new_entry row now),
  bytes_eq_refl row.account_id,
  bytes_eq_refl row.operation_id,
)

-- An operation that `begin` inserts was not there under any account, and is there afterwards.
abbrev pub Inserts : JournalRecord → ℕ → Table → JournalBegin → Type 0
Inserts row now table begun =
    (begun.row ≡ row)
    × (inspect table row.operation_id ≡ none)
    × ((begin row now table).1 ≡ table ++ (new_entry row now ∷ []))

pub begin-Inserts :
    (row : JournalRecord) (now : ℕ) (table : Table) (begun : JournalBegin)
    → (begin row now table).0 ≡ ok begun
    → begun.inserted ≡ true
    → Inserts row now table begun
begin-Inserts row now table begun h k = elim (Option-cases (inspect table row.operation_id)) [
  | inl absent ↦
      let fresh = begin_absent row now table absent in
      let same : ok (record { row = row; inserted = true }) ≡ ok begun =
        sym (ap (λ r. r.0) fresh) ∙ h in
      (ground arith, absent, ap (λ r. r.1) fresh)
  | inr (e, found) ↦
      let again : answered e.row e.row row ≡ ok begun =
        sym (ap (λ r. r.0) (begin_present row now table e found)) ∙ h in
      ground arith
]
