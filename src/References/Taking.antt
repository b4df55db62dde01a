-- ===== src/References/Taking.antt =====
-- The branches of `next_page` (crates/app/src/references.rs).
use eas_mail_mcp.Base.{ℕ, ◌+◌, ◌≡◌, refl, none, some, Bytes, min, length, ok, err}
use eas_mail_mcp.References.Cursors.{
  Cursor, Timed, State, Page, find_cursor, remove_cursor, retain_other, prune, expired, give_page,
  take_cursor, next_page,
}

module _ {Item Notes : Type 0} where
  -- The store without one cursor.
  abbrev pub without : Bytes → State Item Notes → State Item Notes
  without cursor_id state = record state {
    cursors = remove_cursor state.cursors cursor_id;
    cursor_order = retain_other cursor_id state.cursor_order;
  }

  pub take_cursor_missing :
      (cursor_id : Bytes) (now : ℕ) (state : State Item Notes)
      → find_cursor (prune now state).cursors cursor_id ≡ none
      → take_cursor cursor_id now state ≡ (none, prune now state)
  unfolding take_cursor
  take_cursor_missing cursor_id now state e = rw (e, take_cursor) refl

  pub take_cursor_found :
      (cursor_id : Bytes) (now : ℕ) (state : State Item Notes) (entry : Timed Item Notes)
      → find_cursor (prune now state).cursors cursor_id ≡ some entry
      → take_cursor cursor_id now state ≡ (some entry.value, without cursor_id (prune now state))
  unfolding take_cursor
  take_cursor_found cursor_id now state entry e = rw (e, take_cursor) refl

  -- The page that follows a cursor.
  abbrev pub following :
      Cursor Item Notes → ℕ → Bytes → ℕ → State Item Notes → Page Item Notes × State Item Notes
  following cursor limit id later state =
      give_page cursor.snapshot cursor.offset
        (min (cursor.offset + limit) (length cursor.snapshot.items)) id later state

  pub next_page_missing :
      (cursor_id : Bytes) (limit now : ℕ) (id : Bytes) (later : ℕ) (state : State Item Notes)
      → (take_cursor cursor_id now state).0 ≡ none
      → next_page cursor_id limit now id later state
        ≡ (err expired, (take_cursor cursor_id now state).1)
  unfolding next_page
  next_page_missing cursor_id limit now id later state e = rw (e, next_page) refl

  pub next_page_found :
      (cursor_id : Bytes) (limit now : ℕ) (id : Bytes) (later : ℕ) (state : State Item Notes)
      (cursor : Cursor Item Notes)
      → (take_cursor cursor_id now state).0 ≡ some cursor
      → next_page cursor_id limit now id later state ≡ (
        ok (following cursor limit id later (take_cursor cursor_id now state).1).0,
        (following cursor limit id later (take_cursor cursor_id now state).1).1,
      )
  unfolding next_page
  next_page_found cursor_id limit now id later state cursor e = rw (e, next_page) refl
