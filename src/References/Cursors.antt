-- ===== src/References/Cursors.antt =====
-- The store of pagination cursors (crates/app/src/references.rs). The clock's and the generator's
-- answers are arguments, in the order in which the code asks for them; `Item` stands for
-- `MailSummary` and `Notes` for the coverage and the warnings of a snapshot. The store's mutex is
-- the order of the calls, and a poisoned one is not modelled.
use eas_mail_mcp.Base.{
  ℕ, ◌+◌, ◌-◌, ◌*◌, ◌/◌, Bool, true, false, ◌&&◌, ◌||◌, Option, none, some, List, [], ◌∷◌, ◌++◌,
  Bytes, bytes_eq, min, max, ltb, leb, if◌then◌else◌, length, take, drop, ok, err, ◌>>=◌,
}
use eas_mail_mcp.AppError
use eas_mail_mcp.AppError.{AppError, ErrorCode}
use eas_mail_mcp.Schedule.Interval.{minute}

abbrev pub lifetime : ℕ
lifetime = 15 * minute

abbrev pub prune_interval_seconds : ℕ
prune_interval_seconds = 60

abbrev pub max_snapshots : ℕ
max_snapshots = 32

abbrev pub expired : AppError
expired =
    AppError.new ErrorCode.reference_expired
      "the process-local pagination cursor expired or was already consumed; run the list or search tool again"

-- `VecDeque::contains`, and a map by its keys.
abbrev pub has_id : List Bytes → Bytes → Bool
has_id [] id = false
has_id (x ∷ xs) id = bytes_eq x id || has_id xs id

-- `cursor_order.retain(|value| value != cursor_id)`
abbrev pub retain_other : Bytes → List Bytes → List Bytes
retain_other id [] = []
retain_other id (x ∷ xs) = let rest = retain_other id xs in if bytes_eq x id then rest else x ∷ rest

-- `num_seconds().unsigned_abs()` of the time between two instants.
abbrev pub seconds_apart : ℕ → ℕ → ℕ
seconds_apart now last = (max now last - min now last) / 1_000_000_000

abbrev pub is_due : ℕ → Option ℕ → Bool
is_due now none = true
is_due now (some last) = leb prune_interval_seconds (seconds_apart now last)

-- `slice`
abbrev pub slice : {Item : Type 0} → List Item → ℕ → ℕ → AppError.Result (List Item)
slice items start end =
    if leb start end && leb end (length items)
    then ok (take (end - start) (drop start items))
    else err expired

module _ (Item Notes : Type 0) where
  pub record Snapshot : Type 0 where
    pub items : List Item
    pub notes : Notes

  pub record Cursor : Type 0 where
    pub snapshot : Snapshot
    pub offset : ℕ

  pub record Timed : Type 0 where
    pub expires_at : ℕ
    pub value : Cursor

  -- `BTreeMap<String, Timed<Cursor>>`
  abbrev pub Cursors : Type 0
  Cursors = List (Bytes × Timed)

  pub record State : Type 0 where
    pub cursors : Cursors
    pub cursor_order : List Bytes
    pub last_pruned_at : Option ℕ

  pub record Page : Type 0 where
    pub snapshot : Snapshot
    pub start : ℕ
    pub end : ℕ
    pub next_cursor : Option Bytes

module _ {Item Notes : Type 0} where
  abbrev pub find_cursor : Cursors Item Notes → Bytes → Option (Timed Item Notes)
  find_cursor [] id = none
  find_cursor ((key, entry) ∷ cursors) id =
      if bytes_eq key id then some entry else find_cursor cursors id

  abbrev pub contains_id : Cursors Item Notes → Bytes → Bool
  contains_id [] id = false
  contains_id ((key, entry) ∷ cursors) id = bytes_eq key id || contains_id cursors id

  abbrev pub remove_cursor : Cursors Item Notes → Bytes → Cursors Item Notes
  remove_cursor [] id = []
  remove_cursor ((key, entry) ∷ cursors) id =
      let rest = remove_cursor cursors id in if bytes_eq key id then rest else (key, entry) ∷ rest

  -- `cursors.retain(|_, value| value.expires_at > now)`
  abbrev pub retain_live : ℕ → Cursors Item Notes → Cursors Item Notes
  retain_live now [] = []
  retain_live now ((key, entry) ∷ cursors) =
      let rest = retain_live now cursors in
      if ltb now entry.expires_at then (key, entry) ∷ rest else rest

  -- `cursor_order.retain(|id| state.cursors.contains_key(id))`
  abbrev pub retain_known : Cursors Item Notes → List Bytes → List Bytes
  retain_known cursors [] = []
  retain_known cursors (id ∷ ids) =
      let rest = retain_known cursors ids in if contains_id cursors id then id ∷ rest else rest

  unfoldable pub prune : ℕ → State Item Notes → State Item Notes
  prune now state =
      let live = retain_live now state.cursors in
      record {
        cursors = live;
        cursor_order = retain_known live state.cursor_order;
        last_pruned_at = some now;
      }

  unfoldable pub maybe_prune : ℕ → State Item Notes → State Item Notes
  maybe_prune now state = if is_due now state.last_pruned_at then prune now state else state

  -- The loop of `store_cursor`.
  unfoldable pub evict : List Bytes → Cursors Item Notes → List Bytes × Cursors Item Notes
  evict [] cursors = ([], cursors)
  evict (oldest ∷ order) cursors =
      let rest = evict order (remove_cursor cursors oldest) in
      if leb max_snapshots (length (oldest ∷ order)) then rest else (oldest ∷ order, cursors)

  unfoldable pub add_cursor : Cursor Item Notes → Bytes → ℕ → State Item Notes → State Item Notes
  add_cursor cursor id now state =
      let kept = evict state.cursor_order state.cursors in
      record state {
        cursors =
            (id, record { expires_at = now + lifetime; value = cursor }) ∷ remove_cursor kept.1 id;
        cursor_order = kept.0 ++ (id ∷ []);
      }

  -- `store_cursor`, its identifier being `cursor_` and what the generator gave.
  unfoldable pub store_cursor : Cursor Item Notes → Bytes → ℕ → State Item Notes → State Item Notes
  store_cursor cursor id now state = add_cursor cursor id now (maybe_prune now state)

  -- The end of both page functions: a page from `start`, and the cursor for what is left.
  unfoldable pub give_page :
      Snapshot Item Notes
      → ℕ
      → ℕ
      → Bytes
      → ℕ
      → State Item Notes
      → Page Item Notes × State Item Notes
  give_page snapshot start end id now state =
      if ltb end (length snapshot.items)
      then (
        record { snapshot = snapshot; start = start; end = end; next_cursor = some id },
        store_cursor (record { snapshot = snapshot; offset = end }) id now state,
      )
      else (record { snapshot = snapshot; start = start; end = end; next_cursor = none }, state)

  unfoldable pub first_page :
      Snapshot Item Notes → ℕ → Bytes → ℕ → State Item Notes → Page Item Notes × State Item Notes
  first_page snapshot limit id now state =
      give_page snapshot 0 (min (length snapshot.items) limit) id now state

  -- The cursor taken out of the store, which `next_page` does with one lock.
  unfoldable pub take_cursor :
      Bytes → ℕ → State Item Notes → Option (Cursor Item Notes) × State Item Notes
  take_cursor cursor_id now state =
      let pruned = prune now state in
      elim (find_cursor pruned.cursors cursor_id) [
        | none ↦ (none, pruned)
        | some entry ↦ (
          some entry.value,
          record pruned {
            cursors = remove_cursor pruned.cursors cursor_id;
            cursor_order = retain_other cursor_id pruned.cursor_order;
          },
        )
      ]

  unfoldable pub next_page :
      Bytes
      → ℕ
      → ℕ
      → Bytes
      → ℕ
      → State Item Notes
      → AppError.Result (Page Item Notes) × State Item Notes
  next_page cursor_id limit now id later state =
      let taken = take_cursor cursor_id now state in
      elim taken.0 [
        | none ↦ (err expired, taken.1)
        | some cursor ↦
            let page =
              give_page cursor.snapshot cursor.offset
                (min (cursor.offset + limit) (length cursor.snapshot.items)) id later taken.1 in
            (ok page.0, page.1)
      ]

  unfoldable pub mail_page : Page Item Notes → AppError.Result (List Item × Option Bytes)
  mail_page page =
      slice page.snapshot.items page.start page.end >>= λ items. ok (items, page.next_cursor)

  unfoldable pub purge_account : State Item Notes → State Item Notes
  purge_account state = record state { cursors = []; cursor_order = [] }
