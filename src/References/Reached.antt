-- ===== src/References/Reached.antt =====
-- The states that the store of cursors gets into, and what a live cursor gives in them
-- (crates/app/src/references.rs).
use eas_mail_mcp.Base.{
  ℕ, ◌≤◌, ◌<◌, ◌≡◌, refl, ◌∙◌, sym, true, false, subst, Bool-cases, Option-cases, inl, inr, none,
  some, List, [], ◌∷◌, Bytes, bytes_eq, arith, length, All, leb, ltb, ltb→lt, ok,
}
use eas_mail_mcp.References.Cursors.{
  Snapshot, Cursor, Timed, Cursors, State, Page, find_cursor, remove_cursor, retain_live, evict,
  max_snapshots, prune, is_due, maybe_prune, add_cursor, store_cursor, give_page, take_cursor,
  next_page, purge_account,
}
use eas_mail_mcp.References.Taking.{take_cursor_missing, take_cursor_found}
use eas_mail_mcp.References.Continues.{injective, Continues, next_page_within}

module _ {Item Notes : Type 0} where
  -- What the functions of the store do under one lock each, in any order: `first_page` gives a
  -- page, `next_page` takes a cursor and then gives a page, and between the two others may act.
  pub data Reached : State Item Notes → Type 0 where
    created : Reached (record { cursors = []; cursor_order = []; last_pruned_at = none })
    gives :
        {state : State Item Notes} (snapshot : Snapshot Item Notes) (start end : ℕ) (id : Bytes)
        (now : ℕ)
        → Reached state
        → Reached (give_page snapshot start end id now state).1
    takes :
        {state : State Item Notes} (cursor_id : Bytes) (now : ℕ)
        → Reached state
        → Reached (take_cursor cursor_id now state).1
    purges : {state : State Item Notes} → Reached state → Reached (purge_account state)

  Inside : Timed Item Notes → Type 0
  Inside entry = entry.value.offset ≤ length entry.value.snapshot.items

  abbrev AllInside : Cursors Item Notes → Type 0
  AllInside = All (λ pair. Inside pair.1)

  find_cursor-Inside :
      (cursors : Cursors Item Notes) (id : Bytes) (entry : Timed Item Notes)
      → AllInside cursors
      → find_cursor cursors id ≡ some entry
      → Inside entry
  find_cursor-Inside [] id entry all found = ground (arith, found)
  find_cursor-Inside ((key, first) ∷ cursors) id entry (here, rest) found =
      elim (Bool-cases (bytes_eq key id)) [
        | inl same ↦ subst Inside (injective (sym (found_here same) ∙ found)) here
        | inr other ↦ find_cursor-Inside cursors id entry rest (sym (found_later other) ∙ found)
      ]
    where
      found_here : bytes_eq key id ≡ true → find_cursor ((key, first) ∷ cursors) id ≡ some first
      found_here same = rw same refl

      found_later :
          bytes_eq key id ≡ false → find_cursor ((key, first) ∷ cursors) id ≡ find_cursor cursors id
      found_later other = rw other refl

  remove_cursor-AllInside :
      (cursors : Cursors Item Notes) (id : Bytes)
      → AllInside cursors
      → AllInside (remove_cursor cursors id)
  remove_cursor-AllInside [] id all = tt
  remove_cursor-AllInside ((key, first) ∷ cursors) id (here, rest) =
      elim (Bool-cases (bytes_eq key id)) [
        | inl same ↦ rw same (remove_cursor-AllInside cursors id rest)
        | inr other ↦ rw other (here, remove_cursor-AllInside cursors id rest)
      ]

  retain_live-AllInside :
      (now : ℕ) (cursors : Cursors Item Notes)
      → AllInside cursors
      → AllInside (retain_live now cursors)
  retain_live-AllInside now [] all = tt
  retain_live-AllInside now ((key, first) ∷ cursors) (here, rest) =
      elim (Bool-cases (ltb now first.expires_at)) [
        | inl live ↦ rw live (here, retain_live-AllInside now cursors rest)
        | inr dead ↦ rw dead (retain_live-AllInside now cursors rest)
      ]

  evict-AllInside :
      (order : List Bytes) (cursors : Cursors Item Notes)
      → AllInside cursors
      → AllInside (evict order cursors).1
  unfolding evict
  evict-AllInside [] cursors all = all
  evict-AllInside (oldest ∷ order) cursors all =
      elim (Bool-cases (leb max_snapshots (length (oldest ∷ order)))) [
        | inl full ↦ rw full (
            evict-AllInside order (remove_cursor cursors oldest)
              (remove_cursor-AllInside cursors oldest all))
        | inr room ↦ rw room all
      ]

  maybe_prune-AllInside :
      (now : ℕ) (state : State Item Notes)
      → AllInside state.cursors
      → AllInside (maybe_prune now state).cursors
  unfolding maybe_prune prune
  maybe_prune-AllInside now state all = elim (Bool-cases (is_due now state.last_pruned_at)) [
    | inl due ↦ rw due (retain_live-AllInside now state.cursors all)
    | inr early ↦ rw early all
  ]

  store_cursor-AllInside :
      (cursor : Cursor Item Notes) (id : Bytes) (now : ℕ) (state : State Item Notes)
      → cursor.offset ≤ length cursor.snapshot.items
      → AllInside state.cursors
      → AllInside (store_cursor cursor id now state).cursors
  unfolding store_cursor add_cursor Inside
  store_cursor-AllInside cursor id now state new all =
      let pruned = maybe_prune now state in
      (
        new,
        remove_cursor-AllInside (evict pruned.cursor_order pruned.cursors).1 id (
            evict-AllInside pruned.cursor_order pruned.cursors
              (maybe_prune-AllInside now state all)),
      )

  give_page-AllInside :
      (snapshot : Snapshot Item Notes) (start end : ℕ) (id : Bytes) (now : ℕ)
      (state : State Item Notes)
      → AllInside state.cursors
      → AllInside (give_page snapshot start end id now state).1.cursors
  unfolding give_page
  give_page-AllInside snapshot start end id now state all =
      elim (Bool-cases (ltb end (length snapshot.items))) [
        | inl more ↦
            let inside : end ≤ length snapshot.items =
              omega (arith, ltb→lt end (length snapshot.items) more) in
            rw more (
              store_cursor-AllInside (record { snapshot = snapshot; offset = end }) id now state
                inside all)
        | inr last ↦ rw last all
      ]

  take_cursor-AllInside :
      (cursor_id : Bytes) (now : ℕ) (state : State Item Notes)
      → AllInside state.cursors
      → AllInside (take_cursor cursor_id now state).1.cursors
  unfolding prune
  take_cursor-AllInside cursor_id now state all =
      let live = retain_live-AllInside now state.cursors all in
      elim (Option-cases (find_cursor (prune now state).cursors cursor_id)) [
        | inl gone ↦
            subst (λ r. AllInside r.1.cursors) (sym (take_cursor_missing cursor_id now state gone))
              live
        | inr (entry, found) ↦
            subst (λ r. AllInside r.1.cursors)
              (sym (take_cursor_found cursor_id now state entry found))
              (remove_cursor-AllInside (retain_live now state.cursors) cursor_id live)
      ]

  Reached-AllInside : {state : State Item Notes} → Reached state → AllInside state.cursors
  unfolding purge_account
  Reached-AllInside created = tt
  Reached-AllInside (gives snapshot start end id now before) =
      give_page-AllInside snapshot start end id now _ (Reached-AllInside before)
  Reached-AllInside (takes cursor_id now before) =
      take_cursor-AllInside cursor_id now _ (Reached-AllInside before)
  Reached-AllInside (purges before) = tt

  -- In every state that the store gets into, a cursor that is in it and has not expired gives a
  -- page: the next `limit` items of its snapshot, and, exactly if more are left, a cursor that is
  -- then in the store with the snapshot, the next offset and a new time of expiry.
  pub next_page-Continues :
      (cid : Bytes) (limit now : ℕ) (id : Bytes) (later : ℕ) (state : State Item Notes)
      (entry : Timed Item Notes)
      → Reached state
      → find_cursor state.cursors cid ≡ some entry
      → now < entry.expires_at
      → (page : Page Item Notes) × ((next_page cid limit now id later state).0 ≡ ok page)
        × Continues entry.value limit id later page (next_page cid limit now id later state).1
  unfolding Inside
  next_page-Continues cid limit now id later state entry reached found live =
      next_page_within cid limit now id later state entry found live
        (find_cursor-Inside state.cursors cid entry (Reached-AllInside reached) found)
