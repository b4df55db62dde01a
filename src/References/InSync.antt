-- ===== src/References/InSync.antt =====
-- The store of cursors keeps its order and its map in step (crates/app/src/references.rs).
use eas_mail_mcp.Base.{
  ℕ, suc, ◌≤◌, ◌+◌, ◌≡◌, refl, sym, subst, true, false, Bool-cases, inl, inr, Option, Option-cases,
  List, [], ◌∷◌, Bytes, bytes_eq, bytes_eq→eq, bytes_eq_refl, arith, length, length-append, leb,
  ltb, min,
}
use eas_mail_mcp.References.Cursors.{
  Snapshot, Cursor, Cursors, State, has_id, find_cursor, contains_id, remove_cursor, retain_live,
  evict, max_snapshots, prune, is_due, maybe_prune, add_cursor, store_cursor, give_page, first_page,
  take_cursor, next_page, purge_account,
}
use eas_mail_mcp.References.Keys.{
  Distinct, has_id-append, Distinct-append, has_id-retain_other, Distinct-retain_other,
  length-retain_other, contains_id-remove, contains_id-retain_live, has_id-retain_known,
  Distinct-retain_known, length-retain_known,
}
use eas_mail_mcp.References.Taking.{
  without, take_cursor_missing, take_cursor_found, next_page_missing, next_page_found,
}

module _ {Item Notes : Type 0} where
  abbrev pub Synced : List Bytes → Cursors Item Notes → Type 0
  Synced order cursors = (id : Bytes) → has_id order id ≡ contains_id cursors id

  -- At most 32 cursors; the order names each of them once, and nothing else.
  abbrev pub WellFormed : State Item Notes → Type 0
  WellFormed state =
      (length state.cursor_order ≤ max_snapshots)
      × Distinct state.cursor_order
      × Synced state.cursor_order state.cursors

  prune-WellFormed :
      (now : ℕ) (state : State Item Notes) → WellFormed state → WellFormed (prune now state)
  unfolding prune
  prune-WellFormed now state (l, d, s) = (
    ground (arith, length-retain_known (retain_live now state.cursors) state.cursor_order),
    Distinct-retain_known (retain_live now state.cursors) state.cursor_order d,
    λ id. ground (
      arith,
      has_id-retain_known (retain_live now state.cursors) state.cursor_order id,
      contains_id-retain_live now state.cursors id,
      s id,
    ),
  )

  prune_fresh :
      (now : ℕ) (state : State Item Notes) (id : Bytes)
      → has_id state.cursor_order id ≡ false
      → has_id (prune now state).cursor_order id ≡ false
  unfolding prune
  prune_fresh now state id h =
      ground (arith, has_id-retain_known (retain_live now state.cursors) state.cursor_order id)

  maybe_prune-WellFormed :
      (now : ℕ) (state : State Item Notes) → WellFormed state → WellFormed (maybe_prune now state)
  unfolding maybe_prune
  maybe_prune-WellFormed now state w = elim (Bool-cases (is_due now state.last_pruned_at)) [
    | inl e ↦ rw (e) (prune-WellFormed now state w)
    | inr e ↦ rw (e) w
  ]

  maybe_prune_fresh :
      (now : ℕ) (state : State Item Notes) (id : Bytes)
      → has_id state.cursor_order id ≡ false
      → has_id (maybe_prune now state).cursor_order id ≡ false
  unfolding maybe_prune
  maybe_prune_fresh now state id h = elim (Bool-cases (is_due now state.last_pruned_at)) [
    | inl e ↦ rw (e) (prune_fresh now state id h)
    | inr e ↦ rw (e) h
  ]

  Synced-drop :
      (oldest : Bytes) (order : List Bytes) (cursors : Cursors Item Notes)
      → Distinct (oldest ∷ order)
      → Synced (oldest ∷ order) cursors
      → Synced order (remove_cursor cursors oldest)
  Synced-drop oldest order cursors (e, d) s id = elim (Bool-cases (bytes_eq oldest id)) [
    | inl same ↦
        subst (λ b. has_id order b ≡ contains_id (remove_cursor cursors oldest) b)
          (bytes_eq→eq oldest id same)
          (ground (arith, contains_id-remove cursors oldest oldest, bytes_eq_refl oldest))
    | inr other ↦ ground (arith, contains_id-remove cursors oldest id, s id, other)
  ]

  Evicted : List Bytes → List Bytes × Cursors Item Notes → Type 0
  Evicted order (kept, cursors) =
      (suc (length kept) ≤ max_snapshots)
      × Distinct kept
      × Synced kept cursors
      × ((id : Bytes) → has_id order id ≡ false → has_id kept id ≡ false)

  evict_full :
      (oldest : Bytes) (order : List Bytes) (cursors : Cursors Item Notes)
      → leb max_snapshots (length (oldest ∷ order)) ≡ true
      → evict (oldest ∷ order) cursors ≡ evict order (remove_cursor cursors oldest)
  unfolding evict
  evict_full oldest order cursors h = rw (h) refl

  evict_room :
      (oldest : Bytes) (order : List Bytes) (cursors : Cursors Item Notes)
      → leb max_snapshots (length (oldest ∷ order)) ≡ false
      → evict (oldest ∷ order) cursors ≡ (oldest ∷ order, cursors)
  unfolding evict
  evict_room oldest order cursors h = rw (h) refl

  evict-Evicted :
      (order : List Bytes) (cursors : Cursors Item Notes)
      → Distinct order
      → Synced order cursors
      → Evicted order (evict order cursors)
  unfolding Evicted
  evict-Evicted [] cursors d s = unfold evict in (omega arith, tt, s, λ id h. h)
  evict-Evicted (oldest ∷ order) cursors (e, d) s =
      elim (Bool-cases (leb max_snapshots (length (oldest ∷ order)))) [
        | inl full ↦
            let (room, distinct, synced, fresh) =
              evict-Evicted order (remove_cursor cursors oldest) d
                (Synced-drop oldest order cursors (e, d) s) in
            subst (Evicted (oldest ∷ order)) (sym (evict_full oldest order cursors full))
              (room, distinct, synced, (λ id h. fresh id (ground arith)))
        | inr room ↦
            subst (Evicted (oldest ∷ order)) (sym (evict_room oldest order cursors room))
              (ground arith, (e, d), s, (λ id h. h))
      ]

  add_cursor-WellFormed :
      (cursor : Cursor Item Notes) (id : Bytes) (now : ℕ) (state : State Item Notes)
      → WellFormed state
      → has_id state.cursor_order id ≡ false
      → WellFormed (add_cursor cursor id now state)
  unfolding add_cursor Evicted
  add_cursor-WellFormed cursor id now state (l, d, s) h =
      let kept = evict state.cursor_order state.cursors in
      let (room, distinct, synced, fresh) = evict-Evicted state.cursor_order state.cursors d s in
      (
        ground (arith, room, length-append kept.0 (id ∷ [])),
        Distinct-append kept.0 id distinct (fresh id h),
        λ other. elim (Bool-cases (bytes_eq id other)) [
          | inl e ↦ ground (arith, e, has_id-append kept.0 id other)
          | inr e ↦ ground (
            arith,
            e,
            has_id-append kept.0 id other,
            contains_id-remove kept.1 id other,
            synced other,
          )
        ],
      )

  store_cursor-WellFormed :
      (cursor : Cursor Item Notes) (id : Bytes) (now : ℕ) (state : State Item Notes)
      → WellFormed state
      → has_id state.cursor_order id ≡ false
      → WellFormed (store_cursor cursor id now state)
  unfolding store_cursor
  store_cursor-WellFormed cursor id now state w h =
      add_cursor-WellFormed cursor id now (maybe_prune now state)
        (maybe_prune-WellFormed now state w) (maybe_prune_fresh now state id h)

  give_page-WellFormed :
      (snapshot : Snapshot Item Notes) (start end : ℕ) (id : Bytes) (now : ℕ)
      (state : State Item Notes)
      → WellFormed state
      → has_id state.cursor_order id ≡ false
      → WellFormed (give_page snapshot start end id now state).1
  unfolding give_page
  give_page-WellFormed snapshot start end id now state w h =
      elim (Bool-cases (ltb end (length snapshot.items))) [
        | inl more ↦ rw (more) (
            store_cursor-WellFormed (record { snapshot = snapshot; offset = end }) id now state w h)
        | inr last ↦ rw (last) w
      ]

  -- What `take_cursor` leaves.
  Taken : List Bytes → Option (Cursor Item Notes) × State Item Notes → Type 0
  Taken order (found, state) =
      WellFormed state
      × ((id : Bytes) → has_id order id ≡ false → has_id state.cursor_order id ≡ false)

  without-WellFormed :
      (cursor_id : Bytes) (state : State Item Notes)
      → WellFormed state
      → WellFormed (without cursor_id state)
  without-WellFormed cursor_id state (l, d, s) = (
    ground (arith, length-retain_other cursor_id state.cursor_order),
    Distinct-retain_other cursor_id state.cursor_order d,
    λ id. ground (
      arith,
      has_id-retain_other cursor_id state.cursor_order id,
      contains_id-remove state.cursors cursor_id id,
      s id,
    ),
  )

  take_cursor-Taken :
      (cursor_id : Bytes) (now : ℕ) (state : State Item Notes)
      → WellFormed state
      → Taken state.cursor_order (take_cursor cursor_id now state)
  unfolding Taken
  take_cursor-Taken cursor_id now state w =
      elim (Option-cases (find_cursor (prune now state).cursors cursor_id)) [
        | inl e ↦
            subst (Taken state.cursor_order) (sym (take_cursor_missing cursor_id now state e))
              (prune-WellFormed now state w, prune_fresh now state)
        | inr (entry, e) ↦
            subst (Taken state.cursor_order) (sym (take_cursor_found cursor_id now state entry e)) (
              without-WellFormed cursor_id (prune now state) (prune-WellFormed now state w),
              λ id h. ground (
                arith,
                prune_fresh now state id h,
                has_id-retain_other cursor_id (prune now state).cursor_order id,
              ),
            )
      ]

  next_page-WellFormed :
      (cursor_id : Bytes) (limit now : ℕ) (id : Bytes) (later : ℕ) (state : State Item Notes)
      → WellFormed state
      → has_id state.cursor_order id ≡ false
      → WellFormed (next_page cursor_id limit now id later state).1
  unfolding Taken
  next_page-WellFormed cursor_id limit now id later state w h =
      let (well, fresh) = take_cursor-Taken cursor_id now state w in
      elim (Option-cases (take_cursor cursor_id now state).0) [
        | inl e ↦
            subst (λ r. WellFormed r.1)
              (sym (next_page_missing cursor_id limit now id later state e)) well
        | inr (cursor, e) ↦
            subst (λ r. WellFormed r.1)
              (sym (next_page_found cursor_id limit now id later state cursor e))
              (give_page-WellFormed cursor.snapshot cursor.offset
                (min (cursor.offset + limit) (length cursor.snapshot.items)) id later
                (take_cursor cursor_id now state).1 well (fresh id h))
      ]

  -- If the identifier that the generator gives is not in the order, then both page functions keep
  -- a well-formed store well-formed, and so does a purge.
  pub pages-WellFormed :
      (snapshot : Snapshot Item Notes) (cursor_id : Bytes) (limit now : ℕ) (id : Bytes) (later : ℕ)
      (state : State Item Notes)
      → WellFormed state
      → has_id state.cursor_order id ≡ false
      → WellFormed (first_page snapshot limit id now state).1
        × WellFormed (next_page cursor_id limit now id later state).1
        × WellFormed (purge_account state)
  unfolding first_page purge_account
  pages-WellFormed snapshot cursor_id limit now id later state w h = (
    give_page-WellFormed snapshot 0 (min (length snapshot.items) limit) id now state w h,
    next_page-WellFormed cursor_id limit now id later state w h,
    (omega arith, tt, (λ other. refl)),
  )
