-- ===== src/References/Paging.antt =====
-- A cursor gives the page that follows, once (crates/app/src/references.rs).
use eas_mail_mcp.Base.{
  ℕ, ◌≡◌, refl, ap, sym, subst, false, Bool-cases, inl, inr, none, Option-cases, List, [], ◌∷◌,
  Bytes, bytes_eq, bytes_eq_refl, arith, length, ltb, err,
}
use eas_mail_mcp.References.Cursors.{
  Snapshot, Cursor, Cursors, State, find_cursor, contains_id, remove_cursor, evict, prune, is_due,
  maybe_prune, add_cursor, store_cursor, give_page, next_page, expired,
}
use eas_mail_mcp.References.Keys.{contains_id-remove, contains_id-retain_live}
use eas_mail_mcp.References.Taking.{
  take_cursor_missing, take_cursor_found, next_page_missing, next_page_found,
}

module _ {Item Notes : Type 0} where
  find_cursor_absent :
      (cursors : Cursors Item Notes) (id : Bytes)
      → contains_id cursors id ≡ false
      → find_cursor cursors id ≡ none
  find_cursor_absent [] id h = refl
  find_cursor_absent ((key, entry) ∷ cursors) id h = ground (arith, find_cursor_absent cursors id)

  contains_id_absent :
      (cursors : Cursors Item Notes) (id : Bytes)
      → find_cursor cursors id ≡ none
      → contains_id cursors id ≡ false
  contains_id_absent [] id h = refl
  contains_id_absent ((key, entry) ∷ cursors) id h = ground (arith, contains_id_absent cursors id)

  -- The store has no cursor of that name.
  abbrev Gone : Bytes → State Item Notes → Type 0
  Gone cid state = contains_id state.cursors cid ≡ false

  Gone-prune :
      (cid : Bytes) (now : ℕ) (state : State Item Notes)
      → Gone cid state
      → Gone cid (prune now state)
  unfolding prune
  Gone-prune cid now state h = ground (arith, contains_id-retain_live now state.cursors cid)

  Gone-maybe_prune :
      (cid : Bytes) (now : ℕ) (state : State Item Notes)
      → Gone cid state
      → Gone cid (maybe_prune now state)
  unfolding maybe_prune
  Gone-maybe_prune cid now state h = elim (Bool-cases (is_due now state.last_pruned_at)) [
    | inl e ↦ rw (e) (Gone-prune cid now state h)
    | inr e ↦ rw (e) h
  ]

  Gone-evict :
      (cid : Bytes) (order : List Bytes) (cursors : Cursors Item Notes)
      → contains_id cursors cid ≡ false
      → contains_id (evict order cursors).1 cid ≡ false
  unfolding evict
  Gone-evict cid [] cursors h = h
  Gone-evict cid (oldest ∷ order) cursors h = ground (
    arith,
    Gone-evict cid order (remove_cursor cursors oldest),
    contains_id-remove cursors oldest cid,
  )

  Gone-store_cursor :
      (cid : Bytes) (cursor : Cursor Item Notes) (id : Bytes) (now : ℕ) (state : State Item Notes)
      → bytes_eq id cid ≡ false
      → Gone cid state
      → Gone cid (store_cursor cursor id now state)
  unfolding store_cursor add_cursor
  Gone-store_cursor cid cursor id now state d h = ground (
    arith,
    d,
    contains_id-remove
        (evict (maybe_prune now state).cursor_order (maybe_prune now state).cursors).1 id cid,
    Gone-evict cid (maybe_prune now state).cursor_order (maybe_prune now state).cursors,
    Gone-maybe_prune cid now state h,
  )

  Gone-give_page :
      (cid : Bytes) (snapshot : Snapshot Item Notes) (start end : ℕ) (id : Bytes) (now : ℕ)
      (state : State Item Notes)
      → bytes_eq id cid ≡ false
      → Gone cid state
      → Gone cid (give_page snapshot start end id now state).1
  unfolding give_page
  Gone-give_page cid snapshot start end id now state d h =
      elim (Bool-cases (ltb end (length snapshot.items))) [
        | inl more ↦
            rw (more) (
              Gone-store_cursor cid (record { snapshot = snapshot; offset = end }) id now state d h)
        | inr last ↦ rw (last) h
      ]

  Gone-next_page :
      (cid : Bytes) (limit now : ℕ) (id : Bytes) (later : ℕ) (state : State Item Notes)
      → bytes_eq id cid ≡ false
      → Gone cid (next_page cid limit now id later state).1
  Gone-next_page cid limit now id later state d =
      elim (Option-cases (find_cursor (prune now state).cursors cid)) [
        | inl e ↦
            let taken = take_cursor_missing cid now state e in
            subst (λ r. Gone cid r.1)
              (sym (next_page_missing cid limit now id later state (ap (λ r. r.0) taken)))
              (subst (λ r. Gone cid r.1) (sym taken)
                (contains_id_absent (prune now state).cursors cid e))
        | inr (entry, e) ↦
            let taken = take_cursor_found cid now state entry e in
            subst (λ r. Gone cid r.1)
              (sym (next_page_found cid limit now id later state entry.value (ap (λ r. r.0) taken)))
              (Gone-give_page cid entry.value.snapshot entry.value.offset _ id later _ d
                (subst (λ r. Gone cid r.1) (sym taken) (removed (prune now state).cursors)))
      ]
    where
      removed : (cursors : Cursors Item Notes) → contains_id (remove_cursor cursors cid) cid ≡ false
      removed cursors = ground (arith, contains_id-remove cursors cid cid, bytes_eq_refl cid)

  next_page-Gone :
      (cid : Bytes) (limit now : ℕ) (id : Bytes) (later : ℕ) (state : State Item Notes)
      → Gone cid state
      → (next_page cid limit now id later state).0 ≡ err expired
  next_page-Gone cid limit now id later state h =
      ap (λ r. r.0)
        (next_page_missing cid limit now id later state (
          ap (λ r. r.0)
            (take_cursor_missing cid now state
              (find_cursor_absent (prune now state).cursors cid (Gone-prune cid now state h)))))

  -- A second call with the cursor of a first, be that a page or a failure, answers that the cursor
  -- expired, if the identifier that the generator gave in the first is another one.
  pub next_page-once :
      (cid : Bytes) (limit now : ℕ) (id : Bytes) (later : ℕ) (state : State Item Notes)
      (limit' now' : ℕ) (id' : Bytes) (later' : ℕ)
      → bytes_eq id cid ≡ false
      → (next_page cid limit' now' id' later' (next_page cid limit now id later state).1).0
        ≡ err expired
  next_page-once cid limit now id later state limit' now' id' later' d =
      next_page-Gone cid limit' now' id' later' (next_page cid limit now id later state).1
        (Gone-next_page cid limit now id later state d)
