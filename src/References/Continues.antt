-- ===== src/References/Continues.antt =====
-- A live cursor gives the page that follows (crates/app/src/references.rs).
use eas_mail_mcp.Base.{
  ℕ, zero, suc, ◌+◌, ◌-◌, ◌≤◌, ◌<◌, ◌≡◌, refl, ap, ◌∙◌, sym, subst, true, false, ◌⊎◌, Bool-cases,
  inl, inr, Option, none, some, List, [], ◌∷◌, Bytes, bytes_eq, bytes_eq_refl, arith, length, take,
  drop, ltb, min, ok, ◌>>=◌, le→leb, lt→ltb, ltb→lt, ltb_false→le,
}
use eas_mail_mcp.References.Cursors.{
  Snapshot, Cursor, Timed, Cursors, State, Page, find_cursor, retain_live, prune, add_cursor,
  store_cursor, give_page, next_page, slice, mail_page, lifetime,
}
use eas_mail_mcp.References.Taking.{take_cursor_found, following, next_page_found}

length-drop : {A : Type 0} (n : ℕ) (xs : List A) → length (drop n xs) ≡ length xs - n
length-drop zero xs = omega arith
length-drop (suc n) [] = omega arith
length-drop (suc n) (x ∷ xs) = omega (arith, length-drop n xs)

take_capped : {A : Type 0} (k n : ℕ) (xs : List A) → k ≡ min n (length xs) → take k xs ≡ take n xs
take_capped zero zero xs e = refl
take_capped zero (suc n) [] e = refl
take_capped zero (suc n) (x ∷ xs) e = ground arith
take_capped (suc k) zero xs e = ground arith
take_capped (suc k) (suc n) [] e = refl
take_capped (suc k) (suc n) (x ∷ xs) e = ap (λ ys. x ∷ ys) (take_capped k n xs (omega arith))

slice-take :
    {A : Type 0} (items : List A) (start end : ℕ)
    → start ≤ end
    → end ≤ length items
    → slice items start end ≡ ok (take (end - start) (drop start items))
slice-take items start end h k = rw (le→leb start end h, le→leb end (length items) k) refl

slice_page :
    {A : Type 0} (items : List A) (offset limit : ℕ)
    → offset ≤ length items
    → slice items offset (min (offset + limit) (length items)) ≡ ok (take limit (drop offset items))
slice_page items offset limit h =
    slice-take items offset (min (offset + limit) (length items)) (omega arith) (omega arith)
    ∙ ap (λ xs. ok xs)
        (take_capped (min (offset + limit) (length items) - offset) limit (drop offset items)
          (omega (arith, length-drop offset items)))

pub injective : {A : Type 0} {a b : A} → some a ≡ some b → a ≡ b
injective e = cc

module _ {Item Notes : Type 0} where
  found_first :
      (key : Bytes) (first : Timed Item Notes) (cursors : Cursors Item Notes) (id : Bytes)
      → bytes_eq key id ≡ true
      → find_cursor ((key, first) ∷ cursors) id ≡ some first
  found_first key first cursors id e = rw (e) refl

  kept_first :
      (now : ℕ) (key : Bytes) (first : Timed Item Notes) (cursors : Cursors Item Notes) (id : Bytes)
      (entry : Timed Item Notes)
      → bytes_eq key id ≡ true
      → first ≡ entry
      → ltb now first.expires_at ≡ true
      → find_cursor (retain_live now ((key, first) ∷ cursors)) id ≡ some entry
  kept_first now key first cursors id entry e same live = rw (live, e) (ap (λ x. some x) same)

  find-retain_live :
      (now : ℕ) (cursors : Cursors Item Notes) (id : Bytes) (entry : Timed Item Notes)
      → find_cursor cursors id ≡ some entry
      → now < entry.expires_at
      → find_cursor (retain_live now cursors) id ≡ some entry
  find-retain_live now [] id entry f h = ground (arith, f)
  find-retain_live now ((key, first) ∷ cursors) id entry f h = elim (Bool-cases (bytes_eq key id)) [
    | inl e ↦
        let same = injective (sym (found_first key first cursors id e) ∙ f) in
        kept_first now key first cursors id entry e same
          (lt→ltb now first.expires_at (subst (λ x. now < x.expires_at) (sym same) h))
    | inr e ↦ ground (arith, e, f, find-retain_live now cursors id entry)
  ]

  find-store_cursor :
      (cursor : Cursor Item Notes) (id : Bytes) (now : ℕ) (state : State Item Notes)
      → find_cursor (store_cursor cursor id now state).cursors id
        ≡ some (record { expires_at = now + lifetime; value = cursor })
  unfolding store_cursor add_cursor
  find-store_cursor cursor id now state = rw (bytes_eq_refl id) refl

  -- The page has the next items of the cursor's snapshot, and the store has a cursor for what is
  -- left, if anything is.
  abbrev pub Continues :
      Cursor Item Notes → ℕ → Bytes → ℕ → Page Item Notes → State Item Notes → Type 0
  Continues cursor limit id later page state =
      (mail_page page
        ≡ ok (take limit (drop cursor.offset cursor.snapshot.items), page.next_cursor))
      × (((page.next_cursor ≡ none) × (length cursor.snapshot.items ≤ cursor.offset + limit))
          ⊎ ((page.next_cursor ≡ some id)
              × (cursor.offset + limit < length cursor.snapshot.items)
              × (find_cursor state.cursors id
                  ≡ some (record {
                    expires_at = later + lifetime;
                    value = record { snapshot = cursor.snapshot; offset = cursor.offset + limit };
                  }))))

  mail_page_of :
      (cursor : Cursor Item Notes) (limit : ℕ) (next : Option Bytes)
      → cursor.offset ≤ length cursor.snapshot.items
      → mail_page (record {
        snapshot = cursor.snapshot;
        start = cursor.offset;
        end = min (cursor.offset + limit) (length cursor.snapshot.items);
        next_cursor = next;
      })
        ≡ ok (take limit (drop cursor.offset cursor.snapshot.items), next)
  unfolding mail_page
  mail_page_of cursor limit next h =
      ap (λ r. r >>= λ items. ok (items, next))
        (slice_page cursor.snapshot.items cursor.offset limit h)

  module _ (snapshot : Snapshot Item Notes) (start end : ℕ) (id : Bytes) (now : ℕ)
      (state : State Item Notes) where
    give_page_more :
        ltb end (length snapshot.items) ≡ true
        → give_page snapshot start end id now state ≡ (
          record { snapshot = snapshot; start = start; end = end; next_cursor = some id },
          store_cursor (record { snapshot = snapshot; offset = end }) id now state,
        )
    unfolding give_page
    give_page_more h = rw (h, give_page) refl

    give_page_last :
        ltb end (length snapshot.items) ≡ false
        → give_page snapshot start end id now state
          ≡ (record { snapshot = snapshot; start = start; end = end; next_cursor = none }, state)
    unfolding give_page
    give_page_last h = rw (h, give_page) refl

  following-Continues :
      (cursor : Cursor Item Notes) (limit : ℕ) (id : Bytes) (later : ℕ) (state : State Item Notes)
      → cursor.offset ≤ length cursor.snapshot.items
      → Continues cursor limit id later
          (following cursor limit id later state).0
          (following cursor limit id later state).1
  following-Continues cursor limit id later state h =
      elim (Bool-cases (ltb end (length cursor.snapshot.items))) [
        | inl more ↦
            subst (λ r. Continues cursor limit id later r.0 r.1)
              (sym (give_page_more cursor.snapshot cursor.offset end id later state more))
              (
                mail_page_of cursor limit (some id) h,
                inr (
                  refl,
                  short (ltb→lt end (length cursor.snapshot.items) more),
                  find-store_cursor (record { snapshot = cursor.snapshot; offset = end }) id later
                        state
                      ∙ ap
                          (λ k. some (record {
                            expires_at = later + lifetime;
                            value = record { snapshot = cursor.snapshot; offset = k };
                          }))
                          (whole (ltb→lt end (length cursor.snapshot.items) more)),
                ),
              )
        | inr last ↦
            subst (λ r. Continues cursor limit id later r.0 r.1)
              (sym (give_page_last cursor.snapshot cursor.offset end id later state last))
              (
                mail_page_of cursor limit none h,
                inl (refl, rest (ltb_false→le end (length cursor.snapshot.items) last)),
              )
      ]
    where
      end : ℕ
      end = min (cursor.offset + limit) (length cursor.snapshot.items)

      short :
          end < length cursor.snapshot.items → cursor.offset + limit < length cursor.snapshot.items
      short k = omega arith

      whole : end < length cursor.snapshot.items → end ≡ cursor.offset + limit
      whole k = omega arith

      rest :
          length cursor.snapshot.items ≤ end → length cursor.snapshot.items ≤ cursor.offset + limit
      rest k = omega arith

  live :
      (cid : Bytes) (now : ℕ) (state : State Item Notes) (entry : Timed Item Notes)
      → find_cursor state.cursors cid ≡ some entry
      → now < entry.expires_at
      → find_cursor (prune now state).cursors cid ≡ some entry
  unfolding prune
  live cid now state entry f h = find-retain_live now state.cursors cid entry f h

  pub next_page_within :
      (cid : Bytes) (limit now : ℕ) (id : Bytes) (later : ℕ) (state : State Item Notes)
      (entry : Timed Item Notes)
      → find_cursor state.cursors cid ≡ some entry
      → now < entry.expires_at
      → entry.value.offset ≤ length entry.value.snapshot.items
      → (page : Page Item Notes) × ((next_page cid limit now id later state).0 ≡ ok page)
        × Continues entry.value limit id later page (next_page cid limit now id later state).1
  next_page_within cid limit now id later state entry f h o =
      let taken = take_cursor_found cid now state entry (live cid now state entry f h) in
      let paged = next_page_found cid limit now id later state entry.value (ap (λ r. r.0) taken) in
      (
        _,
        ap (λ r. r.0) paged,
        subst (Continues entry.value limit id later _) (sym (ap (λ r. r.1) paged))
            (following-Continues entry.value limit id later _ o),
      )
