-- ===== src/References/Tests.antt =====
-- Concrete runs of the cursors, and the theorems at them (crates/app/src/references.rs).
use eas_mail_mcp.Base.{ℕ, ◌≡◌, refl, subst, none, some, [], ◌∷◌, ascii, arith, ok, err}
use eas_mail_mcp.References.Cursors.{
  Snapshot, Timed, State, Page, first_page, next_page, purge_account, give_page, store_cursor,
  add_cursor, maybe_prune, prune, evict, expired, lifetime,
}
use eas_mail_mcp.References.InSync.{WellFormed, pages-WellFormed}
use eas_mail_mcp.References.Paging.{next_page-once}
use eas_mail_mcp.References.Continues.{Continues}
use eas_mail_mcp.References.Reached.{Reached, created, gives, next_page-Continues}

abbrev five : Snapshot ℕ Unit
five = record { items = 1 ∷ 2 ∷ 3 ∷ 4 ∷ 5 ∷ []; notes = tt }

abbrev empty_store : State ℕ Unit
empty_store = record { cursors = []; cursor_order = []; last_pruned_at = none }

abbrev second_page_at : Timed ℕ Unit
second_page_at = record { expires_at = lifetime; value = record { snapshot = five; offset = 2 } }

abbrev one_cursor : State ℕ Unit
one_cursor = record {
  cursors = (ascii "a", second_page_at) ∷ [];
  cursor_order = ascii "a" ∷ [];
  last_pruned_at = some 0;
}

first_of_five :
    first_page five 2 (ascii "a") 0 empty_store
    ≡ (record { snapshot = five; start = 0; end = 2; next_cursor = some (ascii "a") }, one_cursor)
unfolding first_page give_page store_cursor add_cursor maybe_prune prune evict
first_of_five = refl

pages-WellFormed_example :
    WellFormed (first_page five 2 (ascii "b") 1 one_cursor).1
    × WellFormed (next_page (ascii "a") 2 1 (ascii "b") 2 one_cursor).1
    × WellFormed (purge_account one_cursor)
pages-WellFormed_example =
    pages-WellFormed five (ascii "a") 2 1 (ascii "b") 2 one_cursor
      (omega arith, (refl, tt), λ id. refl) refl

next_page-once_example :
    (next_page
      (ascii "a")
      2
      3
      (ascii "c")
      4
      (next_page (ascii "a") 2 1 (ascii "b") 2 one_cursor).1).0
    ≡ err expired
next_page-once_example =
    next_page-once (ascii "a") 2 1 (ascii "b") 2 one_cursor 2 3 (ascii "c") 4 refl

one_given : (give_page five 0 2 (ascii "a") 0 empty_store).1 ≡ one_cursor
unfolding give_page store_cursor add_cursor maybe_prune prune evict
one_given = refl

one_cursor-Reached : Reached one_cursor
one_cursor-Reached = subst Reached one_given (gives five 0 2 (ascii "a") 0 created)

next_page-Continues_example :
    (page : Page ℕ Unit) × ((next_page (ascii "a") 2 1 (ascii "b") 2 one_cursor).0 ≡ ok page)
    × Continues second_page_at.value 2
        (ascii "b")
        2
        page
        (next_page (ascii "a") 2 1 (ascii "b") 2 one_cursor).1
next_page-Continues_example =
    next_page-Continues (ascii "a") 2 1 (ascii "b") 2 one_cursor second_page_at one_cursor-Reached
      refl (omega arith)
