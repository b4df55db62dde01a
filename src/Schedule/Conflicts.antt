-- ===== src/Schedule/Conflicts.antt =====
-- Merging intervals with a status fails on a contradiction alone
-- (crates/app/src/runtime/schedule.rs).
use eas_mail_mcp.Base.{
  ◌≤◌, ◌<◌, ◌≡◌, refl, ◌∙◌, sym, true, false, Bool-cases, inl, inr, List, [], ◌∷◌, arith, ok, All,
}
use eas_mail_mcp.Schedule.Interval.{insert_by_key, sort_by_key}
use eas_mail_mcp.Schedule.Availability.{
  StatusInterval, conflicts, joins, extend, merge_status_onto, merge_status_sorted, by_range_start,
  merge_status_intervals,
}
use eas_mail_mcp.Schedule.Statuses.{
  state_eq_refl, status_at-sort, SortedStatuses, SortedStatuses-sort, SortedStatuses-weaken,
  says-extend, merge_status_onto-join, merge_status_onto-push, Exclusive,
}

abbrev pub Proper : StatusInterval → Type 0
Proper v = v.range.start < v.range.end

Proper-insert :
    (v : StatusInterval) (vs : List StatusInterval)
    → Proper v
    → All Proper vs
    → All Proper (insert_by_key by_range_start v vs)
Proper-insert v [] p ps = (p, tt)
Proper-insert v (w ∷ vs) p (q, ps) = ground (arith, Proper-insert v vs)

Proper-sort :
    (vs : List StatusInterval) → All Proper vs → All Proper (sort_by_key by_range_start vs)
Proper-sort [] p = tt
Proper-sort (v ∷ vs) (p, ps) = Proper-insert v (sort_by_key by_range_start vs) p (Proper-sort vs ps)

-- A conflict is an instant with two statuses.
no_conflict :
    (v last : StatusInterval) (vs : List StatusInterval)
    → Proper v
    → last.range.start ≤ v.range.start
    → Exclusive (last ∷ v ∷ vs)
    → conflicts v last ≡ false
no_conflict v last vs p h x =
    ground (
      arith,
      x v.range.start last.status v.status,
      state_eq_refl v.status,
      state_eq_refl last.status,
    )

Exclusive-tail : (v : StatusInterval) (vs : List StatusInterval) → Exclusive (v ∷ vs) → Exclusive vs
Exclusive-tail v vs x t s u hs hu = x t s u (ground arith) (ground arith)

Exclusive-extend :
    (last v : StatusInterval) (vs : List StatusInterval)
    → last.range.start ≤ v.range.start
    → joins v last ≡ true
    → Exclusive (last ∷ v ∷ vs)
    → Exclusive (extend last v ∷ vs)
Exclusive-extend last v vs h j x t s u hs hu =
    x t s u (ground (arith, says-extend last v s t h j))
      (ground (arith, says-extend last v u t h j))

merge_status_onto-total :
    (last : StatusInterval) (vs : List StatusInterval)
    → SortedStatuses last.range.start vs
    → All Proper vs
    → Exclusive (last ∷ vs)
    → (out : List StatusInterval) × (merge_status_onto last vs ≡ ok out)
merge_status_onto-total last [] s ps x = unfold merge_status_onto in (last ∷ [], refl)
merge_status_onto-total last (v ∷ vs) (h, s) (p, ps) x = elim (Bool-cases (joins v last)) [
  | inl j ↦
      let (out, e) =
        merge_status_onto-total (extend last v) vs
          (SortedStatuses-weaken last.range.start v.range.start vs h s) ps
          (Exclusive-extend last v vs h j x) in
      (out, merge_status_onto-join last v vs (no_conflict v last vs p h x) j ∙ e)
  | inr j ↦
      let (out, e) = merge_status_onto-total v vs s ps (Exclusive-tail last (v ∷ vs) x) in
      (last ∷ out, merge_status_onto-push last v vs (no_conflict v last vs p h x) j ∙ rw (e) refl)
]

merge_status_sorted-total :
    (vs : List StatusInterval)
    → SortedStatuses 0 vs
    → All Proper vs
    → Exclusive vs
    → (out : List StatusInterval) × (merge_status_sorted vs ≡ ok out)
unfolding merge_status_sorted
merge_status_sorted-total [] s ps x = ([], refl)
merge_status_sorted-total (v ∷ vs) (h, s) (p, ps) x = merge_status_onto-total v vs s ps x

-- Intervals that are not empty and give no instant two statuses are merged without an error.
pub merge_status_intervals_total :
    (vs : List StatusInterval)
    → All Proper vs
    → Exclusive vs
    → (out : List StatusInterval) × (merge_status_intervals vs ≡ ok out)
unfolding merge_status_intervals
merge_status_intervals_total vs ps x =
    merge_status_sorted-total (sort_by_key by_range_start vs) (SortedStatuses-sort vs)
      (Proper-sort vs ps)
      (λ t s u hs hu. x t s u (sym (status_at-sort vs s t) ∙ hs) (sym (status_at-sort vs u t) ∙ hu))
