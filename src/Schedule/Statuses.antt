-- ===== src/Schedule/Statuses.antt =====
-- Merging intervals with a status keeps what is known of every instant, and fails exactly on a
-- contradiction (crates/app/src/runtime/schedule.rs).
use eas_mail_mcp.Base.{
  ℕ, ◌≤◌, ◌≡◌, refl, ◌∙◌, sym, Bool, true, false, ◌&&◌, ◌||◌, Bool-cases, inl, inr, List, [], ◌∷◌,
  ◌>>=◌, max, arith, ok, err, >>=-eq-ok,
}
use eas_mail_mcp.AppError
use eas_mail_mcp.Schedule.Interval.{contains, insert_by_key, sort_by_key}
use eas_mail_mcp.Schedule.Availability.{
  FreeBusyState, state_eq, StatusInterval, conflicts, joins, extend, merge_status_onto,
  merge_status_sorted, by_range_start, merge_status_intervals, overlapping_statuses,
}

pub state_eq_refl : (s : FreeBusyState) → state_eq s s ≡ true
state_eq_refl FreeBusyState.free = refl
state_eq_refl FreeBusyState.tentative = refl
state_eq_refl FreeBusyState.busy = refl
state_eq_refl FreeBusyState.out_of_office = refl
state_eq_refl FreeBusyState.no_data = refl

pub state_eq→eq : (s u : FreeBusyState) → state_eq s u ≡ true → s ≡ u
state_eq→eq FreeBusyState.free u h = ground arith
state_eq→eq FreeBusyState.tentative u h = ground arith
state_eq→eq FreeBusyState.busy u h = ground arith
state_eq→eq FreeBusyState.out_of_office u h = ground arith
state_eq→eq FreeBusyState.no_data u h = ground arith

-- The interval says that the instant has the status.
abbrev pub says : StatusInterval → FreeBusyState → ℕ → Bool
says v s t = state_eq v.status s && contains v.range t

-- Some interval says so.
abbrev pub status_at : List StatusInterval → FreeBusyState → ℕ → Bool
status_at [] s t = false
status_at (v ∷ vs) s t = says v s t || status_at vs s t

abbrev pub SortedStatuses : ℕ → List StatusInterval → Type 0
SortedStatuses low [] = Unit
SortedStatuses low (v ∷ vs) = (low ≤ v.range.start) × SortedStatuses v.range.start vs

-- Each interval starts no earlier than the one before it starts and ends.
abbrev pub Consecutive : ℕ → List StatusInterval → Type 0
Consecutive low [] = Unit
Consecutive low (v ∷ vs) = (low ≤ v.range.start) × Consecutive (max v.range.start v.range.end) vs

status_at-insert :
    (v : StatusInterval) (vs : List StatusInterval) (s : FreeBusyState) (t : ℕ)
    → status_at (insert_by_key by_range_start v vs) s t ≡ (says v s t || status_at vs s t)
status_at-insert v [] s t = refl
status_at-insert v (w ∷ vs) s t = ground (arith, status_at-insert v vs s t)

pub status_at-sort :
    (vs : List StatusInterval) (s : FreeBusyState) (t : ℕ)
    → status_at (sort_by_key by_range_start vs) s t ≡ status_at vs s t
status_at-sort [] s t = refl
status_at-sort (v ∷ vs) s t =
    ground (arith, status_at-insert v (sort_by_key by_range_start vs) s t, status_at-sort vs s t)

SortedStatuses-insert :
    (low : ℕ) (v : StatusInterval) (vs : List StatusInterval)
    → low ≤ v.range.start
    → SortedStatuses low vs
    → SortedStatuses low (insert_by_key by_range_start v vs)
SortedStatuses-insert low v [] h s = (h, tt)
SortedStatuses-insert low v (w ∷ vs) h s = ground (arith, SortedStatuses-insert w.range.start v vs)

pub SortedStatuses-sort :
    (vs : List StatusInterval) → SortedStatuses 0 (sort_by_key by_range_start vs)
SortedStatuses-sort [] = tt
SortedStatuses-sort (v ∷ vs) =
    SortedStatuses-insert 0 v (sort_by_key by_range_start vs) (omega arith) (SortedStatuses-sort vs)

pub SortedStatuses-weaken :
    (low high : ℕ) (vs : List StatusInterval)
    → low ≤ high
    → SortedStatuses high vs
    → SortedStatuses low vs
SortedStatuses-weaken low high [] h s = tt
SortedStatuses-weaken low high (v ∷ vs) h s = (omega arith, s.1)

pub says-extend :
    (last v : StatusInterval) (s : FreeBusyState) (t : ℕ)
    → last.range.start ≤ v.range.start
    → joins v last ≡ true
    → says (extend last v) s t ≡ (says last s t || says v s t)
says-extend last v s t h j = ground (arith, state_eq→eq v.status last.status)

-- What is left when no test of the loop holds.
apart :
    (v last : StatusInterval)
    → conflicts v last ≡ false
    → joins v last ≡ false
    → last.range.end ≤ v.range.start
apart v last c j = ground arith

pub merge_status_onto-join :
    (last v : StatusInterval) (vs : List StatusInterval)
    → conflicts v last ≡ false
    → joins v last ≡ true
    → merge_status_onto last (v ∷ vs) ≡ merge_status_onto (extend last v) vs
unfolding merge_status_onto
merge_status_onto-join last v vs c j = ground arith

pub merge_status_onto-push :
    (last v : StatusInterval) (vs : List StatusInterval)
    → conflicts v last ≡ false
    → joins v last ≡ false
    → merge_status_onto last (v ∷ vs) ≡ (merge_status_onto v vs >>= λ rest. ok (last ∷ rest))
unfolding merge_status_onto
merge_status_onto-push last v vs c j = ground arith

merge_status_onto-conflict :
    (last v : StatusInterval) (vs : List StatusInterval)
    → conflicts v last ≡ true
    → merge_status_onto last (v ∷ vs) ≡ err overlapping_statuses
unfolding merge_status_onto
merge_status_onto-conflict last v vs c = ground arith

-- What the loop gives back, begun behind `low`.
Merged : ℕ → StatusInterval → List StatusInterval → List StatusInterval → Type 0
Merged low last vs out =
    ((s : FreeBusyState) (t : ℕ) → status_at out s t ≡ (says last s t || status_at vs s t))
    × (low ≤ last.range.start → Consecutive low out)

or_assoc : (a b c : Bool) → ((a || b) || c) ≡ (a || (b || c))
or_assoc a b c = ground arith

Merged-push :
    (low : ℕ) (last v : StatusInterval) (vs rest out : List StatusInterval)
    → last.range.start ≤ v.range.start
    → last.range.end ≤ v.range.start
    → Merged (max last.range.start last.range.end) v vs rest
    → ◌≡◌ {A = AppError.Result (List StatusInterval)} (ok (last ∷ rest)) (ok out)
    → Merged low last (v ∷ vs) out
unfolding Merged
Merged-push low last v vs rest out h a (says_rest, chain) push =
    ((λ status t. ground (arith, says_rest status t)), (λ l. ground arith))

merge_status_onto-Merged :
    (low : ℕ) (last : StatusInterval) (vs out : List StatusInterval)
    → SortedStatuses last.range.start vs
    → merge_status_onto last vs ≡ ok out
    → Merged low last vs out
unfolding Merged
merge_status_onto-Merged low last [] out s h =
    unfold merge_status_onto in ((λ status t. ground arith), (λ l. ground arith))
merge_status_onto-Merged low last (v ∷ vs) out (h, s) e = elim (Bool-cases (conflicts v last)) [
  | inl c ↦ ground (arith, merge_status_onto-conflict last v vs c)
  | inr c ↦ elim (Bool-cases (joins v last)) [
    | inl j ↦
        let (says_out, chain) =
          merge_status_onto-Merged low (extend last v) vs out
            (SortedStatuses-weaken last.range.start v.range.start vs h s)
            (sym (merge_status_onto-join last v vs c j) ∙ e) in
        (
          (λ status t.
              says_out status t
              ∙ rw (says-extend last v status t h j)
                  (or_assoc (says last status t) (says v status t) (status_at vs status t))),
          chain,
        )
    | inr j ↦
        let (rest, done, push) =
          >>=-eq-ok (merge_status_onto v vs) (λ rest. ok (last ∷ rest))
            (sym (merge_status_onto-push last v vs c j) ∙ e) in
        let (says_rest, chain) =
          merge_status_onto-Merged (max last.range.start last.range.end) v vs rest s done in
        Merged-push low last v vs rest out h (apart v last c j) (says_rest, chain) push
  ]
]

merge_status_sorted-Merged :
    (vs out : List StatusInterval)
    → SortedStatuses 0 vs
    → merge_status_sorted vs ≡ ok out
    → ((s : FreeBusyState) (t : ℕ) → status_at out s t ≡ status_at vs s t) × Consecutive 0 out
unfolding merge_status_sorted Merged
merge_status_sorted-Merged [] out s e = ((λ status t. ground arith), ground arith)
merge_status_sorted-Merged (v ∷ vs) out (h, s) e =
    let (keeps, chain) = merge_status_onto-Merged 0 v vs out s e in (keeps, chain h)

-- No instant has two statuses.
abbrev pub Exclusive : List StatusInterval → Type 0
Exclusive vs =
    (t : ℕ) (s u : FreeBusyState) → status_at vs s t ≡ true → status_at vs u t ≡ true → s ≡ u

Consecutive-low :
    (low : ℕ) (vs : List StatusInterval) (s : FreeBusyState) (t : ℕ)
    → Consecutive low vs
    → status_at vs s t ≡ true
    → low ≤ t
Consecutive-low low [] s t c h = ground arith
Consecutive-low low (v ∷ vs) s t (l, c) h =
    ground (arith, Consecutive-low (max v.range.start v.range.end) vs s t)

Consecutive-Exclusive : (low : ℕ) (vs : List StatusInterval) → Consecutive low vs → Exclusive vs
Consecutive-Exclusive low [] c t s u hs hu = ground arith
Consecutive-Exclusive low (v ∷ vs) (l, c) t s u hs hu = ground (
  arith,
  Consecutive-low (max v.range.start v.range.end) vs s t,
  Consecutive-low (max v.range.start v.range.end) vs u t,
  Consecutive-Exclusive (max v.range.start v.range.end) vs c t s u,
  state_eq→eq v.status s,
  state_eq→eq v.status u,
)

-- If merging gives a list, then that list says of every instant what the intervals said, its
-- intervals follow one another without overlap, and no two of the intervals gave one instant
-- different statuses.
pub merge_status_intervals-Exclusive :
    (vs out : List StatusInterval)
    → merge_status_intervals vs ≡ ok out
    → ((s : FreeBusyState) (t : ℕ) → status_at out s t ≡ status_at vs s t)
      × Consecutive 0 out
      × Exclusive vs
unfolding merge_status_intervals
merge_status_intervals-Exclusive vs out e = (
  same,
  chain,
  (λ t s u hs hu. Consecutive-Exclusive 0 out chain t s u (same s t ∙ hs) (same u t ∙ hu)),
)
  where
    merged :
        ((s : FreeBusyState) (t : ℕ)
          → status_at out s t ≡ status_at (sort_by_key by_range_start vs) s t)
        × Consecutive 0 out
    merged =
        merge_status_sorted-Merged (sort_by_key by_range_start vs) out (SortedStatuses-sort vs) e

    chain : Consecutive 0 out
    chain = merged.1

    same : (s : FreeBusyState) (t : ℕ) → status_at out s t ≡ status_at vs s t
    same s t = merged.0 s t ∙ status_at-sort vs s t
