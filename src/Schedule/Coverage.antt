-- ===== src/Schedule/Coverage.antt =====
-- Merging and intersecting keep exactly the instants that they should
-- (crates/app/src/runtime/schedule/slots.rs).
use eas_mail_mcp.Base.{
  ℕ, ◌≤◌, ◌≡◌, refl, ◌∙◌, sym, Bool, true, false, ◌&&◌, ◌||◌, Bool-cases, inl, inr, List, [], ◌∷◌,
  ◌++◌, arith, max, leb, leb→le,
}
use eas_mail_mcp.Schedule.Interval.{UtcInterval, contains, insert_by_key, sort_by_key}
use eas_mail_mcp.Schedule.Slots.{
  retain_proper, merge_onto, merge_sorted, merge_intervals, intersect, push_some, clip_to_working,
  intersect_pairs, intersect_groups, intersect_rest, intersect_all,
}

-- Some interval of the list contains the instant.
abbrev pub covers : List UtcInterval → ℕ → Bool
covers [] t = false
covers (v ∷ values) t = contains v t || covers values t

-- Sorted by start, each start being at least `low`.
abbrev SortedFrom : ℕ → List UtcInterval → Type 0
SortedFrom low [] = Unit
SortedFrom low (v ∷ values) = (low ≤ v.start) × SortedFrom v.start values

covers-append :
    (xs ys : List UtcInterval) (t : ℕ) → covers (xs ++ ys) t ≡ (covers xs t || covers ys t)
covers-append [] ys t = refl
covers-append (x ∷ xs) ys t = ground (arith, covers-append xs ys t)

covers-retain_proper : (vs : List UtcInterval) (t : ℕ) → covers (retain_proper vs) t ≡ covers vs t
covers-retain_proper [] t = refl
covers-retain_proper (v ∷ vs) t = ground (arith, covers-retain_proper vs t)

abbrev pub by_start : UtcInterval → ℕ
by_start v = v.start

covers-insert :
    (v : UtcInterval) (vs : List UtcInterval) (t : ℕ)
    → covers (insert_by_key by_start v vs) t ≡ (contains v t || covers vs t)
covers-insert v [] t = refl
covers-insert v (w ∷ vs) t = ground (arith, covers-insert v vs t)

covers-sort : (vs : List UtcInterval) (t : ℕ) → covers (sort_by_key by_start vs) t ≡ covers vs t
covers-sort [] t = refl
covers-sort (v ∷ vs) t =
    ground (arith, covers-insert v (sort_by_key by_start vs) t, covers-sort vs t)

SortedFrom-insert :
    (low : ℕ) (v : UtcInterval) (vs : List UtcInterval)
    → low ≤ v.start
    → SortedFrom low vs
    → SortedFrom low (insert_by_key by_start v vs)
SortedFrom-insert low v [] h s = (h, tt)
SortedFrom-insert low v (w ∷ vs) h s = ground (arith, SortedFrom-insert w.start v vs)

SortedFrom-sort : (vs : List UtcInterval) → SortedFrom 0 (sort_by_key by_start vs)
SortedFrom-sort [] = tt
SortedFrom-sort (v ∷ vs) =
    SortedFrom-insert 0 v (sort_by_key by_start vs) (omega arith) (SortedFrom-sort vs)

SortedFrom-weaken :
    (low high : ℕ) (vs : List UtcInterval) → low ≤ high → SortedFrom high vs → SortedFrom low vs
SortedFrom-weaken low high [] h s = tt
SortedFrom-weaken low high (v ∷ vs) h s = (omega arith, s.1)

contains-join :
    (last v : UtcInterval) (t : ℕ)
    → last.start ≤ v.start
    → v.start ≤ last.end
    → contains (record last { end = max last.end v.end }) t ≡ (contains last t || contains v t)
contains-join last v t h k = ground arith

or_assoc : (a b c : Bool) → ((a || b) || c) ≡ (a || (b || c))
or_assoc a b c = ground arith

pub merge_onto-touch :
    (last v : UtcInterval) (vs : List UtcInterval)
    → leb v.start last.end ≡ true
    → merge_onto last (v ∷ vs) ≡ merge_onto (record last { end = max last.end v.end }) vs
unfolding merge_onto
merge_onto-touch last v vs h = ground arith

pub merge_onto-apart :
    (last v : UtcInterval) (vs : List UtcInterval)
    → leb v.start last.end ≡ false
    → merge_onto last (v ∷ vs) ≡ last ∷ merge_onto v vs
unfolding merge_onto
merge_onto-apart last v vs h = ground arith

and_assoc : (a b c : Bool) → ((a && b) && c) ≡ (a && (b && c))
and_assoc a b c = ground arith

covers-merge_onto :
    (last : UtcInterval) (vs : List UtcInterval) (t : ℕ)
    → SortedFrom last.start vs
    → covers (merge_onto last vs) t ≡ (contains last t || covers vs t)
covers-merge_onto last [] t s = unfold merge_onto in refl
covers-merge_onto last (v ∷ vs) t (h, s) = elim (Bool-cases (leb v.start last.end)) [
  | inl touch ↦ rw (merge_onto-touch last v vs touch) (
      covers-merge_onto (record last { end = max last.end v.end }) vs t
        (SortedFrom-weaken last.start v.start vs h s)
      ∙ rw (contains-join last v t h (leb→le v.start last.end touch))
          (or_assoc (contains last t) (contains v t) (covers vs t)))
  | inr apart ↦ ground (arith, merge_onto-apart last v vs, covers-merge_onto v vs t s)
]

covers-merge_sorted :
    (vs : List UtcInterval) (t : ℕ) → SortedFrom 0 vs → covers (merge_sorted vs) t ≡ covers vs t
unfolding merge_sorted
covers-merge_sorted [] t s = refl
covers-merge_sorted (v ∷ vs) t (h, s) = covers-merge_onto v vs t s

-- Merging keeps exactly the instants that some interval of the list contains.
pub covers-merge_intervals :
    (vs : List UtcInterval) (t : ℕ) → covers (merge_intervals vs) t ≡ covers vs t
unfolding merge_intervals
covers-merge_intervals vs t =
    covers-merge_sorted (sort_by_key by_start (retain_proper vs)) t
      (SortedFrom-sort (retain_proper vs))
    ∙ covers-sort (retain_proper vs) t
    ∙ covers-retain_proper vs t

covers-push_intersect :
    (a b : UtcInterval) (rest : List UtcInterval) (t : ℕ)
    → covers (push_some (intersect a b) rest) t ≡ ((contains a t && contains b t) || covers rest t)
unfolding intersect
covers-push_intersect a b rest t = ground arith

-- Clipping an interval keeps the instants that it shares with the working hours.
pub covers-clip_to_working :
    (interval : UtcInterval) (working : List UtcInterval) (t : ℕ)
    → covers (clip_to_working interval working) t ≡ (contains interval t && covers working t)
unfolding clip_to_working
covers-clip_to_working interval [] t = ground arith
covers-clip_to_working interval (work ∷ working) t = ground (
  arith,
  covers-push_intersect interval work (clip_to_working interval working) t,
  covers-clip_to_working interval working t,
)

covers-intersect_pairs :
    (left right : List UtcInterval) (t : ℕ)
    → covers (intersect_pairs left right) t ≡ (covers left t && covers right t)
unfolding intersect_pairs
covers-intersect_pairs [] right t = refl
covers-intersect_pairs (first ∷ left) right t = ground (
  arith,
  covers-append (clip_to_working first right) (intersect_pairs left right) t,
  covers-clip_to_working first right t,
  covers-intersect_pairs left right t,
)

covers-intersect_groups :
    (left right : List UtcInterval) (t : ℕ)
    → covers (intersect_groups left right) t ≡ (covers left t && covers right t)
unfolding intersect_groups
covers-intersect_groups left right t =
    covers-merge_intervals (intersect_pairs left right) t ∙ covers-intersect_pairs left right t

-- Every group has an interval that contains the instant.
abbrev pub all_cover : List (List UtcInterval) → ℕ → Bool
all_cover [] t = true
all_cover (group ∷ groups) t = covers group t && all_cover groups t

intersect_rest-nil : (groups : List (List UtcInterval)) → intersect_rest [] groups ≡ []
unfolding intersect_rest intersect_groups intersect_pairs merge_intervals
intersect_rest-nil [] = refl
intersect_rest-nil (group ∷ groups) = refl

-- The early `break` changes nothing.
intersect_rest-step :
    (common group : List UtcInterval) (groups : List (List UtcInterval))
    → intersect_rest common (group ∷ groups) ≡ intersect_rest (intersect_groups common group) groups
intersect_rest-step common group groups =
    unfold intersect_rest in go (intersect_groups common group)
  where
    go :
        (next : List UtcInterval)
        → (elim next as (λ _. List UtcInterval) [
          | [] ↦ []
          | v ∷ vs ↦ intersect_rest (v ∷ vs) groups
        ])
          ≡ intersect_rest next groups
    go [] = sym (intersect_rest-nil groups)
    go (v ∷ vs) = refl

covers-intersect_rest :
    (common : List UtcInterval) (groups : List (List UtcInterval)) (t : ℕ)
    → covers (intersect_rest common groups) t ≡ (covers common t && all_cover groups t)
covers-intersect_rest common [] t = unfold intersect_rest in ground arith
covers-intersect_rest common (group ∷ groups) t = rw (intersect_rest-step common group groups) (
    covers-intersect_rest (intersect_groups common group) groups t
    ∙ rw (covers-intersect_groups common group t)
        (and_assoc (covers common t) (covers group t) (all_cover groups t)))

-- The intersection of some groups has exactly the instants that every group covers; that of none
-- has no instant.
pub covers-intersect_all :
    (first : List UtcInterval) (groups : List (List UtcInterval)) (t : ℕ)
    → covers (intersect_all (first ∷ groups)) t ≡ all_cover (first ∷ groups) t
unfolding intersect_all
covers-intersect_all first groups t = covers-intersect_rest first groups t
