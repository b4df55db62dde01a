-- ===== src/Schedule/Separation.antt =====
-- The form of a merged list, and that it is determined by the instants that it covers
-- (crates/app/src/runtime/schedule/slots.rs).
use mathlib.Core.Path.{ap₂}
use eas_mail_mcp.Base.{
  ℕ, suc, ◌≤◌, ◌<◌, ◌≡◌, refl, ◌∙◌, sym, subst, true, false, Bool-cases, inl, inr, List, [], ◌∷◌,
  arith, max, leb,
}
use eas_mail_mcp.Schedule.Interval.{UtcInterval, insert_by_key, sort_by_key}
use eas_mail_mcp.Schedule.Slots.{retain_proper, merge_onto, merge_sorted, merge_intervals}
use eas_mail_mcp.Schedule.Coverage.{
  covers, by_start, merge_onto-touch, merge_onto-apart, covers-merge_intervals,
}

-- Every interval has an instant, and leaves a gap behind the one in front of it.
abbrev pub SeparatedFrom : ℕ → List UtcInterval → Type 0
SeparatedFrom low [] = Unit
SeparatedFrom low (v ∷ values) =
    (low ≤ v.start) × (v.start < v.end) × SeparatedFrom (suc v.end) values

abbrev AllProper : List UtcInterval → Type 0
AllProper [] = Unit
AllProper (v ∷ values) = (v.start < v.end) × AllProper values

AllProper-retain_proper : (vs : List UtcInterval) → AllProper (retain_proper vs)
AllProper-retain_proper [] = tt
AllProper-retain_proper (v ∷ vs) = ground (arith, AllProper-retain_proper vs)

AllProper-insert :
    (v : UtcInterval) (vs : List UtcInterval)
    → v.start < v.end
    → AllProper vs
    → AllProper (insert_by_key by_start v vs)
AllProper-insert v [] h p = (h, tt)
AllProper-insert v (w ∷ vs) h p = ground (arith, AllProper-insert v vs)

AllProper-sort : (vs : List UtcInterval) → AllProper vs → AllProper (sort_by_key by_start vs)
AllProper-sort [] p = tt
AllProper-sort (v ∷ vs) (h, p) =
    AllProper-insert v (sort_by_key by_start vs) h (AllProper-sort vs p)

SeparatedFrom-merge_onto :
    (low : ℕ) (last : UtcInterval) (vs : List UtcInterval)
    → low ≤ last.start
    → last.start < last.end
    → AllProper vs
    → SeparatedFrom low (merge_onto last vs)
SeparatedFrom-merge_onto low last [] h p q = unfold merge_onto in (h, p, tt)
SeparatedFrom-merge_onto low last (v ∷ vs) h p (pv, q) = elim (Bool-cases (leb v.start last.end)) [
  | inl touch ↦
      rw (merge_onto-touch last v vs touch) (
        SeparatedFrom-merge_onto low (record last { end = max last.end v.end }) vs h (omega arith)
          q)
  | inr apart ↦
      rw (merge_onto-apart last v vs apart)
        (h, p, SeparatedFrom-merge_onto (suc last.end) v vs (ground arith) pv q)
]

SeparatedFrom-merge_sorted :
    (vs : List UtcInterval) → AllProper vs → SeparatedFrom 0 (merge_sorted vs)
unfolding merge_sorted
SeparatedFrom-merge_sorted [] p = tt
SeparatedFrom-merge_sorted (v ∷ vs) (h, p) = SeparatedFrom-merge_onto 0 v vs (omega arith) h p

-- A merged list is sorted, its intervals are not empty, and they neither overlap nor touch.
pub SeparatedFrom-merge_intervals : (vs : List UtcInterval) → SeparatedFrom 0 (merge_intervals vs)
unfolding merge_intervals
SeparatedFrom-merge_intervals vs =
    SeparatedFrom-merge_sorted _ (AllProper-sort (retain_proper vs) (AllProper-retain_proper vs))

-- Nothing below the bound is covered.
covers-below :
    (low : ℕ) (vs : List UtcInterval) (t : ℕ) → SeparatedFrom low vs → t < low → covers vs t ≡ false
covers-below low [] t s h = refl
covers-below low (v ∷ vs) t (l, p, s) h = ground (arith, covers-below (suc v.end) vs t s)

covers-head :
    (v : UtcInterval) (vs : List UtcInterval) (t : ℕ)
    → v.start ≤ t
    → t < v.end
    → covers (v ∷ vs) t ≡ true
covers-head v vs t h k = ground arith

-- In front of the first interval, and in the gap behind it, nothing is covered.
covers-front :
    (low : ℕ) (v : UtcInterval) (vs : List UtcInterval) (t : ℕ)
    → SeparatedFrom low (v ∷ vs)
    → t < v.start
    → covers (v ∷ vs) t ≡ false
covers-front low v vs t (l, p, s) h = ground (arith, covers-below (suc v.end) vs t s)

covers-gap :
    (low : ℕ) (v : UtcInterval) (vs : List UtcInterval)
    → SeparatedFrom low (v ∷ vs)
    → covers (v ∷ vs) v.end ≡ false
covers-gap low v vs (l, p, s) = ground (arith, covers-below (suc v.end) vs v.end s)

module _ (low low' : ℕ) (v w : UtcInterval) (vs ws : List UtcInterval)
    (s : SeparatedFrom low (v ∷ vs)) (r : SeparatedFrom low' (w ∷ ws))
    (same : (t : ℕ) → covers (v ∷ vs) t ≡ covers (w ∷ ws) t) where
  start_le : v.start ≤ w.start
  start_le = ground (arith, same w.start, covers-front low v vs w.start s, covers-head w ws w.start)

  end_le : v.start ≡ w.start → w.end ≤ v.end
  end_le e = ground (arith, same v.end, covers-gap low v vs s, covers-head w ws v.end)

-- Behind two equal first intervals the rest covers the same instants.
covers-tail :
    (low low' : ℕ) (v : UtcInterval) (vs ws : List UtcInterval)
    → SeparatedFrom low (v ∷ vs)
    → SeparatedFrom low' (v ∷ ws)
    → (t : ℕ) → covers (v ∷ vs) t ≡ covers (v ∷ ws) t
    → covers vs t ≡ covers ws t
covers-tail low low' v vs ws (_, _, s) (_, _, r) t same =
    ground (arith, covers-below (suc v.end) vs t s, covers-below (suc v.end) ws t r)

SeparatedFrom-unique :
    (low low' : ℕ) (vs ws : List UtcInterval)
    → SeparatedFrom low vs
    → SeparatedFrom low' ws
    → ((t : ℕ) → covers vs t ≡ covers ws t)
    → vs ≡ ws
SeparatedFrom-unique low low' [] [] s r same = refl
SeparatedFrom-unique low low' [] (w ∷ ws) s r same =
    cc (same w.start, covers-head w ws w.start (omega arith) (omega arith))
SeparatedFrom-unique low low' (v ∷ vs) [] s r same =
    cc (same v.start, covers-head v vs v.start (omega arith) (omega arith))
SeparatedFrom-unique low low' (v ∷ vs) (w ∷ ws) s r same =
    let same' = λ (t : ℕ). sym (same t) in
    let starts : v.start ≡ w.start =
      omega (arith, start_le low low' v w vs ws s r same, start_le low' low w v ws vs r s same') in
    let ends : v.end ≡ w.end = omega (
      arith,
      end_le low low' v w vs ws s r same starts,
      end_le low' low w v ws vs r s same' (sym starts),
    ) in
    let heads : v ≡ w = λ i. record { start = starts i; end = ends i } in
    ap₂ (λ (x : UtcInterval) (xs : List UtcInterval). x ∷ xs) heads
      (SeparatedFrom-unique (suc v.end) (suc v.end) vs ws s.2
        (subst (λ (n : ℕ). SeparatedFrom (suc n) ws) (sym ends) r.2)
        (λ t.
          covers-tail low low' v vs ws s
            (subst (λ (x : UtcInterval). SeparatedFrom low' (x ∷ ws)) (sym heads) r) t
            (subst (λ (x : UtcInterval). covers (v ∷ vs) t ≡ covers (x ∷ ws) t) (sym heads)
              (same t))))

-- Two lists that cover the same instants are merged into one list: the result of merging depends
-- on the instants alone, not on the order, the number or the overlaps of the intervals.
pub merge_intervals_canonical :
    (vs ws : List UtcInterval)
    → ((t : ℕ) → covers vs t ≡ covers ws t)
    → merge_intervals vs ≡ merge_intervals ws
merge_intervals_canonical vs ws same =
    SeparatedFrom-unique 0 0 (merge_intervals vs) (merge_intervals ws)
      (SeparatedFrom-merge_intervals vs) (SeparatedFrom-merge_intervals ws)
      λ t. covers-merge_intervals vs t ∙ same t ∙ sym (covers-merge_intervals ws t)
