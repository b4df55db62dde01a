-- ===== src/Schedule/Slots.antt =====
-- Unions and intersections of lists of intervals (crates/app/src/runtime/schedule/slots.rs).
use eas_mail_mcp.Base.{
  ℕ, ◌-◌, ◌*◌, true, false, Option, none, some, List, [], ◌∷◌, ◌++◌, min, max, ltb, leb, take,
  if◌then◌else◌,
}
use eas_mail_mcp.Schedule.Interval.{UtcInterval, minute, sort_by_key}

-- `values.retain(|value| value.start < value.end)`
abbrev pub retain_proper : List UtcInterval → List UtcInterval
retain_proper [] = []
retain_proper (v ∷ values) =
    let rest = retain_proper values in if ltb v.start v.end then v ∷ rest else rest

-- The loop of `merge_intervals`, `last` being the last interval of `output`.
unfoldable pub merge_onto : UtcInterval → List UtcInterval → List UtcInterval
merge_onto last [] = last ∷ []
merge_onto last (v ∷ values) = elim (leb v.start last.end) [
  | true ↦ merge_onto (record last { end = max last.end v.end }) values
  | false ↦ last ∷ merge_onto v values
]

unfoldable pub merge_sorted : List UtcInterval → List UtcInterval
unfolding merge_onto
merge_sorted [] = []
merge_sorted (v ∷ values) = merge_onto v values

unfoldable pub merge_intervals : List UtcInterval → List UtcInterval
unfolding merge_sorted
merge_intervals values = merge_sorted (sort_by_key (λ v. v.start) (retain_proper values))

unfoldable pub intersect : UtcInterval → UtcInterval → Option UtcInterval
intersect left right =
    let start = max left.start right.start in
    let end = min left.end right.end in
    if ltb start end then some (record { start = start; end = end }) else none

abbrev pub push_some : Option UtcInterval → List UtcInterval → List UtcInterval
push_some none rest = rest
push_some (some v) rest = v ∷ rest

unfoldable pub clip_to_working : UtcInterval → List UtcInterval → List UtcInterval
clip_to_working interval [] = []
clip_to_working interval (work ∷ working) =
    push_some (intersect interval work) (clip_to_working interval working)

-- The two nested loops of `intersect_groups`.
unfoldable pub intersect_pairs : List UtcInterval → List UtcInterval → List UtcInterval
unfolding clip_to_working
intersect_pairs [] right = []
intersect_pairs (first ∷ left) right = clip_to_working first right ++ intersect_pairs left right

unfoldable pub intersect_groups : List UtcInterval → List UtcInterval → List UtcInterval
intersect_groups left right = merge_intervals (intersect_pairs left right)

-- The loop of `intersect_all`, with its `break`.
unfoldable pub intersect_rest : List UtcInterval → List (List UtcInterval) → List UtcInterval
intersect_rest common [] = common
intersect_rest common (group ∷ groups) =
    let next = intersect_groups common group in
    elim next [ [] ↦ [] | v ∷ vs ↦ intersect_rest (v ∷ vs) groups ]

unfoldable pub intersect_all : List (List UtcInterval) → List UtcInterval
intersect_all [] = []
intersect_all (first ∷ groups) = intersect_rest first groups

abbrev pub filter_long : ℕ → List UtcInterval → List UtcInterval
filter_long duration [] = []
filter_long duration (v ∷ values) =
    let rest = filter_long duration values in
    if leb duration (v.end - v.start) then v ∷ rest else rest

-- `end.signed_duration_since(start) >= duration`: a negative difference is below every duration
-- that is positive, and 0 is not above it.
unfoldable pub fitting : List UtcInterval → ℕ → ℕ → List UtcInterval
fitting values duration_minutes limit = take limit (filter_long (duration_minutes * minute) values)
