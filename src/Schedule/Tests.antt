-- ===== src/Schedule/Tests.antt =====
-- Concrete runs of the interval arithmetic, and the theorems at concrete inputs
-- (crates/app/src/runtime/schedule).
use eas_mail_mcp.Base.{ℕ, ◌+◌, ◌*◌, ◌-◌, ◌≡◌, refl, some, List, [], ◌∷◌, true, arith, ok}
use eas_mail_mcp.Schedule.Interval.{UtcInterval, minute}
use eas_mail_mcp.Schedule.Slots.{merge_intervals, clip_to_working, intersect_all}
use eas_mail_mcp.Schedule.Coverage.{
  covers, covers-merge_intervals, covers-clip_to_working, all_cover, covers-intersect_all,
}
use eas_mail_mcp.Schedule.Separation.{
  SeparatedFrom, SeparatedFrom-merge_intervals, merge_intervals_canonical,
}
use eas_mail_mcp.Schedule.Chunks.{split_chunks, max_chunk, Tiles, split_chunks-Tiles}

abbrev span : ℕ → ℕ → UtcInterval
span start end = record { start = start; end = end }

abbrev overlapping : List UtcInterval
overlapping = span 5 9 ∷ span 1 3 ∷ span 4 4 ∷ span 3 6 ∷ span 12 14 ∷ []

merged : merge_intervals overlapping ≡ span 1 9 ∷ span 12 14 ∷ []
unfolding merge_intervals
merged = refl

covers-merge_intervals_example : covers (merge_intervals overlapping) 7 ≡ true
covers-merge_intervals_example = covers-merge_intervals overlapping 7

SeparatedFrom-merge_intervals_example : SeparatedFrom 0 (merge_intervals overlapping)
SeparatedFrom-merge_intervals_example = SeparatedFrom-merge_intervals overlapping

merge_intervals_canonical_example :
    merge_intervals (merge_intervals overlapping) ≡ merge_intervals overlapping
merge_intervals_canonical_example =
    merge_intervals_canonical (merge_intervals overlapping) overlapping
      (covers-merge_intervals overlapping)

covers-clip_to_working_example : covers (clip_to_working (span 2 8) overlapping) 7 ≡ true
covers-clip_to_working_example = covers-clip_to_working (span 2 8) overlapping 7

covers-intersect_all_example :
    covers (intersect_all (overlapping ∷ (span 6 13 ∷ []) ∷ [])) 8
    ≡ all_cover (overlapping ∷ (span 6 13 ∷ []) ∷ []) 8
covers-intersect_all_example = covers-intersect_all overlapping ((span 6 13 ∷ []) ∷ []) 8

-- Seven days and ten minutes: the last chunk has the 30 minutes that the server wants.
split_chunks-Tiles_example :
    (chunks : List UtcInterval) × (split_chunks 0 (max_chunk + 10 * minute) ≡ some (ok chunks))
    × Tiles 0 (max_chunk + 10 * minute) chunks
split_chunks-Tiles_example = split_chunks-Tiles 0 (max_chunk + 10 * minute) (omega arith)

split_long :
    split_chunks 0 (max_chunk + 10 * minute)
    ≡ some (
        ok (
          span 0 (max_chunk - 20 * minute)
          ∷ span (max_chunk - 20 * minute) (max_chunk + 10 * minute)
          ∷ []))
unfolding split_chunks
split_long = refl
