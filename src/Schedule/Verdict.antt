-- ===== src/Schedule/Verdict.antt =====
-- The judgement on a proposed meeting is right, and is always given
-- (crates/app/src/runtime/schedule/ranked/evaluate.rs).
use eas_mail_mcp.Base.{
  ℕ, ◌*◌, ◌+◌, ◌-◌, ◌≤◌, ◌<◌, ◌≡◌, refl, if◌then◌else◌, ◌∙◌, sym, ◌↔◌, Bool, true, false, ◌||◌, not,
  Bool-cases, inl, inr, List, [], ◌∷◌, some, arith, le→leb, All,
}
use eas_mail_mcp.Schedule.Interval.{UtcInterval, minute, contains}
use eas_mail_mcp.Schedule.Slots.{merge_intervals}
use eas_mail_mcp.Schedule.Coverage.{covers, covers-merge_intervals}
use eas_mail_mcp.Schedule.Separation.{SeparatedFrom-merge_intervals}
use eas_mail_mcp.Schedule.Conflicts.{Proper}
use eas_mail_mcp.Schedule.Assess.{
  Reason, PersonPlan, Record, FindInput, Assessment, add_reason, contained, is_resolved,
  assess_loop, assess_padded, assess,
}
use eas_mail_mcp.Schedule.Attendable.{assess_loop-Clear, Clear-assess_loop, add_reason_nonempty}
use eas_mail_mcp.Schedule.Suitable.{
  Suitable, known_at, covers-assess_loop, contained-covers, covers-contained, Clear→ClearAt,
  ClearAt→Clear, known-available,
}

if_true : {A : Type 0} (b : Bool) (x y : A) → b ≡ true → (if b then x else y) ≡ x
if_true b x y h = rw (h) refl

if_false : {A : Type 0} (b : Bool) (x y : A) → b ≡ false → (if b then x else y) ≡ y
if_false b x y h = rw (h) refl

both_true : (a b : Bool) → (not a || not b) ≡ false → (a ≡ true) × (b ≡ true)
both_true a b h = ground arith

module _ (allow : Bool) (person : PersonPlan) (entry : Record) (range padded : UtcInterval) where
  abbrev begun : Assessment
  begun = record {
    reasons = if contained range person.working then [] else Reason.outside_working_hours ∷ [];
    covered = [];
    has_tentative = false;
  }

  abbrev ended : Assessment
  ended = assess_loop allow padded entry.intervals begun

  -- The test behind the loop.
  abbrev unknown_left : Bool
  unknown_left =
      not (is_resolved entry.summary.resolution)
      || not (contained padded (merge_intervals ended.covered))

  reasons_empty :
      (assess_padded person entry range padded allow).0 ≡ []
      → (unknown_left ≡ false) × (ended.reasons ≡ [])
  unfolding assess_padded
  reasons_empty h = elim (Bool-cases unknown_left) [
    | inl u ↦
        add_reason_nonempty ended.reasons Reason.unknown
          (sym (if_true unknown_left (add_reason ended.reasons Reason.unknown) ended.reasons u) ∙ h)
          _
    | inr u ↦ (
      u,
      sym (if_false unknown_left (add_reason ended.reasons Reason.unknown) ended.reasons u) ∙ h,
    )
  ]

  empty_reasons :
      unknown_left ≡ false
      → ended.reasons ≡ []
      → (assess_padded person entry range padded allow).0 ≡ []
  unfolding assess_padded
  empty_reasons u h = rw (u) h

  covers-ended :
      (t : ℕ)
      → contains padded t ≡ true
      → covers (merge_intervals ended.covered) t ≡ known_at entry.intervals t
  covers-ended t h =
      covers-merge_intervals ended.covered t
      ∙ covers-assess_loop allow padded entry.intervals begun t h

  assess_padded→Suitable :
      (assess_padded person entry range padded allow).0 ≡ []
      → Suitable allow person entry range padded
  assess_padded→Suitable h =
      let (u, left) = reasons_empty h in
      let (one, whole) =
        both_true (is_resolved entry.summary.resolution)
          (contained padded (merge_intervals ended.covered)) u in
      let (before, clear) = assess_loop-Clear allow padded entry.intervals begun left in
      (
        one,
        ground (arith, before),
        (λ t inside.
            sym (known-available allow padded entry.intervals t clear inside)
            ∙ sym (covers-ended t inside)
            ∙ contained-covers padded (merge_intervals ended.covered) t whole inside),
        Clear→ClearAt allow padded entry.intervals clear,
      )

  Suitable→assess_padded :
      padded.start < padded.end
      → All Proper entry.intervals
      → Suitable allow person entry range padded
      → (assess_padded person entry range padded allow).0 ≡ []
  Suitable→assess_padded q ps (one, working, free, clear_at) =
      let clear = ClearAt→Clear allow padded entry.intervals q ps clear_at in
      let all_covered =
        covers-contained 0 padded (merge_intervals ended.covered) q
          (SeparatedFrom-merge_intervals ended.covered)
          (λ t inside.
            covers-ended t inside
            ∙ known-available allow padded entry.intervals t clear inside
            ∙ free t inside) in
      empty_reasons (rw (one, all_covered) refl)
        (Clear-assess_loop allow padded entry.intervals begun (rw (working) refl) clear)

-- For a time slot that is not empty and does not begin within the buffer of the first instant, and
-- a record without empty intervals, the judgement is given, and it has no reason exactly if the
-- participant is resolved, the slot lies in the working hours, and at every instant of the slot
-- and its buffers the record has a status in which the participant can attend and no other.
pub assess-Suitable :
    (person : PersonPlan) (entry : Record) (range : UtcInterval) (input : FindInput)
    → range.start < range.end
    → input.buffer_minutes * minute ≤ range.start
    → All Proper entry.intervals
    → (verdict : List Reason × Bool) × (assess person entry range input ≡ some verdict)
      × ((verdict.0 ≡ [])
          ↔ Suitable input.allow_tentative person entry range (record {
            start = range.start - input.buffer_minutes * minute;
            end = range.end + input.buffer_minutes * minute;
          }))
unfolding assess
assess-Suitable person entry range input h b ps = (
  assess_padded person entry range padded input.allow_tentative,
  rw (le→leb (input.buffer_minutes * minute) range.start b, assess) refl,
  (
    assess_padded→Suitable input.allow_tentative person entry range padded,
    Suitable→assess_padded input.allow_tentative person entry range padded (omega arith) ps,
  ),
)
  where
    padded : UtcInterval
    padded = record {
      start = range.start - input.buffer_minutes * minute;
      end = range.end + input.buffer_minutes * minute;
    }
