-- ===== src/Schedule/FreeSlot.antt =====
-- A slot that one participant's group of windows covers suits that participant
-- (crates/app/src/runtime/schedule/ranked/evaluate.rs).
use eas_mail_mcp.Base.{
  ℕ, ◌*◌, ◌<◌, ◌≡◌, refl, ap, ◌∙◌, sym, Bool, true, ◌&&◌, Bool-cases, inl, inr, some, Option-cases,
  List, [], ◌∷◌, arith, All,
}
use eas_mail_mcp.Schedule.Interval.{UtcInterval, minute, contains}
use eas_mail_mcp.Schedule.Slots.{merge_intervals, intersect_all}
use eas_mail_mcp.Schedule.Coverage.{covers, covers-merge_intervals, covers-intersect_all}
use eas_mail_mcp.Schedule.Separation.{SeparatedFrom, SeparatedFrom-merge_intervals}
use eas_mail_mcp.Schedule.Availability.{FreeBusyState, StatusInterval}
use eas_mail_mcp.Schedule.Statuses.{status_at, Exclusive}
use eas_mail_mcp.Schedule.Conflicts.{Proper}
use eas_mail_mcp.Schedule.Assess.{PersonPlan, Record, FindInput, contained, is_resolved, assess}
use eas_mail_mcp.Schedule.Attendable.{attendable, available_at}
use eas_mail_mcp.Schedule.Suitable.{Suitable, contained-covers, covers-contained}
use eas_mail_mcp.Schedule.Verdict.{assess-Suitable}
use eas_mail_mcp.Schedule.Windows.{open_ranges, erode, person_group}
use eas_mail_mcp.Schedule.Eroded.{
  covers-open_ranges, SeparatedFrom-erode, padded_by, contained-erode,
}

person_group_parts :
    (person : PersonPlan) (entry : Record) (input : FindInput) (group : List UtcInterval)
    → person_group person entry input ≡ some group
    → (eroded : List UtcInterval) × (erode (input.buffer_minutes * minute) (
          merge_intervals (
            open_ranges
              (is_resolved entry.summary.resolution)
              input.allow_tentative
              entry.intervals))
        ≡ some eroded)
      × (group ≡ intersect_all (eroded ∷ person.working ∷ []))
unfolding person_group
person_group_parts person entry input group h =
    elim (Option-cases (
      erode (input.buffer_minutes * minute) (
        merge_intervals (
          open_ranges (is_resolved entry.summary.resolution) input.allow_tentative
            entry.intervals)))) [
              | inl e ↦ ground arith
              | inr (eroded, e) ↦ (eroded, e, ground arith)
            ]

-- Where each instant has one status, an instant that is available has no other.
Exclusive-attendable :
    (allow : Bool) (vs : List StatusInterval) (s : FreeBusyState) (t : ℕ)
    → Exclusive vs
    → available_at allow vs t ≡ true
    → status_at vs s t ≡ true
    → attendable allow s ≡ true
Exclusive-attendable allow vs s t x a h = elim (Bool-cases (status_at vs FreeBusyState.free t)) [
  | inl f ↦ rw (x t s FreeBusyState.free h f) refl
  | inr f ↦ ground (arith, x t s FreeBusyState.tentative h)
]

pub and_true : (a b : Bool) → (a && b) ≡ true → (a ≡ true) × (b ≡ true)
and_true a b h = ground arith

module _ (person : PersonPlan) (entry : Record) (range : UtcInterval) (input : FindInput) where
  abbrev buffer : ℕ
  buffer = input.buffer_minutes * minute

  abbrev free_ranges : List UtcInterval
  free_ranges =
      merge_intervals
        (open_ranges (is_resolved entry.summary.resolution) input.allow_tentative entry.intervals)

  covers-free :
      (t : ℕ)
      → contained (padded_by buffer range) free_ranges ≡ true
      → contains (padded_by buffer range) t ≡ true
      → (is_resolved entry.summary.resolution
          && available_at input.allow_tentative entry.intervals t)
        ≡ true
  covers-free t c inside =
      sym (
        covers-open_ranges (is_resolved entry.summary.resolution) input.allow_tentative
          entry.intervals t)
      ∙ sym (
          covers-merge_intervals
            (open_ranges (is_resolved entry.summary.resolution) input.allow_tentative
              entry.intervals)
            t)
      ∙ contained-covers (padded_by buffer range) free_ranges t c inside

  free-Suitable :
      range.start < range.end
      → Exclusive entry.intervals
      → contained (padded_by buffer range) free_ranges ≡ true
      → contained range person.working ≡ true
      → Suitable input.allow_tentative person entry range (padded_by buffer range)
  free-Suitable p x c w = (
    (and_true _ _ (covers-free range.start c (ground arith))).0,
    w,
    (λ t inside. (and_true _ _ (covers-free t c inside)).1),
    (λ t s inside h.
        Exclusive-attendable input.allow_tentative entry.intervals s t x
          (and_true _ _ (covers-free t c inside)).1 h),
  )

  group-contained :
      (group eroded : List UtcInterval)
      → group ≡ intersect_all (eroded ∷ person.working ∷ [])
      → range.start < range.end
      → SeparatedFrom 0 eroded
      → SeparatedFrom 0 person.working
      → ((t : ℕ) → contains range t ≡ true → covers group t ≡ true)
      → (contained range eroded ≡ true) × (contained range person.working ≡ true)
  group-contained group eroded is p se sw c = (
    covers-contained 0 range eroded p se (λ t r. (both t r).0),
    covers-contained 0 range person.working p sw (λ t r. (both t r).1),
  )
    where
      both :
          (t : ℕ)
          → contains range t ≡ true
          → (covers eroded t ≡ true) × (covers person.working t ≡ true)
      both t r = ground (arith, covers-intersect_all eroded (person.working ∷ []) t, c t r)

  pub group-assess :
      (group : List UtcInterval)
      → person_group person entry input ≡ some group
      → range.start < range.end
      → SeparatedFrom 0 person.working
      → All Proper entry.intervals
      → Exclusive entry.intervals
      → ((t : ℕ) → contains range t ≡ true → covers group t ≡ true)
      → (tentative : Bool) × (assess person entry range input ≡ some ([], tentative))
  group-assess group g p sw ps x c =
      let (eroded, e, is) = person_group_parts person entry input group g in
      let (in_eroded, in_working) =
        group-contained group eroded is p
          (SeparatedFrom-erode buffer 0 free_ranges eroded (SeparatedFrom-merge_intervals _) e) sw
          c in
      let (early, in_free) = contained-erode buffer range free_ranges eroded p e in_eroded in
      let (verdict, given, iff) = assess-Suitable person entry range input p early ps in
      (
        verdict.1,
        given ∙ ap (λ r. some (r, verdict.1)) (iff.1 (free-Suitable p x in_free in_working)),
      )
