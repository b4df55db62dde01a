-- ===== src/Schedule/RankedTests.antt =====
-- Concrete runs of merging and ranking, and the theorems at concrete inputs
-- (crates/app/src/runtime/schedule).
use eas_mail_mcp.Base.{
  ℕ, ◌*◌, ◌≡◌, refl, ◌↔◌, Bool, true, false, some, List, [], ◌∷◌, Bytes, ascii, arith, ok, err, All,
}
use eas_mail_mcp.Schedule.Interval.{UtcInterval, minute}
use eas_mail_mcp.Schedule.Slots.{
  merge_intervals, fitting, intersect_all, intersect_rest, intersect_groups, intersect_pairs,
  intersect,
}
use eas_mail_mcp.Schedule.Availability.{
  FreeBusyState, ParticipantResolutionState, StatusInterval, merge_status_intervals,
  overlapping_statuses,
}
use eas_mail_mcp.Schedule.Statuses.{
  status_at, Consecutive, Exclusive, merge_status_intervals-Exclusive,
}
use eas_mail_mcp.Schedule.Conflicts.{Proper, merge_status_intervals_total}
use eas_mail_mcp.Schedule.Assess.{
  Reason, CalendarParticipantRole, PersonPlan, Record, FindInput, assess,
}
use eas_mail_mcp.Schedule.Suitable.{Suitable}
use eas_mail_mcp.Schedule.Verdict.{assess-Suitable}
use eas_mail_mcp.Schedule.Windows.{windows, suggestion, person_groups, person_group, erode}
use eas_mail_mcp.Schedule.FreeWindows.{untroubled, windows-suggestion}

abbrev span : ℕ → ℕ → UtcInterval
span start end = record { start = start * minute; end = end * minute }

abbrev known : ℕ → ℕ → FreeBusyState → StatusInterval
known start end status = record { range = span start end; status = status }

abbrev answers : List StatusInterval
answers =
    known 30 60 FreeBusyState.free
    ∷ known 0 30 FreeBusyState.free
    ∷ known 60 90 FreeBusyState.busy
    ∷ []

abbrev merged_answers : List StatusInterval
merged_answers = known 0 60 FreeBusyState.free ∷ known 60 90 FreeBusyState.busy ∷ []

merge_answers : merge_status_intervals answers ≡ ok merged_answers
unfolding merge_status_intervals
merge_answers = refl

merge_contradiction :
    merge_status_intervals (known 0 30 FreeBusyState.free ∷ known 15 45 FreeBusyState.busy ∷ [])
    ≡ err overlapping_statuses
unfolding merge_status_intervals
merge_contradiction = refl

merge_status_intervals-Exclusive_example :
    ((s : FreeBusyState) (t : ℕ) → status_at merged_answers s t ≡ status_at answers s t)
    × Consecutive 0 merged_answers
    × Exclusive answers
merge_status_intervals-Exclusive_example =
    merge_status_intervals-Exclusive answers merged_answers merge_answers

Exclusive-answers : Exclusive answers
Exclusive-answers = (merge_status_intervals-Exclusive answers merged_answers merge_answers).2

Proper-answers : All Proper answers
Proper-answers = (omega arith, (omega arith, (omega arith, tt)))

merge_status_intervals_total_example :
    (out : List StatusInterval) × (merge_status_intervals answers ≡ ok out)
merge_status_intervals_total_example =
    merge_status_intervals_total answers Proper-answers Exclusive-answers

abbrev anna : PersonPlan
anna = record { role = CalendarParticipantRole.required; working = span 0 90 ∷ [] }

abbrev anna_answered : Record
anna_answered = record {
  summary = record { input = ascii "anna"; resolution = ParticipantResolutionState.resolved };
  intervals = answers;
}

abbrev half_hour : FindInput
half_hour = record { duration_minutes = 30; buffer_minutes = 15; allow_tentative = true }

free_slot : assess anna anna_answered (span 15 45) half_hour ≡ some ([], false)
unfolding assess merge_intervals
free_slot = refl

busy_slot : assess anna anna_answered (span 30 60) half_hour ≡ some (Reason.busy ∷ [], false)
unfolding assess merge_intervals
busy_slot = refl

unknown_slot :
    assess anna anna_answered (span 90 120) half_hour
    ≡ some (Reason.outside_working_hours ∷ Reason.busy ∷ Reason.unknown ∷ [], false)
unfolding assess merge_intervals
unknown_slot = refl

assess-Suitable_example :
    (verdict : List Reason × Bool) × (assess anna anna_answered (span 15 45) half_hour
      ≡ some verdict)
    × ((verdict.0 ≡ []) ↔ Suitable true anna anna_answered (span 15 45) (span 0 60))
assess-Suitable_example =
    assess-Suitable anna anna_answered (span 15 45) half_hour (omega arith) (omega arith)
      Proper-answers

found_window :
    windows (span 0 90 ∷ []) (anna ∷ []) (anna_answered ∷ []) half_hour 5 ≡ some (span 15 45 ∷ [])
unfolding windows person_groups person_group erode fitting intersect_all intersect_rest
    intersect_groups merge_intervals intersect_pairs intersect
found_window = refl

windows-suggestion_example :
    (names : List Bytes) × (suggestion (anna ∷ []) (anna_answered ∷ []) (span 15 45) half_hour
      ≡ some (untroubled (span 15 45) names))
windows-suggestion_example =
    windows-suggestion (span 0 90 ∷ []) (anna ∷ []) (anna_answered ∷ []) half_hour 5
      (span 15 45 ∷ []) (span 15 45) ((omega arith, omega arith, tt), tt)
      ((Proper-answers, Exclusive-answers), tt) found_window (omega arith) refl
