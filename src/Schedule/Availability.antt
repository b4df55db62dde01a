-- ===== src/Schedule/Availability.antt =====
-- What is known of a participant's time: the states that the tools report
-- (crates/app/src/model/calendar.rs), and the merging of intervals that carry one
-- (crates/app/src/runtime/schedule.rs).
use eas_mail_mcp.Base.{
  ℕ, String, Bool, true, false, ◌&&◌, not, List, [], ◌∷◌, max, ltb, leb, ok, err, ◌>>=◌,
}
use eas_mail_mcp.AppError
use eas_mail_mcp.AppError.{AppError, ErrorCode}
use eas_mail_mcp.Schedule.Interval.{UtcInterval, sort_by_key}

pub data FreeBusyState : Type 0 where
  free tentative busy out_of_office no_data : FreeBusyState

abbrev pub state_eq : FreeBusyState → FreeBusyState → Bool
state_eq FreeBusyState.free other = elim other [ FreeBusyState.free ↦ true | _ ↦ false ]
state_eq FreeBusyState.tentative other = elim other [ FreeBusyState.tentative ↦ true | _ ↦ false ]
state_eq FreeBusyState.busy other = elim other [ FreeBusyState.busy ↦ true | _ ↦ false ]
state_eq FreeBusyState.out_of_office other = elim other [
  | FreeBusyState.out_of_office ↦ true
  | _ ↦ false
]
state_eq FreeBusyState.no_data other = elim other [ FreeBusyState.no_data ↦ true | _ ↦ false ]

pub data ParticipantResolutionState : Type 0 where
  resolved ambiguous ambiguous_partial not_found : ParticipantResolutionState

pub record StatusInterval : Type 0 where
  pub range : UtcInterval
  pub status : FreeBusyState

abbrev pub protocol : String → AppError
protocol message = AppError.new ErrorCode.protocol_error message

abbrev pub overlapping_statuses : AppError
overlapping_statuses = protocol "availability pages contain overlapping statuses"

-- The first test of the loop of `merge_status_intervals`, and the second.
abbrev pub conflicts : StatusInterval → StatusInterval → Bool
conflicts value last =
    ltb value.range.start last.range.end && not (state_eq value.status last.status)

abbrev pub joins : StatusInterval → StatusInterval → Bool
joins value last = state_eq value.status last.status && leb value.range.start last.range.end

abbrev pub extend : StatusInterval → StatusInterval → StatusInterval
extend last value = record last {
  range = record (last.range) { end = max last.range.end value.range.end };
}

-- The loop of `merge_status_intervals`, `last` being the last interval of `output`.
unfoldable pub merge_status_onto :
    StatusInterval → List StatusInterval → AppError.Result (List StatusInterval)
merge_status_onto last [] = ok (last ∷ [])
merge_status_onto last (value ∷ values) = elim (conflicts value last) [
  | true ↦ err overlapping_statuses
  | false ↦ elim (joins value last) [
    | true ↦ merge_status_onto (extend last value) values
    | false ↦ merge_status_onto value values >>= λ rest. ok (last ∷ rest)
  ]
]

unfoldable pub merge_status_sorted : List StatusInterval → AppError.Result (List StatusInterval)
unfolding merge_status_onto
merge_status_sorted [] = ok []
merge_status_sorted (value ∷ values) = merge_status_onto value values

abbrev pub by_range_start : StatusInterval → ℕ
by_range_start value = value.range.start

unfoldable pub merge_status_intervals : List StatusInterval → AppError.Result (List StatusInterval)
unfolding merge_status_sorted
merge_status_intervals values = merge_status_sorted (sort_by_key by_range_start values)
