-- ===== src/Schedule/Assess.antt =====
-- The judgement on one proposed meeting for one participant
-- (crates/app/src/runtime/schedule/ranked/evaluate.rs). Of a record, the fields that the judgement
-- and the ranking read; of the search's input, the buffer and whether tentative time is allowed.
use eas_mail_mcp.Base.{
  ℕ, ◌+◌, ◌-◌, ◌*◌, Bool, true, false, ◌&&◌, ◌||◌, not, Option, none, some, List, [], ◌∷◌, ◌++◌,
  Bytes, leb, if◌then◌else◌,
}
use eas_mail_mcp.Schedule.Interval.{UtcInterval, minute}
use eas_mail_mcp.Schedule.Slots.{merge_intervals}
use eas_mail_mcp.Schedule.Availability.{FreeBusyState, ParticipantResolutionState, StatusInterval}

pub data Reason : Type 0 where
  outside_working_hours busy out_of_office tentative unknown : Reason

pub data CalendarParticipantRole : Type 0 where
  required optional : CalendarParticipantRole

-- `CalendarSlotParticipant`
pub record Summary : Type 0 where
  pub input : Bytes
  pub resolution : ParticipantResolutionState

pub record Record : Type 0 where
  pub summary : Summary
  pub intervals : List StatusInterval

pub record PersonPlan : Type 0 where
  pub role : CalendarParticipantRole
  pub working : List UtcInterval

-- `CalendarFindSlotsInput`
pub record FindInput : Type 0 where
  pub duration_minutes : ℕ
  pub buffer_minutes : ℕ
  pub allow_tentative : Bool

abbrev pub reason_eq : Reason → Reason → Bool
reason_eq Reason.outside_working_hours other = elim other [
  | Reason.outside_working_hours ↦ true
  | _ ↦ false
]
reason_eq Reason.busy other = elim other [ Reason.busy ↦ true | _ ↦ false ]
reason_eq Reason.out_of_office other = elim other [ Reason.out_of_office ↦ true | _ ↦ false ]
reason_eq Reason.tentative other = elim other [ Reason.tentative ↦ true | _ ↦ false ]
reason_eq Reason.unknown other = elim other [ Reason.unknown ↦ true | _ ↦ false ]

abbrev pub is_resolved : ParticipantResolutionState → Bool
is_resolved state = elim state [ ParticipantResolutionState.resolved ↦ true | _ ↦ false ]

-- `reasons.contains(&reason)`
abbrev pub has_reason : List Reason → Reason → Bool
has_reason [] reason = false
has_reason (r ∷ reasons) reason = reason_eq r reason || has_reason reasons reason

abbrev pub add_reason : List Reason → Reason → List Reason
add_reason reasons reason = if has_reason reasons reason then reasons else reasons ++ (reason ∷ [])

abbrev pub contained : UtcInterval → List UtcInterval → Bool
contained range [] = false
contained range (work ∷ working) =
    (leb work.start range.start && leb range.end work.end) || contained range working

-- The range with the buffer on both sides; `none` is chrono's panic on a time before its first.
abbrev pub pad : ℕ → UtcInterval → Option UtcInterval
pad buffer range = elim (leb buffer range.start) [
  | true ↦ some (record { start = range.start - buffer; end = range.end + buffer })
  | false ↦ none
]

-- The three variables of the loop of `assess`.
pub record Assessment : Type 0 where
  pub reasons : List Reason
  pub covered : List UtcInterval
  pub has_tentative : Bool

abbrev pub overlaps : StatusInterval → UtcInterval → Bool
overlaps v padded = not (leb padded.end v.range.start || leb v.range.end padded.start)

-- `match interval.status`
abbrev pub reason_of : Bool → FreeBusyState → Option Reason
reason_of allow FreeBusyState.free = none
reason_of allow FreeBusyState.tentative = if allow then none else some Reason.tentative
reason_of allow FreeBusyState.busy = some Reason.busy
reason_of allow FreeBusyState.out_of_office = some Reason.out_of_office
reason_of allow FreeBusyState.no_data = some Reason.unknown

abbrev pub sets_tentative : Bool → FreeBusyState → Bool
sets_tentative allow state = elim state [ FreeBusyState.tentative ↦ allow | _ ↦ false ]

abbrev pub add_optional : List Reason → Option Reason → List Reason
add_optional reasons none = reasons
add_optional reasons (some reason) = add_reason reasons reason

unfoldable pub assess_loop : Bool → UtcInterval → List StatusInterval → Assessment → Assessment
assess_loop allow padded [] st = st
assess_loop allow padded (v ∷ vs) st = assess_loop allow padded vs (
    if overlaps v padded
    then record {
      reasons = add_optional st.reasons (reason_of allow v.status);
      covered = st.covered ++ (v.range ∷ []);
      has_tentative = st.has_tentative || sets_tentative allow v.status;
    }
    else st)

-- What `assess` does once the range is padded.
unfoldable pub assess_padded :
    PersonPlan → Record → UtcInterval → UtcInterval → Bool → List Reason × Bool
unfolding assess_loop
assess_padded person entry range padded allow =
    let reasons =
      if contained range person.working then [] else Reason.outside_working_hours ∷ [] in
    let st =
      assess_loop allow padded entry.intervals
        (record { reasons = reasons; covered = []; has_tentative = false }) in
    (
      (if not (is_resolved entry.summary.resolution)
            || not (contained padded (merge_intervals st.covered))
          then add_reason st.reasons Reason.unknown
          else st.reasons),
      st.has_tentative,
    )

unfoldable pub assess : PersonPlan → Record → UtcInterval → FindInput → Option (List Reason × Bool)
unfolding assess_padded
assess person entry range input = elim (pad (input.buffer_minutes * minute) range) [
  | none ↦ none
  | some padded ↦ some (assess_padded person entry range padded input.allow_tentative)
]
