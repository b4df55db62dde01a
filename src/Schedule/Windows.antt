-- ===== src/Schedule/Windows.antt =====
-- The windows in which every participant is free, and the suggested slots
-- (crates/app/src/runtime/schedule/ranked/evaluate.rs and ranked.rs). The times of a window are
-- left as instants: the zone's text of an instant is chrono's.
use eas_mail_mcp.Base.{
  ℕ, suc, ◌+◌, ◌-◌, ◌*◌, Bool, true, false, ◌&&◌, ◌||◌, not, Option, none, some, List, [], ◌∷◌,
  Bytes, ltb, leb, if◌then◌else◌, length,
}
use eas_mail_mcp.Schedule.Interval.{UtcInterval, minute}
use eas_mail_mcp.Schedule.Slots.{merge_intervals, intersect_all, fitting}
use eas_mail_mcp.Schedule.Availability.{FreeBusyState, state_eq, StatusInterval}
use eas_mail_mcp.Schedule.Assess.{
  Reason, CalendarParticipantRole, Record, PersonPlan, FindInput, has_reason, is_resolved, assess,
}

-- `filter` and `map` over the intervals of a resolved record.
abbrev pub open_ranges : Bool → Bool → List StatusInterval → List UtcInterval
open_ranges resolved allow [] = []
open_ranges resolved allow (v ∷ vs) =
    let rest = open_ranges resolved allow vs in
    if resolved
      && (state_eq v.status FreeBusyState.free
          || (allow && state_eq v.status FreeBusyState.tentative))
    then v.range ∷ rest
    else rest

abbrev pub shrink : ℕ → UtcInterval → UtcInterval
shrink buffer v = record { start = v.start + buffer; end = v.end - buffer }

-- The buffer taken off both ends; `none` is chrono's panic on a time before its first.
unfoldable pub erode : ℕ → List UtcInterval → Option (List UtcInterval)
erode buffer [] = some []
erode buffer (v ∷ values) = elim (leb buffer v.end) [
  | false ↦ none
  | true ↦ elim (erode buffer values) [
    | none ↦ none
    | some rest ↦
        some (
          if ltb (shrink buffer v).start (shrink buffer v).end
          then shrink buffer v ∷ rest
          else rest)
  ]
]

-- The group that one round of the loop pushes.
unfoldable pub person_group : PersonPlan → Record → FindInput → Option (List UtcInterval)
person_group person entry input =
    let free =
      merge_intervals (
        open_ranges (is_resolved entry.summary.resolution) input.allow_tentative entry.intervals) in
    elim (erode (input.buffer_minutes * minute) free) [
      | none ↦ none
      | some eroded ↦ some (intersect_all (eroded ∷ person.working ∷ []))
    ]

-- The loop over `plan.people.iter().zip(records)`.
unfoldable pub person_groups :
    List PersonPlan → List Record → FindInput → Option (List (List UtcInterval))
person_groups [] entries input = some []
person_groups (person ∷ people) [] input = some []
person_groups (person ∷ people) (entry ∷ entries) input = elim (person_group person entry input) [
  | none ↦ none
  | some group ↦ elim (person_groups people entries input) [
    | none ↦ none
    | some groups ↦ some (group ∷ groups)
  ]
]

-- What `windows` has before the times are written out.
unfoldable pub windows :
    List UtcInterval → List PersonPlan → List Record → FindInput → ℕ → Option (List UtcInterval)
windows working people entries input limit = elim (person_groups people entries input) [
  | none ↦ none
  | some groups ↦ some (fitting (intersect_all (working ∷ groups)) input.duration_minutes limit)
]

-- `CalendarSlotConflict`
pub record SlotConflict : Type 0 where
  pub input : Bytes
  pub role : CalendarParticipantRole
  pub reasons : List Reason

-- `CalendarSlotSuggestion`
pub record Suggestion : Type 0 where
  pub range : UtcInterval
  pub conflicts : List SlotConflict
  pub tentative_participants : List Bytes

abbrev pub no_reasons : List Reason → Bool
no_reasons [] = true
no_reasons (reason ∷ reasons) = false

-- One round of the loop of `suggestion`, given what `assess` said.
abbrev pub report : PersonPlan → Record → List Reason × Bool → Suggestion → Suggestion
report person entry verdict rest = record rest {
  conflicts =
      if no_reasons verdict.0
      then rest.conflicts
      else record { input = entry.summary.input; role = person.role; reasons = verdict.0 }
        ∷ rest.conflicts;
  tentative_participants =
      if verdict.1
      then entry.summary.input ∷ rest.tentative_participants
      else rest.tentative_participants;
}

unfoldable pub suggestion :
    List PersonPlan → List Record → UtcInterval → FindInput → Option Suggestion
suggestion [] entries range input =
    some (record { range = range; conflicts = []; tentative_participants = [] })
suggestion (person ∷ people) [] range input =
    some (record { range = range; conflicts = []; tentative_participants = [] })
suggestion (person ∷ people) (entry ∷ entries) range input =
    elim (assess person entry range input) [
      | none ↦ none
      | some verdict ↦ elim (suggestion people entries range input) [
        | none ↦ none
        | some rest ↦ some (report person entry verdict rest)
      ]
    ]

abbrev pub role_eq : CalendarParticipantRole → CalendarParticipantRole → Bool
role_eq CalendarParticipantRole.required other = elim other [
  | CalendarParticipantRole.required ↦ true
  | _ ↦ false
]
role_eq CalendarParticipantRole.optional other = elim other [
  | CalendarParticipantRole.optional ↦ true
  | _ ↦ false
]

abbrev pub any_role : CalendarParticipantRole → List SlotConflict → Bool
any_role role [] = false
any_role role (c ∷ cs) = role_eq c.role role || any_role role cs

unfoldable pub required_safe : Suggestion → Bool
required_safe value = not (any_role CalendarParticipantRole.required value.conflicts)

abbrev pub filter_role : CalendarParticipantRole → List SlotConflict → List SlotConflict
filter_role role [] = []
filter_role role (c ∷ cs) =
    let rest = filter_role role cs in if role_eq c.role role then c ∷ rest else rest

abbrev pub count_unknown : List SlotConflict → ℕ
count_unknown [] = 0
count_unknown (c ∷ cs) =
    let rest = count_unknown cs in if has_reason c.reasons Reason.unknown then suc rest else rest

unfoldable pub counts : Suggestion → CalendarParticipantRole → ℕ × ℕ
counts value role =
    let conflicts = filter_role role value.conflicts in (length conflicts, count_unknown conflicts)
