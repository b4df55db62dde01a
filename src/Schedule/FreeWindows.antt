-- ===== src/Schedule/FreeWindows.antt =====
-- A slot in a free window suits everybody (crates/app/src/runtime/schedule/ranked/evaluate.rs).
use eas_mail_mcp.Base.{
  ℕ, ◌<◌, if◌then◌else◌, ◌≡◌, refl, ◌∙◌, sym, subst, Bool, true, inl, inr, some, Option-cases, List,
  [], ◌∷◌, arith, All, Bytes,
}
use eas_mail_mcp.Schedule.Interval.{UtcInterval, contains}
use eas_mail_mcp.Schedule.Slots.{intersect_all, fitting}
use eas_mail_mcp.Schedule.Coverage.{covers, all_cover, covers-intersect_all}
use eas_mail_mcp.Schedule.Separation.{SeparatedFrom}
use eas_mail_mcp.Schedule.Statuses.{Exclusive}
use eas_mail_mcp.Schedule.Conflicts.{Proper}
use eas_mail_mcp.Schedule.Assess.{PersonPlan, Record, FindInput, contained, assess}
use eas_mail_mcp.Schedule.Suitable.{contained-covers}
use eas_mail_mcp.Schedule.Windows.{person_group, person_groups, windows, Suggestion, suggestion}
use eas_mail_mcp.Schedule.Eroded.{contained-fitting}
use eas_mail_mcp.Schedule.FreeSlot.{and_true, group-assess}

person_groups-cons :
    (person : PersonPlan) (people : List PersonPlan) (entry : Record) (entries : List Record)
    (input : FindInput) (groups : List (List UtcInterval))
    → person_groups (person ∷ people) (entry ∷ entries) input ≡ some groups
    → (group : List UtcInterval) × (rest : List (List UtcInterval)) × (person_group person entry
          input
        ≡ some group)
      × (person_groups people entries input ≡ some rest)
      × (groups ≡ group ∷ rest)
unfolding person_groups
person_groups-cons person people entry entries input groups h =
    elim (Option-cases (person_group person entry input)) [
      | inl e ↦ ground arith
      | inr (group, e) ↦ elim (Option-cases (person_groups people entries input)) [
        | inl f ↦ ground arith
        | inr (rest, f) ↦ (group, rest, e, f, ground arith)
      ]
    ]

-- Every participant's working hours are in order and apart.
abbrev pub PeopleInOrder : List PersonPlan → Type 0
PeopleInOrder = All (λ person. SeparatedFrom 0 person.working)

-- No record has an empty interval, or an instant with two statuses.
abbrev pub RecordsInOrder : List Record → Type 0
RecordsInOrder = All (λ entry. All Proper entry.intervals × Exclusive entry.intervals)

abbrev pub untroubled : UtcInterval → List Bytes → Suggestion
untroubled range tentative = record {
  range = range;
  conflicts = [];
  tentative_participants = tentative;
}

suggestion-cons :
    (person : PersonPlan) (people : List PersonPlan) (entry : Record) (entries : List Record)
    (range : UtcInterval) (input : FindInput) (tentative : Bool) (later : List Bytes)
    → assess person entry range input ≡ some ([], tentative)
    → suggestion people entries range input ≡ some (untroubled range later)
    → (names : List Bytes) × (suggestion (person ∷ people) (entry ∷ entries) range input
        ≡ some (untroubled range names))
unfolding suggestion
suggestion-cons person people entry entries range input tentative later a s =
    ((if tentative then entry.summary.input ∷ later else later), rw (suggestion, a, s) refl)

groups-suggestion :
    (people : List PersonPlan) (entries : List Record) (range : UtcInterval) (input : FindInput)
    (groups : List (List UtcInterval))
    → person_groups people entries input ≡ some groups
    → range.start < range.end
    → PeopleInOrder people
    → RecordsInOrder entries
    → ((t : ℕ) → contains range t ≡ true → all_cover groups t ≡ true)
    → (names : List Bytes) × (suggestion people entries range input ≡ some (untroubled range names))
groups-suggestion [] entries range input groups g p sp sr c = unfold suggestion in ([], refl)
groups-suggestion (person ∷ people) [] range input groups g p sp sr c =
    unfold suggestion in ([], refl)
groups-suggestion (person ∷ people) (entry ∷ entries) range input groups g p (sw, sp) ((ps, x), sr)
      c =
    let (group, rest, e, f, is) = person_groups-cons person people entry entries input groups g in
    let (tentative, judged) =
      group-assess person entry range input group e p sw ps x (λ t r. (both group rest is t r).0) in
    let (later, s) =
      groups-suggestion people entries range input rest f p sp sr
        (λ t r. (both group rest is t r).1) in
    suggestion-cons person people entry entries range input tentative later judged s
  where
    both :
        (group : List UtcInterval) (rest : List (List UtcInterval))
        → groups ≡ group ∷ rest
        → (t : ℕ) → contains range t ≡ true
        → (covers group t ≡ true) × (all_cover rest t ≡ true)
    both group rest is t r =
        and_true (covers group t) (all_cover rest t)
          (subst (λ gs. all_cover gs t ≡ true) is (c t r))

windows_parts :
    (working : List UtcInterval) (people : List PersonPlan) (entries : List Record)
    (input : FindInput) (limit : ℕ) (found : List UtcInterval)
    → windows working people entries input limit ≡ some found
    → (groups : List (List UtcInterval)) × (person_groups people entries input ≡ some groups)
      × (found ≡ fitting (intersect_all (working ∷ groups)) input.duration_minutes limit)
unfolding windows
windows_parts working people entries input limit found h =
    elim (Option-cases (person_groups people entries input)) [
      | inl e ↦ ground arith
      | inr (groups, e) ↦ (groups, e, ground arith)
    ]

-- Where the working hours of all participants are in order and apart, and no record has an empty
-- interval or an instant with two statuses, every slot that lies in a window found is suggested
-- without any conflict.
pub windows-suggestion :
    (working : List UtcInterval) (people : List PersonPlan) (entries : List Record)
    (input : FindInput) (limit : ℕ) (found : List UtcInterval) (range : UtcInterval)
    → PeopleInOrder people
    → RecordsInOrder entries
    → windows working people entries input limit ≡ some found
    → range.start < range.end
    → contained range found ≡ true
    → (names : List Bytes) × (suggestion people entries range input ≡ some (untroubled range names))
windows-suggestion working people entries input limit found range sp sr h p c =
    let (groups, g, is) = windows_parts working people entries input limit found h in
    let inside =
      contained-fitting range (intersect_all (working ∷ groups)) input.duration_minutes limit
        (subst (λ f. contained range f ≡ true) is c) in
    groups-suggestion people entries range input groups g p sp sr (λ t r.
      (and_true (covers working t) (all_cover groups t) (
        sym (covers-intersect_all working groups t)
        ∙ contained-covers range (intersect_all (working ∷ groups)) t inside r)).1)
