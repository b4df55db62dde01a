-- ===== src/Schedule/Attendable.antt =====
-- What the loop of `assess` finds (crates/app/src/runtime/schedule/ranked/evaluate.rs).
use eas_mail_mcp.Base.{
  ℕ, ◌≡◌, refl, ap, ◌∙◌, sym, Bool, true, false, ◌&&◌, ◌||◌, Bool-cases, inl, inr, List, [], ◌∷◌,
  ◌++◌, Option, none, some, arith, All,
}
use eas_mail_mcp.Schedule.Interval.{UtcInterval}
use eas_mail_mcp.Schedule.Availability.{FreeBusyState, state_eq, StatusInterval}
use eas_mail_mcp.Schedule.Statuses.{status_at}
use eas_mail_mcp.Schedule.Assess.{
  Reason, Assessment, add_reason, add_optional, reason_of, overlaps, sets_tentative, assess_loop,
}

-- The statuses in which a participant can attend.
abbrev pub attendable : Bool → FreeBusyState → Bool
attendable allow s = state_eq s FreeBusyState.free || (allow && state_eq s FreeBusyState.tentative)

-- The instant is known to be free, or tentative where that is allowed.
abbrev pub available_at : Bool → List StatusInterval → ℕ → Bool
available_at allow vs t =
    status_at vs FreeBusyState.free t || (allow && status_at vs FreeBusyState.tentative t)

pub reason_of-attendable :
    (allow : Bool) (s : FreeBusyState) → attendable allow s ≡ true → reason_of allow s ≡ none
reason_of-attendable allow FreeBusyState.free h = refl
reason_of-attendable true FreeBusyState.tentative h = refl
reason_of-attendable false FreeBusyState.tentative h = ground arith
reason_of-attendable allow FreeBusyState.busy h = ground arith
reason_of-attendable allow FreeBusyState.out_of_office h = ground arith
reason_of-attendable allow FreeBusyState.no_data h = ground arith

attendable-reason_of :
    (allow : Bool) (s : FreeBusyState) → reason_of allow s ≡ none → attendable allow s ≡ true
attendable-reason_of allow FreeBusyState.free h = refl
attendable-reason_of true FreeBusyState.tentative h = refl
attendable-reason_of false FreeBusyState.tentative h = ground arith
attendable-reason_of allow FreeBusyState.busy h = ground arith
attendable-reason_of allow FreeBusyState.out_of_office h = ground arith
attendable-reason_of allow FreeBusyState.no_data h = ground arith

pub add_reason_nonempty :
    (reasons : List Reason) (reason : Reason) → add_reason reasons reason ≡ [] → (P : Type 0) → P
add_reason_nonempty [] reason h P = ground arith
add_reason_nonempty (r ∷ reasons) reason h P = ground arith

add_optional_nil :
    (reasons : List Reason) (o : Option Reason)
    → add_optional reasons o ≡ []
    → (reasons ≡ []) × (o ≡ none)
add_optional_nil reasons none h = (h, refl)
add_optional_nil reasons (some reason) h = add_reason_nonempty reasons reason h _

-- Every interval that overlaps the range lets the participant attend.
abbrev pub Clear : Bool → UtcInterval → List StatusInterval → Type 0
Clear allow padded = All (λ v. overlaps v padded ≡ true → attendable allow v.status ≡ true)

abbrev pub visit : Bool → UtcInterval → StatusInterval → Assessment → Assessment
visit allow padded v st = record {
  reasons = add_optional st.reasons (reason_of allow v.status);
  covered = st.covered ++ (v.range ∷ []);
  has_tentative = st.has_tentative || sets_tentative allow v.status;
}

pub assess_loop-visit :
    (allow : Bool) (padded : UtcInterval) (v : StatusInterval) (vs : List StatusInterval)
    (st : Assessment)
    → overlaps v padded ≡ true
    → assess_loop allow padded (v ∷ vs) st ≡ assess_loop allow padded vs (visit allow padded v st)
unfolding assess_loop
assess_loop-visit allow padded v vs st h = rw (h) refl

pub assess_loop-pass :
    (allow : Bool) (padded : UtcInterval) (v : StatusInterval) (vs : List StatusInterval)
    (st : Assessment)
    → overlaps v padded ≡ false
    → assess_loop allow padded (v ∷ vs) st ≡ assess_loop allow padded vs st
unfolding assess_loop
assess_loop-pass allow padded v vs st h = rw (h) refl

pub assess_loop-Clear :
    (allow : Bool) (padded : UtcInterval) (vs : List StatusInterval) (st : Assessment)
    → (assess_loop allow padded vs st).reasons ≡ []
    → (st.reasons ≡ []) × Clear allow padded vs
assess_loop-Clear allow padded [] st h = unfold assess_loop in (h, tt)
assess_loop-Clear allow padded (v ∷ vs) st h = elim (Bool-cases (overlaps v padded)) [
  | inl o ↦
      let (here, later) =
        assess_loop-Clear allow padded vs (visit allow padded v st)
          (sym (ap (λ a. a.reasons) (assess_loop-visit allow padded v vs st o)) ∙ h) in
      let (before, this) = add_optional_nil st.reasons (reason_of allow v.status) here in
      (before, ((λ k. attendable-reason_of allow v.status this), later))
  | inr o ↦
      let (before, later) =
        assess_loop-Clear allow padded vs st
          (sym (ap (λ a. a.reasons) (assess_loop-pass allow padded v vs st o)) ∙ h) in
      (before, ((λ k. ground arith), later))
]

pub Clear-assess_loop :
    (allow : Bool) (padded : UtcInterval) (vs : List StatusInterval) (st : Assessment)
    → st.reasons ≡ []
    → Clear allow padded vs
    → (assess_loop allow padded vs st).reasons ≡ []
Clear-assess_loop allow padded [] st h c = unfold assess_loop in h
Clear-assess_loop allow padded (v ∷ vs) st h (this, c) = elim (Bool-cases (overlaps v padded)) [
  | inl o ↦ rw (assess_loop-visit allow padded v vs st o) (
      Clear-assess_loop allow padded vs (visit allow padded v st)
        (rw (reason_of-attendable allow v.status (this o)) h) c)
  | inr o ↦ rw (assess_loop-pass allow padded v vs st o) (Clear-assess_loop allow padded vs st h c)
]
