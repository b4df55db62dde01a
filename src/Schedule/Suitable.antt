-- ===== src/Schedule/Suitable.antt =====
-- What it means that a participant has no conflict with a proposed meeting
-- (crates/app/src/runtime/schedule/ranked/evaluate.rs).
use eas_mail_mcp.Base.{
  ℕ, suc, ◌≤◌, ◌<◌, ◌≡◌, refl, ◌∙◌, Bool, true, false, ◌||◌, Bool-cases, inl, inr, List, [], ◌∷◌,
  ◌++◌, arith, max, All,
}
use eas_mail_mcp.Schedule.Interval.{UtcInterval, contains}
use eas_mail_mcp.Schedule.Coverage.{covers}
use eas_mail_mcp.Schedule.Separation.{SeparatedFrom}
use eas_mail_mcp.Schedule.Availability.{FreeBusyState, StatusInterval}
use eas_mail_mcp.Schedule.Statuses.{status_at, state_eq_refl, state_eq→eq}
use eas_mail_mcp.Schedule.Conflicts.{Proper}
use eas_mail_mcp.Schedule.Assess.{
  PersonPlan, Record, Assessment, overlaps, contained, is_resolved, assess_loop,
}
use eas_mail_mcp.Schedule.Attendable.{
  attendable, available_at, Clear, visit, assess_loop-visit, assess_loop-pass,
}

-- Something is known of the instant.
abbrev pub known_at : List StatusInterval → ℕ → Bool
known_at [] t = false
known_at (v ∷ vs) t = contains v.range t || known_at vs t

covers-snoc :
    (xs : List UtcInterval) (x : UtcInterval) (t : ℕ)
    → covers (xs ++ (x ∷ [])) t ≡ (covers xs t || contains x t)
covers-snoc [] x t = ground arith
covers-snoc (y ∷ xs) x t = ground (arith, covers-snoc xs x t)

or_assoc : (a b c : Bool) → ((a || b) || c) ≡ (a || (b || c))
or_assoc a b c = ground arith

-- Within the range, the loop collects what is known.
pub covers-assess_loop :
    (allow : Bool) (padded : UtcInterval) (vs : List StatusInterval) (st : Assessment) (t : ℕ)
    → contains padded t ≡ true
    → covers (assess_loop allow padded vs st).covered t ≡ (covers st.covered t || known_at vs t)
covers-assess_loop allow padded [] st t h = unfold assess_loop in ground arith
covers-assess_loop allow padded (v ∷ vs) st t h = elim (Bool-cases (overlaps v padded)) [
  | inl o ↦ rw (assess_loop-visit allow padded v vs st o) (
      covers-assess_loop allow padded vs (visit allow padded v st) t h
      ∙ rw (covers-snoc st.covered v.range t)
          (or_assoc (covers st.covered t) (contains v.range t) (known_at vs t)))
  | inr o ↦
      rw (assess_loop-pass allow padded v vs st o)
        (covers-assess_loop allow padded vs st t h ∙ ground arith)
]

pub contained-covers :
    (range : UtcInterval) (vs : List UtcInterval) (t : ℕ)
    → contained range vs ≡ true
    → contains range t ≡ true
    → covers vs t ≡ true
contained-covers range [] t h c = ground arith
contained-covers range (v ∷ vs) t h c = ground (arith, contained-covers range vs t)

SeparatedFrom-low :
    (low : ℕ) (vs : List UtcInterval) (t : ℕ) → SeparatedFrom low vs → covers vs t ≡ true → low ≤ t
SeparatedFrom-low low [] t s h = ground arith
SeparatedFrom-low low (v ∷ vs) t (l, p, s) h = ground (arith, SeparatedFrom-low (suc v.end) vs t)

-- In a merged list, a range whose instants are all covered lies in one interval.
pub covers-contained :
    (low : ℕ) (range : UtcInterval) (vs : List UtcInterval)
    → range.start < range.end
    → SeparatedFrom low vs
    → ((t : ℕ) → contains range t ≡ true → covers vs t ≡ true)
    → contained range vs ≡ true
covers-contained low range [] p s c = ground (arith, c range.start)
covers-contained low range (v ∷ vs) p (l, q, s) c = elim (Bool-cases (covers vs range.start)) [
  | inl later ↦
      let behind = SeparatedFrom-low (suc v.end) vs range.start s later in
      let rest = covers-contained (suc v.end) range vs p s (λ t r. ground (arith, c t)) in
      ground arith
  | inr here ↦ ground (arith, c range.start, c v.end, SeparatedFrom-low (suc v.end) vs v.end)
]

-- At every instant of the range every status that is given lets the participant attend.
abbrev pub ClearAt : Bool → UtcInterval → List StatusInterval → Type 0
ClearAt allow padded vs =
    (t : ℕ) (s : FreeBusyState)
    → contains padded t ≡ true
    → status_at vs s t ≡ true
    → attendable allow s ≡ true

pub Clear→ClearAt :
    (allow : Bool) (padded : UtcInterval) (vs : List StatusInterval)
    → Clear allow padded vs
    → ClearAt allow padded vs
Clear→ClearAt allow padded [] c t s h k = ground arith
Clear→ClearAt allow padded (v ∷ vs) (this, c) t s h k =
    ground (arith, state_eq→eq v.status s, Clear→ClearAt allow padded vs c t s h)

common_instant :
    (v : StatusInterval) (padded : UtcInterval)
    → Proper v
    → padded.start < padded.end
    → overlaps v padded ≡ true
    → (contains padded (max v.range.start padded.start) ≡ true)
      × (contains v.range (max v.range.start padded.start) ≡ true)
common_instant v padded p q o = (ground arith, ground arith)

pub ClearAt→Clear :
    (allow : Bool) (padded : UtcInterval) (vs : List StatusInterval)
    → padded.start < padded.end
    → All Proper vs
    → ClearAt allow padded vs
    → Clear allow padded vs
ClearAt→Clear allow padded [] q ps c = tt
ClearAt→Clear allow padded (v ∷ vs) q (p, ps) c = (
  (λ o.
      let (inside, here) = common_instant v padded p q o in
      c (max v.range.start padded.start) v.status inside (rw (here, state_eq_refl v.status) refl)),
  ClearAt→Clear allow padded vs q ps (λ t s h k. c t s h (ground arith)),
)

-- What is known of an instant lets the participant attend.
pub known-available :
    (allow : Bool) (padded : UtcInterval) (vs : List StatusInterval) (t : ℕ)
    → Clear allow padded vs
    → contains padded t ≡ true
    → known_at vs t ≡ available_at allow vs t
known-available allow padded [] t c h = ground arith
known-available allow padded (v ∷ vs) t (this, c) h =
    ground (arith, known-available allow padded vs t c h)

-- The participant is one person, at work, and can attend at every instant.
abbrev pub Suitable : Bool → PersonPlan → Record → UtcInterval → UtcInterval → Type 0
Suitable allow person entry range padded =
    (is_resolved entry.summary.resolution ≡ true)
    × (contained range person.working ≡ true)
    × ((t : ℕ) → contains padded t ≡ true → available_at allow entry.intervals t ≡ true)
    × ClearAt allow padded entry.intervals
