-- ===== src/Schedule/Eroded.antt =====
-- Taking the buffer off the free intervals of a record, and choosing the windows that are long
-- enough (crates/app/src/runtime/schedule/ranked/evaluate.rs and slots.rs).
use eas_mail_mcp.Base.{
  ℕ, zero, suc, ◌+◌, ◌-◌, ◌*◌, ◌≤◌, ◌<◌, if◌then◌else◌, ◌≡◌, sym, subst, Bool, true, ◌&&◌,
  Bool-cases, inl, inr, some, Option-cases, List, [], ◌∷◌, arith, leb, ltb, take, leb→le,
}
use eas_mail_mcp.Schedule.Interval.{UtcInterval, minute}
use eas_mail_mcp.Schedule.Slots.{fitting, filter_long}
use eas_mail_mcp.Schedule.Coverage.{covers}
use eas_mail_mcp.Schedule.Separation.{SeparatedFrom}
use eas_mail_mcp.Schedule.Availability.{StatusInterval}
use eas_mail_mcp.Schedule.Assess.{contained}
use eas_mail_mcp.Schedule.Attendable.{available_at}
use eas_mail_mcp.Schedule.Windows.{open_ranges, shrink, erode}

contained-take :
    (range : UtcInterval) (n : ℕ) (vs : List UtcInterval)
    → contained range (take n vs) ≡ true
    → contained range vs ≡ true
contained-take range zero vs h = ground arith
contained-take range (suc n) [] h = h
contained-take range (suc n) (v ∷ vs) h = ground (arith, contained-take range n vs)

contained-filter_long :
    (range : UtcInterval) (d : ℕ) (vs : List UtcInterval)
    → contained range (filter_long d vs) ≡ true
    → contained range vs ≡ true
contained-filter_long range d [] h = h
contained-filter_long range d (v ∷ vs) h = ground (arith, contained-filter_long range d vs)

pub contained-fitting :
    (range : UtcInterval) (vs : List UtcInterval) (d n : ℕ)
    → contained range (fitting vs d n) ≡ true
    → contained range vs ≡ true
unfolding fitting
contained-fitting range vs d n h =
    contained-filter_long range (d * minute) vs
      (contained-take range n (filter_long (d * minute) vs) h)

pub covers-open_ranges :
    (resolved allow : Bool) (vs : List StatusInterval) (t : ℕ)
    → covers (open_ranges resolved allow vs) t ≡ (resolved && available_at allow vs t)
covers-open_ranges resolved allow [] t = ground arith
covers-open_ranges resolved allow (v ∷ vs) t =
    ground (arith, covers-open_ranges resolved allow vs t)

erode-cons :
    (buffer : ℕ) (v : UtcInterval) (vs eroded : List UtcInterval)
    → erode buffer (v ∷ vs) ≡ some eroded
    → (rest : List UtcInterval) × (buffer ≤ v.end)
      × (erode buffer vs ≡ some rest)
      × (eroded ≡ (
          if ltb (shrink buffer v).start (shrink buffer v).end
          then shrink buffer v ∷ rest
          else rest))
unfolding erode
erode-cons buffer v vs eroded h = elim (Bool-cases (leb buffer v.end)) [
  | inr small ↦ ground arith
  | inl big ↦ elim (Option-cases (erode buffer vs)) [
    | inl e ↦ ground arith
    | inr (rest, e) ↦ (rest, leb→le buffer v.end big, e, ground arith)
  ]
]

SeparatedFrom-weaken :
    (low high : ℕ) (vs : List UtcInterval)
    → low ≤ high
    → SeparatedFrom high vs
    → SeparatedFrom low vs
SeparatedFrom-weaken low high [] h s = tt
SeparatedFrom-weaken low high (v ∷ vs) h (l, p, s) = (omega arith, p, s)

SeparatedFrom-shrink :
    (buffer low : ℕ) (v : UtcInterval) (rest : List UtcInterval)
    → low ≤ v.start
    → v.start < v.end
    → SeparatedFrom (suc v.end) rest
    → SeparatedFrom low
        (if ltb (shrink buffer v).start (shrink buffer v).end then shrink buffer v ∷ rest else rest)
SeparatedFrom-shrink buffer low v rest l p s = ground (
  arith,
  SeparatedFrom-weaken (suc (v.end - buffer)) (suc v.end) rest,
  SeparatedFrom-weaken low (suc v.end) rest,
)

pub SeparatedFrom-erode :
    (buffer low : ℕ) (vs eroded : List UtcInterval)
    → SeparatedFrom low vs
    → erode buffer vs ≡ some eroded
    → SeparatedFrom low eroded
SeparatedFrom-erode buffer low [] eroded s h = unfold erode in ground arith
SeparatedFrom-erode buffer low (v ∷ vs) eroded (l, p, s) h =
    let (rest, big, e, is) = erode-cons buffer v vs eroded h in
    subst (SeparatedFrom low) (sym is) (
      SeparatedFrom-shrink buffer low v rest l p
        (SeparatedFrom-erode buffer (suc v.end) vs rest s e))

abbrev pub padded_by : ℕ → UtcInterval → UtcInterval
padded_by buffer range = record { start = range.start - buffer; end = range.end + buffer }

contained-shrink :
    (buffer : ℕ) (v range : UtcInterval) (vs rest : List UtcInterval)
    → buffer ≤ v.end
    → range.start < range.end
    → (contained range rest ≡ true
        → (buffer ≤ range.start) × (contained (padded_by buffer range) vs ≡ true))
    → contained range
        (if ltb (shrink buffer v).start (shrink buffer v).end then shrink buffer v ∷ rest else rest)
      ≡ true
    → (buffer ≤ range.start) × (contained (padded_by buffer range) (v ∷ vs) ≡ true)
contained-shrink buffer v range vs rest b p k h = (ground arith, ground arith)

-- A range within the eroded intervals keeps its buffers within the intervals.
pub contained-erode :
    (buffer : ℕ) (range : UtcInterval) (vs eroded : List UtcInterval)
    → range.start < range.end
    → erode buffer vs ≡ some eroded
    → contained range eroded ≡ true
    → (buffer ≤ range.start) × (contained (padded_by buffer range) vs ≡ true)
contained-erode buffer range [] eroded p h c = unfold erode in ground arith
contained-erode buffer range (v ∷ vs) eroded p h c =
    let (rest, big, e, is) = erode-cons buffer v vs eroded h in
    contained-shrink buffer v range vs rest big p (contained-erode buffer range vs rest p e)
      (subst (λ x. contained range x ≡ true) is c)
