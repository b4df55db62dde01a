-- ===== src/Schedule/Interval.antt =====
-- Instants and half-open intervals (crates/app/src/runtime/schedule/time.rs), and the standard
-- library's stable sort. An instant is the number of nanoseconds since the earliest one that
-- `DateTime<Utc>` has, so it is a natural number, and `Duration::minutes` is a multiple of `minute`.
use eas_mail_mcp.Base.{ℕ, ◌*◌, Bool, List, [], ◌∷◌, ◌&&◌, leb, ltb, if◌then◌else◌}

pub record UtcInterval : Type 0 where
  pub start : ℕ
  pub end : ℕ

abbrev pub minute : ℕ
minute = 60 * 1_000_000_000

-- `start <= t < end`
abbrev pub contains : UtcInterval → ℕ → Bool
contains v t = leb v.start t && ltb t v.end

-- `sort_by_key`: what stood earlier stays in front of what has the same key.
module _ {ℓ} {A : Type ℓ} (key : A → ℕ) where
  abbrev pub insert_by_key : A → List A → List A
  insert_by_key x [] = x ∷ []
  insert_by_key x (y ∷ ys) = if leb (key x) (key y) then x ∷ y ∷ ys else y ∷ insert_by_key x ys

  abbrev pub sort_by_key : List A → List A
  sort_by_key [] = []
  sort_by_key (x ∷ xs) = insert_by_key x (sort_by_key xs)
