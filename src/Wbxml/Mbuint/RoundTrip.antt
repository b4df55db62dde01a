-- ===== src/Wbxml/Mbuint/RoundTrip.antt =====
-- `mbuint` reads what `encode_mbuint` writes, and what it makes of longer forms.
use mathlib.Core.List.{reverse-append}
use native.Mathlib.Nat.{pow-suc}
use eas_mail_mcp.Base.{
  ℕ, zero, suc, ◌+◌, ◌*◌, ◌/◌, ◌%◌, ◌^◌, ◌≤◌, ◌<◌, ◌≡◌, refl, ap, ◌∙◌, [], ◌∷◌, ◌++◌, reverse,
  arith, Bytes, length, All, Bool-cases, ◌==◌, inl, inr, ok, length-append,
}
use eas_mail_mcp.Wbxml.Mbuint.{low_groups, set_top_bit, mark, encode_mbuint, mbuint_loop, mbuint}

-- The number that groups of seven bits stand for, highest first.
abbrev pub value_of : ℕ → Bytes → ℕ
value_of acc [] = acc
value_of acc (g ∷ groups) = value_of (acc * 128 + g) groups

abbrev pub AreGroups : Bytes → Type 0
AreGroups = All (λ g. g < 128)

value_of-append :
    (acc : ℕ) (xs ys : Bytes) → value_of acc (xs ++ ys) ≡ value_of (value_of acc xs) ys
value_of-append acc [] ys = refl
value_of-append acc (x ∷ xs) ys = value_of-append (acc * 128 + x) xs ys

mod_step :
    (acc acc' g : ℕ)
    → acc' ≡ acc % 2 ^ 64
    → g < 128
    → acc' * 128 % 2 ^ 64 + g ≡ (acc * 128 + g) % 2 ^ 64
mod_step acc acc' g e h = omega arith

set_top_bit_group : (g : ℕ) → g < 128 → set_top_bit g ≡ g + 128
set_top_bit_group g h = ground arith

mbuint_loop-mark :
    (rounds acc acc' : ℕ) (g : ℕ) (groups rest : Bytes)
    → acc' ≡ acc % 2 ^ 64
    → AreGroups (g ∷ groups)
    → length groups < rounds
    → mbuint_loop rounds acc' (mark (g ∷ groups) ++ rest)
      ≡ ok (value_of acc (g ∷ groups) % 2 ^ 64, rest)
unfolding mbuint_loop
mbuint_loop-mark zero acc acc' g groups rest e h l = absurd (omega arith)
mbuint_loop-mark (suc rounds) acc acc' g [] rest e (hg, _) l = ground (arith, mod_step acc acc' g)
mbuint_loop-mark (suc rounds) acc acc' g (g' ∷ groups) rest e (hg, hs) l = ground (
  arith,
  mod_step acc acc' g,
  set_top_bit_group g,
  mbuint_loop-mark rounds (acc * 128 + g) (acc' * 128 % 2 ^ 64 + g) g' groups rest,
)

AreGroups-append : (xs ys : Bytes) → AreGroups xs → AreGroups ys → AreGroups (xs ++ ys)
AreGroups-append [] ys hx hy = hy
AreGroups-append (x ∷ xs) ys (h, hx) hy = (h, AreGroups-append xs ys hx hy)

-- `mbuint` reads one to ten groups, marked as the encoder marks them, as the number that they
-- stand for modulo 2 ^ 64: it never answers that the number overflows.
pub mbuint-mark :
    (g : ℕ) (groups rest : Bytes)
    → AreGroups (g ∷ groups)
    → length groups < 10
    → mbuint (mark (g ∷ groups) ++ rest) ≡ ok (value_of 0 (g ∷ groups) % 2 ^ 64, rest)
unfolding mbuint
mbuint-mark g groups rest h l = mbuint_loop-mark 10 0 0 g groups rest refl h l

low_groups-AreGroups : (n v : ℕ) → AreGroups (reverse (low_groups n v))
unfolding low_groups
low_groups-AreGroups zero v = tt
low_groups-AreGroups (suc n) v = elim (Bool-cases (v / 128 == 0)) [
  | inl e ↦ rw e (omega arith, tt)
  | inr e ↦
      rw (e, reverse-append (v % 128 ∷ []) (low_groups n (v / 128)))
        (AreGroups-append (reverse (low_groups n (v / 128))) (v % 128 ∷ [])
          (low_groups-AreGroups n (v / 128)) (omega arith, tt))
]

low_groups-value_of : (n v : ℕ) → v < 128 ^ n → value_of 0 (reverse (low_groups n v)) ≡ v
unfolding low_groups
low_groups-value_of zero v h = omega arith
low_groups-value_of (suc n) v h = elim (Bool-cases (v / 128 == 0)) [
  | inl e ↦ rw e (ground arith)
  | inr e ↦
      rw
        (
          e,
          reverse-append (v % 128 ∷ []) (low_groups n (v / 128)),
          value_of-append 0 (reverse (low_groups n (v / 128))) (v % 128 ∷ []),
          low_groups-value_of n (v / 128) (omega (arith, pow-suc 128 n)),
        )
        (omega arith)
]

length-low_groups : (n v : ℕ) → length (reverse (low_groups n v)) ≤ n
unfolding low_groups
length-low_groups zero v = omega arith
length-low_groups (suc n) v = elim (Bool-cases (v / 128 == 0)) [
  | inl e ↦ rw e (omega arith)
  | inr e ↦
      rw
        (
          e,
          reverse-append (v % 128 ∷ []) (low_groups n (v / 128)),
          length-append (reverse (low_groups n (v / 128))) (v % 128 ∷ []),
        )
        (omega (arith, length-low_groups n (v / 128)))
]

length-low_groups_pos : (n v : ℕ) → 0 < length (reverse (low_groups (suc n) v))
unfolding low_groups
length-low_groups_pos n v = elim (Bool-cases (v / 128 == 0)) [
  | inl e ↦ rw e (omega arith)
  | inr e ↦
      rw
        (
          e,
          reverse-append (v % 128 ∷ []) (low_groups n (v / 128)),
          length-append (reverse (low_groups n (v / 128))) (v % 128 ∷ []),
        )
        (omega arith)
]

mbuint-mark_list :
    (groups rest : Bytes)
    → AreGroups groups
    → 0 < length groups
    → length groups ≤ 10
    → mbuint (mark groups ++ rest) ≡ ok (value_of 0 groups % 2 ^ 64, rest)
mbuint-mark_list [] rest h p l = absurd (omega arith)
mbuint-mark_list (g ∷ groups) rest h p l = mbuint-mark g groups rest h (omega arith)

-- A `usize` that is written is read back, and what follows it is left.
pub mbuint-encode_mbuint :
    (value : ℕ) (rest : Bytes)
    → value < 2 ^ 64
    → mbuint (encode_mbuint value ++ rest) ≡ ok (value, rest)
unfolding encode_mbuint
mbuint-encode_mbuint value rest h =
    mbuint-mark_list (reverse (low_groups 10 value)) rest (low_groups-AreGroups 10 value)
      (length-low_groups_pos 9 value) (length-low_groups 10 value)
    ∙ rw (low_groups-value_of 10 value (omega arith)) (ap (λ n. ok (n, rest)) (omega arith))
