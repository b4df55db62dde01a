-- ===== src/Protocol/Slots.antt =====
-- What an answer of ResolveRecipients that is accepted holds
-- (crates/eas/src/protocol/availability.rs).
use eas_mail_mcp.Base.{
  ok_injective, err_not_ok, subst, ℕ, suc, ◌≤◌, ◌≡◌, refl, ap, ◌∙◌, ◌↔◌, Bool-cases, inl, inr, ◌||◌,
  not, List, [], ◌∷◌, Bytes, ltb, ◌==◌, length, All, ok, >>=-eq-ok, arith, le→ltb_false, ==_iff,
}
use eas_mail_mcp.EasError.{Result}
use eas_mail_mcp.Schedule.Availability.{FreeBusyState}
use eas_mail_mcp.Protocol.Availability.{
  max_free_busy_bytes, status_of_byte, collect_results, parse_slots,
}

-- The digit of a state.
abbrev pub digit_of : FreeBusyState → ℕ
digit_of FreeBusyState.free = b'0'
digit_of FreeBusyState.tentative = b'1'
digit_of FreeBusyState.busy = b'2'
digit_of FreeBusyState.out_of_office = b'3'
digit_of FreeBusyState.no_data = b'4'

abbrev pub digits_of : List FreeBusyState → Bytes
digits_of [] = []
digits_of (state ∷ states) = digit_of state ∷ digits_of states

status_of_byte-digit_of : (state : FreeBusyState) → status_of_byte (digit_of state) ≡ ok state
status_of_byte-digit_of FreeBusyState.free = refl
status_of_byte-digit_of FreeBusyState.tentative = refl
status_of_byte-digit_of FreeBusyState.busy = refl
status_of_byte-digit_of FreeBusyState.out_of_office = refl
status_of_byte-digit_of FreeBusyState.no_data = refl

digit_of_status : (b : ℕ) (state : FreeBusyState) → status_of_byte b ≡ ok state → b ≡ digit_of state
digit_of_status b state h = ground arith

collect_digits :
    (states : List FreeBusyState) → collect_results status_of_byte (digits_of states) ≡ ok states
collect_digits [] = refl
collect_digits (state ∷ states) = rw (status_of_byte-digit_of state, collect_digits states) refl

digits_collected :
    (given : Bytes) (states : List FreeBusyState)
    → collect_results status_of_byte given ≡ ok states
    → given ≡ digits_of states
digits_collected [] states h = ap digits_of (ok_injective h)
digits_collected (b ∷ given) states h =
    let (state, first, rest) = >>=-eq-ok (status_of_byte b) _ h in
    let (others, collected, same) = >>=-eq-ok (collect_results status_of_byte given) _ rest in
    (λ i. digit_of_status b state first i ∷ digits_collected given others collected i)
    ∙ ap digits_of (ok_injective same)

length-digits_of : (states : List FreeBusyState) → length (digits_of states) ≡ length states
length-digits_of [] = refl
length-digits_of (state ∷ states) = ap suc (length-digits_of states)

-- The text of a stream is accepted for a number of slots exactly if it is written in the digits of
-- the states that are answered, one for each slot, and there are at most 32,768.
pub parse_slots_iff :
    (given : Bytes) (expected_slots : ℕ) (states : List FreeBusyState)
    → (parse_slots given expected_slots ≡ ok states) ↔ (
        (given ≡ digits_of states)
        × (length states ≡ expected_slots)
        × (expected_slots ≤ max_free_busy_bytes))
unfolding parse_slots
parse_slots_iff given expected_slots states = (
  λ h.
      elim (Bool-cases
        (ltb max_free_busy_bytes (length given) || not (length given == expected_slots))) [
          | inl refused ↦ absurd (err_not_ok (rw refused at h))
          | inr accepted ↦
              let written = digits_collected given states (rw accepted at h) in
              (written, ground (arith, length-digits_of states, ap length written), ground arith)
        ],
  λ (written, count, bounded). rw written (
      rw
        (
          le→ltb_false max_free_busy_bytes (length (digits_of states))
              (omega (arith, length-digits_of states)),
          (==_iff (length (digits_of states)) expected_slots).1 (length-digits_of states ∙ count),
        )
        (collect_digits states)),
)

pub collect_results-All :
    {A B : Type 0} (P : B → Type 0) (f : A → Result B) (xs : List A) (ys : List B)
    → ((x : A) (y : B) → f x ≡ ok y → P y)
    → collect_results f xs ≡ ok ys
    → All P ys × (length ys ≡ length xs)
collect_results-All P f [] ys holds h =
    subst (λ l. All P l × (length l ≡ 0)) (ok_injective h) (tt, refl)
collect_results-All P f (x ∷ xs) ys holds h =
    let (y, first, rest) = >>=-eq-ok (f x) _ h in
    let (others, collected, same) = >>=-eq-ok (collect_results f xs) _ rest in
    let (all, count) = collect_results-All P f xs others holds collected in
    subst (λ l. All P l × (length l ≡ suc (length xs))) (ok_injective same)
      ((holds x y first, all), ap suc count)
