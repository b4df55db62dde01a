-- ===== src/Policy/Readings.antt =====
-- What it means that a reading added no reason (crates/eas/src/protocol/policy.rs).
use eas_mail_mcp.Base.{
  ◌≡◌, refl, ap, ◌∙◌, sym, subst, true, false, ◌⊎◌, inl, inr, Bool-cases, Option, none, some, List,
  [], ◌∷◌, ◌++◌, Bytes, arith,
}
use eas_mail_mcp.Policy.Integer.{
  ℤ, Policy, Rule, get, invalid, refused, parse_i64, integer, integer_raw, integer_parsed,
}

-- The value is the rule's for a field that is absent, or empty where that is allowed, or it is
-- what the field says, and the rule admits it.
abbrev pub Reading : Policy → Bytes → Rule → ℤ → Type 0
Reading policy name rule value =
    ((get policy name ≡ none) × (value ≡ rule.default))
    ⊎ (((get policy name ≡ some []) × (rule.empty_allowed ≡ true) × (value ≡ rule.default))
        ⊎ ((raw : Bytes) × (get policy name ≡ some raw)
            × (parse_i64 raw ≡ some value)
            × (refused rule value ≡ false)))

pub push_nonempty : {A : Type 0} (xs : List A) (x : A) → (xs ++ (x ∷ [])) ≡ [] → (P : Type 0) → P
push_nonempty [] x h P = ground arith
push_nonempty (y ∷ xs) x h P = ground arith

integer_parsed_taken :
    (name : Bytes) (rule : Rule) (reasons : List Bytes) (value : ℤ)
    → refused rule value ≡ false
    → integer_parsed name rule reasons (some value) ≡ (value, reasons)
integer_parsed_taken name rule reasons value r = rw (r) refl

integer_parsed_clean :
    (name : Bytes) (rule : Rule) (reasons : List Bytes) (parsed : Option ℤ)
    → (integer_parsed name rule reasons parsed).1 ≡ []
    → (reasons ≡ [])
      × (parsed ≡ some (integer_parsed name rule reasons parsed).0)
      × (refused rule (integer_parsed name rule reasons parsed).0 ≡ false)
integer_parsed_clean name rule reasons none h = push_nonempty reasons (invalid name) h _
integer_parsed_clean name rule reasons (some value) h = elim (Bool-cases (refused rule value)) [
  | inl r ↦ push_nonempty reasons (invalid name) (sym (ap (λ p. p.1) (rejected r)) ∙ h) _
  | inr r ↦ (
    sym (ap (λ p. p.1) (integer_parsed_taken name rule reasons value r)) ∙ h,
    ap (λ p. some p.0) (sym (integer_parsed_taken name rule reasons value r)),
    subst (λ p. refused rule p.0 ≡ false) (sym (integer_parsed_taken name rule reasons value r)) r,
  )
]
  where
    rejected :
        refused rule value ≡ true
        → integer_parsed name rule reasons (some value)
          ≡ (rule.default, reasons ++ (invalid name ∷ []))
    rejected r = rw (r) refl

integer_raw_clean :
    (policy : Policy) (name : Bytes) (rule : Rule) (reasons : List Bytes) (raw : Option Bytes)
    → get policy name ≡ raw
    → (integer_raw name rule reasons raw).1 ≡ []
    → (reasons ≡ []) × Reading policy name rule (integer_raw name rule reasons raw).0
integer_raw_clean policy name rule reasons none g h = (h, inl (g, refl))
integer_raw_clean policy name rule reasons (some []) g h = elim (Bool-cases rule.empty_allowed) [
  | inl e ↦ (ground (arith, e), inr (inl (g, e, refl)))
  | inr e ↦ push_nonempty reasons (invalid name) (ground (arith, e)) _
]
integer_raw_clean policy name rule reasons (some (b ∷ bs)) g h =
    let (before, parsed, admitted) =
      integer_parsed_clean name rule reasons (parse_i64 (b ∷ bs)) h in
    (before, inr (inr (b ∷ bs, g, parsed, admitted)))

-- A reading that leaves no reason found none before it, and none itself.
pub integer_clean :
    (policy : Policy) (name : Bytes) (rule : Rule) (reasons : List Bytes)
    → (integer policy name rule reasons).1 ≡ []
    → (reasons ≡ []) × Reading policy name rule (integer policy name rule reasons).0
unfolding integer
integer_clean policy name rule reasons h =
    integer_raw_clean policy name rule reasons (get policy name) refl h

-- Whatever the policy, a value that is read is the rule's or one that it admits.
pub integer_admitted :
    (policy : Policy) (name : Bytes) (rule : Rule) (reasons : List Bytes)
    → ((integer policy name rule reasons).0 ≡ rule.default)
      ⊎ (refused rule (integer policy name rule reasons).0 ≡ false)
unfolding integer
integer_admitted policy name rule reasons = of_raw (get policy name)
  where
    of_parsed :
        (parsed : Option ℤ)
        → ((integer_parsed name rule reasons parsed).0 ≡ rule.default)
          ⊎ (refused rule (integer_parsed name rule reasons parsed).0 ≡ false)
    of_parsed none = inl refl
    of_parsed (some value) = elim (Bool-cases (refused rule value)) [
      | inl r ↦ inl (rw (r) refl)
      | inr r ↦ inr (
          subst (λ p. refused rule p.0 ≡ false)
            (sym (integer_parsed_taken name rule reasons value r)) r)
    ]

    of_raw :
        (raw : Option Bytes)
        → ((integer_raw name rule reasons raw).0 ≡ rule.default)
          ⊎ (refused rule (integer_raw name rule reasons raw).0 ≡ false)
    of_raw none = inl refl
    of_raw (some []) = inl refl
    of_raw (some (b ∷ bs)) = of_parsed (parse_i64 (b ∷ bs))
