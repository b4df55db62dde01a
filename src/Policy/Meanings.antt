-- ===== src/Policy/Meanings.antt =====
-- What the readings of fields say (crates/eas/src/protocol/policy.rs).
use eas_mail_mcp.Base.{
  ◌≡◌, refl, ap, ◌∙◌, subst, Bool, true, false, ◌&&◌, ◌⊎◌, inl, inr, Bool-cases, none, some, List,
  [], ◌∷◌, Bytes, bytes_eq, bytes_eq→eq, arith,
}
use eas_mail_mcp.Policy.Integer.{ℤ, eqℤ, ltℤ, Policy, get, refused, parse_i64}
use eas_mail_mcp.Policy.Fields.{boolean_fields, strict_requirements, restricted_features}
use eas_mail_mcp.Policy.Evaluate.{has_name, boolean_rule, loose_rule, up_to_two}
use eas_mail_mcp.Policy.Readings.{Reading}
use eas_mail_mcp.Policy.Checks.{has_first, clash}

-- The policy has the field, with this number.
abbrev pub Says : Policy → Bytes → ℤ → Type 0
Says policy name value = (raw : Bytes) × (get policy name ≡ some raw) × (parse_i64 raw ≡ some value)

abbrev pub AbsentOr : Policy → Bytes → ℤ → Type 0
AbsentOr policy name value = (get policy name ≡ none) ⊎ Says policy name value

abbrev pub EmptyOr : Policy → Bytes → ℤ → Type 0
EmptyOr policy name value = (get policy name ≡ some []) ⊎ AbsentOr policy name value

pub eqℤ→eq : (a b : ℤ) → eqℤ a b ≡ true → a ≡ b
eqℤ→eq (ℤ.pos a) (ℤ.pos b) h = ground arith
eqℤ→eq (ℤ.pos a) (ℤ.negsuc b) h = ground arith
eqℤ→eq (ℤ.negsuc a) (ℤ.pos b) h = ground arith
eqℤ→eq (ℤ.negsuc a) (ℤ.negsuc b) h = ground arith

pub loose_zero :
    (policy : Policy) (name : Bytes) (value : ℤ)
    → Reading policy name (loose_rule (ℤ.pos 0) none) value
    → ltℤ (ℤ.pos 0) value ≡ false
    → EmptyOr policy name (ℤ.pos 0)
loose_zero policy name value (inl (absent, d)) h = inr (inl absent)
loose_zero policy name value (inr (inl (empty, e, d))) h = inl empty
loose_zero policy name (ℤ.pos n) (inr (inr (raw, g, p, r))) h =
    inr (inr (raw, g, p ∙ ap (λ k. some (ℤ.pos k)) (ground (arith, h))))
loose_zero policy name (ℤ.negsuc n) (inr (inr (raw, g, p, r))) h = ground (arith, r)

two_left :
    (value : ℤ)
    → ltℤ value (ℤ.pos 2) ≡ false
    → refused (loose_rule (ℤ.pos 2) up_to_two) value ≡ false
    → value ≡ ℤ.pos 2
two_left (ℤ.pos n) h r = ground (arith, h, r)
two_left (ℤ.negsuc n) h r = ground (arith, h)

pub loose_two :
    (policy : Policy) (name : Bytes) (value : ℤ)
    → Reading policy name (loose_rule (ℤ.pos 2) up_to_two) value
    → ltℤ value (ℤ.pos 2) ≡ false
    → EmptyOr policy name (ℤ.pos 2)
loose_two policy name value (inl (absent, d)) h = inr (inl absent)
loose_two policy name value (inr (inl (empty, e, d))) h = inl empty
loose_two policy name value (inr (inr (raw, g, p, r))) h =
    inr (inr (raw, g, p ∙ ap (λ v. some v) (two_left value h r)))

pub boolean_present :
    (policy : Policy) (name raw : Bytes) (value : ℤ)
    → get policy name ≡ some raw
    → Reading policy name (boolean_rule name) value
    → Says policy name value × (refused (boolean_rule name) value ≡ false)
boolean_present policy name raw value g (inl (absent, d)) = cc
boolean_present policy name raw value g (inr (inl (empty, e, d))) = clash false refl e _
boolean_present policy name raw value g (inr (inr (found, k, p, r))) = ((found, k, p), r)

pub one_left :
    (name : Bytes) (value : ℤ)
    → refused (boolean_rule name) value ≡ false
    → eqℤ value (ℤ.pos 0) ≡ false
    → value ≡ ℤ.pos 1
one_left name (ℤ.pos n) r h = ground (arith, h, r)
one_left name (ℤ.negsuc n) r h = ground (arith, r)

-- Every first name of the list is one of the names.
abbrev pub firsts_in : List (Bytes × Bytes) → List Bytes → Bool
firsts_in [] names = true
firsts_in ((n, description) ∷ rest) names = has_name names n && firsts_in rest names

pub firsts_in-has_first :
    (list : List (Bytes × Bytes)) (names : List Bytes) (name : Bytes)
    → firsts_in list names ≡ true
    → has_first list name ≡ true
    → has_name names name ≡ true
firsts_in-has_first [] names name f h = ground arith
firsts_in-has_first ((n, description) ∷ rest) names name f h = elim (Bool-cases (bytes_eq n name)) [
  | inl e ↦ subst (λ k. has_name names k ≡ true) (bytes_eq→eq n name e) (ground (arith, f))
  | inr e ↦ firsts_in-has_first rest names name (ground (arith, f)) (ground (arith, e))
]

pub strict_are_boolean : firsts_in strict_requirements boolean_fields ≡ true
unfolding strict_requirements boolean_fields
strict_are_boolean = refl

pub restricted_are_boolean : firsts_in restricted_features boolean_fields ≡ true
unfolding restricted_features boolean_fields
restricted_are_boolean = refl
