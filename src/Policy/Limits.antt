-- ===== src/Policy/Limits.antt =====
-- The limits that a decision sets, whatever the policy (crates/eas/src/protocol/policy.rs).
use eas_mail_mcp.Base.{
  ◌*◌, ℕ, ◌≤◌, ◌≡◌, ap, ◌∙◌, Bool, false, ◌⊎◌, inl, inr, none, some, List, [], ◌∷◌, ◌++◌, Bytes,
  ascii, min, arith, if◌then◌else◌,
}
use eas_mail_mcp.Policy.Integer.{
  ℤ, Policy, Rule, refused, invalid, integer, integer_raw, integer_parsed,
}
use eas_mail_mcp.Policy.Evaluate.{loose_rule, PolicyDecision}
use eas_mail_mcp.Policy.Decision.{
  megabytes_25, mail_filters, calendar_filters, capped, filter_type, read_values, values_of,
  decide_policy, evaluate_policy,
}
use eas_mail_mcp.Policy.Readings.{integer_admitted}
use eas_mail_mcp.Policy.Meanings.{Says}

capped_le : (most : ℕ) (value : ℤ) → capped most value ≤ most
capped_le most (ℤ.pos n) = omega arith
capped_le most (ℤ.negsuc n) = omega arith

-- The value is absent or among the allowed ones.
abbrev Filter : List ℤ → ℤ → Type 0
Filter allowed value =
    (value ≡ ℤ.pos 0) ⊎ (refused (loose_rule (ℤ.pos 0) (some allowed)) value ≡ false)

mail_bounds :
    (value : ℤ) → Filter mail_filters value → (1 ≤ filter_type 5 value) × (filter_type 5 value ≤ 5)
mail_bounds (ℤ.pos n) f = (ground (arith, f), ground (arith, f))
mail_bounds (ℤ.negsuc n) (inl e) = ground (arith, e)
mail_bounds (ℤ.negsuc n) (inr r) = ground (arith, r)

calendar_bounds :
    (value : ℤ)
    → Filter calendar_filters value
    → (4 ≤ filter_type 6 value) × (filter_type 6 value ≤ 6)
calendar_bounds (ℤ.pos n) f = (ground (arith, f), ground (arith, f))
calendar_bounds (ℤ.negsuc n) (inl e) = ground (arith, e)
calendar_bounds (ℤ.negsuc n) (inr r) = ground (arith, r)

abbrev pub Bounded : PolicyDecision → Type 0
Bounded d =
    (d.max_attachment_bytes ≤ 25 * 1024 * 1024)
    × (d.body_limit ≤ 50_000)
    × ((1 ≤ d.mail_filter_type) × (d.mail_filter_type ≤ 5))
    × ((4 ≤ d.calendar_filter_type) × (d.calendar_filter_type ≤ 6))

-- For every policy, the decision allows attachments of at most 25 MiB and bodies of at most 50,000
-- bytes, and its filters are ages of mail that exist, 1 to 5 for mail and 4 to 6 for the calendar.
pub evaluate_policy-Bounded : (policy : Policy) → Bounded (evaluate_policy policy)
unfolding evaluate_policy decide_policy values_of read_values
evaluate_policy-Bounded policy = (
  capped_le megabytes_25 _,
  capped_le 50_000 _,
  mail_bounds _ (
      integer_admitted policy (ascii "MaxEmailAgeFilter") (loose_rule (ℤ.pos 0) (some mail_filters))
        _),
  calendar_bounds _ (
      integer_admitted policy (ascii "MaxCalendarAgeFilter")
        (loose_rule (ℤ.pos 0) (some calendar_filters)) _),
)

abbrev pick : Bool → ℤ × List Bytes → ℤ × List Bytes → ℤ
pick t x y = (if t then x else y).0

integer-Says :
    (policy : Policy) (name : Bytes) (rule : Rule) (reasons : List Bytes) (value : ℤ)
    → Says policy name value
    → refused rule value ≡ false
    → (integer policy name rule reasons).0 ≡ value
unfolding integer
integer-Says policy name rule reasons value ([], g, p) r = ground (arith, p)
integer-Says policy name rule reasons value (b ∷ bs, g, p) r =
    ap (λ o. (integer_raw name rule reasons o).0) g
    ∙ ap (λ o. (integer_parsed name rule reasons o).0) p
    ∙ ap (λ t. pick t (rule.default, reasons ++ (invalid name ∷ [])) (value, reasons)) r

-- Where the policy gives a largest size of attachments, the decision allows that size, capped at
-- 25 MiB.
pub max_attachment-Says :
    (policy : Policy) (n : ℕ)
    → Says policy (ascii "MaxAttachmentSize") (ℤ.pos n)
    → (evaluate_policy policy).max_attachment_bytes ≡ min n (25 * 1024 * 1024)
unfolding evaluate_policy decide_policy values_of read_values
max_attachment-Says policy n s = ap (capped megabytes_25) (
    integer-Says policy (ascii "MaxAttachmentSize") (loose_rule (ℤ.pos megabytes_25) none) _
      (ℤ.pos n) s (ground arith))
