-- ===== src/Policy/Checked.antt =====
-- What the checks of a policy leave, in the terms of their tables (crates/eas/src/protocol/policy.rs).
use eas_mail_mcp.Base.{
  ◌≡◌, refl, ap, ◌∙◌, sym, subst, Bool, true, false, ◌&&◌, inl, inr, none, some, Option-cases, List,
  [], ◌∷◌, Bytes, ascii, arith,
}
use eas_mail_mcp.Policy.Integer.{ℤ, eqℤ, Policy, get, contains_key}
use eas_mail_mcp.Policy.Fields.{
  known_fields, boolean_fields, strict_requirements, restricted_features, application_lists,
  numeric_fields,
}
use eas_mail_mcp.Policy.Evaluate.{
  has_name, unknown_in, Booleans, lookup, lookup_or, is_zero, boolean_values,
  validate_device_requirements, validate_numeric_fields, loose_rule, up_to_two,
}
use eas_mail_mcp.Policy.Decision.{
  megabytes_25, body_rule, mail_filters, calendar_filters, read_values, values_of, none_found,
  decide_policy, evaluate_policy,
}
use eas_mail_mcp.Policy.Readings.{integer_clean}
use eas_mail_mcp.Policy.Checks.{
  has_first, unknown_in_clean, check_strict_clean, check_restricted_clean, check_applications_clean,
  check_bluetooth_clean, check_numeric_clean, validate_body_limit_clean, BooleansRead,
  boolean_values_of_clean,
}
use eas_mail_mcp.Policy.Meanings.{
  AbsentOr, EmptyOr, loose_zero, loose_two, boolean_present, one_left, eqℤ→eq, firsts_in-has_first,
  strict_are_boolean, restricted_are_boolean,
}

read_values_clean :
    (policy : Policy) (booleans : Booleans) (reasons : List Bytes)
    → (read_values policy booleans reasons).reasons ≡ []
    → reasons ≡ []
unfolding read_values
read_values_clean policy booleans reasons h =
    let mail =
      (integer_clean policy (ascii "MaxCalendarAgeFilter")
        (loose_rule (ℤ.pos 0) (some calendar_filters)) _ h).0 in
    let checked =
      (integer_clean policy (ascii "MaxEmailAgeFilter") (loose_rule (ℤ.pos 0) (some mail_filters)) _
        mail).0 in
    let html_limit =
      (validate_body_limit_clean (ascii "MaxEmailHTMLBodyTruncationSize") _ _ checked).1 in
    let plain_limit =
      (validate_body_limit_clean (ascii "MaxEmailBodyTruncationSize") _ _ html_limit).1 in
    let html =
      (integer_clean policy (ascii "MaxEmailHTMLBodyTruncationSize") body_rule _ plain_limit).0 in
    let plain = (integer_clean policy (ascii "MaxEmailBodyTruncationSize") body_rule _ html).0 in
    (integer_clean policy (ascii "MaxAttachmentSize") (loose_rule (ℤ.pos megabytes_25) none) reasons
      plain).0

validate_numeric_fields_clean :
    (policy : Policy) (reasons : List Bytes)
    → validate_numeric_fields policy reasons ≡ []
    → reasons ≡ []
unfolding validate_numeric_fields
validate_numeric_fields_clean policy reasons h = check_numeric_clean policy numeric_fields reasons (
    (integer_clean policy (ascii "AllowSMIMEEncryptionAlgorithmNegotiation")
      (loose_rule (ℤ.pos 2) up_to_two) _ h).0)

-- What the tables of the checks ask of the policy.
pub record Checked (policy : Policy) : Type 0 where
  pub known : (name : Bytes) → contains_key policy name ≡ true → has_name known_fields name ≡ true
  pub strict :
      (name : Bytes) → has_first strict_requirements name ≡ true → AbsentOr policy name (ℤ.pos 0)
  pub restricted :
      (name : Bytes) → has_first restricted_features name ≡ true → AbsentOr policy name (ℤ.pos 1)
  pub bluetooth : EmptyOr policy (ascii "AllowBluetooth") (ℤ.pos 2)
  pub applications :
      (name : Bytes) → has_first application_lists name ≡ true → EmptyOr policy name (ℤ.pos 0)

has_key :
    (policy : Policy) (name raw : Bytes)
    → get policy name ≡ some raw
    → contains_key policy name ≡ true
has_key policy name raw g = ap (λ o. elim o as (λ p. Bool) [ none ↦ false | some r ↦ true ]) g

strict_absent :
    (policy : Policy) (booleans : Booleans) (name : Bytes)
    → BooleansRead policy boolean_fields booleans
    → has_name boolean_fields name ≡ true
    → eqℤ (lookup_or (ℤ.pos 0) booleans name) (ℤ.pos 0) ≡ true
    → AbsentOr policy name (ℤ.pos 0)
strict_absent policy booleans name reads m h = elim (Option-cases (get policy name)) [
  | inl absent ↦ inl absent
  | inr (raw, g) ↦
      let (value, found, reading) = reads name m (has_key policy name raw g) in
      let ((text, k, p), r) = boolean_present policy name raw value g reading in
      inr (
        text,
        k,
        p
            ∙ ap (λ v. some v)
                (eqℤ→eq value (ℤ.pos 0) (
                  subst
                    (λ o. eqℤ (elim o as (λ x. ℤ) [ none ↦ ℤ.pos 0 | some v ↦ v ]) (ℤ.pos 0) ≡ true)
                    found h)),
      )
]

restricted_absent :
    (policy : Policy) (booleans : Booleans) (name : Bytes)
    → BooleansRead policy boolean_fields booleans
    → has_name boolean_fields name ≡ true
    → (contains_key policy name && is_zero (lookup booleans name)) ≡ false
    → AbsentOr policy name (ℤ.pos 1)
restricted_absent policy booleans name reads m h = elim (Option-cases (get policy name)) [
  | inl absent ↦ inl absent
  | inr (raw, g) ↦
      let (value, found, reading) = reads name m (has_key policy name raw g) in
      let ((text, k, p), r) = boolean_present policy name raw value g reading in
      inr (
        text,
        k,
        p
            ∙ ap (λ v. some v)
                (one_left name value r (
                  subst (λ o. is_zero o ≡ false) found
                    (sym (ap (λ b. b && is_zero (lookup booleans name)) (has_key policy name raw g))
                      ∙ h))),
      )
]

-- What the checks in front of the readings of limits leave.
module _ (policy : Policy) where
  abbrev read : Booleans × List Bytes
  read = boolean_values policy (unknown_in policy)

  requirements_clean : validate_device_requirements policy read.0 read.1 ≡ [] → Checked policy
  unfolding validate_device_requirements
  requirements_clean h =
      let (after_bluetooth, applications) = check_applications_clean policy application_lists _ h in
      let (after_restricted, (value, reading, most)) =
        check_bluetooth_clean policy _ after_bluetooth in
      let (after_strict, restricted) =
        check_restricted_clean policy read.0 restricted_features _ after_restricted in
      let (after_booleans, strict) =
        check_strict_clean read.0 strict_requirements read.1 after_strict in
      let (none_unknown, reads) =
        boolean_values_of_clean policy boolean_fields (unknown_in policy) after_booleans in
      record {
        known = unknown_in_clean policy none_unknown;
        strict = λ name m.
            strict_absent policy read.0 name reads
              (firsts_in-has_first strict_requirements boolean_fields name strict_are_boolean m)
              (strict name m);
        restricted = λ name m.
            restricted_absent policy read.0 name reads
              (firsts_in-has_first restricted_features boolean_fields name restricted_are_boolean m)
              (restricted name m);
        bluetooth = loose_two policy (ascii "AllowBluetooth") value reading most;
        applications = λ name m.
            let (number, said, small) = applications name m in
            loose_zero policy name number said small;
      }

none_found→nil : (reasons : List Bytes) → none_found reasons ≡ true → reasons ≡ []
none_found→nil [] h = refl
none_found→nil (reason ∷ reasons) h = ground arith

pub supported-Checked :
    (policy : Policy) → (evaluate_policy policy).supported ≡ true → Checked policy
unfolding evaluate_policy decide_policy values_of
supported-Checked policy h = requirements_clean policy (
    validate_numeric_fields_clean policy _
      (read_values_clean policy (read policy).0 _ (none_found→nil _ h)))
