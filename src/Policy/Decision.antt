-- ===== src/Policy/Decision.antt =====
-- The decision on a policy (crates/eas/src/protocol/policy.rs).
use eas_mail_mcp.Base.{
  ℕ, ◌-◌, ◌*◌, ◌%◌, Bool, true, false, none, some, List, [], ◌∷◌, Bytes, ascii, min, if◌then◌else◌,
}
use eas_mail_mcp.Policy.Integer.{ℤ, eqℤ, ltℤ, Policy, Rule, integer}
use eas_mail_mcp.Policy.Evaluate.{
  PolicyDecision, unknown_fields, boolean_values, Booleans, lookup_or, loose_rule,
  validate_device_requirements, validate_numeric_fields, validate_body_limit,
}

abbrev pub megabytes_25 : ℕ
megabytes_25 = 25 * 1024 * 1024

abbrev pub body_rule : Rule
body_rule = record { default = ℤ.negsuc 0; allowed = none; signed = true; empty_allowed = false }

abbrev pub mail_filters : List ℤ
mail_filters = ℤ.pos 0 ∷ ℤ.pos 1 ∷ ℤ.pos 2 ∷ ℤ.pos 3 ∷ ℤ.pos 4 ∷ ℤ.pos 5 ∷ []

abbrev pub calendar_filters : List ℤ
calendar_filters = ℤ.pos 0 ∷ ℤ.pos 4 ∷ ℤ.pos 5 ∷ ℤ.pos 6 ∷ ℤ.pos 7 ∷ []

-- `u64::try_from(value).unwrap_or(most).min(most)`, and the same for `usize`.
abbrev pub capped : ℕ → ℤ → ℕ
capped most (ℤ.pos n) = min n most
capped most (ℤ.negsuc n) = most

-- `value as u8`
abbrev pub as_u8 : ℤ → ℕ
as_u8 (ℤ.pos n) = n % 256
as_u8 (ℤ.negsuc n) = 255 - n % 256

abbrev pub minℤ : ℤ → ℤ → ℤ
minℤ a b = if ltℤ b a then b else a

-- `if filter == 0 { most } else { filter.min(most) as u8 }`
abbrev pub filter_type : ℕ → ℤ → ℕ
filter_type most filter = if eqℤ filter (ℤ.pos 0) then most else as_u8 (minℤ filter (ℤ.pos most))

-- The six numbers that `evaluate_policy` reads between the checks and the decision, and the
-- reasons after the last of them.
pub record Values : Type 0 where
  pub booleans : Booleans
  pub max_attachment : ℤ
  pub plain_body : ℤ
  pub html_body : ℤ
  pub mail_filter : ℤ
  pub calendar_filter : ℤ
  pub reasons : List Bytes

-- From the reading of `MaxAttachmentSize` on.
unfoldable pub read_values : Policy → Booleans → List Bytes → Values
read_values policy booleans reasons =
    let attachment =
      integer policy (ascii "MaxAttachmentSize") (loose_rule (ℤ.pos megabytes_25) none) reasons in
    let plain = integer policy (ascii "MaxEmailBodyTruncationSize") body_rule attachment.1 in
    let html = integer policy (ascii "MaxEmailHTMLBodyTruncationSize") body_rule plain.1 in
    let checked =
      validate_body_limit (ascii "MaxEmailHTMLBodyTruncationSize") html.0
        (validate_body_limit (ascii "MaxEmailBodyTruncationSize") plain.0 html.1) in
    let mail =
      integer policy (ascii "MaxEmailAgeFilter") (loose_rule (ℤ.pos 0) (some mail_filters))
        checked in
    let calendar =
      integer policy (ascii "MaxCalendarAgeFilter") (loose_rule (ℤ.pos 0) (some calendar_filters))
        mail.1 in
    record {
      booleans = booleans;
      max_attachment = attachment.0;
      plain_body = plain.0;
      html_body = html.0;
      mail_filter = mail.0;
      calendar_filter = calendar.0;
      reasons = calendar.1;
    }

unfoldable pub values_of : Policy → Values
values_of policy =
    let read = boolean_values policy (unknown_fields policy) in
    read_values policy read.0
      (validate_numeric_fields policy (validate_device_requirements policy read.0 read.1))

abbrev pub none_found : List Bytes → Bool
none_found [] = true
none_found (reason ∷ reasons) = false

unfoldable pub decide_policy : Values → PolicyDecision
decide_policy v =
    let selected =
      if eqℤ (lookup_or (ℤ.pos 1) v.booleans (ascii "AllowHTMLEmail")) (ℤ.pos 1)
      then v.html_body
      else v.plain_body in
    record {
      supported = none_found v.reasons;
      reasons = v.reasons;
      max_attachment_bytes = capped megabytes_25 v.max_attachment;
      attachments_enabled =
          eqℤ (lookup_or (ℤ.pos 1) v.booleans (ascii "AttachmentsEnabled")) (ℤ.pos 1);
      body_limit = capped 50_000 (if ltℤ selected (ℤ.pos 0) then ℤ.pos 50_000 else selected);
      mail_filter_type = filter_type 5 v.mail_filter;
      calendar_filter_type = filter_type 6 v.calendar_filter;
    }

unfoldable pub evaluate_policy : Policy → PolicyDecision
unfolding decide_policy
evaluate_policy policy = decide_policy (values_of policy)
