-- ===== src/Policy/Tests.antt =====
-- Concrete policies, and the theorems at them (crates/eas/src/protocol/policy.rs).
use eas_mail_mcp.Base.{◌*◌, ◌≡◌, refl, ap, true, [], ◌∷◌, ascii, min}
use eas_mail_mcp.Policy.Integer.{Policy, integer}
use eas_mail_mcp.Policy.Fields.{
  known_fields, boolean_fields, strict_requirements, restricted_features, application_lists,
  numeric_fields,
}
use eas_mail_mcp.Policy.Evaluate.{
  unknown_in, boolean_values_of, check_strict, check_restricted, check_bluetooth,
  check_applications, validate_device_requirements, check_numeric, validate_numeric_fields,
  validate_body_limit,
}
use eas_mail_mcp.Policy.Decision.{read_values, values_of, evaluate_policy}
use eas_mail_mcp.Policy.Supported.{Enforceable, supported-Enforceable}
use eas_mail_mcp.Policy.Limits.{Bounded, evaluate_policy-Bounded, max_attachment-Says}

abbrev small_attachments : Policy
small_attachments =
    (ascii "AllowBluetooth", ascii "2")
    ∷ (ascii "AllowCamera", ascii "1")
    ∷ (ascii "DevicePasswordEnabled", ascii "0")
    ∷ (ascii "MaxAttachmentSize", ascii "1000")
    ∷ (ascii "MaxEmailAgeFilter", ascii "3")
    ∷ []

abbrev no_camera : Policy
no_camera = (ascii "AllowCamera", ascii "0") ∷ (ascii "Fax", []) ∷ []

accepted : evaluate_policy small_attachments ≡ record {
  supported = true;
  reasons = [];
  max_attachment_bytes = 1000;
  attachments_enabled = true;
  body_limit = 50_000;
  mail_filter_type = 3;
  calendar_filter_type = 6;
}
unfolding evaluate_policy values_of read_values unknown_in boolean_values_of check_strict
    check_restricted check_bluetooth check_applications validate_device_requirements check_numeric
    validate_numeric_fields validate_body_limit integer known_fields boolean_fields
    strict_requirements restricted_features application_lists numeric_fields
accepted = refl

refused_reasons :
    (evaluate_policy no_camera).reasons
    ≡ ascii "unsupported policy field: Fax"
      ∷ ascii "unsupported device-wide policy: camera restriction"
      ∷ []
unfolding evaluate_policy values_of read_values unknown_in boolean_values_of check_strict
    check_restricted check_bluetooth check_applications validate_device_requirements check_numeric
    validate_numeric_fields validate_body_limit integer known_fields boolean_fields
    strict_requirements restricted_features application_lists numeric_fields
refused_reasons = refl

supported-Enforceable_example : Enforceable small_attachments
supported-Enforceable_example =
    supported-Enforceable small_attachments (ap (λ d. d.supported) accepted)

evaluate_policy-Bounded_example : Bounded (evaluate_policy no_camera)
evaluate_policy-Bounded_example = evaluate_policy-Bounded no_camera

max_attachment-Says_example :
    (evaluate_policy small_attachments).max_attachment_bytes ≡ min 1000 (25 * 1024 * 1024)
max_attachment-Says_example = max_attachment-Says small_attachments 1000 (ascii "1000", refl, refl)
