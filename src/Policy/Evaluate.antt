-- ===== src/Policy/Evaluate.antt =====
-- The evaluation of a policy (crates/eas/src/protocol/policy.rs). The functions that push reasons
-- take the reasons found before and return them with theirs.
use eas_mail_mcp.Base.{
  ℕ, Bool, true, false, ◌&&◌, ◌||◌, not, Option, none, some, List, [], ◌∷◌, ◌++◌, Bytes, ascii,
  bytes_eq, ◌==◌, if◌then◌else◌,
}
use eas_mail_mcp.Policy.Integer.{ℤ, eqℤ, ltℤ, Policy, Rule, contains_key, invalid, integer}
use eas_mail_mcp.Policy.Fields.{
  known_fields, boolean_fields, strict_requirements, restricted_features, application_lists,
  numeric_fields,
}

pub record PolicyDecision : Type 0 where
  pub supported : Bool
  pub reasons : List Bytes
  pub max_attachment_bytes : ℕ
  pub attachments_enabled : Bool
  pub body_limit : ℕ
  pub mail_filter_type : ℕ
  pub calendar_filter_type : ℕ

abbrev pub has_name : List Bytes → Bytes → Bool
has_name [] name = false
has_name (n ∷ names) name = bytes_eq n name || has_name names name

unfoldable pub unknown_in : Policy → List Bytes
unknown_in [] = []
unknown_in ((name, value) ∷ policy) =
    let rest = unknown_in policy in
    if has_name known_fields name then rest else (ascii "unsupported policy field: " ++ name) ∷ rest

abbrev pub unknown_fields : Policy → List Bytes
unknown_fields policy = unknown_in policy

-- `name.starts_with(prefix)`
abbrev pub starts_with : Bytes → Bytes → Bool
starts_with name [] = true
starts_with [] (p ∷ prefix) = false
starts_with (b ∷ name) (p ∷ prefix) = (b == p) && starts_with name prefix

abbrev pub boolean_rule : Bytes → Rule
boolean_rule name = record {
  default =
      if starts_with name (ascii "Allow") || bytes_eq name (ascii "AttachmentsEnabled")
      then ℤ.pos 1
      else ℤ.pos 0;
  allowed = some (ℤ.pos 0 ∷ ℤ.pos 1 ∷ []);
  signed = false;
  empty_allowed = false;
}

-- `BTreeMap<&str, i64>`
abbrev pub Booleans : Type 0
Booleans = List (Bytes × ℤ)

abbrev pub lookup : Booleans → Bytes → Option ℤ
lookup [] name = none
lookup ((key, value) ∷ booleans) name =
    if bytes_eq key name then some value else lookup booleans name

-- The values of the fields that the policy has, in the order of the fields.
unfoldable pub boolean_values_of : Policy → List Bytes → List Bytes → Booleans × List Bytes
boolean_values_of policy [] reasons = ([], reasons)
boolean_values_of policy (name ∷ names) reasons =
    let present = integer policy name (boolean_rule name) reasons in
    let with_it = boolean_values_of policy names present.1 in
    let without = boolean_values_of policy names reasons in
    if contains_key policy name then ((name, present.0) ∷ with_it.0, with_it.1) else without

abbrev pub boolean_values : Policy → List Bytes → Booleans × List Bytes
boolean_values policy reasons = boolean_values_of policy boolean_fields reasons

abbrev pub lookup_or : ℤ → Booleans → Bytes → ℤ
lookup_or default booleans name = elim (lookup booleans name) [
  | none ↦ default
  | some value ↦ value
]

-- The three loops of `validate_device_requirements`, and the test between them.
unfoldable pub check_strict : Booleans → List (Bytes × Bytes) → List Bytes → List Bytes
check_strict booleans [] reasons = reasons
check_strict booleans ((name, description) ∷ rest) reasons = check_strict booleans rest (
    if not (eqℤ (lookup_or (ℤ.pos 0) booleans name) (ℤ.pos 0))
    then reasons ++ ((ascii "unsupported policy requirement: " ++ description) ∷ [])
    else reasons)

abbrev pub is_zero : Option ℤ → Bool
is_zero none = false
is_zero (some value) = eqℤ value (ℤ.pos 0)

abbrev pub device_wide : Bytes → Bytes
device_wide description = ascii "unsupported device-wide policy: " ++ description

unfoldable pub check_restricted : Policy → Booleans → List (Bytes × Bytes) → List Bytes → List Bytes
check_restricted policy booleans [] reasons = reasons
check_restricted policy booleans ((name, description) ∷ rest) reasons =
    check_restricted policy booleans rest (
      if contains_key policy name && is_zero (lookup booleans name)
      then reasons ++ (device_wide description ∷ [])
      else reasons)

-- The rule of a field that may be empty, with an optional list of values.
abbrev pub loose_rule : ℤ → Option (List ℤ) → Rule
loose_rule default allowed = record {
  default = default;
  allowed = allowed;
  signed = false;
  empty_allowed = true;
}

abbrev pub up_to_two : Option (List ℤ)
up_to_two = some (ℤ.pos 0 ∷ ℤ.pos 1 ∷ ℤ.pos 2 ∷ [])

unfoldable pub check_bluetooth : Policy → List Bytes → List Bytes
check_bluetooth policy reasons =
    let read = integer policy (ascii "AllowBluetooth") (loose_rule (ℤ.pos 2) up_to_two) reasons in
    if contains_key policy (ascii "AllowBluetooth")
    then (if ltℤ read.0 (ℤ.pos 2)
        then read.1 ++ (device_wide (ascii "Bluetooth restriction") ∷ [])
        else read.1)
    else reasons

unfoldable pub check_applications : Policy → List (Bytes × Bytes) → List Bytes → List Bytes
check_applications policy [] reasons = reasons
check_applications policy ((name, description) ∷ rest) reasons =
    let read = integer policy name (loose_rule (ℤ.pos 0) none) reasons in
    check_applications policy rest
      (if ltℤ (ℤ.pos 0) read.0 then read.1 ++ (device_wide description ∷ []) else read.1)

unfoldable pub validate_device_requirements : Policy → Booleans → List Bytes → List Bytes
validate_device_requirements policy booleans reasons = check_applications policy application_lists (
    check_bluetooth policy (
      check_restricted policy booleans restricted_features
        (check_strict booleans strict_requirements reasons)))

unfoldable pub check_numeric : Policy → List Bytes → List Bytes → List Bytes
check_numeric policy [] reasons = reasons
check_numeric policy (name ∷ names) reasons =
    check_numeric policy names (integer policy name (loose_rule (ℤ.pos 0) none) reasons).1

unfoldable pub validate_numeric_fields : Policy → List Bytes → List Bytes
validate_numeric_fields policy reasons =
    (integer policy (ascii "AllowSMIMEEncryptionAlgorithmNegotiation")
      (loose_rule (ℤ.pos 2) up_to_two) (check_numeric policy numeric_fields reasons)).1

unfoldable pub validate_body_limit : Bytes → ℤ → List Bytes → List Bytes
validate_body_limit name value reasons =
    if ltℤ value (ℤ.negsuc 0) then reasons ++ (invalid name ∷ []) else reasons
