-- ===== src/Policy/Supported.antt =====
-- What a policy must say to be supported (crates/eas/src/protocol/policy.rs), in the names of the
-- fields of a provisioning document.
use eas_mail_mcp.Base.{
  ◌≡◌, refl, subst, Bool, true, ◌&&◌, inl, inr, Bool-cases, List, [], ◌∷◌, ◌++◌, Bytes, bytes_eq,
  bytes_eq→eq, ascii, All, arith,
}
use eas_mail_mcp.Policy.Integer.{ℤ, Policy, contains_key}
use eas_mail_mcp.Policy.Fields.{
  known_fields, strict_requirements, restricted_features, application_lists,
}
use eas_mail_mcp.Policy.Evaluate.{has_name}
use eas_mail_mcp.Policy.Decision.{evaluate_policy}
use eas_mail_mcp.Policy.Checks.{has_first}
use eas_mail_mcp.Policy.Meanings.{AbsentOr, EmptyOr}
use eas_mail_mcp.Policy.Checked.{supported-Checked}

-- What a server may demand of a device: a password, encryption, S/MIME, synchronization by hand.
abbrev pub demands : List Bytes
demands =
    ascii "DevicePasswordEnabled"
    ∷ ascii "RequireDeviceEncryption"
    ∷ ascii "RequireStorageCardEncryption"
    ∷ ascii "RequireSignedSMIMEMessages"
    ∷ ascii "RequireEncryptedSMIMEMessages"
    ∷ ascii "RequireManualSyncWhenRoaming"
    ∷ []

-- Features of a device that a server may forbid.
abbrev pub features : List Bytes
features =
    ascii "AllowBrowser"
    ∷ ascii "AllowCamera"
    ∷ ascii "AllowConsumerEmail"
    ∷ ascii "AllowDesktopSync"
    ∷ ascii "AllowInternetSharing"
    ∷ ascii "AllowIrDA"
    ∷ ascii "AllowPOPIMAPEmail"
    ∷ ascii "AllowRemoteDesktop"
    ∷ ascii "AllowStorageCard"
    ∷ ascii "AllowTextMessaging"
    ∷ ascii "AllowUnsignedApplications"
    ∷ ascii "AllowUnsignedInstallationPackages"
    ∷ ascii "AllowWiFi"
    ∷ []

-- The lists of applications.
abbrev pub applications : List Bytes
applications = ascii "ApprovedApplicationList" ∷ ascii "UnapprovedInROMApplicationList" ∷ []

-- What a mail client keeps to by itself: how much mail, how large, and in what form.
abbrev pub mail_limits : List Bytes
mail_limits =
    ascii "MaxAttachmentSize"
    ∷ ascii "MaxCalendarAgeFilter"
    ∷ ascii "MaxEmailAgeFilter"
    ∷ ascii "MaxEmailBodyTruncationSize"
    ∷ ascii "MaxEmailHTMLBodyTruncationSize"
    ∷ ascii "AttachmentsEnabled"
    ∷ ascii "AllowHTMLEmail"
    ∷ []

-- Rules for a password, for a device that has to have one.
abbrev pub password_rules : List Bytes
password_rules =
    ascii "AllowSimpleDevicePassword"
    ∷ ascii "AlphanumericDevicePasswordRequired"
    ∷ ascii "DevicePasswordExpiration"
    ∷ ascii "DevicePasswordHistory"
    ∷ ascii "MaxDevicePasswordFailedAttempts"
    ∷ ascii "MaxInactivityTimeDeviceLock"
    ∷ ascii "MinDevicePasswordComplexCharacters"
    ∷ ascii "MinDevicePasswordLength"
    ∷ ascii "PasswordRecoveryEnabled"
    ∷ []

-- Rules for S/MIME, for messages that have to use it.
abbrev pub smime_rules : List Bytes
smime_rules =
    ascii "AllowSMIMEEncryptionAlgorithmNegotiation"
    ∷ ascii "AllowSMIMESoftCerts"
    ∷ ascii "RequireEncryptionSMIMEAlgorithm"
    ∷ ascii "RequireSignedSMIMEAlgorithm"
    ∷ []

-- The policy demands nothing and forbids nothing: a demand is absent or 0, a feature absent or 1,
-- Bluetooth absent, empty or allowed in full, a list of applications absent, empty or 0; and it has
-- none but these fields, the limits of mail, and rules that apply where something is demanded.
pub record Enforceable (policy : Policy) : Type 0 where
  pub nothing_demanded : All (λ name. AbsentOr policy name (ℤ.pos 0)) demands
  pub nothing_forbidden : All (λ name. AbsentOr policy name (ℤ.pos 1)) features
  pub bluetooth_whole : EmptyOr policy (ascii "AllowBluetooth") (ℤ.pos 2)
  pub no_applications : All (λ name. EmptyOr policy name (ℤ.pos 0)) applications
  pub nothing_else :
      (name : Bytes)
      → contains_key policy name ≡ true
      → has_name
          (ascii "AllowBluetooth" ∷ demands
            ++ features
            ++ applications
            ++ mail_limits
            ++ password_rules
            ++ smime_rules)
          name
        ≡ true

-- Every name of the first list is in the second.
abbrev names_in : List Bytes → List Bytes → Bool
names_in [] others = true
names_in (name ∷ names) others = has_name others name && names_in names others

names_in-has_name :
    (names others : List Bytes) (name : Bytes)
    → names_in names others ≡ true
    → has_name names name ≡ true
    → has_name others name ≡ true
names_in-has_name [] others name inside has = ground (arith, has)
names_in-has_name (n ∷ names) others name inside has = elim (Bool-cases (bytes_eq n name)) [
  | inl same ↦
      subst (λ k. has_name others k ≡ true) (bytes_eq→eq n name same) (ground (arith, inside))
  | inr other ↦
      names_in-has_name names others name (ground (arith, inside)) (ground (arith, has, other))
]

-- Every name of the list is in the table.
abbrev in_table : List Bytes → List (Bytes × Bytes) → Bool
in_table [] table = true
in_table (name ∷ names) table = has_first table name && in_table names table

each :
    {P : Bytes → Type 0} (names : List Bytes) (table : List (Bytes × Bytes))
    → in_table names table ≡ true
    → ((name : Bytes) → has_first table name ≡ true → P name)
    → All P names
each [] table inside holds = tt
each (name ∷ names) table inside holds =
    (holds name (ground (arith, inside)), each names table (ground (arith, inside)) holds)

demands_checked : in_table demands strict_requirements ≡ true
unfolding strict_requirements
demands_checked = refl

features_checked : in_table features restricted_features ≡ true
unfolding restricted_features
features_checked = refl

applications_checked : in_table applications application_lists ≡ true
unfolding application_lists
applications_checked = refl

known_named :
    names_in known_fields (
      ascii "AllowBluetooth" ∷ demands
      ++ features
      ++ applications
      ++ mail_limits
      ++ password_rules
      ++ smime_rules)
    ≡ true
unfolding known_fields
known_named = refl

-- A policy that is found to be supported omits or sets to 0 the six demands on a device (a password,
-- encryption of the device and of storage cards, S/MIME signatures and encryption, synchronization
-- by hand while roaming), omits or sets to 1 each of the thirteen features it could forbid, omits,
-- leaves empty or sets to 2 Bluetooth, and omits, leaves empty or sets to 0 both lists of
-- applications. Whatever else it has is one of twenty named fields, limits of mail and rules for
-- passwords and S/MIME, on whose values the theorem says nothing.
pub supported-Enforceable :
    (policy : Policy) → (evaluate_policy policy).supported ≡ true → Enforceable policy
supported-Enforceable policy h =
    let checked = supported-Checked policy h in
    record {
      nothing_demanded = each demands strict_requirements demands_checked (checked.strict);
      nothing_forbidden = each features restricted_features features_checked (checked.restricted);
      bluetooth_whole = checked.bluetooth;
      no_applications =
          each applications application_lists applications_checked (checked.applications);
      nothing_else =
          λ name has. names_in-has_name known_fields _ name known_named (checked.known name has);
    }
