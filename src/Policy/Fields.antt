-- ===== src/Policy/Fields.antt =====
-- The names that a policy may have, and what each group of them asks for
-- (crates/eas/src/protocol/policy.rs).
use eas_mail_mcp.Base.{List, [], ◌∷◌, Bytes, ascii}

unfoldable pub known_fields : List Bytes
known_fields =
    ascii "AllowBluetooth"
    ∷ ascii "AllowBrowser"
    ∷ ascii "AllowCamera"
    ∷ ascii "AllowConsumerEmail"
    ∷ ascii "AllowDesktopSync"
    ∷ ascii "AllowHTMLEmail"
    ∷ ascii "AllowInternetSharing"
    ∷ ascii "AllowIrDA"
    ∷ ascii "AllowPOPIMAPEmail"
    ∷ ascii "AllowRemoteDesktop"
    ∷ ascii "AllowSimpleDevicePassword"
    ∷ ascii "AllowSMIMEEncryptionAlgorithmNegotiation"
    ∷ ascii "AllowSMIMESoftCerts"
    ∷ ascii "AllowStorageCard"
    ∷ ascii "AllowTextMessaging"
    ∷ ascii "AllowUnsignedApplications"
    ∷ ascii "AllowUnsignedInstallationPackages"
    ∷ ascii "AllowWiFi"
    ∷ ascii "AlphanumericDevicePasswordRequired"
    ∷ ascii "ApprovedApplicationList"
    ∷ ascii "AttachmentsEnabled"
    ∷ ascii "DevicePasswordEnabled"
    ∷ ascii "DevicePasswordExpiration"
    ∷ ascii "DevicePasswordHistory"
    ∷ ascii "MaxAttachmentSize"
    ∷ ascii "MaxCalendarAgeFilter"
    ∷ ascii "MaxDevicePasswordFailedAttempts"
    ∷ ascii "MaxEmailAgeFilter"
    ∷ ascii "MaxEmailBodyTruncationSize"
    ∷ ascii "MaxEmailHTMLBodyTruncationSize"
    ∷ ascii "MaxInactivityTimeDeviceLock"
    ∷ ascii "MinDevicePasswordComplexCharacters"
    ∷ ascii "MinDevicePasswordLength"
    ∷ ascii "PasswordRecoveryEnabled"
    ∷ ascii "RequireDeviceEncryption"
    ∷ ascii "RequireEncryptedSMIMEMessages"
    ∷ ascii "RequireEncryptionSMIMEAlgorithm"
    ∷ ascii "RequireManualSyncWhenRoaming"
    ∷ ascii "RequireSignedSMIMEAlgorithm"
    ∷ ascii "RequireSignedSMIMEMessages"
    ∷ ascii "RequireStorageCardEncryption"
    ∷ ascii "UnapprovedInROMApplicationList"
    ∷ []

unfoldable pub boolean_fields : List Bytes
boolean_fields =
    ascii "AllowBrowser"
    ∷ ascii "AllowCamera"
    ∷ ascii "AllowConsumerEmail"
    ∷ ascii "AllowDesktopSync"
    ∷ ascii "AllowHTMLEmail"
    ∷ ascii "AllowInternetSharing"
    ∷ ascii "AllowIrDA"
    ∷ ascii "AllowPOPIMAPEmail"
    ∷ ascii "AllowRemoteDesktop"
    ∷ ascii "AllowSimpleDevicePassword"
    ∷ ascii "AllowSMIMESoftCerts"
    ∷ ascii "AllowStorageCard"
    ∷ ascii "AllowTextMessaging"
    ∷ ascii "AllowUnsignedApplications"
    ∷ ascii "AllowUnsignedInstallationPackages"
    ∷ ascii "AllowWiFi"
    ∷ ascii "AlphanumericDevicePasswordRequired"
    ∷ ascii "AttachmentsEnabled"
    ∷ ascii "DevicePasswordEnabled"
    ∷ ascii "PasswordRecoveryEnabled"
    ∷ ascii "RequireDeviceEncryption"
    ∷ ascii "RequireEncryptedSMIMEMessages"
    ∷ ascii "RequireManualSyncWhenRoaming"
    ∷ ascii "RequireSignedSMIMEMessages"
    ∷ ascii "RequireStorageCardEncryption"
    ∷ []

unfoldable pub strict_requirements : List (Bytes × Bytes)
strict_requirements =
    (ascii "DevicePasswordEnabled", ascii "device password enforcement")
    ∷ (ascii "RequireDeviceEncryption", ascii "device-wide encryption enforcement")
    ∷ (ascii "RequireStorageCardEncryption", ascii "storage-card encryption")
    ∷ (ascii "RequireSignedSMIMEMessages", ascii "mandatory S/MIME signatures")
    ∷ (ascii "RequireEncryptedSMIMEMessages", ascii "mandatory S/MIME encryption")
    ∷ (ascii "RequireManualSyncWhenRoaming", ascii "manual synchronization while roaming")
    ∷ []

unfoldable pub restricted_features : List (Bytes × Bytes)
restricted_features =
    (ascii "AllowBrowser", ascii "browser restriction")
    ∷ (ascii "AllowCamera", ascii "camera restriction")
    ∷ (ascii "AllowConsumerEmail", ascii "consumer-email restriction")
    ∷ (ascii "AllowDesktopSync", ascii "desktop-sync restriction")
    ∷ (ascii "AllowInternetSharing", ascii "internet-sharing restriction")
    ∷ (ascii "AllowIrDA", ascii "IrDA restriction")
    ∷ (ascii "AllowPOPIMAPEmail", ascii "POP/IMAP restriction")
    ∷ (ascii "AllowRemoteDesktop", ascii "remote-desktop restriction")
    ∷ (ascii "AllowStorageCard", ascii "storage-card restriction")
    ∷ (ascii "AllowTextMessaging", ascii "text-messaging restriction")
    ∷ (ascii "AllowUnsignedApplications", ascii "unsigned-application restriction")
    ∷ (ascii "AllowUnsignedInstallationPackages", ascii "unsigned-package restriction")
    ∷ (ascii "AllowWiFi", ascii "Wi-Fi restriction")
    ∷ []

unfoldable pub application_lists : List (Bytes × Bytes)
application_lists =
    (ascii "ApprovedApplicationList", ascii "approved-application allowlist")
    ∷ (ascii "UnapprovedInROMApplicationList", ascii "blocked built-in applications")
    ∷ []

unfoldable pub numeric_fields : List Bytes
numeric_fields =
    ascii "DevicePasswordExpiration"
    ∷ ascii "DevicePasswordHistory"
    ∷ ascii "MaxDevicePasswordFailedAttempts"
    ∷ ascii "MaxInactivityTimeDeviceLock"
    ∷ ascii "MinDevicePasswordComplexCharacters"
    ∷ ascii "MinDevicePasswordLength"
    ∷ ascii "RequireEncryptionSMIMEAlgorithm"
    ∷ ascii "RequireSignedSMIMEAlgorithm"
    ∷ []
