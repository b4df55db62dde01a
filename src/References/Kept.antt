-- ===== src/References/Kept.antt =====
-- The three kinds of portable references, written and read (crates/app/src/references/object.rs).
use eas_mail_mcp.Base.{
  ◌≡◌, refl, ap, subst, [], ◌∷◌, false, Bool-cases, inl, inr, Bytes, ascii, bytes_eq, ltb, length,
  ok, err, ◌>>◌, arith,
}
use eas_mail_mcp.AppError
use eas_mail_mcp.AppError.{AppError}
use eas_mail_mcp.References.Payloads.{
  Patch, BackendMail, BackendEvent, AttachmentReference, MailPayload, MeetingReference, Json,
  Libraries, max_reference_bytes, invalid, validate_mail, validate_attachment, validate_event,
}
use eas_mail_mcp.References.Object.{
  kind, encode, of_expected, decode, encode_mail, folder_of, decode_mail, event_payload, event_of,
  patch_of, reference_uid, encode_event, decode_event, encode_attachment, decode_attachment,
  decode_meeting,
}
use eas_mail_mcp.References.Portable.{Documented, decode-encode, kind-encode}

decode_other :
    {A : Type 0} (libraries : Libraries) (json : Json A) (k other text : Bytes)
    → kind text ≡ ok k
    → bytes_eq k other ≡ false
    → decode libraries json other text ≡ err invalid
unfolding decode
decode_other libraries json k other text found differs =
    elim (Bool-cases (ltb max_reference_bytes (length text))) [
      | inl long ↦ rw long
      | inr fits ↦ rw fits (rw (found, of_expected) (rw differs refl))
    ]

-- A check that succeeded does so again.
check_again :
    {A B : Type 0} (check : AppError.Result (Unit {0})) (next : AppError.Result A)
    (again : AppError.Result B) {last : A}
    → (check >> next) ≡ ok last
    → (next ≡ ok last) × ((check >> again) ≡ again)
check_again (ok done) next again h = (h, refl)
check_again (err failure) next again h = cc

-- A UID that says something.
abbrev pub said : Patch Bytes → Patch Bytes
said Patch.missing = Patch.missing
said (Patch.value []) = Patch.missing
said (Patch.value (b ∷ uid)) = Patch.value (b ∷ uid)

uid_back : (uid : Patch Bytes) → patch_of (reference_uid uid) ≡ said uid
uid_back Patch.missing = refl
uid_back (Patch.value []) = refl
uid_back (Patch.value (b ∷ uid)) = refl

event_of-event_payload :
    (value : BackendEvent) → event_of (event_payload value) ≡ record value { uid = said value.uid }
event_of-event_payload value = ap (λ uid. record value { uid = uid }) (uid_back value.uid)

module _ (libraries : Libraries) where
  -- What is refused of a reference of one kind where another kind is wanted, and read where a
  -- meeting is.
  abbrev pub IsMail : Bytes → BackendMail → Type 0
  IsMail text mail =
      (decode_mail libraries text ≡ ok mail)
      × (decode_meeting libraries text ≡ ok (MeetingReference.mail mail))
      × (decode_event libraries text ≡ err invalid)
      × (decode_attachment libraries text ≡ err invalid)

  abbrev pub IsEvent : Bytes → BackendEvent → Type 0
  IsEvent text event =
      (decode_event libraries text ≡ ok event)
      × (decode_meeting libraries text ≡ ok (MeetingReference.event event))
      × (decode_mail libraries text ≡ err invalid)
      × (decode_attachment libraries text ≡ err invalid)

  abbrev pub IsAttachment : Bytes → AttachmentReference → Type 0
  IsAttachment text attachment =
      (decode_attachment libraries text ≡ ok attachment)
      × (decode_meeting libraries text ≡ err invalid)
      × (decode_mail libraries text ≡ err invalid)
      × (decode_event libraries text ≡ err invalid)

  module _ (k text : Bytes) (found : kind text ≡ ok k) where
    not_mail : bytes_eq k (ascii "mail") ≡ false → decode_mail libraries text ≡ err invalid
    unfolding decode_mail
    not_mail differs =
        rw (decode_other libraries libraries.mail_json k (ascii "mail") text found differs)

    not_event : bytes_eq k (ascii "event") ≡ false → decode_event libraries text ≡ err invalid
    unfolding decode_event
    not_event differs =
        rw (decode_other libraries libraries.event_json k (ascii "event") text found differs)

    not_attachment :
        bytes_eq k (ascii "attachment") ≡ false → decode_attachment libraries text ≡ err invalid
    unfolding decode_attachment
    not_attachment differs =
        rw (
          decode_other libraries libraries.attachment_json k (ascii "attachment") text found
            differs)

  -- A reference that is written for a message is read as that message, its folder the one of its
  -- locator, also where a meeting is wanted, and is refused as an event or an attachment.
  pub encode_mail-IsMail :
      (value : BackendMail) (text : Bytes)
      → Documented libraries libraries.mail_json
      → encode_mail libraries value ≡ ok text
      → IsMail text (record value { folder_id = folder_of value.source })
  unfolding encode_mail decode_mail decode_meeting
  encode_mail-IsMail value text laws h =
      let payload : MailPayload = record { account_id = value.account_id; source = value.source } in
      let mail : BackendMail = record value { folder_id = folder_of value.source } in
      let again : AppError.Result BackendMail = ok mail in
      let (wrote, valid) =
        check_again (validate_mail payload)
          (encode libraries libraries.mail_json (ascii "mail") payload) again h in
      let found =
        kind-encode libraries libraries.mail_json laws (ascii "mail") text payload refl refl
          wrote in
      let payload_back =
        decode-encode libraries libraries.mail_json laws (ascii "mail") text payload refl refl
          (omega arith) wrote in
      let read : decode_mail libraries text ≡ ok mail = rw payload_back valid in
      (
        read,
        rw found (rw read refl),
        not_event (ascii "mail") text found refl,
        not_attachment (ascii "mail") text found refl,
      )

  encode_event_kept :
      (value : BackendEvent) (text : Bytes)
      → Documented libraries libraries.event_json
      → encode_event libraries value ≡ ok text
      → IsEvent text (event_of (event_payload value))
  unfolding encode_event decode_event decode_meeting
  encode_event_kept value text laws h =
      let payload = event_payload value in
      let again : AppError.Result BackendEvent = ok (event_of payload) in
      let (wrote, valid) =
        check_again (validate_event libraries payload)
          (encode libraries libraries.event_json (ascii "event") payload) again h in
      let found =
        kind-encode libraries libraries.event_json laws (ascii "event") text payload refl refl
          wrote in
      let payload_back =
        decode-encode libraries libraries.event_json laws (ascii "event") text payload refl refl
          (omega arith) wrote in
      let read : decode_event libraries text ≡ ok (event_of payload) = rw payload_back valid in
      (
        read,
        rw found (rw read refl),
        not_mail (ascii "event") text found refl,
        not_attachment (ascii "event") text found refl,
      )

  -- A reference that is written for an event is read as that event, field by field, except that a
  -- UID that is empty is read as one that is missing, also where a meeting is wanted, and is refused
  -- as a message or an attachment.
  pub encode_event-IsEvent :
      (value : BackendEvent) (text : Bytes)
      → Documented libraries libraries.event_json
      → encode_event libraries value ≡ ok text
      → IsEvent text (record value { uid = said value.uid })
  encode_event-IsEvent value text laws h =
      subst (IsEvent text) (event_of-event_payload value) (encode_event_kept value text laws h)

  -- A reference that is written for an attachment is read as that attachment, and is refused as a
  -- meeting, a message or an event.
  pub encode_attachment-IsAttachment :
      (value : AttachmentReference) (text : Bytes)
      → Documented libraries libraries.attachment_json
      → encode_attachment libraries value ≡ ok text
      → IsAttachment text value
  unfolding encode_attachment decode_attachment decode_meeting
  encode_attachment-IsAttachment value text laws h =
      let again : AppError.Result AttachmentReference = ok value in
      let (wrote, valid) =
        check_again (validate_attachment value)
          (encode libraries libraries.attachment_json (ascii "attachment") value) again h in
      let found =
        kind-encode libraries libraries.attachment_json laws (ascii "attachment") text value refl
          refl wrote in
      let payload_back =
        decode-encode libraries libraries.attachment_json laws (ascii "attachment") text value refl
          refl (omega arith) wrote in
      (
        rw payload_back valid,
        rw found refl,
        not_mail (ascii "attachment") text found refl,
        not_event (ascii "attachment") text found refl,
      )
