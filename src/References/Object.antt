-- ===== src/References/Object.antt =====
-- The portable references to messages, events and attachments
-- (crates/app/src/references/object.rs).
use eas_mail_mcp.Base.{
  ℕ, ◌&&◌, not, Option, none, some, List, [], ◌∷◌, ◌++◌, Bytes, ascii, bytes_eq, ltb, ◌==◌,
  if◌then◌else◌, length, ok, err, ◌>>=◌, ◌>>◌, ok_or,
}
use eas_mail_mcp.AppError
use eas_mail_mcp.AppError.{AppError, ErrorCode}
use eas_mail_mcp.References.Payloads.{
  MailSource, BackendMail, Patch, BackendEvent, AttachmentReference, MailPayload, EventPayload,
  MeetingReference, Json, Libraries, max_reference_bytes, max_payload_bytes, prefix, invalid,
  is_empty, validate_mail, validate_attachment, validate_event,
}

-- `str::split` and `str::split_once` at a dot.
abbrev pub onto_first : ℕ → List Bytes → List Bytes
onto_first b [] = (b ∷ []) ∷ []
onto_first b (part ∷ parts) = (b ∷ part) ∷ parts

abbrev pub split : Bytes → List Bytes
split [] = [] ∷ []
split (b ∷ bs) = let rest = split bs in if b == b'.' then [] ∷ rest else onto_first b rest

abbrev pub onto_before : ℕ → Option (Bytes × Bytes) → Option (Bytes × Bytes)
onto_before b none = none
onto_before b (some (before, after)) = some (b ∷ before, after)

abbrev pub split_once : Bytes → Option (Bytes × Bytes)
split_once [] = none
split_once (b ∷ bs) =
    let rest = split_once bs in if b == b'.' then some ([], bs) else onto_before b rest

abbrev pub kind_of_parts : List Bytes → AppError.Result Bytes
kind_of_parts (first ∷ kind ∷ encoded ∷ []) =
    if bytes_eq first prefix && not (is_empty kind) && not (is_empty encoded)
    then ok kind
    else err invalid
kind_of_parts parts = err invalid

unfoldable pub kind : Bytes → AppError.Result Bytes
kind given = kind_of_parts (split given)

-- The text after the second dot.
abbrev pub after_second : Option (Bytes × Bytes) → Option Bytes
after_second none = none
after_second (some (before, after)) = some after

abbrev pub after_first : Option (Bytes × Bytes) → Option Bytes
after_first none = none
after_first (some (before, after)) = after_second (split_once after)

abbrev pub encoded_part : Bytes → Option Bytes
encoded_part given = after_first (split_once given)

abbrev pub folder_of : MailSource → Bytes
folder_of (MailSource.item folder server) = folder
folder_of (MailSource.long_id id) = []

abbrev pub reference_uid : Patch Bytes → Option Bytes
reference_uid Patch.missing = none
reference_uid (Patch.value uid) = if is_empty uid then none else some uid

abbrev pub event_payload : BackendEvent → EventPayload
event_payload given = record {
  occurrence_start = given.occurrence_start;
  account_id = given.account_id;
  uid = reference_uid given.uid;
  long_id = given.long_id;
  collection_id = given.collection_id;
  server_id = given.server_id;
}

abbrev pub patch_of : Option Bytes → Patch Bytes
patch_of none = Patch.missing
patch_of (some uid) = Patch.value uid

abbrev pub event_of : EventPayload → BackendEvent
event_of payload = record {
  occurrence_start = payload.occurrence_start;
  account_id = payload.account_id;
  long_id = payload.long_id;
  collection_id = payload.collection_id;
  server_id = payload.server_id;
  uid = patch_of payload.uid;
}

module _ (libraries : Libraries) where
  unfoldable pub encode : {A : Type 0} → Json A → Bytes → A → AppError.Result Bytes
  encode json kind payload = ok_or (json.to_vec payload) invalid >>= λ bytes.
      if ltb max_payload_bytes (length bytes)
      then err invalid
      else ok (prefix ++ (b'.' ∷ kind ++ (b'.' ∷ libraries.base64_encode bytes)))

  abbrev pub of_bytes : {A : Type 0} → Json A → Bytes → AppError.Result A
  of_bytes json bytes =
      if ltb max_payload_bytes (length bytes)
      then err invalid
      else ok_or (json.from_slice bytes) invalid

  abbrev pub of_expected : {A : Type 0} → Json A → Bytes → Bytes → AppError.Result A
  of_expected json expected_kind given = kind given >>= λ found.
      if bytes_eq found expected_kind
      then (ok_or (encoded_part given) invalid >>= λ encoded.
          ok_or (libraries.base64_decode encoded) invalid >>= λ bytes. of_bytes json bytes)
      else err invalid

  unfoldable pub decode : {A : Type 0} → Json A → Bytes → Bytes → AppError.Result A
  decode json expected_kind given =
      if ltb max_reference_bytes (length given)
      then err invalid
      else of_expected json expected_kind given

  unfoldable pub encode_mail : BackendMail → AppError.Result Bytes
  encode_mail given =
      let payload : MailPayload = record { account_id = given.account_id; source = given.source } in
      validate_mail payload >> encode libraries.mail_json (ascii "mail") payload

  unfoldable pub decode_mail : Bytes → AppError.Result BackendMail
  decode_mail given = decode libraries.mail_json (ascii "mail") given >>= λ payload.
      validate_mail payload
      >> ok (record {
        account_id = payload.account_id;
        folder_id = folder_of payload.source;
        source = payload.source;
      })

  unfoldable pub encode_event : BackendEvent → AppError.Result Bytes
  encode_event given =
      let payload = event_payload given in
      validate_event libraries payload >> encode libraries.event_json (ascii "event") payload

  unfoldable pub decode_event : Bytes → AppError.Result BackendEvent
  decode_event given = decode libraries.event_json (ascii "event") given >>= λ payload.
      validate_event libraries payload >> ok (event_of payload)

  unfoldable pub encode_attachment : AttachmentReference → AppError.Result Bytes
  encode_attachment given =
      validate_attachment given >> encode libraries.attachment_json (ascii "attachment") given

  unfoldable pub decode_attachment : Bytes → AppError.Result AttachmentReference
  decode_attachment given =
      decode libraries.attachment_json (ascii "attachment") given >>= λ payload.
      validate_attachment payload >> ok payload

  unfoldable pub decode_meeting : Bytes → AppError.Result MeetingReference
  decode_meeting given = kind given >>= λ found.
      if bytes_eq found (ascii "event")
      then (decode_event given >>= λ decoded. ok (MeetingReference.event decoded))
      else if bytes_eq found (ascii "mail")
      then (decode_mail given >>= λ decoded. ok (MeetingReference.mail decoded))
      else err invalid
