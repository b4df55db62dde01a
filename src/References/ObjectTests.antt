-- ===== src/References/ObjectTests.antt =====
-- Concrete references, and the theorems at them
-- (crates/app/src/references/object.rs).
use eas_mail_mcp.Base.{◌≡◌, refl, none, [], ◌++◌, Bytes, ascii, ok}
use eas_mail_mcp.References.Payloads.{
  MailSource, BackendMail, Patch, BackendEvent, AttachmentReference, validate_event,
}
use eas_mail_mcp.References.Object.{encode, encode_mail, folder_of, encode_event, encode_attachment}
use eas_mail_mcp.References.Kept.{
  IsMail, IsEvent, IsAttachment, encode_mail-IsMail, encode_event-IsEvent,
  encode_attachment-IsAttachment,
}
use eas_mail_mcp.References.Simple.{
  armoured, prefixed, mail_vec, attachment_vec, simple, mail_laws, event_laws, attachment_laws,
}

abbrev letter : BackendMail
letter = record {
  account_id = ascii "work";
  folder_id = [];
  source = MailSource.item (ascii "5") (ascii "5:1");
}

abbrev letter_text : Bytes
letter_text =
    ascii "ref1.mail."
    ++ armoured (mail_vec (ascii "work") (MailSource.item (ascii "5") (ascii "5:1")))

abbrev meeting : BackendEvent
meeting = record {
  occurrence_start = none;
  account_id = ascii "work";
  long_id = ascii "L1";
  collection_id = none;
  server_id = none;
  uid = Patch.value [];
}

abbrev meeting_text : Bytes
meeting_text = ascii "ref1.event." ++ armoured (prefixed (ascii "work") (ascii "L1"))

abbrev paper : AttachmentReference
paper = record {
  account_id = ascii "work";
  file_reference = ascii "f7";
  display_name = ascii "a.pdf";
}

abbrev paper_text : Bytes
paper_text = ascii "ref1.attachment." ++ armoured (attachment_vec paper)

letter_encoded : encode_mail simple letter ≡ ok letter_text
unfolding encode_mail encode
letter_encoded = refl

meeting_encoded : encode_event simple meeting ≡ ok meeting_text
unfolding encode_event encode validate_event
meeting_encoded = refl

paper_encoded : encode_attachment simple paper ≡ ok paper_text
unfolding encode_attachment encode
paper_encoded = refl

encode_mail-IsMail_example :
    IsMail simple letter_text (record letter { folder_id = folder_of letter.source })
encode_mail-IsMail_example = encode_mail-IsMail simple letter letter_text mail_laws letter_encoded

encode_event-IsEvent_example : IsEvent simple meeting_text (record meeting { uid = Patch.missing })
encode_event-IsEvent_example =
    encode_event-IsEvent simple meeting meeting_text event_laws meeting_encoded

encode_attachment-IsAttachment_example : IsAttachment simple paper_text paper
encode_attachment-IsAttachment_example =
    encode_attachment-IsAttachment simple paper paper_text attachment_laws paper_encoded
