-- ===== src/References/Simple.antt =====
-- Simple functions in the place of base64 and serde_json, which do what these document
-- (crates/app/src/references/object.rs).
use eas_mail_mcp.Base.{
  ℕ, ◌+◌, ◌-◌, ◌≡◌, refl, sym, ap, ◌∙◌, true, false, Option, none, some, [], ◌∷◌, ◌++◌, Bytes, ltb,
  ◌==◌, if◌then◌else◌, length, take, drop, arith,
}
use eas_mail_mcp.Policy.Integer.{pos}
use eas_mail_mcp.References.Payloads.{
  MailSource, AttachmentReference, MailPayload, EventPayload, Libraries, is_empty,
}
use eas_mail_mcp.References.Portable.{no_dot, Documented}

-- A text without dots of the same length, in the place of base64.
abbrev pub armoured : Bytes → Bytes
armoured [] = []
armoured (b ∷ bs) = (if ltb b b'.' then b else b + 1) ∷ armoured bs

abbrev pub bare : Bytes → Bytes
bare [] = []
bare (b ∷ bs) = (if ltb b b'.' then b else b - 1) ∷ bare bs

no_dot-armoured : (bytes : Bytes) → no_dot (armoured bytes) ≡ true
no_dot-armoured [] = refl
no_dot-armoured (b ∷ bs) = ground (arith, no_dot-armoured bs)

length-armoured : (bytes : Bytes) → length (armoured bytes) ≡ length bytes
length-armoured [] = refl
length-armoured (b ∷ bs) = omega (arith, length-armoured bs)

bare-armoured : (bytes : Bytes) → bare (armoured bytes) ≡ bytes
bare-armoured [] = refl
bare-armoured (b ∷ bs) = ground (arith, bare-armoured bs)

armoured_some : (bytes : Bytes) → is_empty bytes ≡ false → is_empty (armoured bytes) ≡ false
armoured_some [] h = cc
armoured_some (b ∷ bs) h = refl

-- A text behind its length.
abbrev pub prefixed : Bytes → Bytes → Bytes
prefixed text rest = length text ∷ (text ++ rest)

take-prefixed : (text rest : Bytes) → take (length text) (text ++ rest) ≡ text
take-prefixed [] rest = refl
take-prefixed (b ∷ text) rest = ap (λ bs. b ∷ bs) (take-prefixed text rest)

drop-prefixed : (text rest : Bytes) → drop (length text) (text ++ rest) ≡ rest
drop-prefixed [] rest = refl
drop-prefixed (b ∷ text) rest = drop-prefixed text rest

abbrev pub mail_vec : Bytes → MailSource → Bytes
mail_vec account (MailSource.item folder server) = prefixed account (0 ∷ prefixed folder server)
mail_vec account (MailSource.long_id id) = prefixed account (1 ∷ id)

abbrev pub source_from : Bytes → MailSource
source_from [] = MailSource.long_id []
source_from (tag ∷ []) = MailSource.long_id []
source_from (tag ∷ n ∷ rest) =
    if tag == 0 then MailSource.item (take n rest) (drop n rest) else MailSource.long_id (n ∷ rest)

abbrev pub mail_from : Bytes → Option MailPayload
mail_from [] = none
mail_from (n ∷ rest) =
    some (record { account_id = take n rest; source = source_from (drop n rest) })

mail_from-prefixed :
    (account tail : Bytes)
    → mail_from (prefixed account tail)
      ≡ some (record { account_id = account; source = source_from tail })
mail_from-prefixed account tail = rw (take-prefixed account tail, drop-prefixed account tail)

source_from_item :
    (folder server : Bytes)
    → source_from (0 ∷ prefixed folder server) ≡ MailSource.item folder server
source_from_item folder server = rw (take-prefixed folder server, drop-prefixed folder server)

mail_from-mail_vec :
    (account : Bytes) (source : MailSource)
    → mail_from (mail_vec account source) ≡ some (record { account_id = account; source = source })
mail_from-mail_vec account (MailSource.item folder server) =
    mail_from-prefixed account (0 ∷ prefixed folder server)
    ∙ ap (λ s. some (record { account_id = account; source = s })) (source_from_item folder server)
mail_from-mail_vec account (MailSource.long_id []) = mail_from-prefixed account (1 ∷ [])
mail_from-mail_vec account (MailSource.long_id (b ∷ id)) = mail_from-prefixed account (1 ∷ b ∷ id)

mail_vec_some : (account : Bytes) (source : MailSource) → is_empty (mail_vec account source) ≡ false
mail_vec_some account (MailSource.item folder server) = refl
mail_vec_some account (MailSource.long_id id) = refl

-- Of the events only those with an account and a LongId alone.
abbrev pub only_ids : Option ℕ → Option Bytes → Option Bytes → Option Bytes → Bytes → Option Bytes
only_ids none none none none bytes = some bytes
only_ids none none none (some server) bytes = none
only_ids none none (some collection) server bytes = none
only_ids none (some uid) collection server bytes = none
only_ids (some start) uid collection server bytes = none

abbrev pub event_vec : EventPayload → Option Bytes
event_vec payload =
    only_ids payload.occurrence_start payload.uid payload.collection_id payload.server_id
      (prefixed payload.account_id payload.long_id)

abbrev pub event_from : Bytes → Option EventPayload
event_from [] = none
event_from (n ∷ rest) = some (record {
  occurrence_start = none;
  account_id = take n rest;
  uid = none;
  long_id = drop n rest;
  collection_id = none;
  server_id = none;
})

only_ids_shape :
    (start : Option ℕ) (uid collection server : Option Bytes) (bytes : Bytes) {out : Bytes}
    → only_ids start uid collection server bytes ≡ some out
    → (start ≡ none) × (uid ≡ none) × (collection ≡ none) × (server ≡ none) × (bytes ≡ out)
only_ids_shape none none none none bytes h = (refl, refl, refl, refl, cc)
only_ids_shape none none none (some server) bytes h = cc
only_ids_shape none none (some collection) server bytes h = cc
only_ids_shape none (some uid) collection server bytes h = cc
only_ids_shape (some start) uid collection server bytes h = cc

event_some :
    (payload : EventPayload) (bytes : Bytes)
    → event_vec payload ≡ some bytes
    → is_empty bytes ≡ false
event_some payload bytes h =
    let (s, u, c, v, same) =
      only_ids_shape payload.occurrence_start payload.uid payload.collection_id payload.server_id _
        h in
    ap is_empty (sym same)

event_read :
    (payload : EventPayload) (bytes : Bytes)
    → event_vec payload ≡ some bytes
    → event_from bytes ≡ some payload
event_read payload bytes h =
    let (s, u, c, v, same) =
      only_ids_shape payload.occurrence_start payload.uid payload.collection_id payload.server_id _
        h in
    ap event_from (sym same)
    ∙ ground (
      arith,
      take-prefixed payload.account_id payload.long_id,
      drop-prefixed payload.account_id payload.long_id,
    )

abbrev pub attachment_vec : AttachmentReference → Bytes
attachment_vec payload =
    prefixed payload.account_id (prefixed payload.file_reference payload.display_name)

abbrev pub named_from : Bytes → Bytes → Option AttachmentReference
named_from account [] = none
named_from account (n ∷ rest) =
    some (record { account_id = account; file_reference = take n rest; display_name = drop n rest })

abbrev pub attachment_from : Bytes → Option AttachmentReference
attachment_from [] = none
attachment_from (n ∷ rest) = named_from (take n rest) (drop n rest)

attachment_read :
    (payload : AttachmentReference) → attachment_from (attachment_vec payload) ≡ some payload
attachment_read payload =
    let inner = prefixed payload.file_reference payload.display_name in
    rw (take-prefixed payload.account_id inner, drop-prefixed payload.account_id inner)
      (rw
        (
          take-prefixed payload.file_reference payload.display_name,
          drop-prefixed payload.file_reference payload.display_name,
        )
        refl)

abbrev pub simple : Libraries
simple = record {
  base64_encode = armoured;
  base64_decode = λ text. some (bare text);
  mail_json = record {
    to_vec = λ payload. some (mail_vec payload.account_id payload.source);
    from_slice = mail_from;
  };
  event_json = record { to_vec = event_vec; from_slice = event_from };
  attachment_json = record {
    to_vec = λ payload. some (attachment_vec payload);
    from_slice = attachment_from;
  };
  year = λ instant. pos 2026;
  nanosecond = λ instant. 0;
}

some_injective : {A : Type 0} {a b : A} → some a ≡ some b → a ≡ b
some_injective h = cc

pub mail_laws : Documented simple simple.mail_json
mail_laws = record {
  without_dots = no_dot-armoured;
  grows = armoured_some;
  bounded = λ bytes. omega (arith, length-armoured bytes);
  decodes = λ bytes. ap (λ b. some b) (bare-armoured bytes);
  writes = λ payload bytes h.
      ap is_empty (sym (some_injective h)) ∙ mail_vec_some payload.account_id payload.source;
  reads = λ payload bytes h.
      ap mail_from (sym (some_injective h)) ∙ mail_from-mail_vec payload.account_id payload.source;
}

pub event_laws : Documented simple simple.event_json
event_laws = record {
  without_dots = no_dot-armoured;
  grows = armoured_some;
  bounded = λ bytes. omega (arith, length-armoured bytes);
  decodes = λ bytes. ap (λ b. some b) (bare-armoured bytes);
  writes = event_some;
  reads = event_read;
}

pub attachment_laws : Documented simple simple.attachment_json
attachment_laws = record {
  without_dots = no_dot-armoured;
  grows = armoured_some;
  bounded = λ bytes. omega (arith, length-armoured bytes);
  decodes = λ bytes. ap (λ b. some b) (bare-armoured bytes);
  writes = λ payload bytes h. ap is_empty (sym (some_injective h));
  reads = λ payload bytes h. ap attachment_from (sym (some_injective h)) ∙ attachment_read payload;
}
