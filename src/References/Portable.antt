-- ===== src/References/Portable.antt =====
-- What a portable reference is written for is what is read from it
-- (crates/app/src/references/object.rs).
use eas_mail_mcp.Base.{
  ok_or_inverse, ◌+◌, ◌*◌, ◌≤◌, ◌≡◌, refl, sym, ap, subst, ◌∙◌, Bool, true, false, ◌&&◌, not, some,
  [], ◌∷◌, ◌++◌, Bytes, bytes_eq_refl, ltb, ◌==◌, if◌then◌else◌, length, length-append, ok, err,
  ok_or, >>=-eq-ok, arith, le→ltb_false, ltb_false→le,
}
use eas_mail_mcp.AppError
use eas_mail_mcp.AppError.{AppError}
use eas_mail_mcp.References.Payloads.{
  Json, Libraries, max_reference_bytes, max_payload_bytes, prefix, invalid, is_empty,
}
use eas_mail_mcp.References.Object.{
  split, split_once, after_second, kind, encoded_part, encode, of_expected, decode,
}

abbrev pub no_dot : Bytes → Bool
no_dot [] = true
no_dot (b ∷ bs) = not (b == b'.') && no_dot bs

split-dot :
    (part rest : Bytes) → no_dot part ≡ true → split (part ++ (b'.' ∷ rest)) ≡ part ∷ split rest
split-dot [] rest h = refl
split-dot (b ∷ part) rest h = ground (arith, split-dot part rest)

split_whole : (part : Bytes) → no_dot part ≡ true → split part ≡ part ∷ []
split_whole [] h = refl
split_whole (b ∷ part) h = ground (arith, split_whole part)

split_once-dot :
    (part rest : Bytes)
    → no_dot part ≡ true
    → split_once (part ++ (b'.' ∷ rest)) ≡ some (part, rest)
split_once-dot [] rest h = refl
split_once-dot (b ∷ part) rest h = ground (arith, split_once-dot part rest)

-- What base64 and serde_json document: a text without dots, four characters for three bytes, from
-- which the bytes are read back, and JSON that is not empty, from which the payload is read back.
pub record Documented {A : Type 0} (libraries : Libraries) (json : Json A) : Type 0 where
  pub without_dots : (bytes : Bytes) → no_dot (libraries.base64_encode bytes) ≡ true
  pub grows :
      (bytes : Bytes) → is_empty bytes ≡ false → is_empty (libraries.base64_encode bytes) ≡ false
  pub bounded : (bytes : Bytes) → 3 * length (libraries.base64_encode bytes) ≤ 4 * length bytes + 2
  pub decodes :
      (bytes : Bytes) → libraries.base64_decode (libraries.base64_encode bytes) ≡ some bytes
  pub writes :
      (payload : A) (bytes : Bytes) → json.to_vec payload ≡ some bytes → is_empty bytes ≡ false
  pub reads :
      (payload : A) (bytes : Bytes)
      → json.to_vec payload ≡ some bytes
      → json.from_slice bytes ≡ some payload

-- The text of a reference.
abbrev pub written : Bytes → Bytes → Bytes
written k encoded = prefix ++ (b'.' ∷ k ++ (b'.' ∷ encoded))

kind-written :
    (k encoded : Bytes)
    → no_dot k ≡ true
    → is_empty k ≡ false
    → no_dot encoded ≡ true
    → is_empty encoded ≡ false
    → kind (written k encoded) ≡ ok k
unfolding kind
kind-written k encoded h k_some d e_some =
    rw (split-dot k encoded h, split_whole encoded d) (rw (k_some, e_some) refl)

encoded_part-written :
    (k encoded : Bytes) → no_dot k ≡ true → encoded_part (written k encoded) ≡ some encoded
encoded_part-written k encoded h = ap after_second (split_once-dot k encoded h)

if_err-eq-ok :
    {A : Type 0} (b : Bool) (failure : AppError) (a : A) {last : A}
    → ◌≡◌ {A = AppError.Result A} (if b then err failure else ok a) (ok last)
    → (b ≡ false) × (a ≡ last)
if_err-eq-ok true failure a h = cc
if_err-eq-ok false failure a h = (refl, cc)

module _ {A : Type 0} (libraries : Libraries) (json : Json A)
    (laws : Documented libraries json) where
  -- What `encode` answers.
  encode_written :
      (k text : Bytes) (payload : A)
      → encode libraries json k payload ≡ ok text
      → (bytes : Bytes) × (json.to_vec payload ≡ some bytes)
        × (length bytes ≤ max_payload_bytes)
        × (text ≡ written k (libraries.base64_encode bytes))
  unfolding encode
  encode_written k text payload h =
      let (bytes, has, rest) = >>=-eq-ok (ok_or (json.to_vec payload) invalid) _ h in
      let (fits, same) = if_err-eq-ok (ltb max_payload_bytes (length bytes)) invalid _ rest in
      (
        bytes,
        ok_or_inverse (json.to_vec payload) invalid has,
        ltb_false→le max_payload_bytes (length bytes) fits,
        sym same,
      )

  of_expected_written :
      (k bytes : Bytes) (payload : A)
      → no_dot k ≡ true
      → is_empty k ≡ false
      → json.to_vec payload ≡ some bytes
      → length bytes ≤ max_payload_bytes
      → of_expected libraries json k (written k (libraries.base64_encode bytes)) ≡ ok payload
  of_expected_written k bytes payload h s j l =
      let found =
        kind-written k (libraries.base64_encode bytes) h s (laws.without_dots bytes)
          (laws.grows bytes (laws.writes payload bytes j)) in
      rw (found, of_expected)
        (rw
          (
            bytes_eq_refl k,
            encoded_part-written k (libraries.base64_encode bytes) h,
            laws.decodes bytes,
          )
          (rw (le→ltb_false max_payload_bytes (length bytes) l, laws.reads payload bytes j) refl))

  length-written :
      (k bytes : Bytes)
      → length k ≤ 10
      → length bytes ≤ max_payload_bytes
      → length (written k (libraries.base64_encode bytes)) ≤ max_reference_bytes
  length-written k bytes l m =
      omega (arith, laws.bounded bytes, length-append k (b'.' ∷ libraries.base64_encode bytes))

  pub decode-encode :
      (k text : Bytes) (payload : A)
      → no_dot k ≡ true
      → is_empty k ≡ false
      → length k ≤ 10
      → encode libraries json k payload ≡ ok text
      → decode libraries json k text ≡ ok payload
  unfolding decode
  decode-encode k text payload h s l e =
      let (bytes, j, fits, same) = encode_written k text payload e in
      subst (λ t. decode libraries json k t ≡ ok payload) (sym same)
        (rw (le→ltb_false max_reference_bytes _ (length-written k bytes l fits))
          (of_expected_written k bytes payload h s j fits))

  pub kind-encode :
      (k text : Bytes) (payload : A)
      → no_dot k ≡ true
      → is_empty k ≡ false
      → encode libraries json k payload ≡ ok text
      → kind text ≡ ok k
  kind-encode k text payload h s e =
      let (bytes, j, fits, same) = encode_written k text payload e in
      ap kind same
      ∙ kind-written k (libraries.base64_encode bytes) h s (laws.without_dots bytes)
          (laws.grows bytes (laws.writes payload bytes j))
