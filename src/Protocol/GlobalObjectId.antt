-- ===== src/Protocol/GlobalObjectId.antt =====
-- The UID of a meeting request (crates/eas/src/protocol/global_object_id.rs).
use eas_mail_mcp.Base.{
  ℕ, ◌+◌, ◌-◌, count_chars, ◌*◌, ◌/◌, ◌%◌, Bool, ◌&&◌, ◌||◌, Option, none, some, [], ◌∷◌, ◌++◌,
  Bytes, ascii, leb, ltb, ◌==◌, if◌then◌else◌, length, take, drop, ok, err, ◌>>=◌, ok_or,
}
use eas_mail_mcp.EasError.{protocol, Result}
use eas_mail_mcp.Wbxml.Utf8.{is_utf8}

abbrev pub header_len : ℕ
header_len = 40

abbrev pub max_uid_length : ℕ
max_uid_length = 300

abbrev pub vcal_marker : Bytes
vcal_marker = ascii "vCal-Uid" ++ (1 ∷ 0 ∷ 0 ∷ 0 ∷ [])

-- `u8::is_ascii_whitespace`
abbrev pub is_ascii_whitespace : ℕ → Bool
is_ascii_whitespace b = b == 9 || b == 10 || b == 12 || b == 13 || b == 32

abbrev pub compact : Bytes → Bytes
compact [] = []
compact (b ∷ bs) = if is_ascii_whitespace b then compact bs else b ∷ compact bs

-- `u32::from_le_bytes` of the bytes 36 to 39.
abbrev pub le_bytes : Bytes → Option ℕ
le_bytes (a ∷ b ∷ c ∷ d ∷ []) = some (a + 256 * b + 65536 * c + 16777216 * d)
le_bytes other = none

-- `get(start..end)`
abbrev pub get_range : Bytes → ℕ → ℕ → Option Bytes
get_range bytes start end =
    if leb start end && leb end (length bytes)
    then some (take (end - start) (drop start bytes))
    else none

abbrev pub read_count : Option Bytes → Option ℕ
read_count none = none
read_count (some four) = le_bytes four

abbrev pub strip_prefix : Bytes → Bytes → Option Bytes
strip_prefix [] bytes = some bytes
strip_prefix (p ∷ ps) [] = none
strip_prefix (p ∷ ps) (b ∷ bs) = if p == b then strip_prefix ps bs else none

-- `value.strip_suffix(&[0]).unwrap_or(value)`
abbrev pub without_nul : Bytes → Bytes
without_nul [] = []
without_nul (b ∷ []) = if b == 0 then [] else b ∷ []
without_nul (b ∷ c ∷ bs) = b ∷ without_nul (c ∷ bs)

abbrev pub hex : ℕ → ℕ
hex n = if ltb n 10 then b'0' + n else b'A' + (n - 10)

abbrev pub hex_text : Bytes → Bytes
hex_text [] = []
hex_text (b ∷ bs) = hex (b / 16) ∷ hex (b % 16) ∷ hex_text bs

-- `get_mut(16..20)` filled with zeros.
abbrev pub clear_instance : Bytes → Option Bytes
clear_instance bytes =
    if leb 20 (length bytes) then some (take 16 bytes ++ (0 ∷ 0 ∷ 0 ∷ 0 ∷ drop 20 bytes)) else none

unfoldable pub encoded_outlook_uid : Bytes → ℕ → Result Bytes
encoded_outlook_uid decoded end =
    ok_or (get_range decoded 0 end) (protocol "meeting GlobalObjId is truncated") >>= λ kept.
    ok_or (clear_instance kept) (protocol "meeting GlobalObjId instance date is missing")
    >>= λ normalized. ok (hex_text normalized)

-- The UID of a calendar, or else that of Outlook.
abbrev pub vcal_or : Result Bytes → Option Bytes → Result Bytes
vcal_or outlook none = outlook
vcal_or outlook (some given) =
    if is_utf8 (without_nul given)
    then ok (without_nul given)
    else err (protocol "meeting GlobalObjId UID is not UTF-8")

abbrev pub bounded_uid : Bytes → Result Bytes
bounded_uid uid =
    if length uid == 0 || ltb max_uid_length (count_chars uid)
    then err (protocol "meeting UID length is invalid")
    else ok uid

-- The UID of the bytes that base64 decodes.
unfoldable pub uid_of_bytes : Bytes → Result Bytes
uid_of_bytes decoded =
    ok_or (read_count (get_range decoded 36 header_len))
      (protocol "meeting GlobalObjId header is truncated")
    >>= λ count.
        ok_or
          (if leb (header_len + count) (length decoded) then some (header_len + count) else none)
          (protocol "meeting GlobalObjId data length is invalid")
        >>= λ end.
            ok_or (get_range decoded header_len end)
              (protocol "meeting GlobalObjId data is missing")
            >>= λ content.
                vcal_or (encoded_outlook_uid decoded end) (strip_prefix vcal_marker content)
                >>= λ uid. bounded_uid uid

-- `global_object_id_uid`; `base64_decode` is the standard alphabet's decoding.
unfoldable pub global_object_id_uid : (Bytes → Option Bytes) → Bytes → Result Bytes
global_object_id_uid base64_decode encoded =
    ok_or (base64_decode (compact encoded)) (protocol "meeting GlobalObjId is not valid base64")
    >>= λ decoded. uid_of_bytes decoded
