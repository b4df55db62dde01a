-- ===== src/Wbxml/Tests.antt =====
-- A table of code pages with the pages of spec/codepages and some of their tags, and the theorems
-- about the codec (crates/eas/src/wbxml/codec.rs) at concrete inputs.
use eas_mail_mcp.Wbxml.Depth.{encode-depth}
use eas_mail_mcp.Wbxml.Nesting.{decode-depth}
use eas_mail_mcp.Base.{
  ℕ, zero, suc, ◌≤◌, ◌≡◌, ◌≢◌, refl, some, List, [], ◌∷◌, ◌++◌, String, Bytes, ascii, arith, ok,
  err,
}
use eas_mail_mcp.EasError.{stuck}
use eas_mail_mcp.Wbxml.Element.{Element, element, child, text, opaque, nil, cons, depth}
use eas_mail_mcp.Wbxml.CodePage.{CodePage, code_page, tag, code_page_for_namespace, token}
use eas_mail_mcp.Wbxml.CodePage.Build.{validate}
use eas_mail_mcp.Wbxml.Mbuint.{encode_mbuint, mark, mbuint}
use eas_mail_mcp.Wbxml.Mbuint.RoundTrip.{mbuint-encode_mbuint, mbuint-mark}
use eas_mail_mcp.Wbxml.Utf8.{is_utf8}
use eas_mail_mcp.Wbxml.Encode.{encode, select_page}
use eas_mail_mcp.Wbxml.Decode.{decode, start_element, read_token, step}
use eas_mail_mcp.Wbxml.Canonical.{canonical, is_typed}
use eas_mail_mcp.Wbxml.Termination.{decode-ne-stuck}
use eas_mail_mcp.Wbxml.RoundTrip.{decode-encode}

abbrev page_of : ℕ → String → String → List (ℕ × Bytes) → CodePage
page_of id namespace xmlns tags = record {
  id = id;
  namespace = ascii namespace;
  xmlns = ascii xmlns;
  tags = tags;
}

abbrev sample_pages : List CodePage
sample_pages =
    page_of 0 "AirSync" "airsync"
      ((5, ascii "Sync") ∷ (6, ascii "Responses") ∷ (7, ascii "Add") ∷ (8, ascii "Change") ∷ [])
    ∷ page_of 1 "POOMCONTACTS" "poomcontacts" []
    ∷ page_of 2 "Email" "email" ((15, ascii "DateReceived") ∷ (17, ascii "DisplayTo") ∷ [])
    ∷ page_of 3 "" "" []
    ∷ page_of 4 "Calendar" "calendar" ((5, ascii "TimeZone") ∷ (6, ascii "AllDayEvent") ∷ [])
    ∷ page_of 5 "Move" "move" []
    ∷ page_of 6 "GetItemEstimate" "getitemestimate" []
    ∷ page_of 7 "FolderHierarchy" "folderhierarchy" []
    ∷ page_of 8 "MeetingResponse" "meetingresponse" []
    ∷ page_of 9 "Tasks" "tasks" []
    ∷ page_of 10 "ResolveRecipients" "resolverecipients" []
    ∷ page_of 11 "ValidateCert" "validatecert" []
    ∷ page_of 12 "Contacts2" "contacts2" []
    ∷ page_of 13 "Ping" "ping" []
    ∷ page_of 14 "Provision" "provision" []
    ∷ page_of 15 "Search" "search" []
    ∷ page_of 16 "GAL" "gal" []
    ∷ page_of 17 "AirSyncBase" "airsyncbase"
        ((5, ascii "BodyPreference") ∷ (6, ascii "Type") ∷ (7, ascii "TruncationSize") ∷ [])
    ∷ page_of 18 "Settings" "settings" []
    ∷ page_of 19 "DocumentLibrary" "documentlibrary" []
    ∷ page_of 20 "ItemOperations" "itemoperations" []
    ∷ page_of 21 "ComposeMail" "composemail" []
    ∷ page_of 22 "Email2" "email2" []
    ∷ page_of 23 "Notes" "notes" []
    ∷ page_of 24 "RightsManagement" "rightsmanagement" []
    ∷ []

abbrev sample : Element
sample = element (ascii "airsync") (ascii "Sync") (
    cons (child (element (ascii "Email") (ascii "DateReceived") (cons (text (ascii "hi")) nil))) (
      cons (child (element (ascii "AirSync") (ascii "Add") (cons (opaque (0 ∷ 255 ∷ [])) nil)))
        nil))

sample_pages-validate : validate sample_pages ≡ ok tt
unfolding validate
sample_pages-validate = refl

abbrev sample_bytes : Bytes
sample_bytes =
    3 ∷ 1 ∷ 0x6a ∷ 0 ∷ 0x45 ∷ 0 ∷ 2 ∷ 0x4f ∷ 3 ∷ b'h' ∷ b'i' ∷ 0 ∷ 1 ∷ 0 ∷ 0 ∷ 0x47 ∷ 0xc3 ∷ 2 ∷ 0
    ∷ 255 ∷ 1 ∷ 1 ∷ []

sample-encode : encode sample_pages sample ≡ ok sample_bytes
unfolding encode select_page code_page_for_namespace token encode_mbuint
sample-encode = refl

decode-encode_example : decode sample_pages sample_bytes ≡ ok (some (canonical sample_pages sample))
unfolding is_typed is_utf8
decode-encode_example =
    decode-encode sample_pages sample_pages-validate (omega arith) sample sample_bytes refl
      sample-encode

mbuint-encode_mbuint_example : mbuint (encode_mbuint 300 ++ 7 ∷ []) ≡ ok (300, 7 ∷ [])
mbuint-encode_mbuint_example = mbuint-encode_mbuint 300 (7 ∷ []) (omega arith)

-- Ten groups with the highest one 2: the number 2 ^ 64 is read as 0.
mbuint-mark_example : mbuint (mark (2 ∷ 0 ∷ 0 ∷ 0 ∷ 0 ∷ 0 ∷ 0 ∷ 0 ∷ 0 ∷ 0 ∷ []) ++ []) ≡ ok (0, [])
mbuint-mark_example =
    mbuint-mark 2 (0 ∷ 0 ∷ 0 ∷ 0 ∷ 0 ∷ 0 ∷ 0 ∷ 0 ∷ 0 ∷ []) [] (omega arith) (omega arith)

decode-ne-stuck_example : decode sample_pages (3 ∷ 1 ∷ 0x6a ∷ 0 ∷ 1 ∷ []) ≢ err stuck
decode-ne-stuck_example = decode-ne-stuck sample_pages (3 ∷ 1 ∷ 0x6a ∷ 0 ∷ 1 ∷ [])

abbrev opens : ℕ → Bytes → Bytes
opens zero rest = rest
opens (suc n) rest = 0x45 ∷ opens n rest

abbrev ends : ℕ → Bytes
ends zero = []
ends (suc n) = 1 ∷ ends n

-- 128 elements with content, and one without inside them.
abbrev deep_bytes : Bytes
deep_bytes = 3 ∷ 1 ∷ 0x6a ∷ 0 ∷ opens 128 (0x05 ∷ ends 128)

abbrev nested : ℕ → Element
nested zero = element (ascii "AirSync") (ascii "Sync") nil
nested (suc n) = element (ascii "AirSync") (ascii "Sync") (cons (child (nested n)) nil)

deep-decode : decode sample_pages deep_bytes ≡ ok (some (nested 128))
unfolding decode step read_token start_element code_page tag
deep-decode = refl

decode-depth_example : depth (nested 128) ≤ 129
decode-depth_example = decode-depth sample_pages deep_bytes (nested 128) deep-decode

encode-depth_example : depth sample ≤ 128
encode-depth_example = encode-depth sample_pages sample sample_bytes sample-encode
