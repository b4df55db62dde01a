-- ===== src/Protocol/Tests.antt =====
-- A concrete answer of ResolveRecipients, and the theorems at it
-- (crates/eas/src/protocol/availability.rs).
use eas_mail_mcp.Base.{
  ◌++◌, ℕ, ◌≤◌, ◌≡◌, ◌↔◌, refl, some, List, [], ◌∷◌, Bytes, ascii, ok, length, All,
}
use eas_mail_mcp.Schedule.Availability.{FreeBusyState}
use eas_mail_mcp.Wbxml.Element.{Element, element, child, text, nil, cons, find_child, is_named}
use eas_mail_mcp.Wbxml.CodePage.{CodePage, code_page, tag}
use eas_mail_mcp.Wbxml.Utf8.{is_utf8}
use eas_mail_mcp.Wbxml.Decode.{decode, read_token, read_switch, start_element, step, read_text}
use eas_mail_mcp.Protocol.Tree.{children_named}
use eas_mail_mcp.Protocol.Availability.{
  RecipientResolution, CandidateAvailability, RecipientAvailability, namespace, max_free_busy_bytes,
  parse_slots, parse_candidate, parse_response, parse_availability,
}
use eas_mail_mcp.Protocol.GlobalObjectId.{encoded_outlook_uid, uid_of_bytes}
use eas_mail_mcp.Protocol.Instances.{uid_of_instances}
use eas_mail_mcp.Protocol.Slots.{digits_of, parse_slots_iff}
use eas_mail_mcp.Protocol.Answers.{IsUsable, parse_availability-IsUsable}

abbrev blank : ℕ → CodePage
blank id = record { id = id; namespace = []; xmlns = []; tags = [] }

-- The page of ResolveRecipients with some of its tags; those before it are not used.
abbrev pages : List CodePage
pages =
    blank 0
    ∷ blank 1
    ∷ blank 2
    ∷ blank 3
    ∷ blank 4
    ∷ blank 5
    ∷ blank 6
    ∷ blank 7
    ∷ blank 8
    ∷ blank 9
    ∷ record {
      id = 10;
      namespace = namespace;
      xmlns = ascii "resolverecipients";
      tags =
          (5, ascii "ResolveRecipients")
          ∷ (6, ascii "Response")
          ∷ (7, ascii "Status")
          ∷ (9, ascii "Recipient")
          ∷ (16, ascii "To")
          ∷ (22, ascii "Availability")
          ∷ (25, ascii "MergedFreeBusy")
          ∷ [];
    }
    ∷ []

-- One recipient, who is free and then busy.
abbrev answer : Bytes
answer =
    3 ∷ 1 ∷ 0x6a ∷ 0 ∷ 0 ∷ 10 ∷ 0x45 ∷ 0x47 ∷ 3 ∷ b'1' ∷ 0 ∷ 1 ∷ 0x46 ∷ 0x47 ∷ 3 ∷ b'1' ∷ 0 ∷ 1
    ∷ 0x50 ∷ 3 ∷ b'b' ∷ 0 ∷ 1 ∷ 0x49 ∷ 0x56 ∷ 0x47 ∷ 3 ∷ b'1' ∷ 0 ∷ 1 ∷ 0x59 ∷ 3 ∷ b'0' ∷ b'2' ∷ 0
    ∷ 1 ∷ 1 ∷ 1 ∷ 1 ∷ 1 ∷ []

abbrev one_recipient : List RecipientAvailability
one_recipient =
    record {
      input = ascii "b";
      resolution = RecipientResolution.resolved;
      total_candidates = 0;
      candidates =
          record {
            recipient_type = 0;
            display_name = [];
            email = [];
            availability =
                CandidateAvailability.slots (FreeBusyState.free ∷ FreeBusyState.busy ∷ []);
          }
          ∷ [];
    }
    ∷ []

answer_parsed : parse_availability pages answer 2 ≡ ok one_recipient
unfolding parse_availability decode step read_token read_switch start_element code_page tag is_utf8
    find_child parse_response parse_candidate parse_slots read_text is_named
answer_parsed = refl

parse_availability-IsUsable_example :
    (root : Element) × (decode pages answer ≡ ok (some root))
    × (length one_recipient ≡ length (children_named root namespace (ascii "Response")))
    × All (IsUsable 2) one_recipient
parse_availability-IsUsable_example =
    parse_availability-IsUsable pages answer 2 one_recipient answer_parsed

parse_slots_iff_example :
    (parse_slots (b'3' ∷ b'4' ∷ []) 2
      ≡ ok (FreeBusyState.out_of_office ∷ FreeBusyState.no_data ∷ []))
    ↔ (((b'3' ∷ b'4' ∷ []) ≡ digits_of (FreeBusyState.out_of_office ∷ FreeBusyState.no_data ∷ []))
        × (length (FreeBusyState.out_of_office ∷ FreeBusyState.no_data ∷ []) ≡ 2)
        × (2 ≤ max_free_busy_bytes))
parse_slots_iff_example =
    parse_slots_iff (b'3' ∷ b'4' ∷ []) 2 (FreeBusyState.out_of_office ∷ FreeBusyState.no_data ∷ [])

abbrev sixteen : Bytes
sixteen = 4 ∷ 0 ∷ 0 ∷ 0 ∷ 0 ∷ 0 ∷ 0 ∷ 0 ∷ 0 ∷ 0 ∷ 0 ∷ 0 ∷ 0 ∷ 0 ∷ 0 ∷ 0 ∷ []

-- The rest of a header that announces two bytes, and these.
abbrev two_bytes : Bytes
two_bytes = sixteen ++ (2 ∷ 0 ∷ 0 ∷ 0 ∷ 0xAB ∷ 0xCD ∷ [])

uid_read :
    uid_of_bytes (sixteen ++ ((7 ∷ 0xE8 ∷ 5 ∷ 1 ∷ []) ++ two_bytes))
    ≡ ok (
        ascii
          "04000000000000000000000000000000000000000400000000000000000000000000000002000000ABCD")
unfolding uid_of_bytes encoded_outlook_uid
uid_read = refl

uid_of_instances_example :
    uid_of_bytes (sixteen ++ ((7 ∷ 0xE8 ∷ 5 ∷ 1 ∷ []) ++ two_bytes))
    ≡ uid_of_bytes (sixteen ++ ((0 ∷ 0 ∷ 0 ∷ 0 ∷ []) ++ two_bytes))
uid_of_instances_example =
    uid_of_instances sixteen (7 ∷ 0xE8 ∷ 5 ∷ 1 ∷ []) (0 ∷ 0 ∷ 0 ∷ 0 ∷ []) two_bytes refl refl refl

abbrev acknowledged : Element
acknowledged = element (ascii "AirSync") (ascii "Change") (
    cons (child (element (ascii "AirSync") (ascii "ServerId") (cons (text (ascii "5:1")) nil)))
      (cons (child (element (ascii "AirSync") (ascii "Status") (cons (text (ascii "1")) nil))) nil))
