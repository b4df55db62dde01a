-- ===== src/Protocol/Availability.antt =====
-- The answer of ResolveRecipients (crates/eas/src/protocol/availability.rs).
use eas_mail_mcp.Base.{
  ℕ, ◌*◌, Bool, true, false, ◌&&◌, ◌||◌, not, Option, none, some, List, [], ◌∷◌, Bytes, ascii, ltb,
  ◌==◌, if◌then◌else◌, length, ok, err, ◌>>=◌, ok_or,
}
use eas_mail_mcp.EasError.{EasError, protocol, Result}
use eas_mail_mcp.Schedule.Availability.{FreeBusyState}
use eas_mail_mcp.Wbxml.Element.{Element, find_child}
use eas_mail_mcp.Wbxml.CodePage.{CodePage}
use eas_mail_mcp.Wbxml.Decode.{decode}
use eas_mail_mcp.Protocol.Tree.{direct_text, integer, parse_or, max_usize, children_named}

pub data RecipientResolution : Type 0 where
  resolved ambiguous ambiguous_partial not_found : RecipientResolution

-- `FreeBusyStatus` has the cases of `FreeBusyState`, and stands as that here.
pub data CandidateAvailability : Type 0 where
  slots : List FreeBusyState → CandidateAvailability
  too_many_recipients distribution_list_too_large transient_failure failure missing :
      CandidateAvailability

pub record ResolvedRecipient : Type 0 where
  pub recipient_type : ℕ
  pub display_name : Bytes
  pub email : Bytes
  pub availability : CandidateAvailability

pub record RecipientAvailability : Type 0 where
  pub input : Bytes
  pub resolution : RecipientResolution
  pub total_candidates : ℕ
  pub candidates : List ResolvedRecipient

abbrev pub max_free_busy_bytes : ℕ
max_free_busy_bytes = 32 * 1024

abbrev pub namespace : Bytes
namespace = ascii "ResolveRecipients"

abbrev pub status_of_byte : ℕ → Result FreeBusyState
status_of_byte b =
    if b == b'0'
    then ok FreeBusyState.free
    else if b == b'1'
    then ok FreeBusyState.tentative
    else if b == b'2'
    then ok FreeBusyState.busy
    else if b == b'3'
    then ok FreeBusyState.out_of_office
    else if b == b'4'
    then ok FreeBusyState.no_data
    else err (protocol "MergedFreeBusy contains an invalid status")

-- `map(…).collect::<Result<Vec<_>>>()`
abbrev pub collect_results : {A B : Type 0} → (A → Result B) → List A → Result (List B)
collect_results f [] = ok []
collect_results f (x ∷ xs) = f x >>= λ y. collect_results f xs >>= λ ys. ok (y ∷ ys)

unfoldable pub parse_slots : Bytes → ℕ → Result (List FreeBusyState)
parse_slots given expected_slots =
    if ltb max_free_busy_bytes (length given) || not (length given == expected_slots)
    then err (protocol "MergedFreeBusy length does not match the requested range")
    else collect_results status_of_byte given

abbrev pub unwrap_or_default : Option Bytes → Bytes
unwrap_or_default none = []
unwrap_or_default (some text) = text

abbrev pub availability_of_status : ℕ → Option Bytes → ℕ → Result CandidateAvailability
availability_of_status status merged expected_slots =
    if status == 1
    then (ok_or merged (protocol "MergedFreeBusy is missing") >>= λ text.
        parse_slots text expected_slots >>= λ found. ok (CandidateAvailability.slots found))
    else if status == 160
    then ok CandidateAvailability.too_many_recipients
    else if status == 161
    then ok CandidateAvailability.distribution_list_too_large
    else if status == 162
    then ok CandidateAvailability.transient_failure
    else if status == 163
    then ok CandidateAvailability.failure
    else err (protocol "availability status")

abbrev pub parse_candidate_availability : Element → ℕ → Result CandidateAvailability
parse_candidate_availability availability expected_slots =
    availability_of_status (integer (direct_text availability namespace (ascii "Status")) 0)
      (direct_text availability namespace (ascii "MergedFreeBusy")) expected_slots

abbrev pub availability_or_missing : Option Element → ℕ → Result CandidateAvailability
availability_or_missing none expected_slots = ok CandidateAvailability.missing
availability_or_missing (some found) expected_slots =
    parse_candidate_availability found expected_slots

unfoldable pub parse_candidate : ℕ → Element → Result ResolvedRecipient
parse_candidate expected_slots candidate =
    availability_or_missing (find_child candidate namespace (ascii "Availability")) expected_slots
    >>= λ availability. ok (record {
      recipient_type = integer (direct_text candidate namespace (ascii "Type")) 0;
      display_name = unwrap_or_default (direct_text candidate namespace (ascii "DisplayName"));
      email = unwrap_or_default (direct_text candidate namespace (ascii "EmailAddress"));
      availability = availability;
    })

abbrev pub resolution_of : ℕ → Result RecipientResolution
resolution_of status =
    if status == 1
    then ok RecipientResolution.resolved
    else if status == 2
    then ok RecipientResolution.ambiguous
    else if status == 3
    then ok RecipientResolution.ambiguous_partial
    else if status == 4
    then ok RecipientResolution.not_found
    else err (protocol "recipient resolution status")

abbrev pub is_resolved : RecipientResolution → Bool
is_resolved RecipientResolution.resolved = true
is_resolved RecipientResolution.ambiguous = false
is_resolved RecipientResolution.ambiguous_partial = false
is_resolved RecipientResolution.not_found = false

unfoldable pub parse_response : ℕ → Element → Result RecipientAvailability
parse_response expected_slots response =
    resolution_of (integer (direct_text response namespace (ascii "Status")) 0) >>= λ resolution.
    collect_results (parse_candidate expected_slots)
      (children_named response namespace (ascii "Recipient"))
    >>= λ candidates.
        if is_resolved resolution && not (length candidates == 1)
        then err (protocol "resolved recipient response must contain exactly one candidate")
        else ok (record {
          input = unwrap_or_default (direct_text response namespace (ascii "To"));
          resolution = resolution;
          total_candidates =
              parse_or max_usize (direct_text response namespace (ascii "RecipientCount")) 0;
          candidates = candidates;
        })

abbrev pub responses_of : Element → ℕ → ℕ → Result (List RecipientAvailability)
responses_of root expected_slots status =
    if status == 1
    then collect_results (parse_response expected_slots)
        (children_named root namespace (ascii "Response"))
    else if status == 6
    then err EasError.service_unavailable
    else err (protocol "ResolveRecipients status")

unfoldable pub parse_availability : List CodePage → Bytes → ℕ → Result (List RecipientAvailability)
parse_availability pages bytes expected_slots = decode pages bytes >>= λ document.
    ok_or document (protocol "Exchange returned an empty ResolveRecipients response") >>= λ root.
    responses_of root expected_slots (integer (direct_text root namespace (ascii "Status")) 0)
