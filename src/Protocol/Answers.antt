-- ===== src/Protocol/Answers.antt =====
-- What an answer of ResolveRecipients that is accepted holds, from its root down
-- (crates/eas/src/protocol/availability.rs).
use eas_mail_mcp.Base.{
  ok_or_inverse, ok_injective, err_not_ok, subst, ℕ, ◌≤◌, ◌≡◌, ap, ◌∙◌, false, Bool-cases, inl, inr,
  ◌&&◌, not, Option, none, some, List, Bytes, ascii, ◌==◌, length, All, ok, >>=-eq-ok, ok_or, arith,
}
use eas_mail_mcp.EasError.{protocol}
use eas_mail_mcp.Schedule.Availability.{FreeBusyState}
use eas_mail_mcp.Wbxml.Element.{Element, find_child}
use eas_mail_mcp.Wbxml.CodePage.{CodePage}
use eas_mail_mcp.Wbxml.Decode.{decode}
use eas_mail_mcp.Protocol.Tree.{direct_text, integer, children_named}
use eas_mail_mcp.Protocol.Availability.{
  RecipientResolution, CandidateAvailability, ResolvedRecipient, RecipientAvailability,
  max_free_busy_bytes, namespace, collect_results, parse_slots, availability_of_status,
  availability_or_missing, parse_candidate, resolution_of, is_resolved, parse_response,
  responses_of, parse_availability,
}
use eas_mail_mcp.Protocol.Slots.{parse_slots_iff, collect_results-All}

-- The slots of a candidate, if it has any, are as many as were asked for.
abbrev pub IsComplete : ℕ → ResolvedRecipient → Type 0
IsComplete expected_slots candidate =
    (states : List FreeBusyState)
    → candidate.availability ≡ CandidateAvailability.slots states
    → (length states ≡ expected_slots) × (expected_slots ≤ max_free_busy_bytes)

-- A recipient that is resolved has one candidate, and the candidates are complete.
abbrev pub IsUsable : ℕ → RecipientAvailability → Type 0
IsUsable expected_slots recipient =
    (recipient.resolution ≡ RecipientResolution.resolved → length recipient.candidates ≡ 1)
    × All (IsComplete expected_slots) recipient.candidates

slots_injective :
    {a b : List FreeBusyState}
    → CandidateAvailability.slots a ≡ CandidateAvailability.slots b
    → a ≡ b
slots_injective h = cc

no_slots :
    (status : ℕ) (merged : Option Bytes) (expected_slots : ℕ) (states : List FreeBusyState)
    → (status == 1) ≡ false
    → availability_of_status status merged expected_slots ≡ ok (CandidateAvailability.slots states)
    → ⊥
no_slots status merged expected_slots states other h = ground arith

availability_complete :
    (status : ℕ) (merged : Option Bytes) (expected_slots : ℕ) (states : List FreeBusyState)
    → availability_of_status status merged expected_slots ≡ ok (CandidateAvailability.slots states)
    → (length states ≡ expected_slots) × (expected_slots ≤ max_free_busy_bytes)
availability_complete status none expected_slots states h = ground arith
availability_complete status (some text) expected_slots states h = elim (Bool-cases (status == 1)) [
  | inl one ↦
      let (found, parsed, same) = >>=-eq-ok (parse_slots text expected_slots) _ (rw one at h) in
      let (written, count, bounded) =
        (parse_slots_iff text expected_slots states).0
          (parsed ∙ ap (λ l. ok l) (slots_injective (ok_injective same))) in
      (count, bounded)
  | inr other ↦ absurd (no_slots status (some text) expected_slots states other h)
]

slots_complete :
    (found : Option Element) (expected_slots : ℕ) (states : List FreeBusyState)
    → availability_or_missing found expected_slots ≡ ok (CandidateAvailability.slots states)
    → (length states ≡ expected_slots) × (expected_slots ≤ max_free_busy_bytes)
slots_complete none expected_slots states h = ground arith
slots_complete (some given) expected_slots states h =
    availability_complete (integer (direct_text given namespace (ascii "Status")) 0)
      (direct_text given namespace (ascii "MergedFreeBusy")) expected_slots states h

parse_candidate-IsComplete :
    (expected_slots : ℕ) (candidate : Element) (parsed : ResolvedRecipient)
    → parse_candidate expected_slots candidate ≡ ok parsed
    → IsComplete expected_slots parsed
unfolding parse_candidate
parse_candidate-IsComplete expected_slots candidate parsed h states slotted =
    let (availability, found, same) =
      >>=-eq-ok
        (availability_or_missing (find_child candidate namespace (ascii "Availability"))
          expected_slots)
        _ h in
    slots_complete (find_child candidate namespace (ascii "Availability")) expected_slots states (
      found
      ∙ ap (λ a. ok a)
          (ap (λ (r : ResolvedRecipient). r.availability) (ok_injective same) ∙ slotted))

one_candidate :
    (resolution : RecipientResolution) (count : ℕ)
    → (is_resolved resolution && not (count == 1)) ≡ false
    → resolution ≡ RecipientResolution.resolved
    → count ≡ 1
one_candidate resolution count fine res = ground arith

parse_response-IsUsable :
    (expected_slots : ℕ) (response : Element) (parsed : RecipientAvailability)
    → parse_response expected_slots response ≡ ok parsed
    → IsUsable expected_slots parsed
unfolding parse_response
parse_response-IsUsable expected_slots response parsed h =
    let (resolution, r, h1) =
      >>=-eq-ok (resolution_of (integer (direct_text response namespace (ascii "Status")) 0)) _ h in
    let (candidates, c, h2) =
      >>=-eq-ok
        (collect_results (parse_candidate expected_slots)
          (children_named response namespace (ascii "Recipient")))
        _ h1 in
    let (complete, count) =
      collect_results-All (IsComplete expected_slots) (parse_candidate expected_slots) _ candidates
        (λ x y. parse_candidate-IsComplete expected_slots x y) c in
    elim (Bool-cases (is_resolved resolution && not (length candidates == 1))) [
      | inl several ↦ absurd (err_not_ok (rw several at h2))
      | inr fine ↦
          subst (IsUsable expected_slots) (ok_injective (rw fine at h2))
            ((λ res. one_candidate resolution (length candidates) fine res), complete)
    ]

never_ok :
    (root : Element) (expected_slots status : ℕ) (recipients : List RecipientAvailability)
    → (status == 1) ≡ false
    → responses_of root expected_slots status ≡ ok recipients
    → ⊥
never_ok root expected_slots status recipients other h = ground arith

responses-IsUsable :
    (root : Element) (expected_slots status : ℕ) (recipients : List RecipientAvailability)
    → responses_of root expected_slots status ≡ ok recipients
    → All (IsUsable expected_slots) recipients
      × (length recipients ≡ length (children_named root namespace (ascii "Response")))
responses-IsUsable root expected_slots status recipients h = elim (Bool-cases (status == 1)) [
  | inl one ↦
      collect_results-All (IsUsable expected_slots) (parse_response expected_slots) _ recipients
        (λ x y. parse_response-IsUsable expected_slots x y) (rw one at h)
  | inr other ↦ absurd (never_ok root expected_slots status recipients other h)
]

-- An answer that is accepted has a recipient for each Response of the document, in which a resolved
-- one has exactly one candidate, and every candidate that has slots has as many as were asked for,
-- which are at most 32,768.
pub parse_availability-IsUsable :
    (pages : List CodePage) (bytes : Bytes) (expected_slots : ℕ)
    (recipients : List RecipientAvailability)
    → parse_availability pages bytes expected_slots ≡ ok recipients
    → (root : Element) × (decode pages bytes ≡ ok (some root))
      × (length recipients ≡ length (children_named root namespace (ascii "Response")))
      × All (IsUsable expected_slots) recipients
unfolding parse_availability
parse_availability-IsUsable pages bytes expected_slots recipients h =
    let (document, decoded, h1) = >>=-eq-ok (decode pages bytes) _ h in
    let (root, rooted, h2) =
      >>=-eq-ok (ok_or document (protocol "Exchange returned an empty ResolveRecipients response"))
        _ h1 in
    let (usable, count) =
      responses-IsUsable root expected_slots
        (integer (direct_text root namespace (ascii "Status")) 0) recipients h2 in
    (root, decoded ∙ ap (λ d. ok d) (ok_or_inverse document _ rooted), count, usable)
