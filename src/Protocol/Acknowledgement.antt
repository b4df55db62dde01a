-- ===== src/Protocol/Acknowledgement.antt =====
-- Reading the acknowledgement of a change, strictly
-- (crates/eas/src/protocol/mutation_response.rs).
use eas_mail_mcp.Base.{
  ℕ, ◌≡◌, Bool, true, false, ◌||◌, not, Option, none, some, List, [], ◌∷◌, Bytes, ascii, ◌==◌,
  if◌then◌else◌, ok, err, ◌>>=◌, ok_or, String,
}
use eas_mail_mcp.EasError.{EasError, protocol, Result}
use eas_mail_mcp.Wbxml.Element
use eas_mail_mcp.Wbxml.Element.{Element, Nodes, nil, cons, text, opaque}
use eas_mail_mcp.Wbxml.Text.{text_content}
use eas_mail_mcp.Protocol.Tree.{children_named, parse_unsigned, max_u16}

abbrev pub malformed : String → EasError
malformed message = protocol message

abbrev pub only_child : List Element → Result (Option Element)
only_child [] = ok none
only_child (first ∷ []) = ok (some first)
only_child (first ∷ second ∷ others) = err (malformed "duplicate mutation acknowledgement field")

-- `child`
abbrev pub single_child : Element → Bytes → Bytes → Result (Option Element)
single_child parent namespace name = only_child (children_named parent namespace name)

abbrev pub all_text : Nodes → Bool
all_text nil = true
all_text (cons (text t) ns) = all_text ns
all_text (cons (Element.child c) ns) = false
all_text (cons (opaque bytes) ns) = false

abbrev pub is_plain : Element → Bool
is_plain (Element.element namespace name content) = all_text content

abbrev pub plain_text : Option Element → Result (Option Bytes)
plain_text none = ok none
plain_text (some field) =
    if is_plain field
    then ok (some (text_content field))
    else err (malformed "mutation acknowledgement field is not text")

-- `text`
abbrev pub single_text : Element → Bytes → Bytes → Result (Option Bytes)
single_text parent namespace name = single_child parent namespace name >>= λ found. plain_text found

abbrev pub not_empty : Option Bytes → Result Bytes
not_empty none = err (malformed "missing mutation acknowledgement field")
not_empty (some []) = err (malformed "missing mutation acknowledgement field")
not_empty (some (b ∷ bs)) = ok (b ∷ bs)

unfoldable pub required_text : Element → Bytes → Bytes → Result Bytes
required_text parent namespace name = single_text parent namespace name >>= λ found. not_empty found

abbrev pub contains : List ℕ → ℕ → Bool
contains [] n = false
contains (m ∷ ms) n = m == n || contains ms n

unfoldable pub status : Element → Bytes → List ℕ → Result ℕ
status parent namespace allowed = required_text parent namespace (ascii "Status") >>= λ given.
    ok_or (parse_unsigned max_u16 given) (malformed "invalid mutation acknowledgement status")
    >>= λ found.
        if not (contains allowed found)
        then err (malformed "unsupported or ambiguous mutation acknowledgement status")
        else ok found

-- The one field of this name, of text alone, that has this value.
abbrev pub IsField : Element → Bytes → Bytes → Bytes → Type 0
IsField parent namespace name given =
    (field : Element) × (children_named parent namespace name ≡ field ∷ [])
    × (is_plain field ≡ true)
    × (text_content field ≡ given)
