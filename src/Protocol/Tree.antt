-- ===== src/Protocol/Tree.antt =====
-- Building and reading elements, and the unsigned integers in their texts
-- (crates/eas/src/protocol/tree.rs).
use eas_mail_mcp.Base.{
  ℕ, Bool, ◌&&◌, Option, none, some, List, [], ◌∷◌, Bytes, bytes_eq, leb, ◌==◌, if◌then◌else◌,
}
use eas_mail_mcp.Policy.Integer.{magnitude}
use eas_mail_mcp.Wbxml.Element
use eas_mail_mcp.Wbxml.Element.{
  Element, opaque, with_text, push, push_content, find_child, descendant,
}
use eas_mail_mcp.Wbxml.Text.{text_content, children}

abbrev pub text_element : Bytes → Bytes → Bytes → Element
text_element namespace name given = with_text namespace name given

abbrev pub push_text : Element → Bytes → Bytes → Bytes → Element
push_text parent namespace name given = push parent (text_element namespace name given)

abbrev pub content_of : Option Element → Option Bytes
content_of none = none
content_of (some found) = some (text_content found)

abbrev pub direct_text : Element → Bytes → Bytes → Option Bytes
direct_text parent namespace name = content_of (find_child parent namespace name)

abbrev pub descendant_text : Element → Bytes → Bytes → Option Bytes
descendant_text parent namespace name = content_of (descendant namespace name parent)

abbrev pub opaque_element : Bytes → Bytes → Bytes → Element
opaque_element namespace name bytes = push_content (Element.new namespace name) (opaque bytes)

-- `str::parse` into an unsigned integer: a plus sign, or none, and at least one decimal digit.
abbrev pub at_most : ℕ → Option ℕ → Option ℕ
at_most maximum none = none
at_most maximum (some n) = if leb n maximum then some n else none

abbrev pub parse_unsigned : ℕ → Bytes → Option ℕ
parse_unsigned maximum [] = none
parse_unsigned maximum (b ∷ bs) =
    at_most maximum (if b == b'+' then magnitude bs else magnitude (b ∷ bs))

abbrev pub max_u16 : ℕ
max_u16 = 65535

-- `usize` has 64 bits.
abbrev pub max_usize : ℕ
max_usize = 18_446_744_073_709_551_615

-- `value.and_then(|value| value.parse().ok()).unwrap_or(default)`
abbrev pub parse_or : ℕ → Option Bytes → ℕ → ℕ
parse_or maximum none default = default
parse_or maximum (some given) default = elim (parse_unsigned maximum given) [
  | none ↦ default
  | some n ↦ n
]

abbrev pub integer : Option Bytes → ℕ → ℕ
integer given default = parse_or max_u16 given default

-- The children of these two names, compared as they are.
abbrev pub is_exactly : Bytes → Bytes → Element → Bool
is_exactly namespace name (Element.element ns n content) = bytes_eq ns namespace && bytes_eq n name

abbrev pub filter_named : Bytes → Bytes → List Element → List Element
filter_named namespace name [] = []
filter_named namespace name (e ∷ es) =
    if is_exactly namespace name e
    then e ∷ filter_named namespace name es
    else filter_named namespace name es

abbrev pub children_named : Element → Bytes → Bytes → List Element
children_named parent namespace name = filter_named namespace name (children parent)
