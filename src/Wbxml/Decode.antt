-- ===== src/Wbxml/Decode.antt =====
-- The decoder (crates/eas/src/wbxml/codec.rs). A reader is given by the bytes that it has not
-- read, `input[cursor..]`. The stack of open elements has its last element first.
use eas_mail_mcp.Base.{
  ℕ, zero, suc, ◌/◌, ◌%◌, Bool, Option, none, some, List, [], ◌∷◌, Bytes, length, take, drop, leb,
  ◌==◌, if◌then◌else◌, ok, err, ◌>>=◌, ◌>>◌, guard, ◌&&◌, ◌||◌, ok_or,
}
use eas_mail_mcp.EasError.{protocol, stuck, Result}
use eas_mail_mcp.Wbxml.Element.{Element, Node, text, opaque, new, push_content, push}
use eas_mail_mcp.Wbxml.CodePage.{CodePage, code_page, tag}
use eas_mail_mcp.Wbxml.Mbuint.{byte, mbuint}
use eas_mail_mcp.Wbxml.Utf8.{is_utf8}
use eas_mail_mcp.Wbxml.Tokens.{
  switch_page, end_token, str_i, opaque_token, max_document_bytes, max_depth,
}

-- `Reader::bytes`
unfoldable pub bytes : ℕ → Bytes → Result (Bytes × Bytes)
bytes n input =
    if leb n (length input)
    then ok (take n input, drop n input)
    else err (protocol "WBXML value exceeds document bounds")

-- `remaining.iter().position(|byte| *byte == 0)`
abbrev pub position_nul : Bytes → Option ℕ
position_nul [] = none
position_nul (b ∷ input) =
    let rest = position_nul input in
    if b == 0 then some 0 else elim rest [ none ↦ none | some n ↦ some (suc n) ]

-- `Reader::inline_string`
unfoldable pub inline_string : Bytes → Result (Bytes × Bytes)
unfolding bytes
inline_string input = do
  n ← ok_or (position_nul input) (protocol "unterminated WBXML inline string")
  (value, rest) ← bytes n input
  guard (is_utf8 value) (protocol "WBXML inline string is not UTF-8")
  ok (value, drop 1 rest)

-- `Reader::read_header`: what is left behind a header that is supported.
unfoldable pub read_header : Bytes → Result Bytes
unfolding byte mbuint
read_header input = do
  (version, input) ← byte input
  guard (version == 0x03) (protocol "unsupported WBXML header")
  (public_id, input) ← mbuint input
  guard (public_id == 1) (protocol "unsupported WBXML header")
  (charset, input) ← mbuint input
  guard (charset == 0x6a) (protocol "unsupported WBXML header")
  (table, input) ← mbuint input
  guard (table == 0) (protocol "WBXML string tables are unsupported")
  ok input

-- The reader, and the variables of the loop of `read_document`.
pub record Document : Type 0 where
  pub input : Bytes
  pub current_page : ℕ
  pub stack : List Element
  pub root : Option Element

-- `parent.push(element)`, or `root.replace(element)` where no element is open.
abbrev pub attach : Element → Document → Result Document
attach e d = elim d.stack [
  | parent ∷ stack ↦ ok (record d { stack = push parent e ∷ stack })
  | [] ↦ elim d.root [
    | none ↦ ok (record d { root = some e })
    | some _ ↦ err (protocol "WBXML document has multiple roots")
  ]
]

abbrev pub append_node : Node → Document → Result Document
append_node n d = elim d.stack [
  | parent ∷ stack ↦ ok (record d { stack = push_content parent n ∷ stack })
  | [] ↦ err (protocol "WBXML content appears outside an element")
]

abbrev pub finish_element : Document → Result Document
finish_element d = elim d.stack [
  | e ∷ stack ↦ attach e (record d { stack = stack })
  | [] ↦ err (protocol "WBXML END appears out of sequence")
]

-- The arms of the `match` on the token for a switch of the page, a text and opaque data.
unfoldable pub read_switch : Document → Result Document
unfolding byte
read_switch d = do
  (page, input) ← byte d.input
  ok (record d { input = input; current_page = page })

unfoldable pub read_text : Document → Result Document
unfolding inline_string
read_text d = do
  (value, input) ← inline_string d.input
  append_node (text value) (record d { input = input })

unfoldable pub read_opaque : Document → Result Document
unfolding mbuint bytes
read_opaque d = do
  (n, input) ← mbuint d.input
  (value, input) ← bytes n input
  append_node (opaque value) (record d { input = input })

-- The tokens `0x02 | 0x04 | 0x40..=0x44 | 0x80..=0x84 | 0xC0..=0xC2 | 0xC4`.
abbrev pub is_unsupported : ℕ → Bool
is_unsupported t =
    t == 0x02
    || t == 0x04
    || (leb 0x40 t && leb t 0x44)
    || (leb 0x80 t && leb t 0x84)
    || (leb 0xc0 t && leb t 0xc2)
    || t == 0xc4

-- What stands behind the loop.
abbrev pub finish : Document → Result (Option Element)
finish d = elim d.stack [
  | [] ↦ ok d.root
  | _ ∷ _ ↦ err (protocol "WBXML document has unclosed elements")
]

abbrev pub rest_of : Document → Bytes → Document
rest_of d input = record d { input = input }

module _ (pages : List CodePage) where
  -- `token & 0x80 != 0` is the seventh bit, `token & 0x3F` the lowest six.
  unfoldable pub start_element : ℕ → Document → Result Document
  start_element t d =
      if t / 128 % 2 == 0
      then (do
        page ← code_page pages d.current_page
        name ← tag page (t % 64)
        let e = new page.namespace name
        if t / 64 % 2 == 0 then attach e d else ok (record d { stack = e ∷ d.stack }))
      else err (protocol "WBXML attributes are unsupported")

  -- The `match` on the token, `d` being the state behind the token.
  unfoldable pub read_token : ℕ → Document → Result Document
  unfolding start_element
  read_token t d =
      if t == switch_page
      then read_switch d
      else if t == end_token
      then finish_element d
      else if t == str_i
      then read_text d
      else if t == opaque_token
      then read_opaque d
      else if is_unsupported t
      then err (protocol "unsupported global WBXML token")
      else start_element t d

  -- One round of the loop.
  unfoldable pub step : ℕ → Document → Result Document
  step t d = do
    d' ← read_token t d
    guard (leb (length d'.stack) max_depth) (protocol "WBXML nesting exceeds 128 elements")
    ok d'

  -- `while self.cursor < self.input.len()`. Every round reads a byte at least.
  unfoldable pub read_loop : ℕ → Document → Result (Option Element)
  read_loop zero d = elim d.input [ [] ↦ finish d | _ ∷ _ ↦ err stuck ]
  read_loop (suc fuel) d = elim d.input [
    | [] ↦ finish d
    | t ∷ input ↦ step t (rest_of d input) >>= λ d'. read_loop fuel d'
  ]

  unfoldable pub read_document : Bytes → Result (Option Element)
  unfolding read_loop
  read_document input =
      read_loop (length input) (record { input = input; current_page = 0; stack = []; root = none })

  unfoldable pub decode : Bytes → Result (Option Element)
  unfolding read_header read_document
  decode [] = ok none
  decode (b ∷ input) = do
    guard (leb (length (b ∷ input)) max_document_bytes) (protocol "WBXML document exceeds 36 MiB")
    rest ← read_header (b ∷ input)
    read_document rest
