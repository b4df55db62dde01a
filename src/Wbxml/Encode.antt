-- ===== src/Wbxml/Encode.antt =====
-- The encoder (crates/eas/src/wbxml/codec.rs). The table of code pages is an argument. The byte
-- operations are arithmetic: `token |= 0x40` is `with_content`.
use eas_mail_mcp.Base.{
  ℕ, ◌+◌, ◌/◌, ◌%◌, Bool, true, false, List, [], ◌∷◌, ◌++◌, Bytes, length, ltb, leb, ◌==◌,
  if◌then◌else◌, ok, ◌>>=◌, ◌>>◌, guard, not, ◌||◌,
}
use eas_mail_mcp.EasError.{protocol, Result}
use eas_mail_mcp.Wbxml.Element.{Element, element, Node, child, text, opaque, Nodes, nil, cons}
use eas_mail_mcp.Wbxml.CodePage.{CodePage, code_page_for_namespace, token}
use eas_mail_mcp.Wbxml.Mbuint.{encode_mbuint}
use eas_mail_mcp.Wbxml.Tokens.{
  switch_page, end_token, str_i, opaque_token, max_document_bytes, max_depth,
}

-- The two `&mut` arguments of `encode_element`.
pub record Writer : Type 0 where
  pub current_page : ℕ
  pub output : Bytes

abbrev pub emit : Bytes → Writer → Writer
emit bytes w = record w { output = w.output ++ bytes }

unfoldable pub select_page : CodePage → Writer → Writer
select_page page w =
    if page.id == w.current_page
    then w
    else record { current_page = page.id; output = w.output ++ switch_page ∷ page.id ∷ [] }

abbrev pub is_empty : Nodes → Bool
is_empty nil = true
is_empty (cons _ _) = false

-- `if !element.content.is_empty() { token |= 0x40; }`
abbrev pub with_content : Nodes → ℕ → ℕ
with_content content t = if is_empty content then t else if t / 64 % 2 == 0 then t + 64 else t

abbrev pub contains_nul : Bytes → Bool
contains_nul [] = false
contains_nul (b ∷ bytes) = b == 0 || contains_nul bytes

abbrev pub close : Nodes → Writer → Writer
close content w = if is_empty content then w else emit (end_token ∷ []) w

module _ (pages : List CodePage) where
  unfoldable mutual
    pub encode_element : Element → ℕ → Writer → Result Writer
    encode_element (element namespace name content) depth w = do
      guard (ltb depth max_depth) (protocol "WBXML nesting exceeds 128 elements")
      page ← code_page_for_namespace pages namespace
      t ← token page name
      w' ← encode_nodes content depth (emit (with_content content t ∷ []) (select_page page w))
      ok (close content w')

    pub encode_nodes : Nodes → ℕ → Writer → Result Writer
    encode_nodes nil depth w = ok w
    encode_nodes (cons n ns) depth w = do w' ← encode_node n depth w; encode_nodes ns depth w'

    pub encode_node : Node → ℕ → Writer → Result Writer
    encode_node (child c) depth w = encode_element c (depth + 1) w
    encode_node (text t) depth w = do
      guard (not (contains_nul t)) (protocol "inline text contains NUL")
      ok (emit (str_i ∷ (t ++ 0 ∷ [])) w)
    encode_node (opaque bytes) depth w =
        ok (emit (opaque_token ∷ (encode_mbuint (length bytes) ++ bytes)) w)

  unfoldable pub encode : Element → Result Bytes
  unfolding encode_element
  encode root = do
    w ← encode_element root 0 (record { current_page = 0; output = 0x03 ∷ 0x01 ∷ 0x6a ∷ 0x00 ∷ [] })
    guard (leb (length w.output) max_document_bytes) (protocol "WBXML document exceeds 36 MiB")
    ok w.output
