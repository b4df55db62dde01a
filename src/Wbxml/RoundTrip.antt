-- ===== src/Wbxml/RoundTrip.antt =====
-- Decoding what the encoder wrote gives the element tree back (crates/eas/src/wbxml/codec.rs).
use eas_mail_mcp.Base.{
  ℕ, ◌+◌, ◌<◌, ◌≡◌, refl, sym, subst, true, Option, some, none, and-eq_true, List, [], ◌∷◌, ◌++◌,
  Bytes, length, arith, ok, >>=-eq-ok, leb, append-nil,
}
use eas_mail_mcp.Wbxml.Element.{
  Element, element, Node, child, text, opaque, Nodes, nil, cons, push_node, append_nodes,
  append_nodes-nil,
}
use eas_mail_mcp.Wbxml.CodePage.{CodePage}
use eas_mail_mcp.Wbxml.CodePage.Build.{validate, TokensInRange}
use eas_mail_mcp.Wbxml.Encode.{Writer, encode_element, encode_nodes, encode_node, encode}
use eas_mail_mcp.Wbxml.Decode.{Document, attach, read_document, decode}
use eas_mail_mcp.Wbxml.Tokens.{max_document_bytes}
use eas_mail_mcp.Wbxml.Steps.{document, Steps, here, read_loop-Steps}
use eas_mail_mcp.Wbxml.Canonical.{
  canonical, canonical_nodes, canonical_node, is_typed, is_typed_nodes, is_typed_node,
}
use eas_mail_mcp.Wbxml.Opened.{encode_element-Opened, guard-eq-ok}
use eas_mail_mcp.Wbxml.Content.{
  ElementReads, ContentReads, leaf_reads, open_reads, join_reads, child_reads, text_reads,
  opaque_reads,
}

module _ (pages : List CodePage) (valid : validate pages ≡ ok tt)
    (range : TokensInRange pages) where
  mutual
    unfolding encode_element canonical is_typed

    element_reads :
        (e : Element) (depth : ℕ) (w w' : Writer)
        → is_typed e ≡ true
        → encode_element pages e depth w ≡ ok w'
        → ElementReads pages e depth w w'
    element_reads (element namespace name nil) depth w w' typed h =
        leaf_reads pages valid range namespace name depth w w'
          (encode_element-Opened pages namespace name nil depth w w' h)
    element_reads (element namespace name (cons n ns)) depth w w' typed h =
        let o = encode_element-Opened pages namespace name (cons n ns) depth w w' h in
        open_reads pages valid range namespace name n ns depth w w' o
          (nodes_reads (cons n ns) depth _ o.inner o.shallow typed o.written)

    nodes_reads :
        (ns : Nodes) (depth : ℕ) (w w' : Writer)
        → depth < 128
        → is_typed_nodes ns ≡ true
        → encode_nodes pages ns depth w ≡ ok w'
        → ContentReads pages (λ c. append_nodes c (canonical_nodes pages ns)) depth w w'
    nodes_reads nil depth w w' shallow typed h =
        let same : w ≡ w' = ground arith in
        subst (ContentReads pages (λ c. append_nodes c nil) depth w) same (
          [],
          sym (append-nil w.output),
          λ rest stack root namespace name content depth_eq. rw (append_nodes-nil content) here,
        )
    nodes_reads (cons n ns) depth w w' shallow typed h =
        let (w₁, h₁, h₂) = >>=-eq-ok (encode_node pages n depth w) _ h in
        let (tn, tns) = and-eq_true (is_typed_node n) (is_typed_nodes ns) typed in
        join_reads pages n ns depth w w₁ w' (node_reads n depth w w₁ shallow tn h₁)
          (nodes_reads ns depth w₁ w' shallow tns h₂)

    node_reads :
        (n : Node) (depth : ℕ) (w w' : Writer)
        → depth < 128
        → is_typed_node n ≡ true
        → encode_node pages n depth w ≡ ok w'
        → ContentReads pages (λ c. push_node c (canonical_node pages n)) depth w w'
    node_reads (child c) depth w w' shallow typed h =
        child_reads pages c depth w w' (element_reads c (depth + 1) w w' typed h)
    node_reads (text t) depth w w' shallow typed h = text_reads pages t depth w w' shallow typed h
    node_reads (opaque bytes) depth w w' shallow typed h =
        opaque_reads pages bytes depth w w' shallow typed h

  abbrev first_writer : Writer
  first_writer = record { current_page = 0; output = 0x03 ∷ 0x01 ∷ 0x6a ∷ 0x00 ∷ [] }

  read_document-written :
      (root : Element) (w : Writer) (bs : Bytes)
      → ((rest : Bytes) (stack : List Element) (r : Option Element) (d' : Document)
          → length stack ≡ 0
          → attach (canonical pages root) (document rest w.current_page stack r) ≡ ok d'
          → Steps pages (document (bs ++ rest) 0 stack r) d')
      → read_document pages bs ≡ ok (some (canonical pages root))
  unfolding read_document
  read_document-written root w bs reads =
      let run =
        reads [] [] none (document [] w.current_page [] (some (canonical pages root))) refl refl in
      read_loop-Steps pages (length bs) (rw (append-nil bs) at run) refl (omega arith)

  -- If the table of code pages passes the checks of the build and its tokens are tag tokens, then
  -- every tree of well-formed texts that `encode` accepts is decoded from what `encode` wrote, with
  -- its namespaces as the table spells them and all else unchanged.
  pub decode-encode :
      (root : Element) (bytes : Bytes)
      → is_typed root ≡ true
      → encode pages root ≡ ok bytes
      → decode pages bytes ≡ ok (some (canonical pages root))
  unfolding encode decode
  decode-encode root bytes typed h =
      let (w, written, h₁) = >>=-eq-ok (encode_element pages root 0 first_writer) _ h in
      let (fits, out) = guard-eq-ok (leb (length w.output) max_document_bytes) _ h₁ in
      let (bs, grown, reads) = element_reads root 0 first_writer w typed written in
      let same : 0x03 ∷ 0x01 ∷ 0x6a ∷ 0x00 ∷ bs ≡ bytes = ground arith in
      let small : leb (length (0x03 ∷ 0x01 ∷ 0x6a ∷ 0x00 ∷ bs)) max_document_bytes ≡ true =
        rw grown at fits in
      rw (← same) (rw small (read_document-written root w bs reads))
