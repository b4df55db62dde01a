-- ===== src/Wbxml/Nesting.antt =====
-- How deep a tree the decoder accepts (crates/eas/src/wbxml/codec.rs).
use eas_mail_mcp.Base.{
  ℕ, zero, suc, ◌+◌, ◌≤◌, ◌≡◌, refl, Option, some, none, Result-cases, Bool-cases, ◌==◌, ◌/◌, ◌%◌,
  inl, inr, List, [], ◌∷◌, Bytes, length, arith, ok, >>=-eq-ok, guard, leb, max,
}
use eas_mail_mcp.Wbxml.Element.{
  Element, element, Node, child, text, opaque, Nodes, nil, cons, push_node, push_content, new,
  depth, depth_nodes, depth_node,
}
use eas_mail_mcp.Wbxml.CodePage.{CodePage, code_page, tag}
use eas_mail_mcp.Wbxml.Tokens.{max_document_bytes}
use eas_mail_mcp.Wbxml.Decode.{
  Document, attach, append_node, finish_element, finish, read_switch, read_text, read_opaque,
  start_element, read_token, step, read_loop, read_header, read_document, decode, inline_string,
  bytes,
}
use eas_mail_mcp.Wbxml.Mbuint.{byte, mbuint}
use eas_mail_mcp.Wbxml.Steps.{document, step_inversion}

depth_nodes-push_node :
    (ns : Nodes) (n : Node) → depth_nodes (push_node ns n) ≡ max (depth_nodes ns) (depth_node n)
unfolding depth
depth_nodes-push_node nil n = omega arith
depth_nodes-push_node (cons m ns) n = omega (arith, depth_nodes-push_node ns n)

depth-push_content :
    (e : Element) (n : Node) → depth (push_content e n) ≡ max (depth e) (suc (depth_node n))
unfolding depth
depth-push_content (element namespace name content) n =
    omega (arith, depth_nodes-push_node content n)

-- Every open element leaves room: its depth and the elements that it stands in are 129 at most.
abbrev Nested : List Element → Type 0
Nested [] = Unit
Nested (e ∷ stack) = (depth e + length stack ≤ 129) × Nested stack

abbrev RootBounded : Option Element → Type 0
RootBounded none = Unit
RootBounded (some e) = depth e ≤ 129

record Fits (d : Document) : Type 0 where
  nested : Nested d.stack
  root : RootBounded d.root

attach-Fits :
    (e : Element) (input : Bytes) (page : ℕ) (stack : List Element) (root : Option Element)
    {d' : Document}
    → Fits (document input page stack root)
    → depth e + length stack ≤ 129
    → attach e (document input page stack root) ≡ ok d'
    → Fits d'
unfolding depth
attach-Fits e input page [] none b h a = ground arith
attach-Fits e input page [] (some r) b h a = cc
attach-Fits e input page (p ∷ stack) root b h a = ground (arith, depth-push_content p (child e))

depth_pos : (e : Element) → 1 ≤ depth e
unfolding depth
depth_pos (element namespace name content) = omega arith

append_node-Fits :
    (n : Node) (input : Bytes) (page : ℕ) (stack : List Element) (root : Option Element)
    {d' : Document}
    → depth_node n ≡ 0
    → Fits (document input page stack root)
    → append_node n (document input page stack root) ≡ ok d'
    → Fits d'
append_node-Fits n input page [] root z b a = cc
append_node-Fits n input page (p ∷ stack) root z b a =
    ground (arith, depth-push_content p n, depth_pos p)

finish_element-Fits :
    (input : Bytes) (page : ℕ) (stack : List Element) (root : Option Element) {d' : Document}
    → Fits (document input page stack root)
    → finish_element (document input page stack root) ≡ ok d'
    → Fits d'
finish_element-Fits input page [] root b a = cc
finish_element-Fits input page (e ∷ stack) root b a =
    attach-Fits e input page stack root (record { nested = b.nested.1; root = b.root }) b.nested.0 a

module _ (d : Document) {d' : Document} (b : Fits d) where
  read_switch-Fits : read_switch d ≡ ok d' → Fits d'
  unfolding read_switch
  read_switch-Fits h = elim (Result-cases (byte d.input)) [
    | inr (x, e) ↦ cc (rw e at h)
    | inl ((page, input), e) ↦ let h' = rw e at h in ground (arith, h')
  ]

  read_text-Fits : read_text d ≡ ok d' → Fits d'
  unfolding read_text depth
  read_text-Fits h =
      let ((value, input), e, a) = >>=-eq-ok (inline_string d.input) _ h in
      append_node-Fits (text value) input d.current_page d.stack d.root refl
        (record { nested = b.nested; root = b.root }) a

  read_opaque-Fits : read_opaque d ≡ ok d' → Fits d'
  unfolding read_opaque depth
  read_opaque-Fits h =
      let ((n, input), e, h₁) = >>=-eq-ok (mbuint d.input) _ h in
      let ((value, input'), e', a) = >>=-eq-ok (bytes n input) _ h₁ in
      append_node-Fits (opaque value) input' d.current_page d.stack d.root refl
        (record { nested = b.nested; root = b.root }) a

  start_element-Fits :
      (pages : List CodePage) (t : ℕ)
      → length d.stack ≤ 128
      → start_element pages t d ≡ ok d'
      → Fits d'
  unfolding start_element depth
  start_element-Fits pages t shallow h = elim (Bool-cases (t / 128 % 2 == 0)) [
    | inr attributes ↦ cc (rw attributes at h)
    | inl plain ↦
        let (page, e, h₁) = >>=-eq-ok (code_page pages d.current_page) _ (rw plain at h) in
        let (name, e', h₂) = >>=-eq-ok (tag page (t % 64)) _ h₁ in
        elim (Bool-cases (t / 64 % 2 == 0)) [
          | inl empty ↦
              attach-Fits (new page.namespace name) d.input d.current_page d.stack d.root b
                (omega arith) (rw empty at h₂)
          | inr content ↦ let h₃ = rw content at h₂ in ground (arith, h₃)
        ]
  ]

  end-Fits : finish_element d ≡ ok d' → Fits d'
  end-Fits = finish_element-Fits d.input d.current_page d.stack d.root b

  read_token-Fits :
      (pages : List CodePage) (t : ℕ)
      → length d.stack ≤ 128
      → read_token pages t d ≡ ok d'
      → Fits d'
  read_token-Fits pages t shallow h =
      unfold read_token in
      ground (
        arith,
        read_switch-Fits,
        end-Fits,
        read_text-Fits,
        read_opaque-Fits,
        start_element-Fits pages t,
      )

finish-depth :
    (page : ℕ) (stack : List Element) (root : Option Element) (e : Element)
    → RootBounded root
    → finish (document [] page stack root) ≡ ok (some e)
    → depth e ≤ 129
finish-depth page [] none e b h = cc
finish-depth page [] (some r) e b h = ground arith
finish-depth page (x ∷ stack) root e b h = cc

read_loop-depth :
    (pages : List CodePage) (fuel : ℕ) (input : Bytes) (page : ℕ) (stack : List Element)
    (root : Option Element) (e : Element)
    → Fits (document input page stack root)
    → length stack ≤ 128
    → read_loop pages fuel (document input page stack root) ≡ ok (some e)
    → depth e ≤ 129
unfolding read_loop
read_loop-depth pages zero [] page stack root e b s h = finish-depth page stack root e b.root h
read_loop-depth pages zero (t ∷ input) page stack root e b s h = cc
read_loop-depth pages (suc fuel) [] page stack root e b s h =
    finish-depth page stack root e b.root h
read_loop-depth pages (suc fuel) (t ∷ input) page stack root e b s h =
    let d : Document = document input page stack root in
    let (d₁, stepped, more) = >>=-eq-ok (step pages t d) _ h in
    let (read, shallow) = step_inversion d pages t stepped in
    read_loop-depth pages fuel d₁.input d₁.current_page d₁.stack d₁.root e
      (read_token-Fits d (record { nested = b.nested; root = b.root }) pages t s read) shallow more

-- A tree that `decode` returns is at most 129 elements deep: one more than `encode` accepts, since
-- the decoder counts the open elements, and an element with no content is never open.
pub decode-depth :
    (pages : List CodePage) (input : Bytes) (e : Element)
    → decode pages input ≡ ok (some e)
    → depth e ≤ 129
unfolding decode read_document
decode-depth pages [] e h = cc
decode-depth pages (x ∷ input) e h =
    let (_, _, h₁) = >>=-eq-ok (guard (leb (length (x ∷ input)) max_document_bytes) _) _ h in
    let (rest, _, h₂) = >>=-eq-ok (read_header (x ∷ input)) _ h₁ in
    read_loop-depth pages (length rest) rest 0 [] none e (record { nested = tt; root = tt })
      (omega arith) h₂
