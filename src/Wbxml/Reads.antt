-- ===== src/Wbxml/Reads.antt =====
-- Single rounds of the decoder's loop on what the encoder writes (crates/eas/src/wbxml/codec.rs).
use eas_mail_mcp.Base.{
  ℕ, suc, ◌+◌, ◌/◌, ◌%◌, ◌^◌, ◌≤◌, ◌<◌, ◌≡◌, refl, ap, true, false, Option, some, List, [], ◌∷◌,
  ◌++◌, Bytes, length, take, drop, arith, ok, length-append, le→leb,
}
use eas_mail_mcp.Wbxml.Element.{Element, element, text, opaque, Nodes, push_node, new}
use eas_mail_mcp.Wbxml.CodePage.{CodePage, code_page, tag}
use eas_mail_mcp.Wbxml.Mbuint.{encode_mbuint}
use eas_mail_mcp.Wbxml.Mbuint.RoundTrip.{mbuint-encode_mbuint}
use eas_mail_mcp.Wbxml.Utf8.{is_utf8}
use eas_mail_mcp.Wbxml.Encode.{contains_nul}
use eas_mail_mcp.Wbxml.Decode.{
  Document, bytes, position_nul, inline_string, attach, read_switch, read_text, read_opaque,
  start_element, read_token, step,
}
use eas_mail_mcp.Wbxml.Steps.{document, Steps, here, next}

take-append : (xs ys : Bytes) → take (length xs) (xs ++ ys) ≡ xs
take-append [] ys = refl
take-append (x ∷ xs) ys = ap (λ l. x ∷ l) (take-append xs ys)

drop-append : (xs ys : Bytes) → drop (length xs) (xs ++ ys) ≡ ys
drop-append [] ys = refl
drop-append (x ∷ xs) ys = drop-append xs ys

pub bytes-append : (xs ys : Bytes) → bytes (length xs) (xs ++ ys) ≡ ok (xs, ys)
unfolding bytes
bytes-append xs ys = rw (
  length-append xs ys,
  le→leb (length xs) (length xs + length ys) (omega arith),
  take-append,
  drop-append,
)

position_nul-append :
    (t rest : Bytes) → contains_nul t ≡ false → position_nul (t ++ 0 ∷ rest) ≡ some (length t)
position_nul-append [] rest h = refl
position_nul-append (b ∷ t) rest h = ground (arith, position_nul-append t rest)

pub inline_string-append :
    (t rest : Bytes)
    → contains_nul t ≡ false
    → is_utf8 t ≡ true
    → inline_string (t ++ 0 ∷ rest) ≡ ok (t, rest)
unfolding inline_string
inline_string-append t rest h u = rw (position_nul-append t rest h, bytes-append t (0 ∷ rest), u)

module _ (pages : List CodePage) where
  round :
      (t : ℕ) (input : Bytes) (page : ℕ) (stack : List Element) (root : Option Element)
      {d' : Document}
      → step pages t (document input page stack root) ≡ ok d'
      → Steps pages (document (t ∷ input) page stack root) d'
  round t input page stack root h = next t input refl h here

  pub switch_round :
      (id page : ℕ) (rest : Bytes) (stack : List Element) (root : Option Element)
      → length stack ≤ 128
      → Steps pages (document (0 ∷ id ∷ rest) page stack root) (document rest id stack root)
  unfolding step read_token read_switch
  switch_round id page rest stack root h =
      round 0 (id ∷ rest) page stack root (rw (le→leb (length stack) 128 h))

  pub text_round :
      (t rest : Bytes) (page : ℕ) (stack : List Element) (root : Option Element) (ns name : Bytes)
      (content : Nodes)
      → length stack < 128
      → contains_nul t ≡ false
      → is_utf8 t ≡ true
      → Steps pages
          (document (3 ∷ (t ++ 0 ∷ rest)) page (element ns name content ∷ stack) root)
          (document rest page (element ns name (push_node content (text t)) ∷ stack) root)
  unfolding step read_token read_text
  text_round t rest page stack root ns name content h n u =
      round 3 (t ++ 0 ∷ rest) page (element ns name content ∷ stack) root
        (rw (inline_string-append t rest n u, le→leb (suc (length stack)) 128 h))

  pub opaque_round :
      (xs rest : Bytes) (page : ℕ) (stack : List Element) (root : Option Element) (ns name : Bytes)
      (content : Nodes)
      → length stack < 128
      → length xs < 2 ^ 64
      → Steps pages
          (document
            (0xc3 ∷ (encode_mbuint (length xs) ++ (xs ++ rest)))
            page
            (element ns name content ∷ stack)
            root)
          (document rest page (element ns name (push_node content (opaque xs)) ∷ stack) root)
  unfolding step read_token read_opaque
  opaque_round xs rest page stack root ns name content h l =
      round 0xc3 (encode_mbuint (length xs) ++ (xs ++ rest)) page (element ns name content ∷ stack)
        root
        (rw (
          mbuint-encode_mbuint (length xs) (xs ++ rest) l,
          bytes-append xs rest,
          le→leb (suc (length stack)) 128 h,
        ))

  read_token-tag :
      (t : ℕ) (d : Document) → 5 ≤ t → t < 64 → read_token pages t d ≡ start_element pages t d
  unfolding read_token
  read_token-tag t d lo hi = ground arith

  read_token-open :
      (t : ℕ) (d : Document)
      → 5 ≤ t
      → t < 64
      → read_token pages (t + 64) d ≡ start_element pages (t + 64) d
  unfolding read_token
  read_token-open t d lo hi = ground arith

  attach-stack :
      (e : Element) (d d' : Document) → attach e d ≡ ok d' → length d'.stack ≡ length d.stack
  attach-stack e d d' h = ground arith

  module _ {p : CodePage} {name : Bytes} (t : ℕ) (lo : 5 ≤ t) (hi : t < 64)
      (by_id : code_page pages p.id ≡ ok p) (by_token : tag p t ≡ ok name) where
    start_element-tag :
        (d : Document)
        → d.current_page ≡ p.id
        → start_element pages t d ≡ attach (new p.namespace name) d
    unfolding start_element
    start_element-tag d e =
        let low : t % 64 ≡ t = omega arith in
        let seventh : t / 128 % 2 ≡ 0 = omega arith in
        let sixth : t / 64 % 2 ≡ 0 = omega arith in rw (seventh, e, by_id, low, by_token, sixth)

    start_element-open :
        (d : Document)
        → d.current_page ≡ p.id
        → start_element pages (t + 64) d ≡ ok (record d { stack = new p.namespace name ∷ d.stack })
    unfolding start_element
    start_element-open d e =
        let low : (t + 64) % 64 ≡ t = omega arith in
        let seventh : (t + 64) / 128 % 2 ≡ 0 = omega arith in
        let sixth : (t + 64) / 64 % 2 ≡ 1 = omega arith in
        rw (seventh, e, by_id, low, by_token, sixth)

    -- A tag with no content.
    pub leaf_round :
        (rest : Bytes) (stack : List Element) (root : Option Element) (d' : Document)
        → length stack ≤ 128
        → attach (new p.namespace name) (document rest p.id stack root) ≡ ok d'
        → Steps pages (document (t ∷ rest) p.id stack root) d'
    unfolding step
    leaf_round rest stack root d' h a =
        let d : Document = document rest p.id stack root in
        round t rest p.id stack root (
          rw (
            read_token-tag t d lo hi,
            start_element-tag d refl,
            a,
            le→leb (length d'.stack) 128 (omega (arith, attach-stack _ d d' a)),
          ))

    -- A tag with content opens an element.
    pub open_round :
        (rest : Bytes) (stack : List Element) (root : Option Element)
        → length stack < 128
        → Steps pages
            (document ((t + 64) ∷ rest) p.id stack root)
            (document rest p.id (new p.namespace name ∷ stack) root)
    unfolding step
    open_round rest stack root h =
        let d : Document = document rest p.id stack root in
        round (t + 64) rest p.id stack root (
          rw (
            read_token-open t d lo hi,
            start_element-open d refl,
            le→leb (suc (length stack)) 128 h,
          ))

  -- The end of an element.
  pub close_round :
      (e : Element) (rest : Bytes) (page : ℕ) (stack : List Element) (root : Option Element)
      (d' : Document)
      → length stack ≤ 128
      → attach e (document rest page stack root) ≡ ok d'
      → Steps pages (document (1 ∷ rest) page (e ∷ stack) root) d'
  unfolding step read_token
  close_round e rest page stack root d' h a =
      let d : Document = document rest page stack root in
      round 1 rest page (e ∷ stack) root
        (rw (a, le→leb (length d'.stack) 128 (omega (arith, attach-stack e d d' a))))
