-- ===== src/Wbxml/Opened.antt =====
-- What a successful `encode_element` has done (crates/eas/src/wbxml/codec.rs).
use eas_mail_mcp.Base.{
  ℕ, zero, suc, ◌+◌, ◌≤◌, ◌<◌, ◌^◌, ◌≡◌, refl, sym, ap, ◌∙◌, subst, Bool, true, false, not, ◌&&◌,
  Bool-cases, Option, some, none, and-eq_true, inl, inr, List, [], ◌∷◌, ◌++◌, Bytes, length, arith,
  ok, err, ◌>>=◌, ◌>>◌, guard, >>=-eq-ok, ltb, ltb→lt, leb, ◌==◌, if◌then◌else◌, append_assoc,
  append-nil,
}
use eas_mail_mcp.Base
use eas_mail_mcp.Wbxml.Element.{element, Nodes}
use eas_mail_mcp.Wbxml.CodePage.{CodePage, code_page_for_namespace, token}
use eas_mail_mcp.Wbxml.Encode.{
  Writer, emit, select_page, with_content, close, encode_element, encode_nodes,
}
use eas_mail_mcp.Wbxml.Canonical.{canonical_namespace}

-- What `encode_element` needs to succeed.
pub record Opened (pages : List CodePage) (namespace name : Bytes) (content : Nodes) (depth : ℕ)
    (w w' : Writer) : Type 0 where
  pub page : CodePage
  pub tok : ℕ
  pub inner : Writer
  pub shallow : depth < 128
  pub found : code_page_for_namespace pages namespace ≡ ok page
  pub named : token page name ≡ ok tok
  pub written :
      encode_nodes pages content depth (emit (with_content content tok ∷ []) (select_page page w))
      ≡ ok inner
  pub closed : close content inner ≡ w'

pub guard-eq-ok :
    {A : Type 0} {E : Type 0} (b : Bool) (e : E) {k : Base.Result E A} {a : A}
    → (guard b e >> k) ≡ ok a
    → (b ≡ true) × (k ≡ ok a)
guard-eq-ok true e h = (refl, h)
guard-eq-ok false e h = cc

pub encode_element-Opened :
    (pages : List CodePage) (namespace name : Bytes) (content : Nodes) (depth : ℕ) (w w' : Writer)
    → encode_element pages (element namespace name content) depth w ≡ ok w'
    → Opened pages namespace name content depth w w'
unfolding encode_element
encode_element-Opened pages namespace name content depth w w' h =
    let (shallow, h₁) = guard-eq-ok _ _ h in
    let (page, found, h₂) = >>=-eq-ok (code_page_for_namespace pages namespace) _ h₁ in
    let (tok, named, h₃) = >>=-eq-ok (token page name) _ h₂ in
    let (inner, written, h₄) =
      >>=-eq-ok
        (encode_nodes pages content depth
          (emit (with_content content tok ∷ []) (select_page page w)))
        _ h₃ in
    record {
      page = page;
      tok = tok;
      inner = inner;
      shallow = ltb→lt depth 128 shallow;
      found = found;
      named = named;
      written = written;
      closed = ground (arith, h₄);
    }

pub canonical_namespace-page :
    (pages : List CodePage) (namespace : Bytes) (page : CodePage)
    → code_page_for_namespace pages namespace ≡ ok page
    → canonical_namespace pages namespace ≡ page.namespace
unfolding code_page_for_namespace
canonical_namespace-page pages namespace page h = ground arith
