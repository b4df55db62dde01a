-- ===== src/Wbxml/Content.antt =====
-- Reading back what each form of content was written as (crates/eas/src/wbxml/codec.rs).
use eas_mail_mcp.Base.{
  ℕ, ◌+◌, ◌≤◌, ◌<◌, ◌^◌, ◌≡◌, refl, sym, ap, ◌∙◌, subst, true, false, not, Bool-cases, Option, inl,
  inr, List, [], ◌∷◌, ◌++◌, Bytes, length, arith, ok, ltb, ltb→lt, ◌==◌, append_assoc, append-nil,
}
use eas_mail_mcp.Wbxml.Element.{
  Element, element, Node, child, text, opaque, Nodes, nil, cons, push_node, append_nodes,
  append_nodes-push_node, new,
}
use eas_mail_mcp.Wbxml.CodePage.{CodePage, code_page_for_namespace}
use eas_mail_mcp.Wbxml.CodePage.Build.{
  validate, TokensInRange, code_page_for_namespace-IsUsable, tag-token,
}
use eas_mail_mcp.Wbxml.Mbuint.{encode_mbuint}
use eas_mail_mcp.Wbxml.Utf8.{is_utf8}
use eas_mail_mcp.Wbxml.Encode.{
  Writer, emit, select_page, with_content, contains_nul, encode_element, encode_node,
}
use eas_mail_mcp.Wbxml.Decode.{Document, attach}
use eas_mail_mcp.Wbxml.Steps.{document, Steps, here, Steps-trans}
use eas_mail_mcp.Wbxml.Reads.{
  switch_round, text_round, opaque_round, leaf_round, open_round, close_round,
}
use eas_mail_mcp.Wbxml.Canonical.{canonical, canonical_nodes, canonical_node}
use eas_mail_mcp.Wbxml.Opened.{Opened, guard-eq-ok, canonical_namespace-page}

module _ (pages : List CodePage) where
  -- `w'` is `w` with bytes behind it, and reading these bytes attaches `e`.
  abbrev pub ElementReads : Element → ℕ → Writer → Writer → Type 0
  ElementReads e depth w w' =
      (bs : Bytes) × (w'.output ≡ w.output ++ bs)
      × ((rest : Bytes) (stack : List Element) (root : Option Element) (d' : Document)
          → length stack ≡ depth
          → attach (canonical pages e) (document rest w'.current_page stack root) ≡ ok d'
          → Steps pages (document (bs ++ rest) w.current_page stack root) d')

  -- The same for content, which joins that of the innermost open element.
  abbrev pub ContentReads : (Nodes → Nodes) → ℕ → Writer → Writer → Type 0
  ContentReads extend depth w w' =
      (bs : Bytes) × (w'.output ≡ w.output ++ bs)
      × ((rest : Bytes) (stack : List Element) (root : Option Element) (ns name : Bytes)
            (content : Nodes)
          → length stack ≡ depth
          → Steps pages
              (document (bs ++ rest) w.current_page (element ns name content ∷ stack) root)
              (document rest w'.current_page (element ns name (extend content) ∷ stack) root))

  select_page-reads :
      (page : CodePage) (w : Writer)
      → (bs : Bytes) × ((select_page page w).output ≡ w.output ++ bs)
        × ((select_page page w).current_page ≡ page.id)
        × ((rest : Bytes) (stack : List Element) (root : Option Element)
            → length stack ≤ 128
            → Steps pages
                (document (bs ++ rest) w.current_page stack root)
                (document rest page.id stack root))
  unfolding select_page
  select_page-reads page w = elim (Bool-cases (page.id == w.current_page)) [
    | inl same ↦
        let e : page.id ≡ w.current_page = ground arith in
        ([], rw (same, append-nil), rw same (sym e), λ rest stack root h. rw e here)
    | inr other ↦ (
      0 ∷ page.id ∷ [],
      rw other,
      rw other,
      λ rest stack root h. switch_round pages page.id w.current_page rest stack root h,
    )
  ]

  attach-canonical :
      (namespace name : Bytes) (content : Nodes) (p : CodePage) (page page' : ℕ)
      → code_page_for_namespace pages namespace ≡ ok p
      → page ≡ page'
      → (rest : Bytes) (stack : List Element) (root : Option Element) (d' : Document)
      → attach (canonical pages (element namespace name content)) (document rest page stack root)
        ≡ ok d'
      → attach
          (element p.namespace name (canonical_nodes pages content))
          (document rest page' stack root)
        ≡ ok d'
  unfolding canonical
  attach-canonical namespace name content p page page' found at_page rest stack root d' a =
      let inner = canonical_nodes pages content in
      subst
        (λ (q : ℕ). attach (element p.namespace name inner) (document rest q stack root) ≡ ok d')
        at_page
        (subst
          (λ (q : Bytes). attach (element q name inner) (document rest page stack root) ≡ ok d')
          (canonical_namespace-page pages namespace p found) a)

  pub join_reads :
      (n : Node) (ns : Nodes) (depth : ℕ) (w w₁ w' : Writer)
      → ContentReads (λ c. push_node c (canonical_node pages n)) depth w w₁
      → ContentReads (λ c. append_nodes c (canonical_nodes pages ns)) depth w₁ w'
      → ContentReads (λ c. append_nodes c (canonical_nodes pages (cons n ns))) depth w w'
  unfolding canonical
  join_reads n ns depth w w₁ w' (bs₁, e₁, r₁) (bs₂, e₂, r₂) = (
    bs₁ ++ bs₂,
    e₂ ∙ rw e₁ (append_assoc w.output bs₁ bs₂),
    λ rest stack root namespace name content depth_eq. rw (append_assoc bs₁ bs₂ rest) (
        Steps-trans (r₁ (bs₂ ++ rest) stack root namespace name content depth_eq) (
          rw (append_nodes-push_node content (canonical_node pages n) (canonical_nodes pages ns)) at
            (r₂ rest stack root namespace name (push_node content (canonical_node pages n))
              depth_eq))),
  )

  pub child_reads :
      (c : Element) (depth : ℕ) (w w' : Writer)
      → ElementReads c (depth + 1) w w'
      → ContentReads (λ content. push_node content (canonical_node pages (child c))) depth w w'
  unfolding canonical
  child_reads c depth w w' (bs, e, r) = (
    bs,
    e,
    λ rest stack root namespace name content depth_eq.
        r rest (element namespace name content ∷ stack) root _ (omega arith) refl,
  )

  pub text_reads :
      (t : Bytes) (depth : ℕ) (w w' : Writer)
      → depth < 128
      → is_utf8 t ≡ true
      → encode_node pages (text t) depth w ≡ ok w'
      → ContentReads (λ content. push_node content (canonical_node pages (text t))) depth w w'
  unfolding canonical encode_element
  text_reads t depth w w' shallow typed h =
      let (clean, same) = guard-eq-ok (not (contains_nul t)) _ h in
      let no_nul : contains_nul t ≡ false = ground arith in
      let grown : emit (3 ∷ (t ++ 0 ∷ [])) w ≡ w' = ground arith in
      (
        3 ∷ (t ++ 0 ∷ []),
        ap (λ (v : Writer). v.output) (sym grown),
        λ rest stack root namespace name content depth_eq. rw (append_assoc t (0 ∷ []) rest) (
            subst
              (λ (q : ℕ).
                Steps pages
                  (document (3 ∷ (t ++ 0 ∷ rest)) w.current_page
                    (element namespace name content ∷ stack) root)
                  (document rest q (element namespace name (push_node content (text t)) ∷ stack)
                    root))
              (ap (λ (v : Writer). v.current_page) grown)
              (text_round pages t rest w.current_page stack root namespace name content
                (omega arith) no_nul typed)),
      )

  pub opaque_reads :
      (xs : Bytes) (depth : ℕ) (w w' : Writer)
      → depth < 128
      → ltb (length xs) (2 ^ 64) ≡ true
      → encode_node pages (opaque xs) depth w ≡ ok w'
      → ContentReads (λ content. push_node content (canonical_node pages (opaque xs))) depth w w'
  unfolding canonical encode_element
  opaque_reads xs depth w w' shallow typed h =
      let grown : emit (0xc3 ∷ (encode_mbuint (length xs) ++ xs)) w ≡ w' = ground arith in
      (
        0xc3 ∷ (encode_mbuint (length xs) ++ xs),
        ap (λ (v : Writer). v.output) (sym grown),
        λ rest stack root namespace name content depth_eq.
            rw (append_assoc (encode_mbuint (length xs)) xs rest) (
              subst
                (λ (q : ℕ).
                  Steps pages
                    (document (0xc3 ∷ (encode_mbuint (length xs) ++ (xs ++ rest))) w.current_page
                      (element namespace name content ∷ stack) root)
                    (document rest q
                      (element namespace name (push_node content (opaque xs)) ∷ stack) root))
                (ap (λ (v : Writer). v.current_page) grown)
                (opaque_round pages xs rest w.current_page stack root namespace name content
                  (omega arith) (ltb→lt (length xs) (2 ^ 64) typed))),
      )

  module _ (valid : validate pages ≡ ok tt) (range : TokensInRange pages) where
    pub leaf_reads :
        (namespace name : Bytes) (depth : ℕ) (w w' : Writer)
        → Opened pages namespace name nil depth w w'
        → ElementReads (element namespace name nil) depth w w'
    unfolding canonical_nodes
    leaf_reads namespace name depth w w' o =
        let p : CodePage = o.page in
        let t : ℕ = o.tok in
        let usable = code_page_for_namespace-IsUsable pages namespace p valid range o.found in
        let (tagged, lo, hi) = tag-token pages p name t usable o.named in
        let (sw, out, page, switched) = select_page-reads p w in
        let w1 : Writer = emit (t ∷ []) (select_page p w) in
        let same : w1 ≡ w' = unfold encode_element in ground (arith, o.written, o.closed) in
        let at_page : w'.current_page ≡ p.id =
          ap (λ (v : Writer). v.current_page) (sym same) ∙ page in
        (
          sw ++ t ∷ [],
          ap (λ (v : Writer). v.output) (sym same) ∙ rw out (append_assoc w.output sw (t ∷ [])),
          λ rest stack root d' depth_eq a.
              let small : length stack < 128 = omega (arith, o.shallow) in
              rw (append_assoc sw (t ∷ []) rest) (
                Steps-trans (switched (t ∷ rest) stack root (omega arith)) (
                  leaf_round pages t lo hi usable.by_id tagged rest stack root d' (omega arith) (
                    attach-canonical namespace name nil p _ _ o.found at_page rest stack root d'
                      a))),
        )

    pub open_reads :
        (namespace name : Bytes) (n : Node) (ns : Nodes) (depth : ℕ) (w w' : Writer)
        (o : Opened pages namespace name (cons n ns) depth w w')
        → ContentReads
            (λ c. append_nodes c (canonical_nodes pages (cons n ns)))
            depth
            (emit (with_content (cons n ns) o.tok ∷ []) (select_page o.page w))
            o.inner
        → ElementReads (element namespace name (cons n ns)) depth w w'
    open_reads namespace name n ns depth w w' o (bs, grown, reads) =
        let p : CodePage = o.page in
        let t : ℕ = o.tok in
        let usable = code_page_for_namespace-IsUsable pages namespace p valid range o.found in
        let (tagged, lo, hi) = tag-token pages p name t usable o.named in
        let (sw, out, page, switched) = select_page-reads p w in
        let tag_byte : with_content (cons n ns) t ≡ t + 64 = ground arith in
        (
          sw ++ (t + 64) ∷ (bs ++ 1 ∷ []),
          ap (λ (v : Writer). v.output) (sym o.closed) ∙ simp (grown, tag_byte, out, append_assoc),
          λ rest stack root d' depth_eq a.
              let small : length stack < 128 = omega (arith, o.shallow) in
              let inside =
                subst
                  (λ (q : ℕ).
                    Steps pages (document (bs ++ 1 ∷ rest) q (new p.namespace name ∷ stack) root) (
                      document (1 ∷ rest) o.inner.current_page
                        (element p.namespace name (canonical_nodes pages (cons n ns)) ∷ stack)
                        root))
                  page (reads (1 ∷ rest) stack root p.namespace name nil depth_eq) in
              let back : w'.current_page ≡ o.inner.current_page =
                ap (λ (v : Writer). v.current_page) (sym o.closed) in
              rw (append_assoc sw ((t + 64) ∷ (bs ++ 1 ∷ [])) rest, append_assoc bs (1 ∷ []) rest)
                (Steps-trans (switched _ stack root (omega arith)) (
                  Steps-trans
                    (open_round pages t lo hi usable.by_id tagged (bs ++ 1 ∷ rest) stack root small)
                    (Steps-trans inside (
                      close_round pages _ rest o.inner.current_page stack root d' (omega arith) (
                        attach-canonical namespace name (cons n ns) p _ _ o.found back rest stack
                          root d' a))))),
        )
