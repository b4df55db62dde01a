-- ===== src/Wbxml/Depth.antt =====
-- How deep a tree the encoder accepts (crates/eas/src/wbxml/codec.rs).
use eas_mail_mcp.Base.{ℕ, suc, ◌+◌, ◌≤◌, ◌<◌, ◌≡◌, List, [], ◌∷◌, Bytes, arith, ok, >>=-eq-ok}
use eas_mail_mcp.Wbxml.Element.{
  Element, element, Node, child, text, opaque, Nodes, nil, cons, depth, depth_nodes, depth_node,
}
use eas_mail_mcp.Wbxml.CodePage.{CodePage}
use eas_mail_mcp.Wbxml.Encode.{Writer, encode_element, encode_nodes, encode_node, encode}
use eas_mail_mcp.Wbxml.Decode.{bytes}
use eas_mail_mcp.Wbxml.Opened.{encode_element-Opened}

module _ (pages : List CodePage) where
  mutual
    unfolding depth encode_element

    encode_element-depth :
        (e : Element) (d : ℕ) (w w' : Writer)
        → encode_element pages e d w ≡ ok w'
        → depth e + d ≤ 128
    encode_element-depth (element namespace name content) d w w' h =
        let o = encode_element-Opened pages namespace name content d w w' h in
        omega (arith, o.shallow, encode_nodes-depth content d _ o.inner o.shallow o.written)

    encode_nodes-depth :
        (ns : Nodes) (d : ℕ) (w w' : Writer)
        → d < 128
        → encode_nodes pages ns d w ≡ ok w'
        → depth_nodes ns + suc d ≤ 128
    encode_nodes-depth nil d w w' s h = omega arith
    encode_nodes-depth (cons n ns) d w w' s h =
        let (w₁, h₁, h₂) = >>=-eq-ok (encode_node pages n d w) _ h in
        omega (arith, encode_node-depth n d w w₁ s h₁, encode_nodes-depth ns d w₁ w' s h₂)

    encode_node-depth :
        (n : Node) (d : ℕ) (w w' : Writer)
        → d < 128
        → encode_node pages n d w ≡ ok w'
        → depth_node n + suc d ≤ 128
    encode_node-depth (child c) d w w' s h = omega (arith, encode_element-depth c (d + 1) w w' h)
    encode_node-depth (text t) d w w' s h = omega arith
    encode_node-depth (opaque xs) d w w' s h = omega arith

  -- A tree that `encode` accepts is at most 128 elements deep.
  pub encode-depth :
      (root : Element) (bytes : Bytes) → encode pages root ≡ ok bytes → depth root ≤ 128
  unfolding encode
  encode-depth root bytes h =
      let (w, written, h₁) =
        >>=-eq-ok
          (encode_element pages root 0
            (record { current_page = 0; output = 0x03 ∷ 0x01 ∷ 0x6a ∷ 0x00 ∷ [] }))
          _ h in
      omega (arith, encode_element-depth root 0 _ w written)
