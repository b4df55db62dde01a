-- ===== src/Wbxml/Canonical.antt =====
-- The form in which a tree comes back from the wire, and the trees that the types of the source
-- allow (crates/eas/src/wbxml/element.rs).
use eas_mail_mcp.Base.{◌^◌, Bool, true, ◌&&◌, Option, none, some, List, Bytes, length, ltb}
use eas_mail_mcp.Wbxml.Element.{Element, element, Node, child, text, opaque, Nodes, nil, cons}
use eas_mail_mcp.Wbxml.CodePage.{CodePage, find_namespace}
use eas_mail_mcp.Wbxml.Utf8.{is_utf8}

abbrev namespace_of : Option CodePage → Bytes → Bytes
namespace_of none namespace = namespace
namespace_of (some page) namespace = page.namespace

-- A namespace as the table of code pages spells it: the encoder takes any case.
abbrev pub canonical_namespace : List CodePage → Bytes → Bytes
canonical_namespace pages namespace = namespace_of (find_namespace pages namespace) namespace

unfoldable mutual
  pub canonical : List CodePage → Element → Element
  canonical pages (element namespace name content) =
      element (canonical_namespace pages namespace) name (canonical_nodes pages content)

  pub canonical_nodes : List CodePage → Nodes → Nodes
  canonical_nodes pages nil = nil
  canonical_nodes pages (cons n ns) = cons (canonical_node pages n) (canonical_nodes pages ns)

  pub canonical_node : List CodePage → Node → Node
  canonical_node pages (child c) = child (canonical pages c)
  canonical_node pages (text t) = text t
  canonical_node pages (opaque bytes) = opaque bytes

-- A text is UTF-8, as every `String` is, and a length is a `usize`.
unfoldable mutual
  pub is_typed : Element → Bool
  is_typed (element namespace name content) = is_typed_nodes content

  pub is_typed_nodes : Nodes → Bool
  is_typed_nodes nil = true
  is_typed_nodes (cons n ns) = is_typed_node n && is_typed_nodes ns

  pub is_typed_node : Node → Bool
  is_typed_node (child c) = is_typed c
  is_typed_node (text t) = is_utf8 t
  is_typed_node (opaque bytes) = ltb (length bytes) (2 ^ 64)
