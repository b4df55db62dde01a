-- ===== src/Wbxml/Text.antt =====
-- What an element contains: its texts, its opaque bytes, its children
-- (crates/eas/src/wbxml/element.rs).
use eas_mail_mcp.Base.{Option, none, some, List, [], ◌∷◌, ◌++◌, Bytes}
use eas_mail_mcp.Wbxml.Element.{Element, element, Nodes, nil, cons, child, text, opaque}

abbrev pub texts : Nodes → Bytes
texts nil = []
texts (cons (text t) ns) = t ++ texts ns
texts (cons (child c) ns) = texts ns
texts (cons (opaque bytes) ns) = texts ns

-- `Element::text_content`
abbrev pub text_content : Element → Bytes
text_content (element namespace name content) = texts content

abbrev pub opaque_in : Nodes → Option Bytes
opaque_in nil = none
opaque_in (cons (opaque bytes) ns) = some bytes
opaque_in (cons (text t) ns) = opaque_in ns
opaque_in (cons (child c) ns) = opaque_in ns

-- `Element::opaque_content`
abbrev pub opaque_content : Element → Option Bytes
opaque_content (element namespace name content) = opaque_in content

abbrev pub children_in : Nodes → List Element
children_in nil = []
children_in (cons (child c) ns) = c ∷ children_in ns
children_in (cons (text t) ns) = children_in ns
children_in (cons (opaque bytes) ns) = children_in ns

-- `Element::children`
abbrev pub children : Element → List Element
children (element namespace name content) = children_in content
