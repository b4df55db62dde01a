-- ===== src/Wbxml/Element.antt =====
-- The element tree (crates/eas/src/wbxml/element.rs). A `Vec<Node>` is `Nodes`; texts are bytes.
use eas_mail_mcp.Base.{
  ℕ, suc, ◌≡◌, refl, ap, Bool, ◌&&◌, Option, none, some, List, [], ◌∷◌, ◌++◌, Bytes, bytes_eq,
  eq_ignore_ascii_case, if◌then◌else◌, max,
}

mutual
  pub data Element : Type 0 where
    element : Bytes → Bytes → Nodes → Element

  pub data Node : Type 0 where
    child : Element → Node
    text : Bytes → Node
    opaque : Bytes → Node

  pub data Nodes : Type 0 where
    nil : Nodes
    cons : Node → Nodes → Nodes

-- `Vec::push`
abbrev pub push_node : Nodes → Node → Nodes
push_node nil n = cons n nil
push_node (cons m ns) n = cons m (push_node ns n)

abbrev pub append_nodes : Nodes → Nodes → Nodes
append_nodes nil ms = ms
append_nodes (cons n ns) ms = cons n (append_nodes ns ms)

pub append_nodes-nil : (ns : Nodes) → append_nodes ns nil ≡ ns
append_nodes-nil nil = refl
append_nodes-nil (cons n ns) = ap (cons n) (append_nodes-nil ns)

pub append_nodes-push_node :
    (ns : Nodes) (n : Node) (ms : Nodes)
    → append_nodes (push_node ns n) ms ≡ append_nodes ns (cons n ms)
append_nodes-push_node nil n ms = refl
append_nodes-push_node (cons m ns) n ms = ap (cons m) (append_nodes-push_node ns n ms)

-- `Element::new`
abbrev pub new : Bytes → Bytes → Element
new namespace name = element namespace name nil

-- `Element::text`
abbrev pub with_text : Bytes → Bytes → Bytes → Element
with_text namespace name value = element namespace name (cons (text value) nil)

-- `element.content.push(node)`
abbrev pub push_content : Element → Node → Element
push_content (element namespace name content) n = element namespace name (push_node content n)

-- `Element::push`
abbrev pub push : Element → Element → Element
push e c = push_content e (child c)

-- the test that `child`, `descendant` and `collect_descendants` share
unfoldable pub is_named : Bytes → Bytes → Element → Bool
is_named namespace name (element ns n _) = eq_ignore_ascii_case ns namespace && bytes_eq n name

child_in : Bytes → Bytes → Nodes → Option Element
child_in namespace name nil = none
child_in namespace name (cons (child c) ns) =
    let rest = child_in namespace name ns in if is_named namespace name c then some c else rest
child_in namespace name (cons (text _) ns) = child_in namespace name ns
child_in namespace name (cons (opaque _) ns) = child_in namespace name ns

-- `Element::child`
unfoldable pub find_child : Element → Bytes → Bytes → Option Element
unfolding child_in
find_child (element _ _ content) namespace name = child_in namespace name content

abbrev pub or_else : {A : Type 0} → Option A → Option A → Option A
or_else (some a) b = some a
or_else none b = b

-- `Element::descendant`: the first match in document order.
unfoldable mutual
  pub descendant : Bytes → Bytes → Element → Option Element
  descendant namespace name (element ns n content) =
      let below = descendant_in namespace name content in
      if is_named namespace name (element ns n content) then some (element ns n content) else below

  pub descendant_in : Bytes → Bytes → Nodes → Option Element
  descendant_in namespace name nil = none
  descendant_in namespace name (cons n ns) =
      let rest = descendant_in namespace name ns in or_else (descendant_node namespace name n) rest

  pub descendant_node : Bytes → Bytes → Node → Option Element
  descendant_node namespace name (child c) = descendant namespace name c
  descendant_node namespace name (text _) = none
  descendant_node namespace name (opaque _) = none

-- `Element::collect_descendants`: the matches are pushed on `output`.
unfoldable mutual
  pub collect : Bytes → Bytes → Element → List Element → List Element
  collect namespace name (element ns n content) output = collect_in namespace name content (
      if is_named namespace name (element ns n content)
      then output ++ element ns n content ∷ []
      else output)

  pub collect_in : Bytes → Bytes → Nodes → List Element → List Element
  collect_in namespace name nil output = output
  collect_in namespace name (cons n ns) output =
      collect_in namespace name ns (collect_node namespace name n output)

  pub collect_node : Bytes → Bytes → Node → List Element → List Element
  collect_node namespace name (child c) output = collect namespace name c output
  collect_node namespace name (text _) output = output
  collect_node namespace name (opaque _) output = output

-- `Element::descendants`
unfoldable pub descendants : Element → Bytes → Bytes → List Element
descendants e namespace name = collect namespace name e []

-- The number of elements on the longest way down.
unfoldable mutual
  pub depth : Element → ℕ
  depth (element _ _ content) = suc (depth_nodes content)

  pub depth_nodes : Nodes → ℕ
  depth_nodes nil = 0
  depth_nodes (cons n ns) = max (depth_node n) (depth_nodes ns)

  pub depth_node : Node → ℕ
  depth_node (child c) = depth c
  depth_node (text _) = 0
  depth_node (opaque _) = 0
