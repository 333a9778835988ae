-- ===== src/Semantics/Declared/Complete.antt =====
-- Every declared type has a node that `type_node` accepts.
use purepy.Base.{ℕ, suc, ◌+◌, ◌≤◌, true, some, ◌++◌, leb, codes, text_eq, ◌≡◌, refl, arith}
use purepy.Base.Json.{contains}
use purepy.Semantics.Matching.Types.{
  none_type, bool_type, int_type, float_type, str_type, bytes_type, primitive_name, ExactType,
  primitive, optional, tuple_of, type_text, tuple_ends_with,
}
use purepy.Semantics.Declared.{
  Node, name_node, constant, bin_op, subscript, tuple_node, no_nodes, node_then, none_constant,
  ellipsis, optional_text, type_node, max_depth,
}
use purepy.Semantics.Declared.Sound.{height, IsRequired, IsDeclared}

-- The node of the expression that the type's text is.
unfoldable pub node_of : ExactType → Node
node_of (primitive none_type) = constant none_constant
node_of (primitive p) = name_node (primitive_name p)
node_of (optional t) = bin_op true (node_of t) (constant none_constant)
node_of (tuple_of t) =
    subscript (name_node (codes "tuple"))
      (tuple_node (node_then (node_of t) (node_then (constant ellipsis) no_nodes)))

leb_of_le : (a b : ℕ) → a ≤ b → leb a b ≡ true
leb_of_le a b h = ground arith

optional_text-type_text :
    (t : ExactType)
    → IsRequired t
    → optional_text (type_text t) ≡ some (type_text t ++ codes " | None")
unfolding optional_text type_text text_eq
optional_text-type_text (primitive none_type) h = elim h [ ]
optional_text-type_text (primitive bool_type) h = refl
optional_text-type_text (primitive int_type) h = refl
optional_text-type_text (primitive float_type) h = refl
optional_text-type_text (primitive str_type) h = refl
optional_text-type_text (primitive bytes_type) h = refl
optional_text-type_text (optional t) h = elim h [ ]
optional_text-type_text (tuple_of t) h = rw (tuple_ends_with (type_text t)) refl

-- Every type in which None and optional types are not made optional, and which is nested no deeper
-- than 4 less the depth, is accepted there: its node is turned into its text.
pub type_node-node_of :
    (t : ExactType) (depth : ℕ)
    → IsDeclared t
    → height t + depth ≤ max_depth
    → type_node (node_of t) depth ≡ some (type_text t)
unfolding type_node node_of type_text contains text_eq
type_node-node_of (primitive none_type) depth h low =
    rw (leb_of_le depth max_depth (omega (arith, low))) refl
type_node-node_of (primitive bool_type) depth h low =
    rw (leb_of_le depth max_depth (omega (arith, low))) refl
type_node-node_of (primitive int_type) depth h low =
    rw (leb_of_le depth max_depth (omega (arith, low))) refl
type_node-node_of (primitive float_type) depth h low =
    rw (leb_of_le depth max_depth (omega (arith, low))) refl
type_node-node_of (primitive str_type) depth h low =
    rw (leb_of_le depth max_depth (omega (arith, low))) refl
type_node-node_of (primitive bytes_type) depth h low =
    rw (leb_of_le depth max_depth (omega (arith, low))) refl
type_node-node_of (optional t) depth h low =
    rw
      (
        leb_of_le depth max_depth (omega (arith, low)),
        type_node-node_of t (suc depth) h.1 (omega (arith, low)),
      )
      (optional_text-type_text t h.0)
type_node-node_of (tuple_of t) depth h low =
    rw
      (
        leb_of_le depth max_depth (omega (arith, low)),
        type_node-node_of t (suc depth) h (omega (arith, low)),
      )
      refl
