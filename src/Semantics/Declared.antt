-- ===== src/Semantics/Declared.antt =====
-- tools/function_runtime.py: the types that the parameters and results of corpus functions may
-- have. `none` is a CorpusError.
pub mod Sound
pub mod Complete
use purepy.Base.{
  ℕ, suc, Bool, true, false, ◌&&◌, ◌||◌, Option, none, some, List, [], ◌∷◌, ◌++◌, leb,
  if◌then◌else◌, ◌>>=◌, Text, codes, text_eq,
}
use purepy.Base.Json.{contains}
use purepy.Semantics.Matching.{ends_with}

-- Python's `ast` nodes, as far as `_type_node` tells them apart.
pub data Constant : Type 0 where
  none_constant ellipsis other_constant : Constant

mutual
  pub data Node : Type 0 where
    name_node : Text → Node
    constant : Constant → Node
    bin_op : (is_bit_or : Bool) (left right : Node) → Node
    subscript : (object slice : Node) → Node
    tuple_node : Nodes → Node
    other_node : Node

  pub data Nodes : Type 0 where
    no_nodes : Nodes
    node_then : Node → Nodes → Nodes

abbrev pub max_depth : ℕ
max_depth = 4

-- PRIMITIVES - {"None"}
abbrev pub named_primitives : List Text
named_primitives = codes "bool" ∷ codes "int" ∷ codes "float" ∷ codes "str" ∷ codes "bytes" ∷ []

-- `element + " | None"`, with the test before it.
unfoldable pub optional_text : Text → Option Text
optional_text element =
    if text_eq element (codes "None") || ends_with (codes " | None") element
    then none
    else some (element ++ codes " | None")

abbrev pub tuple_text : Text → Text
tuple_text element = codes "tuple[" ++ (element ++ codes ", ...]")

unfoldable pub type_node : Node → ℕ → Option Text
type_node (name_node name) depth =
    if leb depth max_depth && contains named_primitives name then some name else none
type_node (constant none_constant) depth = if leb depth max_depth then some (codes "None") else none
type_node (bin_op true left (constant none_constant)) depth =
    let element = type_node left (suc depth) in
    if leb depth max_depth then element >>= optional_text else none
type_node
      (subscript
        (name_node object)
        (tuple_node (node_then item (node_then (constant ellipsis) no_nodes))))
      depth =
    let element = type_node item (suc depth) in
    if leb depth max_depth && text_eq object (codes "tuple")
    then element >>= (λ e. some (tuple_text e))
    else none
type_node _ depth = none
