-- ===== src/Semantics/Sources/Bodies.antt =====
-- tools/function_runtime.py, `_validated_tree`: the checks of the bodies of a module's functions, and
-- the graph of the calls.
pub mod Lookup
use purepy.Base.{
  ℕ, ◌+◌, Bool, true, false, ◌&&◌, ◌||◌, not, Option, none, some, List, [], ◌∷◌, ◌++◌, leb,
  if◌then◌else◌, ◌>>=◌, Text, codes, text_eq, length, map,
}
use purepy.Base.Json.{contains}
use purepy.Base.Python.{require}
use purepy.Base.Sorting.{sort_texts}
use purepy.Semantics.Declared.{type_node}
use purepy.Semantics.Arguments.{bounded_value, max_elements}
use purepy.Semantics.Calls.{Graph}
use purepy.Semantics.Sources.{
  Walked, name_use, assign, ann_assign, for_loop, tuple_literal, literal, ellipsis_literal, call,
  this_function, other_function, other_allowed, disallowed, Function, Tree, Signature, signature,
  is_name, is_reserved, builtins, max_nodes, max_functions, max_parameters,
}

-- The functions, each with its signature.
abbrev pub Declared : Type 0 → Type 0
Declared F = List (Function F × Signature)

abbrev pub parameter_names : List (Text × Text) → List Text
parameter_names [] = []
parameter_names ((name, annotation) ∷ parameters) = name ∷ parameter_names parameters

unfoldable pub locals_allowed : List Text → List Text → Bool
locals_allowed names [] = true
locals_allowed names (local ∷ locals) =
    is_name local && not (contains names local || is_reserved local) && locals_allowed names locals

unfoldable pub keywords_allowed : List (Option Text) → Bool
keywords_allowed [] = true
keywords_allowed (none ∷ keywords) = false
keywords_allowed (some keyword ∷ keywords) = is_name keyword && keywords_allowed keywords

abbrev pub add_name : Text → List Text → List Text
add_name name names = if contains names name then names else name ∷ names

unfoldable pub add_target : List Text → Option Text → List Text → List Text
add_target names none rest = rest
add_target names (some name) rest = if contains names name then add_name name rest else rest

module _ {F : Type 0} where
  -- `any(not isinstance(node, ast.FunctionDef) for node in tree.body)`
  unfoldable pub only_functions : List (Option (Function F)) → Option (List (Function F))
  only_functions [] = some []
  only_functions (none ∷ body) = none
  only_functions (some f ∷ body) = only_functions body >>= λ others. some (f ∷ others)

  unfoldable pub module_functions : Tree F → Option (List (Function F))
  module_functions tree =
      require (
        leb tree.size max_nodes && leb 1 (length tree.body) && leb (length tree.body) max_functions)
      >>= λ _. only_functions tree.body

  unfoldable pub declare_functions : List (Function F) → List Text → Option (Declared F)
  declare_functions [] seen = some []
  declare_functions (f ∷ fs) seen =
      require (is_name f.name && not (contains seen f.name || is_reserved f.name)) >>= λ _.
      signature f >>= λ s. declare_functions fs (f.name ∷ seen) >>= λ others. some ((f, s) ∷ others)

  abbrev pub function_names : Declared F → List Text
  function_names [] = []
  function_names ((f, s) ∷ declared) = f.name ∷ function_names declared

  -- `signatures[name]`
  unfoldable pub signature_of : Declared F → Text → Option Signature
  signature_of [] name = none
  signature_of ((f, s) ∷ declared) name =
      if text_eq f.name name then some s else signature_of declared name

  -- `functions[name]`, walked.
  unfoldable pub nodes_of : Declared F → Text → List (Walked F)
  nodes_of [] name = []
  nodes_of ((f, s) ∷ declared) name =
      if text_eq f.name name then f.nodes else nodes_of declared name

  unfoldable pub stored_names : List (Walked F) → List Text
  stored_names [] = []
  stored_names (name_use true name ∷ nodes) = name ∷ stored_names nodes
  stored_names (_ ∷ nodes) = stored_names nodes

  unfoldable pub node_allowed : Walked F → Bool
  node_allowed (assign (true ∷ [])) = true
  node_allowed (assign _) = false
  node_allowed (ann_assign named annotation) =
      named && (elim (type_node annotation 0) [ none ↦ false | some t ↦ true ])
  node_allowed (for_loop named) = named
  node_allowed (tuple_literal elements) = leb elements max_elements
  node_allowed (literal v) = bounded_value v 0
  node_allowed other_function = false
  node_allowed disallowed = false
  node_allowed _ = true

  -- The names that are known, and the targets and arguments of calls.
  unfoldable pub use_allowed : List Text → List Text → Walked F → Bool
  use_allowed names locals (name_use is_store name) =
      contains locals name || (contains names name || is_reserved name)
  use_allowed names locals (call none arguments keywords) = false
  use_allowed names locals (call (some name) arguments keywords) =
      (contains names name || contains builtins name)
      && leb (arguments + length keywords) max_parameters
      && keywords_allowed keywords
  use_allowed names locals _ = true

  unfoldable pub all_nodes : (Walked F → Bool) → List (Walked F) → Bool
  all_nodes test [] = true
  all_nodes test (node ∷ nodes) = test node && all_nodes test nodes

  unfoldable pub body_allowed : List Text → Function F × Signature → Bool
  body_allowed names (f, (parameters, returns)) =
      let locals = parameter_names parameters ++ stored_names f.nodes in
      all_nodes node_allowed f.nodes
      && locals_allowed names locals
      && all_nodes (use_allowed names locals) f.nodes

  unfoldable pub bodies_allowed : List Text → Declared F → Bool
  bodies_allowed names [] = true
  bodies_allowed names (this ∷ declared) = body_allowed names this && bodies_allowed names declared

  -- `node.func.id` of a call
  unfoldable pub call_target : Walked F → Option Text
  call_target (call function arguments keywords) = function
  call_target _ = none

  -- The set `graph[name]`.
  unfoldable pub called_functions : List Text → List (Walked F) → List Text
  called_functions names [] = []
  called_functions names (node ∷ nodes) =
      add_target names (call_target node) (called_functions names nodes)

  -- `graph`, in the orders in which `visit` goes through it.
  unfoldable pub graph_entry : Declared F → Text → Text × List Text
  graph_entry declared name =
      (name, sort_texts (called_functions (function_names declared) (nodes_of declared name)))

  unfoldable pub call_graph : Declared F → Graph
  call_graph declared = map (graph_entry declared) (sort_texts (function_names declared))
