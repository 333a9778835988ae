-- ===== src/Semantics/Examples/Sources.antt =====
-- A case of two functions, and the theorems on the sources of cases.
use purepy.Base.{
  Bool, List, Text, Option, ◌<◌, none, some, true, false, [], ◌∷◌, codes, map, ◌≡◌, ◌⊎◌, refl, ap,
  text_eq, arith, All, if◌then◌else◌,
}
use purepy.Base.Int.{pos}
use purepy.Base.Json.{contains}
use purepy.Semantics.Values.{
  Value, Values, int_value, bool_value, none_value, tuple_value, more, empty,
}
use purepy.Semantics.Examples.{one_float}
use purepy.Semantics.Declared.{
  Node, bin_op, subscript, name_node, tuple_node, node_then, constant, ellipsis, none_constant,
  no_nodes,
}
use purepy.Semantics.Sources.{
  Walked, Function, Tree, RuntimeCase, name_use, assign, for_loop, literal, call, this_function,
  other_allowed, ellipsis_literal, tuple_literal,
}
use purepy.Semantics.Sources.Bodies.{only_functions}
use purepy.Semantics.Sources.Validated.{Python, validated_tree, validate_case}
use purepy.Semantics.Sources.Worker.Sent.{AreSendable}
use purepy.Semantics.Sources.Acyclic.{IsAcyclic, validated_tree-IsAcyclic}
use purepy.Semantics.Sources.Typed.{Has, HaveTypes, validated_tree-HaveTypes}

abbrev pub int_node : Node
int_node = name_node (codes "int")

-- tuple[int, ...]
abbrev pub tuple_of_int : Node
tuple_of_int =
    subscript (name_node (codes "tuple"))
      (tuple_node (node_then int_node (node_then (constant ellipsis) no_nodes)))

abbrev pub sample_parameters : List (Text × Text)
sample_parameters = (codes "xs", codes "tuple[int, ...]") ∷ (codes "flag", codes "bool | None") ∷ []

module _ {F : Type 0} where
  abbrev pub plain_function : Text → List (Text × Option Node) → Node → List (Walked F) → Function F
  plain_function name arguments returns nodes = record {
    name = name;
    decorators = 0;
    type_parameters = 0;
    positional_only = 0;
    keyword_only = 0;
    defaults = 0;
    keyword_defaults = 0;
    has_rest = false;
    has_keyword_rest = false;
    arguments = arguments;
    returns = some returns;
    nodes = nodes;
  }

  -- def half(x: int) -> int: return x // 2
  abbrev pub half : Function F
  half = plain_function (codes "half") ((codes "x", some int_node) ∷ []) int_node (
      this_function
      ∷ name_use false (codes "int")
      ∷ other_allowed
      ∷ name_use false (codes "x")
      ∷ literal (int_value (pos 2))
      ∷ [])

  -- def probe(xs: tuple[int, ...], flag: bool | None) -> int:
  --     n = half(len(xs))
  --     return n
  abbrev pub probe : Function F
  probe =
      plain_function (codes "probe")
        ((codes "xs", some tuple_of_int)
          ∷ (codes "flag", some (bin_op true (name_node (codes "bool")) (constant none_constant)))
          ∷ [])
        int_node
        (this_function
          ∷ name_use false (codes "tuple")
          ∷ name_use false (codes "int")
          ∷ tuple_literal 2
          ∷ ellipsis_literal
          ∷ name_use false (codes "bool")
          ∷ literal none_value
          ∷ assign (true ∷ [])
          ∷ name_use true (codes "n")
          ∷ call (some (codes "half")) 1 []
          ∷ name_use false (codes "half")
          ∷ call (some (codes "len")) 1 []
          ∷ name_use false (codes "len")
          ∷ name_use false (codes "xs")
          ∷ name_use false (codes "n")
          ∷ [])

  abbrev pub two_functions : Tree F
  two_functions = record { size = 40; body = some half ∷ some probe ∷ [] }

  -- A parser that knows the sample alone.
  abbrev pub sample_python : Python F
  sample_python = record {
    parse = λ s. if text_eq s (codes "sample") then some two_functions else none;
    parse_expression = λ s.
        if text_eq s (codes "tuple[int, ...]")
        then some tuple_of_int
        else if text_eq s (codes "bool | None")
        then some (bin_op true (name_node (codes "bool")) (constant none_constant))
        else some (name_node s);
    compiles = λ tree. true;
  }

  abbrev pub sample_arguments : Values F
  sample_arguments =
      more (tuple_value (more (int_value (pos 5)) (more (int_value (pos 7)) empty)))
        (more none_value empty)

  abbrev pub sample_case : RuntimeCase F
  sample_case = record {
    name = codes "half-1";
    family = codes "calls";
    source = codes "sample";
    parameters = sample_parameters;
    returns = codes "int";
    invocations = sample_arguments ∷ [];
  }

pub sample_accepted : validated_tree one_float sample_python sample_case ≡ some two_functions
unfolding validated_tree purepy.Semantics.Sources.Validated.header_allowed
    purepy.Semantics.Sources.is_label purepy.Semantics.Sources.every purepy.Base.Decimal.encode_utf8
    text_eq purepy.Semantics.Sources.Bodies.module_functions only_functions
    purepy.Semantics.Sources.Bodies.declare_functions purepy.Semantics.Sources.is_name
    purepy.Semantics.Sources.has_double_underscore contains purepy.Semantics.Sources.signature
    purepy.Semantics.Sources.read_parameters purepy.Semantics.Sources.annotated
    purepy.Semantics.Declared.type_node purepy.Semantics.Declared.optional_text
    purepy.Semantics.Sources.Bodies.signature_of purepy.Base.Decimal.digits
    purepy.Base.Decimal.encode_character purepy.Base.Decimal.str purepy.Base.Json.get
    purepy.Base.Sorting.insert_text purepy.Base.Sorting.sort_texts purepy.Base.text_lt
    purepy.Semantics.Arguments.bounded_value purepy.Semantics.Calls.and_then
    purepy.Semantics.Calls.callees purepy.Semantics.Calls.visit purepy.Semantics.Calls.visit_callees
    purepy.Semantics.Calls.visit_each purepy.Semantics.Calls.visit_functions
    purepy.Semantics.Matching.all_items purepy.Semantics.Matching.characters
    purepy.Semantics.Matching.content_items purepy.Semantics.Matching.iterate
    purepy.Semantics.Matching.key_items purepy.Semantics.Matching.kind_is
    purepy.Semantics.Matching.match_fuel purepy.Semantics.Matching.matches_type
    purepy.Semantics.Sources.Bodies.add_target purepy.Semantics.Sources.Bodies.all_nodes
    purepy.Semantics.Sources.Bodies.bodies_allowed purepy.Semantics.Sources.Bodies.body_allowed
    purepy.Semantics.Sources.Bodies.call_graph purepy.Semantics.Sources.Bodies.call_target
    purepy.Semantics.Sources.Bodies.called_functions purepy.Semantics.Sources.Bodies.graph_entry
    purepy.Semantics.Sources.Bodies.keywords_allowed purepy.Semantics.Sources.Bodies.locals_allowed
    purepy.Semantics.Sources.Bodies.node_allowed purepy.Semantics.Sources.Bodies.nodes_of
    purepy.Semantics.Sources.Bodies.stored_names purepy.Semantics.Sources.Bodies.use_allowed
    purepy.Semantics.Sources.Validated.arguments_allowed
    purepy.Semantics.Sources.Validated.has_exact_type
    purepy.Semantics.Sources.Validated.invocations_allowed
    purepy.Semantics.Sources.Validated.metadata_allowed
    purepy.Semantics.Sources.Validated.parameters_allowed
    purepy.Semantics.Sources.Validated.same_parameters purepy.Semantics.Sources.is_canonical
    purepy.Semantics.Sources.parse_type purepy.Semantics.Values.bytes_hex
    purepy.Semantics.Values.encode_value purepy.Semantics.Values.int_text
sample_accepted = refl

pub sample_valid : validate_case one_float sample_python sample_case ≡ true
unfolding validate_case
sample_valid = ap (λ o. elim o [ none ↦ false | some tree ↦ true ]) sample_accepted

pub sample_sendable : AreSendable one_float sample_arguments
unfolding AreSendable
sample_sendable = ((tt, (tt, tt)), (tt, tt))

validated_tree-IsAcyclic_example :
    (functions : List (Function (Unit {0}))) × (some (half ∷ probe ∷ []) ≡ some functions)
    × IsAcyclic functions
unfolding only_functions
validated_tree-IsAcyclic_example =
    validated_tree-IsAcyclic one_float sample_python sample_case two_functions sample_accepted

validated_tree-HaveTypes_example :
    (functions : List (Function (Unit {0}))) × (some (half ∷ probe ∷ []) ≡ some functions)
    × Has functions (codes "probe") (sample_parameters, codes "int")
    × All (λ vs. HaveTypes {F = Unit {0}} vs sample_parameters) (sample_arguments ∷ [])
unfolding only_functions
validated_tree-HaveTypes_example =
    validated_tree-HaveTypes one_float sample_python sample_case two_functions (sample_sendable, tt)
      sample_accepted
