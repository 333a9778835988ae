-- ===== src/Semantics/Sources/Validated.antt =====
-- tools/function_runtime.py: `_validated_tree` and `validate_case`. The parser and the compiler of
-- Python are parameters; `none` is a CorpusError, or the UnicodeEncodeError of a source.
use purepy.Base.{
  ℕ, Bool, true, false, ◌&&◌, not, Option, none, some, List, [], ◌∷◌, leb, ◌>>=◌, Text, codes,
  text_eq, length,
}
use purepy.Base.Decimal.{encode_utf8}
use purepy.Base.Python.{require}
use purepy.Semantics.Values.{Floats, Value, Values, empty, more, encode_value}
use purepy.Semantics.Matching.{matches_type}
use purepy.Semantics.Declared.{Node}
use purepy.Semantics.Arguments.{bounded_value}
use purepy.Semantics.Calls.{Walk, finished, visit_functions}
use purepy.Semantics.Sources.{
  Tree, RuntimeCase, Signature, is_name, is_label, is_canonical, max_parameters, every,
}
use purepy.Semantics.Sources.Bodies.{
  module_functions, declare_functions, function_names, signature_of, bodies_allowed, call_graph,
}

abbrev pub max_source : ℕ
max_source = 32768

abbrev pub max_invocations : ℕ
max_invocations = 64

-- A source with surrogates is not encoded.
abbrev pub no_surrogate : ℕ → Bool
no_surrogate c = not (leb 55296 c && leb c 57343)

unfoldable pub same_parameters : List (Text × Text) → List (Text × Text) → Bool
same_parameters [] [] = true
same_parameters ((name, annotation) ∷ xs) ((other, expected) ∷ ys) =
    text_eq name other && text_eq annotation expected && same_parameters xs ys
same_parameters _ _ = false

abbrev pub walk_finished : Walk → Bool
walk_finished (finished visited) = true
walk_finished _ = false

-- What running a source takes of Python: `ast.parse` of modules and of expressions, and `compile`.
pub record Python (F : Type 0) : Type 0 where
  pub parse : Text → Option (Tree F)
  pub parse_expression : Text → Option Node
  pub compiles : Tree F → Bool

unfoldable pub header_allowed : {F : Type 0} → RuntimeCase F → Bool
header_allowed case =
    is_label case.name
    && is_label case.family
    && every no_surrogate case.source
    && leb (length (encode_utf8 case.source)) max_source

module _ {F : Type 0} (python : Python F) where
  unfoldable pub parameters_allowed : List (Text × Text) → Bool
  parameters_allowed [] = true
  parameters_allowed ((name, annotation) ∷ parameters) =
      is_name name
      && is_canonical python.parse_expression annotation
      && parameters_allowed parameters

  -- The metadata of the case, against the signature of `probe`.
  unfoldable pub metadata_allowed : RuntimeCase F → Signature → Bool
  metadata_allowed case (parameters, returns) =
      leb (length case.parameters) max_parameters
      && parameters_allowed case.parameters
      && is_canonical python.parse_expression case.returns
      && same_parameters case.parameters parameters
      && text_eq case.returns returns

module _ {F : Type 0} (floats : Floats F) where
  unfoldable pub has_exact_type : Value F → Text → Bool
  has_exact_type v annotation = elim (encode_value floats v) [
    | none ↦ false
    | some j ↦ elim (matches_type j annotation) [ some true ↦ true | _ ↦ false ]
  ]

  -- As many arguments as parameters, each bounded and of the exact type.
  unfoldable pub arguments_allowed : Values F → List (Text × Text) → Bool
  arguments_allowed empty [] = true
  arguments_allowed (more v vs) ((name, annotation) ∷ parameters) =
      bounded_value v 0 && has_exact_type v annotation && arguments_allowed vs parameters
  arguments_allowed _ _ = false

  unfoldable pub invocations_allowed : List (Values F) → List (Text × Text) → Bool
  invocations_allowed [] parameters = true
  invocations_allowed (vs ∷ invocations) parameters =
      arguments_allowed vs parameters && invocations_allowed invocations parameters

  abbrev pub invoked : RuntimeCase F → Bool
  invoked case =
      leb 1 (length case.invocations)
      && leb (length case.invocations) max_invocations
      && invocations_allowed case.invocations case.parameters

module _ {F : Type 0} (floats : Floats F) (python : Python F) where
  unfoldable pub validated_tree : RuntimeCase F → Option (Tree F)
  validated_tree case = require (header_allowed case) >>= λ _. python.parse case.source >>= λ tree.
      module_functions tree >>= λ functions. declare_functions functions [] >>= λ declared.
      signature_of declared (codes "probe") >>= λ probe.
      require (metadata_allowed python case probe && invoked floats case) >>= λ _.
      require (bodies_allowed (function_names declared) declared) >>= λ _.
      require (walk_finished (visit_functions (call_graph declared)) && python.compiles tree)
      >>= λ _. some tree

  -- Nothing of the tree is kept.
  unfoldable pub validate_case : RuntimeCase F → Bool
  validate_case case = elim (validated_tree case) [ none ↦ false | some tree ↦ true ]
