-- ===== src/Semantics/Sources.antt =====
-- tools/function_runtime.py: a case of the corpus, and what is read of its source, which `ast.parse`
-- turns into a tree. `none` is a CorpusError.
pub mod Bodies
pub mod Validated
pub mod Parts
pub mod Acyclic
pub mod Typed
pub mod Worker
pub mod Runtime
use purepy.Base.{
  ℕ, zero, suc, ◌+◌, Bool, true, false, ◌&&◌, ◌||◌, not, Option, none, some, List, [], ◌∷◌, leb,
  ◌==◌, ◌>>=◌, Text, codes, text_eq, length,
}
use purepy.Base.Json.{contains}
use purepy.Base.Python.{require}
use purepy.Semantics.Values.{Value, Values}
use purepy.Semantics.Declared.{Node, type_node}
use purepy.Semantics.Arguments.{primitive_kinds}

abbrev pub max_nodes : ℕ
max_nodes = 2000

abbrev pub max_functions : ℕ
max_functions = 8

abbrev pub max_parameters : ℕ
max_parameters = 16

-- BUILTINS of tools/differential_semantics.py
abbrev pub builtins : List Text
builtins =
    codes "len"
    ∷ codes "range"
    ∷ codes "abs"
    ∷ codes "min"
    ∷ codes "max"
    ∷ codes "sum"
    ∷ codes "all"
    ∷ codes "any"
    ∷ codes "int"
    ∷ codes "float"
    ∷ codes "str"
    ∷ codes "bytes"
    ∷ []

unfoldable pub every : (ℕ → Bool) → Text → Bool
every test [] = true
every test (c ∷ s) = test c && every test s

abbrev is_letter : ℕ → Bool
is_letter c = leb 65 c && leb c 90 || leb 97 c && leb c 122

abbrev is_decimal : ℕ → Bool
is_decimal c = leb 48 c && leb c 57

-- `"__" in value`
unfoldable pub has_double_underscore : Text → Bool
has_double_underscore [] = false
has_double_underscore (c ∷ []) = false
has_double_underscore (c ∷ d ∷ s) = c == 95 && d == 95 || has_double_underscore (d ∷ s)

-- `_name`
unfoldable pub is_name : Text → Bool
is_name [] = false
is_name (c ∷ s) =
    (is_letter c || c == 95)
    && every (λ d. is_letter d || (is_decimal d || d == 95)) s
    && leb (length s) 127
    && not (has_double_underscore (c ∷ s))

-- LABEL
unfoldable pub is_label : Text → Bool
is_label [] = false
is_label (c ∷ s) =
    (is_letter c || is_decimal c)
    && every (λ d. is_letter d || (is_decimal d || contains_character d)) s
    && leb (length s) 159
  where
    contains_character : ℕ → Bool
    contains_character d = d == 95 || (d == 46 || (d == 58 || (d == 47 || d == 45)))

-- What `ast.walk` finds in a function, as far as the checks tell it apart.
pub data Walked (F : Type 0) : Type 0 where
  name_use : (is_store : Bool) (id : Text) → Walked F
  assign : (targets_named : List Bool) → Walked F
  ann_assign : (target_named : Bool) (annotation : Node) → Walked F
  for_loop : (target_named : Bool) → Walked F
  tuple_literal : (elements : ℕ) → Walked F
  literal : Value F → Walked F
  ellipsis_literal : Walked F
  call : (function : Option Text) (arguments : ℕ) (keywords : List (Option Text)) → Walked F
  this_function other_function other_allowed disallowed : Walked F

pub record Function (F : Type 0) : Type 0 where
  pub name : Text
  pub decorators : ℕ
  pub type_parameters : ℕ
  pub positional_only : ℕ
  pub keyword_only : ℕ
  pub defaults : ℕ
  pub keyword_defaults : ℕ
  pub has_rest : Bool
  pub has_keyword_rest : Bool
  pub arguments : List (Text × Option Node)
  pub returns : Option Node
  pub nodes : List (Walked F)

-- `ast.parse`: how many nodes there are, and the body, where `none` is no synchronous function.
pub record Tree (F : Type 0) : Type 0 where
  pub size : ℕ
  pub body : List (Option (Function F))

-- `_Case`, and the arguments of each `_Invocation`.
pub record RuntimeCase (F : Type 0) : Type 0 where
  pub name : Text
  pub family : Text
  pub source : Text
  pub parameters : List (Text × Text)
  pub returns : Text
  pub invocations : List (Values F)

-- The names and types of the parameters, and the type of the result.
abbrev pub Signature : Type 0
Signature = List (Text × Text) × Text

-- What stands for no annotation is refused.
unfoldable pub annotated : Option Node → Option Text
annotated none = none
annotated (some node) = type_node node 0

unfoldable pub read_parameters : List (Text × Option Node) → List Text → Option (List (Text × Text))
read_parameters [] seen = some []
read_parameters ((name, annotation) ∷ arguments) seen =
    require (is_name name && not (contains seen name)) >>= λ _. annotated annotation >>= λ this.
    read_parameters arguments (name ∷ seen) >>= λ others. some ((name, this) ∷ others)

module _ {F : Type 0} where
  abbrev pub is_plain : Function F → Bool
  is_plain f =
      f.decorators == 0
      && f.type_parameters == 0
      && f.positional_only == 0
      && f.keyword_only == 0
      && f.defaults == 0
      && f.keyword_defaults == 0
      && not f.has_rest
      && not f.has_keyword_rest
      && leb (length f.arguments) max_parameters

  unfoldable pub signature : Function F → Option Signature
  signature f = require (is_plain f) >>= λ _. read_parameters f.arguments [] >>= λ parameters.
      annotated f.returns >>= λ returns. some (parameters, returns)

-- Functions, parameters and variables have none of these names.
abbrev pub is_reserved : Text → Bool
is_reserved name =
    contains builtins name || (contains primitive_kinds name || text_eq name (codes "tuple"))

-- `parse_type`, after `ast.parse` of an expression.
unfoldable pub parse_type : (Text → Option Node) → Text → Option Text
parse_type parse_expression s = require (not (length s == 0) && leb (length s) 256) >>= λ _.
    parse_expression s >>= λ node. type_node node 0

-- The type of the metadata has to be spelled the canonical way.
unfoldable pub is_canonical : (Text → Option Node) → Text → Bool
is_canonical parse_expression s = elim (parse_type parse_expression s) [
  | none ↦ false
  | some t ↦ text_eq t s
]
