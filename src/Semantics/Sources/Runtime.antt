-- ===== src/Semantics/Sources/Runtime.antt =====
-- tools/function_runtime.py: `runtime_case`. What executing the source and calling `probe` does is a
-- parameter, the budget of events included. `none` is an exception.
use purepy.Base.{ℕ, suc, Option, none, some, List, [], ◌∷◌, ◌>>=◌, Text, codes}
use purepy.Base.Int.{pos}
use purepy.Base.Json.{Json, Items, integer, text, arr, obj, nil, cons, end, field}
use purepy.Base.Python.{require}
use purepy.Semantics.Values.{Floats, Value, Values, encode_value}
use purepy.Semantics.Arguments.{bounded_value}
use purepy.Semantics.Sources.{Tree, RuntimeCase}
use purepy.Semantics.Sources.Validated.{Python, validated_tree}

-- A call of `probe`: a value, one of DOMAIN_ERRORS with the name of its type, or another exception.
pub data Called (F : Type 0) : Type 0 where
  returned : Value F → Called F
  domain_error : (name : Text) → Called F
  escaped : Called F

module _ {F : Type 0} (floats : Floats F) where
  unfoldable pub outcome_of : ℕ → Called F → Option (Json F)
  outcome_of index (returned v) = require (bounded_value v 0) >>= λ _.
      encode_value floats v >>= λ j.
      some (obj (field (codes "index") (integer (pos index)) (field (codes "value") j end)))
  outcome_of index (domain_error name) = some (
      obj (field (codes "index") (integer (pos index)) (field (codes "exception") (text name) end)))
  outcome_of index escaped = none

  -- The loop over the invocations, from an index.
  unfoldable pub outcomes_of : (Values F → Called F) → ℕ → List (Values F) → Option (Items F)
  outcomes_of probe index [] = some nil
  outcomes_of probe index (arguments ∷ invocations) =
      outcome_of index (probe arguments) >>= λ first.
      outcomes_of probe (suc index) invocations >>= λ rest. some (cons first rest)

  unfoldable pub runtime_case :
      Python F → (Tree F → Values F → Called F) → RuntimeCase F → Option (Json F)
  runtime_case python execute case = validated_tree floats python case >>= λ tree.
      outcomes_of (execute tree) 0 case.invocations >>= λ outcomes.
      some
        (obj (field (codes "name") (text case.name) (field (codes "outcomes") (arr outcomes) end)))
