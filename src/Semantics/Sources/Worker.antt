-- ===== src/Semantics/Sources/Worker.antt =====
-- tools/function_runtime.py: the cases that the worker reads from its input, before any of them runs.
-- `none` is an exception.
pub mod Sent
pub mod ReadBack
use purepy.Base.{
  ℕ, Bool, true, false, ◌&&◌, not, Option, none, some, List, [], ◌∷◌, leb, ◌>>=◌, Text, codes,
  length, map,
}
use purepy.Base.Json.{Json, Items, Fields, text, arr, obj, nil, cons, end, field, contains}
use purepy.Base.Python.{require, has_keys, item, count_items}
use purepy.Semantics.Values.{Floats, Values}
use purepy.Semantics.Arguments.{decode_elements}
use purepy.Semantics.Sources.{RuntimeCase, max_parameters}
use purepy.Semantics.Sources.Validated.{Python, validate_case, max_invocations}

abbrev pub max_cases : ℕ
max_cases = 2000

abbrev pub case_fields : List Text
case_fields =
    codes "name"
    ∷ codes "family"
    ∷ codes "source"
    ∷ codes "parameters"
    ∷ codes "returns"
    ∷ codes "invocations"
    ∷ []

-- What is no text, `_validated_tree` refuses.
unfoldable pub as_text : {F : Type 0} → Json F → Option Text
as_text (text s) = some s
as_text _ = none

unfoldable pub as_list : {F : Type 0} → ℕ → Json F → Option (Items F)
as_list limit (arr items) = require (leb (count_items items) limit) >>= λ _. some items
as_list limit _ = none

-- A list of two texts.
unfoldable pub read_pair : {F : Type 0} → Json F → Option (Text × Text)
read_pair (arr (cons (text name) (cons (text annotation) nil))) = some (name, annotation)
read_pair _ = none

unfoldable pub read_pairs : {F : Type 0} → Items F → Option (List (Text × Text))
read_pairs nil = some []
read_pairs (cons entry entries) =
    read_pair entry >>= λ first. read_pairs entries >>= λ rest. some (first ∷ rest)

abbrev pub case_names : {F : Type 0} → List (RuntimeCase F) → List Text
case_names cases = map (λ case. case.name) cases

-- `len({case.name for case in cases}) != len(cases)`, negated
unfoldable pub distinct_names : List Text → Bool
distinct_names [] = true
distinct_names (name ∷ names) = not (contains names name) && distinct_names names

module _ {F : Type 0} (floats : Floats F) where
  unfoldable pub read_invocation : Json F → Option (Values F)
  read_invocation entry = require (has_keys entry (codes "arguments" ∷ [])) >>= λ _.
      item entry (codes "arguments") >>= λ arguments.
      as_list max_parameters arguments >>= λ items. decode_elements floats items 0

  unfoldable pub read_invocations : Items F → Option (List (Values F))
  read_invocations nil = some []
  read_invocations (cons entry entries) =
      read_invocation entry >>= λ first. read_invocations entries >>= λ rest. some (first ∷ rest)

  abbrev item_text : Json F → Text → Option Text
  item_text entry key = item entry key >>= as_text

  unfoldable pub read_fields : Json F → Option (RuntimeCase F)
  read_fields entry =
      item entry (codes "parameters") >>= as_list max_parameters >>= read_pairs >>= λ parameters.
      item entry (codes "invocations") >>= as_list max_invocations >>= λ items.
      require (leb 1 (count_items items)) >>= λ _. read_invocations items >>= λ invocations.
      item_text entry (codes "name") >>= λ name. item_text entry (codes "family") >>= λ family.
      item_text entry (codes "source") >>= λ source.
      item_text entry (codes "returns") >>= λ returns. some record {
        name = name;
        family = family;
        source = source;
        parameters = parameters;
        returns = returns;
        invocations = invocations;
      }

  module _ (python : Python F) where
    unfoldable pub worker_case : Json F → Option (RuntimeCase F)
    worker_case entry = require (has_keys entry case_fields) >>= λ _.
        read_fields entry >>= λ case. require (validate_case floats python case) >>= λ _. some case

    unfoldable pub worker_cases : Items F → Option (List (RuntimeCase F))
    worker_cases nil = some []
    worker_cases (cons entry entries) =
        worker_case entry >>= λ first. worker_cases entries >>= λ rest. some (first ∷ rest)

    -- The cases of a request, read before the first of them runs.
    unfoldable pub request_cases : Json F → Option (List (RuntimeCase F))
    request_cases (arr entries) =
        require (leb 1 (count_items entries) && leb (count_items entries) max_cases) >>= λ _.
        worker_cases entries >>= λ cases.
        require (distinct_names (case_names cases)) >>= λ _. some cases
    request_cases _ = none
