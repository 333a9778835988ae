-- ===== src/Gates/Functions/Run.antt =====
-- `run_gate` and the artifact that `save_failures` writes, on what the two processes return.
pub mod Saved
use purepy.Base.{
  ℕ, Bool, true, false, ◌&&◌, ◌||◌, not, Option, none, some, List, [], ◌∷◌, ◌++◌, ltb, ◌==◌,
  if◌then◌else◌, ◌>>=◌, Text, codes, text_eq, length, map, take, drop,
}
use purepy.Base.Int.{pos, eq_ℤ}
use purepy.Base.Json.{
  Json, Items, Fields, null, integer, text, arr, obj, nil, cons, end, field, get,
}
use purepy.Base.Python.{FloatTests, item, require, texts}
use purepy.Semantics.Values.{Floats, all_digits}
use purepy.Gates.Results.{read_results}
use purepy.Gates.Expressions.{Request}
use purepy.Gates.Expressions.Run.{all_distinct}
use purepy.Gates.Functions.{FunctionCase, worker_entry, case_entry}
use purepy.Gates.Functions.Decode.{validate_oracles}
use purepy.Gates.Functions.Compare.{Problem, compare_case}

pub record Report (F : Type 0) : Type 0 where
  pub name : Text
  pub errors : List Problem
  pub entry : Json F
  pub static : Json F
  pub runtime : Json F

abbrev pub max_cases : ℕ
max_cases = 2000

abbrev pub case_names : {F : Type 0} → List (FunctionCase F) → List Text
case_names cases = map (λ case. case.name) cases

-- A request for a whole module selects no expression.
abbrev pub module_request : {F : Type 0} → FunctionCase F → Request
module_request case = record { name = case.name; source = case.source; start = 0; stop = 1 }

-- `re.fullmatch(r"3\.14\.[0-9]+", version)`
unfoldable pub is_supported : Text → Bool
is_supported version =
    text_eq (take 5 version) (codes "3.14.")
    && not (length version == 5)
    && all_digits (drop 5 version)

module _ {F : Type 0} where
  abbrev pub is_one : Option (Json F) → Bool
  is_one (some (integer z)) = eq_ℤ z (pos 1)
  is_one _ = false

  abbrev pub is_version : Option (Json F) → Bool
  is_version (some (text [])) = false
  is_version (some (text (c ∷ version))) = true
  is_version _ = false

  abbrev pub is_python : Option (Json F) → Bool
  is_python (some (text version)) = is_supported version
  is_python _ = false

  unfoldable pub known_verifier : Json F → Bool
  known_verifier payload =
      is_one (item payload (codes "schema")) && is_version (item payload (codes "verifier_version"))

  unfoldable pub known_runtime : Json F → Bool
  known_runtime payload =
      is_one (item payload (codes "schema")) && is_python (item payload (codes "python_version"))

  -- A failure in the artifact; `describe` is the text of a problem.
  abbrev pub report_entry : (Problem → Text) → Report F → Json F
  report_entry describe report = obj (
      field (codes "name") (text report.name) (
        field (codes "errors") (arr (texts (map describe report.errors))) (
          field (codes "case") report.entry
            (field (codes "verifier") report.static (field (codes "runtime") report.runtime end)))))

  unfoldable pub report_entries : (Problem → Text) → List (Report F) → Items F
  report_entries describe [] = nil
  report_entries describe (report ∷ reports) =
      cons (report_entry describe report) (report_entries describe reports)

  -- What `save_failures` writes, for the versions of `run_gate`, a seed and a number of samples.
  unfoldable pub save_failures :
      (Problem → Text) → List (Report F) → Json F → Json F → Json F → Json F → Json F
  save_failures describe failures verifier_version python_version seed samples = obj (
      field (codes "schema") (integer (pos 1)) (
        field (codes "kind") (text (codes "whole_function")) (
          field (codes "verifier_version") verifier_version (
            field (codes "python_version") python_version (
              field (codes "seed") seed (
                field (codes "samples") samples
                  (field (codes "failures") (arr (report_entries describe failures)) end)))))))

module _ {F : Type 0} (floats : Floats F) (tests : FloatTests F) where
  unfoldable pub worker_entries : List (FunctionCase F) → Option (List (Json F))
  worker_entries [] = some []
  worker_entries (case ∷ cases) =
      worker_entry floats case >>= λ first. worker_entries cases >>= λ rest. some (first ∷ rest)

  unfoldable pub all_valid : (FunctionCase F → Bool) → List (FunctionCase F) → Bool
  all_valid accepts_source [] = true
  all_valid accepts_source (case ∷ cases) =
      validate_oracles floats accepts_source case && all_valid accepts_source cases

  unfoldable pub report_case :
      FunctionCase F → Fields F → Fields F → List Problem → Option (List (Report F))
  report_case case static runtime [] = some []
  report_case case static runtime (problem ∷ problems) = case_entry floats case >>= λ entry. some (
      record {
        name = case.name;
        errors = problem ∷ problems;
        entry = entry;
        static = obj static;
        runtime = obj runtime;
      }
      ∷ [])

  unfoldable pub compare_cases :
      List (FunctionCase F) → List (Fields F) → List (Fields F) → Option (List (Report F))
  compare_cases (case ∷ cases) (static ∷ statics) (runtime ∷ runtimes) =
      compare_case floats tests case static (obj runtime) >>= λ errors.
      report_case case static runtime errors >>= λ here.
      compare_cases cases statics runtimes >>= λ rest. some (here ++ rest)
  compare_cases _ _ _ = some []

  abbrev pub is_corpus : List (FunctionCase F) → Bool
  is_corpus cases =
      not
        (length cases == 0 || ltb max_cases (length cases) || not (all_distinct (case_names cases)))

  -- The verifier's answer and its results.
  unfoldable pub verifier_answer :
      (List Request → Option (Json F)) → List (FunctionCase F) → Option (Json F × List (Fields F))
  verifier_answer probe cases = do
    payload ← probe (map module_request cases)
    known ← require (known_verifier payload)
    results ← read_results payload (case_names cases)
    some (payload, results)

  -- CPython's answer and its results.
  unfoldable pub runtime_answer :
      (List (Json F) → Option (Json F))
      → List (Json F)
      → List (FunctionCase F)
      → Option (Json F × List (Fields F))
  runtime_answer worker worker_request cases = do
    payload ← worker worker_request
    known ← require (known_runtime payload)
    results ← read_results payload (case_names cases)
    some (payload, results)

  -- `too_large` tells whether one of the two requests, as JSON, exceeds the limit.
  unfoldable pub run_gate :
      (FunctionCase F → Bool)
      → (List Request → List (Json F) → Bool)
      → (List Request → Option (Json F))
      → (List (Json F) → Option (Json F))
      → List (FunctionCase F)
      → Option (List (Report F) × Json F × Json F)
  run_gate accepts_source too_large probe worker cases = do
    many ← require (is_corpus cases)
    valid ← require (all_valid accepts_source cases)
    worker_request ← worker_entries cases
    small ← require (not (too_large (map module_request cases) worker_request))
    verifier ← verifier_answer probe cases
    runtime ← runtime_answer worker worker_request cases
    failures ← compare_cases cases (verifier.1) (runtime.1)
    verifier_version ← item (verifier.0) (codes "verifier_version")
    python_version ← item (runtime.0) (codes "python_version")
    some (failures, verifier_version, python_version)
