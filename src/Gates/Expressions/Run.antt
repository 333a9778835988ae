-- ===== src/Gates/Expressions/Run.antt =====
-- `run_gate`, on what the two processes return.
pub mod Clean
use purepy.Base.{
  ℕ, Bool, true, false, ◌&&◌, ◌||◌, not, Option, none, some, List, [], ◌∷◌, ◌++◌, ltb, ◌==◌,
  if◌then◌else◌, ◌>>=◌, Text, codes, length, map,
}
use purepy.Base.Int.{ℤ, pos}
use purepy.Base.Json.{Json, Fields, null, integer, contains, obj}
use purepy.Base.Python.{FloatTests, json_eq, truthy, get_value, item}
use purepy.Semantics.Values.{Floats, encode_value}
use purepy.Gates.Results.{read_results}
use purepy.Gates.Expressions.{Case, Request, source_case, worker_entry}
use purepy.Gates.Expressions.Compare.{Failure, compare_case}

pub record Report (F : Type 0) : Type 0 where
  pub name : Text
  pub errors : List Failure
  pub entry : Case F
  pub expected_value : Json F
  pub request : Request
  pub static : Fields F
  pub runtime : Fields F

abbrev pub max_cases : ℕ
max_cases = 10000

-- `len({case.name for case in cases}) != len(cases)`, negated
unfoldable pub all_distinct : List Text → Bool
all_distinct [] = true
all_distinct (name ∷ names) = not (contains names name) && all_distinct names

abbrev pub case_names : {F : Type 0} → List (Case F) → List Text
case_names cases = map (λ case. case.name) cases

module _ {F : Type 0} where
  unfoldable pub source_cases : List (Case F) → Option (List Request)
  source_cases [] = some []
  source_cases (case ∷ cases) =
      source_case case >>= λ request. source_cases cases >>= λ rest. some (request ∷ rest)

module _ {F : Type 0} (floats : Floats F) (tests : FloatTests F) where
  unfoldable pub expected_entry : Case F → Option (Json F)
  expected_entry case =
      if case.check_value then encode_value floats case.expected_value else some null

  -- The record of a case that disagrees.
  unfoldable pub report_case :
      Case F → Request → Fields F → Fields F → List Failure → Option (List (Report F))
  report_case case request static runtime [] = some []
  report_case case request static runtime (failure ∷ failures) = expected_entry case >>= λ expected.
      some (
        record {
          name = case.name;
          errors = failure ∷ failures;
          entry = worker_entry case;
          expected_value = expected;
          request = request;
          static = static;
          runtime = runtime;
        }
        ∷ [])

  -- The loop over the four sequences, which `zip` ends with the shortest.
  unfoldable pub compare_cases :
      List (Case F) → List Request → List (Fields F) → List (Fields F) → Option (List (Report F))
  compare_cases (case ∷ cases) (request ∷ requests) (static ∷ statics) (runtime ∷ runtimes) =
      compare_case floats tests case static (obj runtime) >>= λ errors.
      report_case case request static runtime errors >>= λ here.
      compare_cases cases requests statics runtimes >>= λ rest. some (here ++ rest)
  compare_cases _ _ _ _ = some []

  unfoldable pub known_schema : Json F → Option Bool
  known_schema payload = get_value payload (codes "schema") >>= λ schema.
      get_value payload (codes "verifier_version") >>= λ version.
      some (json_eq tests schema (integer (pos 1)) && truthy tests version)

  -- `probe` and `worker` are the two processes, each with its JSON answer.
  unfoldable pub run_gate :
      (List Request → Option (Json F))
      → (List (Case F) → Option (Json F))
      → List (Case F)
      → Option (List (Report F) × Json F × Json F)
  run_gate probe worker cases =
      if length cases == 0 || ltb max_cases (length cases) || not (all_distinct (case_names cases))
      then none
      else (do
        requests ← source_cases cases
        static_payload ← probe requests
        known ← known_schema static_payload
        static_results ← if known then read_results static_payload (case_names cases) else none
        runtime_payload ← worker (map worker_entry cases)
        runtime_results ← read_results runtime_payload (case_names cases)
        failures ← compare_cases cases requests static_results runtime_results
        verifier_version ← item static_payload (codes "verifier_version")
        python_version ← item runtime_payload (codes "python_version")
        some (failures, verifier_version, python_version))
