-- ===== src/Gates/Modules/Run.antt =====
-- tools/differential_modules.py, `run_gate`, with the selection of cases that it shares with the
-- worker, of tools/module_runtime.py. The processes and the catalog are parameters, and so is the
-- `==` of cases, which `dataclass` generates. `none` is an exception.
pub mod Selected
pub mod Checked
use purepy.Base.{
  ℕ, ◌+◌, Bool, true, false, ◌&&◌, ◌||◌, not, Option, none, some, List, [], ◌∷◌, ◌++◌, ltb, leb,
  ◌==◌, if◌then◌else◌, ◌>>=◌, Text, codes, text_eq, length, map,
}
use purepy.Base.Int.{ℤ, pos, eq_ℤ}
use purepy.Base.Json.{Json, Items, Fields, text, boolean, obj, field, end, get, contains}
use purepy.Base.Python.{FloatTests, json_eq, require, has_keys, item}
use purepy.Semantics.Values.{Floats}
use purepy.Gates.Results.{read_results}
use purepy.Gates.Expressions.Run.{all_distinct}
use purepy.Gates.Functions.Run.{is_one, is_python}
use purepy.Gates.Modules.Compare.{ModuleCase, Problem, compare_case}

pub record Report (F : Type 0) : Type 0 where
  pub name : Text
  pub errors : List Problem
  pub static : Fields F
  pub runtime : Fields F

-- A finished process of the verifier, with its output as JSON.
pub record Completed (F : Type 0) : Type 0 where
  pub returncode : ℤ
  pub stderr : Text
  pub report : Option (Json F)

-- `len(known)`
unfoldable pub count_names : List Text → ℕ
count_names [] = 0
count_names (name ∷ names) =
    let rest = count_names names in if contains names name then rest else 1 + rest

-- The set `versions`, with the version that a report names.
unfoldable pub put_version : Option Text → List Text → List Text
put_version none versions = versions
put_version (some version) versions =
    if contains versions version then versions else version ∷ versions

-- The one version that the verifier's reports name.
abbrev pub single : List Text → Option Text
single (version ∷ []) = some version
single _ = none

module _ {F : Type 0} where
  abbrev pub case_names : List (ModuleCase F) → List Text
  case_names cases = map (λ case. case.name) cases

  unfoldable pub worker_entry : ModuleCase F → Json F
  worker_entry case = obj (
      field (codes "name") (text case.name)
        (field (codes "fingerprint") (text case.fingerprint) end))

  -- `known[name]` of `{case.name: case for case in catalog()}`: a later case replaces an earlier one.
  unfoldable pub known_case : List (ModuleCase F) → Text → Option (ModuleCase F)
  known_case [] name = none
  known_case (case ∷ cases) name = elim (known_case cases name) [
    | some later ↦ some later
    | none ↦ if text_eq case.name name then some case else none
  ]

  -- What `static_case` makes of the verifier's process.
  unfoldable pub static_report : Completed F → Option (Fields F)
  static_report result =
      require (
        (eq_ℤ result.returncode (pos 0) || eq_ℤ result.returncode (pos 1))
        && length result.stderr == 0)
      >>= λ _. result.report >>= λ report. item report (codes "ok") >>= λ ok. read_ok report ok
    where
      read_ok : Json F → Json F → Option (Fields F)
      read_ok (obj fields) (boolean ok) =
          if eq_ℤ result.returncode (if ok then pos 0 else pos 1) then some fields else none
      read_ok _ _ = none

  unfoldable pub all_static :
      (ModuleCase F → Option (Completed F)) → List (ModuleCase F) → Option (List (Fields F))
  all_static verify [] = some []
  all_static verify (case ∷ cases) = verify case >>= static_report >>= λ static.
      all_static verify cases >>= λ rest. some (static ∷ rest)

  unfoldable pub known_payload : Json F → Bool
  known_payload (obj fields) =
      is_one (get fields (codes "schema"))
      && is_one (get fields (codes "hash_randomization"))
      && is_python (get fields (codes "python_version"))
  known_payload _ = false

  -- `static.get("verifier_version")`, if it is a text.
  unfoldable pub version_of : Fields F → Option Text
  version_of static = elim (get static (codes "verifier_version")) [
    | some (text version) ↦ some version
    | _ ↦ none
  ]

  -- `tuple(cases) != tuple(selected)`, negated
  unfoldable pub all_same :
      (ModuleCase F → ModuleCase F → Bool) → List (ModuleCase F) → List (ModuleCase F) → Bool
  all_same same [] [] = true
  all_same same (case ∷ cases) (other ∷ others) = same case other && all_same same cases others
  all_same same _ _ = false

  abbrev pub report_case : ModuleCase F → Fields F → Fields F → List Problem → List (Report F)
  report_case case static runtime [] = []
  report_case case static runtime (problem ∷ problems) =
      record { name = case.name; errors = problem ∷ problems; static = static; runtime = runtime }
      ∷ []

module _ {F : Type 0} (tests : FloatTests F) where
  unfoldable pub select_case : List (ModuleCase F) → Json F → Option (ModuleCase F)
  select_case catalog entry =
      require (has_keys entry (codes "name" ∷ codes "fingerprint" ∷ [])) >>= λ _.
      item entry (codes "name") >>= λ name.
      (elim name [ text s ↦ known_case catalog s | _ ↦ none ]) >>= λ case.
      require (json_eq tests entry (worker_entry case)) >>= λ _. some case

  unfoldable pub select_each : List (ModuleCase F) → List (Json F) → Option (List (ModuleCase F))
  select_each catalog [] = some []
  select_each catalog (entry ∷ entries) = select_case catalog entry >>= λ case.
      select_each catalog entries >>= λ rest. some (case ∷ rest)

  unfoldable pub select_cases : List (ModuleCase F) → List (Json F) → Option (List (ModuleCase F))
  select_cases catalog entries =
      require (leb 1 (length entries) && leb (length entries) (count_names (case_names catalog)))
      >>= λ _. select_each catalog entries >>= λ selected.
          require (all_distinct (case_names selected)) >>= λ _. some selected

  -- `payloads[0]`, after the tests of both.
  unfoldable pub agreed_payload : Option (Json F) → Option (Json F) → Option (Json F)
  agreed_payload first second = first >>= λ payload. second >>= λ other.
      require (known_payload payload && known_payload other && json_eq tests payload other) >>= λ _.
      some payload

module _ {F : Type 0} (floats : Floats F) (tests : FloatTests F) where
  -- The loop over the three sequences, with the set of versions.
  unfoldable pub compare_cases :
      List (ModuleCase F)
      → List (Fields F)
      → List (Fields F)
      → List Text
      → Option (List (Report F) × List Text)
  compare_cases (case ∷ cases) (static ∷ statics) (runtime ∷ runtimes) versions =
      compare_case floats tests case static runtime >>= λ errors.
      compare_cases cases statics runtimes (put_version (version_of static) versions) >>= λ rest.
      some (report_case case static runtime errors ++ rest.0, rest.1)
  compare_cases _ _ _ versions = some ([], versions)

  -- `worker` is the worker's process, at its first and its second run.
  unfoldable pub run_gate :
      (ModuleCase F → ModuleCase F → Bool)
      → List (ModuleCase F)
      → (ModuleCase F → Option (Completed F))
      → (second : Bool → List (Json F) → Option (Json F)) → List (ModuleCase F)
      → Option (List (Report F) × Json F × Text)
  run_gate same catalog verify worker cases = do
    selected ← select_cases tests catalog (map worker_entry cases)
    unchanged ← require (all_same same cases selected)
    statics ← all_static verify cases
    payload ←
        agreed_payload tests (worker false (map worker_entry cases))
          (worker true (map worker_entry cases))
    runtimes ← read_results payload (case_names cases)
    compared ← compare_cases cases statics runtimes []
    version ← single compared.1
    python_version ← item payload (codes "python_version")
    some (compared.0, python_version, version)
