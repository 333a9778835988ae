-- ===== src/Gates/Functions/Compare.antt =====
-- `compare_case` and `run_gate`.
pub mod Agreement
use purepy.Base.{
  ℕ, suc, Bool, true, false, ◌&&◌, ◌||◌, not, Option, none, some, List, [], ◌∷◌, ◌++◌, ltb, ◌==◌,
  if◌then◌else◌, ◌>>=◌, Text, codes, text_eq, length, map, take, drop,
}
use purepy.Base.Int.{ℤ, pos, eq_ℤ}
use purepy.Base.Json.{
  Json, Items, Fields, null, boolean, integer, text, arr, obj, nil, cons, get, contains, same_set,
  keys,
}
use purepy.Base.Python.{FloatTests, json_eq, has_keys, item, require, truthy, is_list}
use purepy.Semantics.Values.{Floats, Value, encode_value, all_digits}
use purepy.Semantics.Matching.{matches_type}
use purepy.Gates.Known.{known_value}
use purepy.Gates.Results.{read_results}
use purepy.Gates.Expressions.Compare.{same_bool, no_exception, same_exception}
use purepy.Gates.Expressions.Run.{all_distinct}
use purepy.Gates.Functions.{
  Invocation, FunctionCase, exceptions, is_diagnostic_code, worker_entry, case_entry,
}
use purepy.Gates.Functions.Decode.{validate_oracles}

-- What is wrong with one invocation, and with a case.
pub data Trouble : Type 0 where
  malformed_outcome malformed_exception malformed_value : Trouble
  wrong_exception unexpected_exception wrong_type wrong_value : Trouble

pub data Problem : Type 0 where
  malformed_verdict contradiction internal_failure wrong_verdict missing_code : Problem
  malformed_result : Problem
  invocation : (index : ℕ) (trouble : Trouble) → Problem

-- An outcome of the right index, with its value or what stands under "exception".
pub data Outcome (F : Type 0) : Type 0 where
  value_outcome exception_outcome : Json F → Outcome F
  bad_outcome : Outcome F

abbrev pub note {ℓ} : {A : Type ℓ} → Bool → A → List A
note true problem = problem ∷ []
note false problem = []

abbrev pub is_nil {ℓ} : {A : Type ℓ} → List A → Bool
is_nil [] = true
is_nil (x ∷ xs) = false

-- Do two sets have an element in common?
unfoldable pub meets : List Text → List Text → Bool
meets [] ys = false
meets (x ∷ xs) ys = contains ys x || meets xs ys

module _ {F : Type 0} where
  -- The codes of the diagnostics; `none` if one of them is malformed.
  unfoldable pub diagnostic_codes : Items F → Option (List Text)
  diagnostic_codes nil = some []
  diagnostic_codes (cons (obj fields) items) =
      let rest = diagnostic_codes items in
      elim (get fields (codes "code")) [
        | some (text code) ↦
            if is_diagnostic_code code then rest >>= (λ found. some (code ∷ found)) else none
        | _ ↦ none
      ]
  diagnostic_codes _ = none

  -- The verdict and the codes.
  unfoldable pub read_verdict : Fields F → Option (Bool × List Text)
  read_verdict fields = elim (get fields (codes "ok")) [
    | some (boolean ok) ↦ elim (get fields (codes "diagnostics")) [
      | some (arr diagnostics) ↦ elim (get fields (codes "inferred_types")) [
        | some (arr types) ↦ diagnostic_codes diagnostics >>= λ found. some (ok, found)
        | _ ↦ none
      ]
      | _ ↦ none
    ]
    | _ ↦ none
  ]

  abbrev pub is_index : ℕ → Option (Json F) → Bool
  is_index index (some (integer z)) = eq_ℤ z (pos index)
  is_index index _ = false

  unfoldable pub read_outcome : ℕ → Json F → Outcome F
  read_outcome index (obj fields) =
      if not (is_index index (get fields (codes "index")))
      then bad_outcome
      else if same_set (keys fields) (codes "index" ∷ codes "value" ∷ [])
      then (elim (get fields (codes "value")) [ some v ↦ value_outcome v | none ↦ bad_outcome ])
      else if same_set (keys fields) (codes "index" ∷ codes "exception" ∷ [])
      then (elim (get fields (codes "exception")) [
        | some e ↦ exception_outcome e
        | none ↦ bad_outcome
      ])
      else bad_outcome
  read_outcome index _ = bad_outcome

module _ {F : Type 0} (floats : Floats F) (tests : FloatTests F) where
  unfoldable pub wrong_values : Bool → Value F → Json F → Option (List Trouble)
  wrong_values false expected value = some []
  wrong_values true expected value = encode_value floats expected >>= λ wanted.
      some (note (not (json_eq tests value wanted)) wrong_value)

  -- An exact type is asked for only if the verifier accepts.
  unfoldable pub wrong_types : Bool → Text → Json F → Option (List Trouble)
  wrong_types false returns value = some []
  wrong_types true returns value =
      matches_type value returns >>= λ typed. some (note (not typed) wrong_type)

  unfoldable pub compare_value : Bool → Text → Invocation F → Json F → Option (List Trouble)
  compare_value ok returns i value = wrong_types ok returns value >>= λ types.
      wrong_values i.check_value i.expected_value value >>= λ values. some (types ++ values)

  abbrev pub known_exception : Json F → Bool
  known_exception (text name) = contains exceptions name
  known_exception _ = false

  abbrev pub or_missing : Option (Json F) → Json F
  or_missing none = null
  or_missing (some j) = j

  abbrev pub is_exception : Option Text → Json F → Bool
  is_exception expected (text name) = same_exception expected name
  is_exception expected _ = false

  unfoldable pub compare_outcome : Bool → Text → Invocation F → Outcome F → Option (List Trouble)
  compare_outcome ok returns i bad_outcome = some (malformed_outcome ∷ [])
  compare_outcome ok returns i (exception_outcome e) = some (
      if not (known_exception e)
      then malformed_exception ∷ []
      else if no_exception i.exception
      then unexpected_exception ∷ []
      else note (not (is_exception i.exception e)) wrong_exception)
  compare_outcome ok returns i (value_outcome value) =
      let compared = compare_value ok returns i value in
      if not (known_value floats value 0)
      then some (malformed_value ∷ [])
      else if no_exception i.exception
      then compared
      else some (wrong_exception ∷ [])

  -- The loop over the invocations and their outcomes, from an index.
  unfoldable pub compare_outcomes :
      Bool → Text → ℕ → List (Invocation F) → Items F → Option (List Problem)
  compare_outcomes ok returns index (i ∷ invocations) (cons outcome outcomes) =
      compare_outcome ok returns i (read_outcome index outcome) >>= λ troubles.
      compare_outcomes ok returns (suc index) invocations outcomes >>= λ rest.
      some (map (invocation index) troubles ++ rest)
  compare_outcomes ok returns index _ _ = some []

  abbrev pub as_many : List (Invocation F) → Items F → Bool
  as_many [] nil = true
  as_many (i ∷ invocations) (cons outcome outcomes) = as_many invocations outcomes
  as_many _ _ = false

  -- With what stands under "outcomes".
  unfoldable pub compare_listed :
      FunctionCase F → Bool → Fields F → Option (Json F) → Option (List Problem)
  compare_listed case ok fields (some (arr outcomes)) =
      let compared = compare_outcomes ok case.returns 0 case.invocations outcomes in
      if same_set (keys fields) (codes "name" ∷ codes "outcomes" ∷ [])
        && is_exception (some case.name) (or_missing (get fields (codes "name")))
        && as_many case.invocations outcomes
      then compared
      else some (malformed_result ∷ [])
  compare_listed case ok fields _ = some (malformed_result ∷ [])

  unfoldable pub compare_result : FunctionCase F → Bool → Json F → Option (List Problem)
  compare_result case ok (obj fields) =
      compare_listed case ok fields (get fields (codes "outcomes"))
  compare_result case ok _ = some (malformed_result ∷ [])

  unfoldable pub compare_codes : FunctionCase F → Bool → List Text → List Problem
  compare_codes case ok found =
      note (not (same_bool ok (is_nil found))) contradiction
      ++ (note (contains found (codes "PP099")) internal_failure
          ++ (note (not (same_bool ok (is_nil case.expected_codes))) wrong_verdict
              ++ note (not (is_nil case.expected_codes) && not (meets found case.expected_codes))
                  missing_code))

  unfoldable pub compare_read :
      FunctionCase F → Option (Bool × List Text) → Json F → Option (List Problem)
  compare_read case none runtime = some (malformed_verdict ∷ [])
  compare_read case (some (ok, found)) runtime =
      compare_result case ok runtime >>= λ problems. some (compare_codes case ok found ++ problems)

  unfoldable pub compare_case : FunctionCase F → Fields F → Json F → Option (List Problem)
  compare_case case static runtime = compare_read case (read_verdict static) runtime
