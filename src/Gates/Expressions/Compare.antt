-- ===== src/Gates/Expressions/Compare.antt =====
-- `compare_case` and `run_gate`.

pub mod Agreement
use purepy.Base.{
  ℕ, zero, suc, Bool, true, false, ◌&&◌, ◌||◌, not, Option, none, some, List, [], ◌∷◌, ◌++◌, leb,
  ltb, ◌==◌, if◌then◌else◌, ◌>>=◌, Text, codes, text_eq, length, map,
}
use purepy.Base.Int.{ℤ, pos}
use purepy.Base.Json.{
  Json, Items, Fields, null, boolean, integer, text, arr, obj, nil, cons, end, field, get, contains,
}
use purepy.Base.Python.{FloatTests, json_eq, items_eq, truthy, get_value, item, texts}
use purepy.Semantics.Values.{Floats, Value, encode_value, valid_value}
use purepy.Semantics.Matching.{matches_type}
use purepy.Gates.Results.{read_results}
use purepy.Gates.Expressions.{Case, Request, source_case, worker_entry}

-- The messages of `compare_case`, without the values that some of them print.
pub data Failure : Type 0 where
  malformed_outcome malformed_exception malformed_value malformed_verdict : Failure
  contradiction internal_failure wrong_verdict wrong_types : Failure
  wrong_exception unexpected_exception wrong_type wrong_value : Failure

-- Exactly one of a value and an exception.
pub data Outcome (F : Type 0) : Type 0 where
  value_outcome : Json F → Outcome F
  exception_outcome : Text → Outcome F
  bad_outcome : Failure → Outcome F

pub record Verdict (F : Type 0) : Type 0 where
  pub ok : Bool
  pub diagnostics : Items F
  pub inferred_types : Items F

abbrev pub note : Bool → Failure → List Failure
note true failure = failure ∷ []
note false failure = []

-- `==` of two Booleans
abbrev pub same_bool : Bool → Bool → Bool
same_bool true b = b
same_bool false b = not b

abbrev pub no_items : {F : Type 0} → Items F → Bool
no_items nil = true
no_items (cons v items) = false

module _ {F : Type 0} where
  unfoldable pub read_outcome : Json F → Outcome F
  read_outcome (obj fields) = elim (get fields (codes "value")) [
    | some v ↦ elim (get fields (codes "exception")) [
      | some _ ↦ bad_outcome malformed_outcome
      | none ↦ value_outcome v
    ]
    | none ↦ elim (get fields (codes "exception")) [
      | some (text (c ∷ s)) ↦ exception_outcome (c ∷ s)
      | some _ ↦ bad_outcome malformed_exception
      | none ↦ bad_outcome malformed_outcome
    ]
  ]
  read_outcome _ = bad_outcome malformed_outcome

  unfoldable pub read_verdict : Fields F → Option (Verdict F)
  read_verdict fields = elim (get fields (codes "ok")) [
    | some (boolean ok) ↦ elim (get fields (codes "diagnostics")) [
      | some (arr diagnostics) ↦ elim (get fields (codes "inferred_types")) [
        | some (arr types) ↦
            some (record { ok = ok; diagnostics = diagnostics; inferred_types = types })
        | _ ↦ none
      ]
      | _ ↦ none
    ]
    | _ ↦ none
  ]

  abbrev pub is_code : Text → Json F → Bool
  is_code code (text s) = text_eq s code
  is_code code _ = false

  -- `any(diagnostic.get("code") == code for diagnostic in diagnostics)`
  unfoldable pub any_code : Text → Items F → Option Bool
  any_code code nil = some false
  any_code code (cons diagnostic diagnostics) =
      let rest = any_code code diagnostics in
      get_value diagnostic (codes "code") >>= λ found.
      if is_code code found then some true else rest

  -- `types == [expected]`
  unfoldable pub only_type : Items F → Text → Bool
  only_type (cons (text s) nil) expected = text_eq s expected
  only_type _ expected = false

abbrev pub no_exception : Option Text → Bool
no_exception none = true
no_exception (some []) = true
no_exception (some (c ∷ s)) = false

abbrev pub same_exception : Option Text → Text → Bool
same_exception none name = false
same_exception (some expected) name = text_eq name expected

abbrev pub is_accepted : Option Text → Bool
is_accepted none = false
is_accepted (some expected_type) = true

module _ {F : Type 0} (floats : Floats F) (tests : FloatTests F) where
  unfoldable pub compare_wanted : Bool → Bool → Json F → Value F → Option (List Failure)
  compare_wanted false typed value expected_value = some (note (not typed) wrong_type)
  compare_wanted true typed value expected_value = encode_value floats expected_value >>= λ wanted.
      some (note (not typed) wrong_type ++ note (not (json_eq tests value wanted)) wrong_value)

  -- The comparison of a value with the type and the value that are expected.
  unfoldable pub compare_value : Case F → Text → Json F → Option (List Failure)
  compare_value case expected_type value =
      let expected =
        if text_eq case.mode (codes "range")
        then codes "tuple[" ++ (expected_type ++ codes ", ...]")
        else expected_type in
      matches_type value expected >>= λ typed.
      compare_wanted case.check_value typed value case.expected_value

  unfoldable pub compare_outcome : Case F → Text → Outcome F → Option (List Failure)
  compare_outcome case expected_type (bad_outcome failure) = some (failure ∷ [])
  compare_outcome case expected_type (exception_outcome name) = some (
      if no_exception case.exception
      then unexpected_exception ∷ []
      else note (not (same_exception case.exception name)) wrong_exception)
  compare_outcome case expected_type (value_outcome value) =
      if no_exception case.exception
      then compare_value case expected_type value
      else some (wrong_exception ∷ [])

  -- The tests of a case that is to be accepted.
  unfoldable pub compare_accepted :
      Case F → Verdict F → Outcome F → Option Text → Option (List Failure)
  compare_accepted case verdict outcome none = some []
  compare_accepted case verdict outcome (some expected_type) =
      compare_outcome case expected_type outcome >>= λ failures.
      some (note (not (only_type verdict.inferred_types expected_type)) wrong_types ++ failures)

  unfoldable pub compare_verdict : Case F → Verdict F → Outcome F → Option (List Failure)
  compare_verdict case verdict outcome =
      any_code (codes "PP099") verdict.diagnostics >>= λ internal.
      compare_accepted case verdict outcome case.expected_type >>= λ failures. some (
        note (not (same_bool verdict.ok (no_items verdict.diagnostics))) contradiction
        ++ (note internal internal_failure
            ++ (note (not (same_bool verdict.ok (is_accepted case.expected_type))) wrong_verdict
                ++ failures)))

  unfoldable pub compare_valid : Case F → Option (Verdict F) → Json F → Bool → Option (List Failure)
  compare_valid case verdict value false = some (malformed_value ∷ [])
  compare_valid case none value true = some (malformed_verdict ∷ [])
  compare_valid case (some verdict) value true = compare_verdict case verdict (value_outcome value)

  -- The early returns on a malformed outcome, value or verdict.
  unfoldable pub compare_read : Case F → Option (Verdict F) → Outcome F → Option (List Failure)
  compare_read case verdict (bad_outcome failure) = some (failure ∷ [])
  compare_read case none (exception_outcome name) = some (malformed_verdict ∷ [])
  compare_read case (some verdict) (exception_outcome name) =
      compare_verdict case verdict (exception_outcome name)
  compare_read case verdict (value_outcome value) =
      valid_value floats value >>= compare_valid case verdict value

  unfoldable pub compare_case : Case F → Fields F → Json F → Option (List Failure)
  compare_case case static runtime = compare_read case (read_verdict static) (read_outcome runtime)
