-- ===== src/Gates/Expressions.antt =====
-- tools/differential_semantics.py: the gate over expressions. The verifier's probe and the CPython
-- worker are parameters. `none` is an exception.
pub mod Compare
pub mod Run
use purepy.Base.{
  ℕ, zero, suc, ◌+◌, ◌-◌, Bool, true, false, ◌&&◌, ◌||◌, not, Option, none, some, List, [], ◌∷◌,
  ◌++◌, leb, ltb, ◌==◌, if◌then◌else◌, ◌>>=◌, Text, codes, text_eq, length, map, take, drop,
}
use purepy.Base.Int.{ℤ, pos}
use purepy.Base.Decimal.{encode_utf8}
use purepy.Base.Json.{
  Json, Items, Fields, null, boolean, integer, text, arr, obj, nil, cons, end, field, get, contains,
}
use purepy.Base.Python.{FloatTests, json_eq, truthy, get_value, item, require}
use purepy.Semantics.Values.{Floats, Value, none_value, encode_value, valid_value}
use purepy.Semantics.Matching.{matches_type}
use purepy.Gates.Results.{read_results}

-- `semantic_cases.Case`; a missing type or exception is `none`, and also the empty exception.
pub record Case (F : Type 0) : Type 0 where
  pub name : Text
  pub family : Text
  pub expression : Text
  pub expected_type : Option Text
  pub bindings : List (Text × Text × Text)
  pub exception : Option Text
  pub mode : Text
  pub expected_value : Value F
  pub check_value : Bool

pub record Request : Type 0 where
  pub name : Text
  pub source : Text
  pub start : ℕ
  pub stop : ℕ

-- The offset of the last occurrence of a text, from the start.
unfoldable pub rindex : Text → Text → Option ℕ
rindex wanted [] = if length wanted == 0 then some 0 else none
rindex wanted (c ∷ s) = elim (rindex wanted s) [
  | some i ↦ some (i + 1)
  | none ↦ if text_eq (take (length wanted) (c ∷ s)) wanted then some 0 else none
]

abbrev pub binding_line : Text × Text × Text → Text
binding_line (name, annotation, value) =
    codes "    " ++ (name ++ (codes ": " ++ (annotation ++ (codes " = " ++ (value ++ codes "\n")))))

unfoldable pub binding_lines : List (Text × Text × Text) → Text
binding_lines [] = []
binding_lines (b ∷ bindings) = binding_line b ++ binding_lines bindings

-- The lines behind the bindings.
unfoldable pub read_lines : Text → Text → Option Text
read_lines mode expression =
    if text_eq mode (codes "range")
    then some (codes "    for result in " ++ (expression ++ codes ":\n        observed = result\n"))
    else if text_eq mode (codes "expression")
    then some (codes "    result = " ++ (expression ++ codes "\n    observed = result\n"))
    else none

unfoldable pub probe_source : Text → Text → List (Text × Text × Text) → Option Text
unfolding binding_lines
probe_source mode expression bindings = read_lines mode expression >>= λ lines.
    some (codes "def probe() -> None:\n" ++ (binding_lines bindings ++ lines))

module _ {F : Type 0} where
  unfoldable pub source_case : Case F → Option Request
  source_case case = probe_source case.mode case.expression case.bindings >>= λ source.
      rindex (codes "result") source >>= λ last.
      let start = length (encode_utf8 (take last source)) in
      some (record { name = case.name; source = source; start = start; stop = start + 6 })

  -- What is sent to the worker: everything but the expected value.
  unfoldable pub worker_entry : Case F → Case F
  worker_entry case = record case { expected_value = none_value; check_value = false }
