-- ===== src/Gates/Functions.antt =====
-- tools/differential_functions.py: the gate over whole functions, its entries and their replay.
-- `validate_case` of tools/function_runtime.py, which parses the source as Python, is the parameter
-- `accepts_source`. `none` is an exception.
pub mod Decode
pub mod Replay
pub mod Compare
pub mod Run
pub mod Worker
use purepy.Base.{
  ℕ, zero, suc, ◌+◌, Bool, true, false, ◌&&◌, ◌||◌, not, Option, none, some, List, [], ◌∷◌, ◌++◌,
  leb, ltb, ◌==◌, if◌then◌else◌, ◌>>=◌, Text, codes, text_eq, length, map, drop, take,
}
use purepy.Base.Json.{
  Json, Items, Fields, null, boolean, integer, text, arr, obj, nil, cons, end, field, get, contains,
  keys, same_set,
}
use purepy.Base.Python.{has_keys, item, require, count_items, texts, is_null}
use purepy.Semantics.Values.{
  Floats, Value, Values, none_value, encode_value, encode_values, valid_value, decode_value,
  decode_items, all_digits,
}

pub record Invocation (F : Type 0) : Type 0 where
  pub arguments : Values F
  pub expected_value : Value F
  pub check_value : Bool
  pub exception : Option Text

pub record FunctionCase (F : Type 0) : Type 0 where
  pub name : Text
  pub family : Text
  pub source : Text
  pub parameters : List (Text × Text)
  pub returns : Text
  pub invocations : List (Invocation F)
  pub expected_codes : List Text

abbrev pub exceptions : List Text
exceptions =
    codes "ZeroDivisionError"
    ∷ codes "OverflowError"
    ∷ codes "FloatingPointError"
    ∷ codes "ArithmeticError"
    ∷ codes "ValueError"
    ∷ codes "TypeError"
    ∷ codes "IndexError"
    ∷ codes "UnboundLocalError"
    ∷ []

-- `re.fullmatch(r"PP[0-9]{3}", code)`
unfoldable pub is_diagnostic_code : Text → Bool
is_diagnostic_code code =
    text_eq (take 2 code) (codes "PP") && (length code == 5) && all_digits (drop 2 code)

module _ {F : Type 0} where
  abbrev pub pair_entry : Text × Text → Json F
  pair_entry (name, annotation) = arr (cons (text name) (cons (text annotation) nil))

  unfoldable pub pair_entries : List (Text × Text) → Items F
  pair_entries [] = nil
  pair_entries (parameter ∷ parameters) = cons (pair_entry parameter) (pair_entries parameters)

  abbrev pub exception_entry : Option Text → Json F
  exception_entry none = null
  exception_entry (some name) = text name

module _ {F : Type 0} (floats : Floats F) where
  -- An entry of `worker_entry`: the arguments alone.
  unfoldable pub argument_entry : Invocation F → Option (Json F)
  argument_entry invocation = encode_values floats invocation.arguments >>= λ arguments.
      some (obj (field (codes "arguments") (arr arguments) end))

  unfoldable pub argument_entries : List (Invocation F) → Option (Items F)
  argument_entries [] = some nil
  argument_entries (invocation ∷ invocations) = argument_entry invocation >>= λ first.
      argument_entries invocations >>= λ rest. some (cons first rest)

  unfoldable pub worker_entry : FunctionCase F → Option (Json F)
  worker_entry case = argument_entries case.invocations >>= λ invocations. some (
      obj (
        field (codes "name") (text case.name) (
          field (codes "family") (text case.family) (
            field (codes "source") (text case.source) (
              field (codes "parameters") (arr (pair_entries case.parameters)) (
                field (codes "returns") (text case.returns)
                  (field (codes "invocations") (arr invocations) end)))))))

  unfoldable pub expected_entry : Bool → Value F → Option (Json F)
  expected_entry true value = encode_value floats value
  expected_entry false value = some null

  -- The record of an invocation in `case_entry`.
  unfoldable pub invocation_entry : Invocation F → Option (Json F)
  invocation_entry invocation = encode_values floats invocation.arguments >>= λ arguments.
      expected_entry invocation.check_value invocation.expected_value >>= λ expected. some (
        obj (
          field (codes "arguments") (arr arguments) (
            field (codes "check_value") (boolean invocation.check_value) (
              field (codes "expected_value") expected
                (field (codes "exception") (exception_entry invocation.exception) end)))))

  unfoldable pub invocation_entries : List (Invocation F) → Option (Items F)
  invocation_entries [] = some nil
  invocation_entries (invocation ∷ invocations) = invocation_entry invocation >>= λ first.
      invocation_entries invocations >>= λ rest. some (cons first rest)

  unfoldable pub case_entry : FunctionCase F → Option (Json F)
  case_entry case = invocation_entries case.invocations >>= λ invocations. some (
      obj (
        field (codes "name") (text case.name) (
          field (codes "family") (text case.family) (
            field (codes "source") (text case.source) (
              field (codes "parameters") (arr (pair_entries case.parameters)) (
                field (codes "returns") (text case.returns) (
                  field (codes "invocations") (arr invocations)
                    (field (codes "expected_codes") (arr (texts case.expected_codes)) end))))))))
