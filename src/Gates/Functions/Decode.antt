-- ===== src/Gates/Functions/Decode.antt =====
-- `validate_oracles`, `decode_case` and `load_replay`.
use purepy.Base.{
  Bool, true, false, ◌&&◌, not, Option, none, some, List, [], ◌∷◌, if◌then◌else◌, ◌>>=◌, Text,
  codes, text_eq,
}
use purepy.Base.Int.{pos, eq_ℤ}
use purepy.Base.Json.{Json, Items, null, boolean, integer, text, arr, nil, cons, contains}
use purepy.Base.Python.{has_keys, item, require, is_null}
use purepy.Semantics.Values.{
  Floats, Value, Values, none_value, encode_value, decode_value, decode_items,
}
use purepy.Gates.Known.{known_value, known_items}
use purepy.Gates.Functions.{Invocation, FunctionCase, exceptions, is_diagnostic_code}

unfoldable pub valid_codes : List Text → Bool
valid_codes [] = true
valid_codes (code ∷ rest) =
    is_diagnostic_code code && not (text_eq code (codes "PP099")) && valid_codes rest

module _ {F : Type 0} where
  abbrev pub as_list : Json F → Option (Items F)
  as_list (arr items) = some items
  as_list _ = none

  abbrev pub as_text : Json F → Option Text
  as_text (text s) = some s
  as_text _ = none

  abbrev pub as_bool : Json F → Option Bool
  as_bool (boolean b) = some b
  as_bool _ = none

  abbrev pub as_exception : Json F → Option (Option Text)
  as_exception null = some none
  as_exception (text s) = some (some s)
  as_exception _ = none

  unfoldable pub decode_texts : Items F → Option (List Text)
  decode_texts nil = some []
  decode_texts (cons (text s) items) = decode_texts items >>= λ rest. some (s ∷ rest)
  decode_texts _ = none

  unfoldable pub decode_pairs : Items F → Option (List (Text × Text))
  decode_pairs nil = some []
  decode_pairs (cons (arr (cons (text a) (cons (text b) nil))) items) =
      decode_pairs items >>= λ rest. some ((a, b) ∷ rest)
  decode_pairs _ = none

module _ {F : Type 0} (floats : Floats F) where
  -- What `known_value(encode_value(value))` is, if nothing is raised.
  abbrev pub known_encoding : Option (Json F) → Bool
  known_encoding none = false
  known_encoding (some j) = known_value floats j 0

  abbrev pub known_exception : Option Text → Bool
  known_exception none = true
  known_exception (some name) = contains exceptions name

  abbrev pub valid_oracle : Bool → Option Text → Value F → Bool
  valid_oracle false exception value = known_exception exception
  valid_oracle true none value = known_encoding (encode_value floats value)
  valid_oracle true (some []) value = false
  valid_oracle true (some (c ∷ name)) value = false

  unfoldable pub valid_invocations : List (Invocation F) → Bool
  valid_invocations [] = true
  valid_invocations (i ∷ invocations) =
      valid_oracle i.check_value i.exception i.expected_value && valid_invocations invocations

  -- `validate_oracles`: does it raise nothing?
  unfoldable pub validate_oracles : (FunctionCase F → Bool) → FunctionCase F → Bool
  validate_oracles accepts_source case =
      accepts_source case && valid_codes case.expected_codes && valid_invocations case.invocations

  unfoldable pub decode_expected : Bool → Json F → Option (Value F)
  decode_expected true j = if known_value floats j 0 then decode_value floats j else none
  decode_expected false j = if is_null j then some none_value else none

  unfoldable pub decode_arguments : Items F → Option (Values F)
  decode_arguments items = if known_items floats items 0 then decode_items floats items else none

  abbrev pub invocation_fields : List Text
  invocation_fields =
      codes "arguments" ∷ codes "check_value" ∷ codes "expected_value" ∷ codes "exception" ∷ []

  unfoldable pub decode_invocation : Json F → Option (Invocation F)
  decode_invocation entry = do
    fine ← require (has_keys entry invocation_fields)
    arguments ← item entry (codes "arguments") >>= as_list
    check_value ← item entry (codes "check_value") >>= as_bool
    expected ← item entry (codes "expected_value")
    exception ← item entry (codes "exception") >>= as_exception
    values ← decode_arguments arguments
    value ← decode_expected check_value expected
    some (record {
      arguments = values;
      expected_value = value;
      check_value = check_value;
      exception = exception;
    })

  unfoldable pub decode_invocations : Items F → Option (List (Invocation F))
  decode_invocations nil = some []
  decode_invocations (cons entry entries) = decode_invocation entry >>= λ first.
      decode_invocations entries >>= λ rest. some (first ∷ rest)

  abbrev pub case_fields : List Text
  case_fields =
      codes "name"
      ∷ codes "family"
      ∷ codes "source"
      ∷ codes "parameters"
      ∷ codes "returns"
      ∷ codes "invocations"
      ∷ codes "expected_codes"
      ∷ []

  -- The fields of the entry; what `validate_oracles` tests behind them is not yet tested.
  unfoldable pub decode_fields : Json F → Option (FunctionCase F)
  decode_fields entry = do
    fine ← require (has_keys entry case_fields)
    invocations ← item entry (codes "invocations") >>= as_list >>= decode_invocations
    parameters ← item entry (codes "parameters") >>= as_list >>= decode_pairs
    name ← item entry (codes "name") >>= as_text
    family ← item entry (codes "family") >>= as_text
    source ← item entry (codes "source") >>= as_text
    returns ← item entry (codes "returns") >>= as_text
    found ← item entry (codes "expected_codes") >>= as_list >>= decode_texts
    some (record {
      name = name;
      family = family;
      source = source;
      parameters = parameters;
      returns = returns;
      invocations = invocations;
      expected_codes = found;
    })

  unfoldable pub decode_case : (FunctionCase F → Bool) → Json F → Option (FunctionCase F)
  decode_case accepts_source entry = decode_fields entry >>= λ case.
      if validate_oracles accepts_source case then some case else none

  unfoldable pub decode_failures :
      (FunctionCase F → Bool) → Items F → Option (List (FunctionCase F))
  decode_failures accepts_source nil = some []
  decode_failures accepts_source (cons failure failures) =
      item failure (codes "case") >>= decode_case accepts_source >>= λ first.
      decode_failures accepts_source failures >>= λ rest. some (first ∷ rest)

  -- `load_replay`, on the JSON of the file, whose size is tested before.
  unfoldable pub load_replay : (FunctionCase F → Bool) → Json F → Option (List (FunctionCase F))
  load_replay accepts_source payload = do
    schema ← item payload (codes "schema")
    fine ← require (elim schema [ integer z ↦ eq_ℤ z (pos 1) | _ ↦ false ])
    kind ← item payload (codes "kind")
    whole ← require (elim kind [ text s ↦ text_eq s (codes "whole_function") | _ ↦ false ])
    failures ← item payload (codes "failures") >>= as_list
    decode_failures accepts_source failures
