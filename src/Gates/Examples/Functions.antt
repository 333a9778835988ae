-- ===== src/Gates/Examples/Functions.antt =====
-- Runs of the gate over functions, and the theorems at a concrete case.
use purepy.Base.{
  Option, Bool, List, Text, none, some, true, false, [], ◌∷◌, codes, ◌≡◌, refl, text_eq, arith,
}
use purepy.Base.Int.{pos}
use purepy.Base.Decimal.{str, digits}
use purepy.Base.Json.{
  Json, Fields, arr, cons, nil, text, obj, field, end, boolean, integer, get, contains, all_in,
  null,
}
use purepy.Base.Python.{json_eq}
use purepy.Semantics.Values.{
  Floats, converted, value_error, Value, int_value, int_text, more, empty, encode_value, tagged,
  valid_value, valid_kind, none_value,
}
use purepy.Semantics.Matching.{matches_type}
use purepy.Gates.Expressions.{
  Case, Request, source_case, probe_source, read_lines, binding_lines, rindex,
}
use purepy.Gates.Known.{known_value}
use purepy.Gates.Known.Portable.{IsShallow}
use purepy.Semantics.Values.RoundTrip.{IsPortable}
use purepy.Gates.Functions.{Invocation, FunctionCase, case_entry}
use purepy.Gates.Functions.Decode.{decode_case, validate_oracles}
use purepy.Gates.Functions.Replay.{decode_case-case_entry}
use purepy.Gates.Functions.Compare.{Problem}
use purepy.Gates.Functions.Compare as Functions
use purepy.Gates.Functions.Compare.Agreement.{ResultFulfils, compare_case-Fulfils}
use purepy.Gates.Functions.Run.{Report}
use purepy.Gates.Functions.Run as FunctionsRun
use purepy.Gates.Examples.{one_float, one_test, three}

-- def probe(a: int) -> int: return a
abbrev same_case : FunctionCase (Unit {0})
same_case = record {
  name = codes "same";
  family = codes "int";
  source = codes "def same(a: int) -> int:\n    return a\n";
  parameters = (codes "a", codes "int") ∷ [];
  returns = codes "int";
  invocations =
      record {
        arguments = more (int_value (pos 3)) empty;
        expected_value = int_value (pos 3);
        check_value = true;
        exception = none;
      }
      ∷ [];
  expected_codes = [];
}

abbrev accept_all : FunctionCase (Unit {0}) → Bool
accept_all case = true

same_valid : validate_oracles one_float accept_all same_case ≡ true
unfolding validate_oracles purepy.Gates.Functions.Decode.valid_codes
    purepy.Gates.Functions.Decode.valid_invocations encode_value int_text str digits known_value
    all_in text_eq get valid_value valid_kind purepy.Semantics.Values.is_integer_text
same_valid = refl

decode_case-case_entry_example :
    (j : Json (Unit {0})) × (case_entry one_float same_case ≡ some j)
    × (decode_case one_float accept_all j ≡ some same_case)
unfolding IsPortable IsShallow str digits
decode_case-case_entry_example =
    decode_case-case_entry one_float accept_all same_case
      (((omega arith, tt), (omega arith, tt), (omega arith, omega arith)), tt) same_valid

abbrev same_verdict : Fields (Unit {0})
same_verdict = field (codes "name") (text (codes "same")) (
    field (codes "ok") (boolean true)
      (field (codes "diagnostics") (arr nil) (field (codes "inferred_types") (arr nil) end)))

abbrev same_result : Json (Unit {0}) → Fields (Unit {0})
same_result value = field (codes "name") (text (codes "same")) (
    field (codes "outcomes")
      (arr (
        cons (obj (field (codes "index") (integer (pos 0)) (field (codes "value") value end))) nil))
      end)

same_clean :
    Functions.compare_case one_float one_test same_case same_verdict (obj (same_result three))
    ≡ some []
unfolding Functions.compare_case Functions.compare_read Functions.read_verdict
    Functions.diagnostic_codes Functions.compare_result Functions.compare_listed
    Functions.compare_outcomes Functions.compare_outcome Functions.read_outcome
    Functions.compare_value Functions.wrong_types contains json_eq Functions.compare_codes
    Functions.meets Functions.wrong_values purepy.Semantics.Matching.match_fuel
    purepy.Semantics.Matching.kind_is matches_type purepy.Semantics.Values.all_digits get text_eq
    all_in known_value valid_value valid_kind purepy.Semantics.Values.is_integer_text encode_value
    int_text str digits
same_clean = refl

compare_case-Fulfils_example :
    (Functions.read_verdict same_verdict ≡ some (true, []))
    × ResultFulfils one_float one_test same_case (obj (same_result three))
compare_case-Fulfils_example =
    compare_case-Fulfils one_float one_test same_case same_verdict (obj (same_result three)) refl
      same_clean

abbrev four : Json (Unit {0})
four = tagged (codes "int") (text (codes "4"))

abbrev small : List Request → List (Json (Unit {0})) → Bool
small requests entries = false

abbrev same_probe : List Request → Option (Json (Unit {0}))
same_probe requests = some (
    obj (
      field (codes "schema") (integer (pos 1)) (
        field (codes "verifier_version") (text (codes "0.1"))
          (field (codes "results") (arr (cons (obj same_verdict) nil)) end))))

-- A worker that returns 4.
abbrev wrong_worker : List (Json (Unit {0})) → Option (Json (Unit {0}))
wrong_worker entries = some (
    obj (
      field (codes "schema") (integer (pos 1)) (
        field (codes "python_version") (text (codes "3.14.0"))
          (field (codes "results") (arr (cons (obj (same_result four)) nil)) end))))

abbrev describe : Problem → Text
describe problem = codes "wrong"

abbrev same_entry : Json (Unit {0})
same_entry = obj (
    field (codes "name") (text (codes "same")) (
      field (codes "family") (text (codes "int")) (
        field (codes "source") (text (codes "def same(a: int) -> int:\n    return a\n")) (
          field (codes "parameters")
            (arr (cons (arr (cons (text (codes "a")) (cons (text (codes "int")) nil))) nil))
            (field (codes "returns") (text (codes "int")) (
              field (codes "invocations")
                (arr (
                  cons
                    (obj (
                      field (codes "arguments") (arr (cons three nil)) (
                        field (codes "check_value") (boolean true) (
                          field (codes "expected_value") three
                            (field (codes "exception") null end)))))
                    nil))
                (field (codes "expected_codes") (arr nil) end)))))))

abbrev same_report : Report (Unit {0})
same_report = record {
  name = codes "same";
  errors = Functions.invocation 0 Functions.wrong_value ∷ [];
  entry = same_entry;
  static = obj same_verdict;
  runtime = obj (same_result four);
}
