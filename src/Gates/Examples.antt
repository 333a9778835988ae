-- ===== src/Gates/Examples.antt =====
-- Runs of the gate over expressions, and the theorems at a concrete case.
pub mod Functions
pub mod Modules
pub mod Worker
pub mod Projects
use purepy.Base.{
  Option, Bool, List, Text, none, some, true, false, [], ◌∷◌, codes, ◌≡◌, refl, text_eq, arith,
  if◌then◌else◌,
}
use purepy.Base.Int.{pos}
use purepy.Base.Decimal.{str, digits}
use purepy.Base.Json.{
  Json, Fields, arr, cons, nil, text, obj, field, end, boolean, integer, get, contains, all_in,
  null,
}
use purepy.Base.Python.{FloatTests, json_eq, get_value}
use purepy.Semantics.Values.{
  Floats, converted, value_error, Value, int_value, int_text, more, empty, encode_value, tagged,
  valid_value, valid_kind, none_value,
}
use purepy.Semantics.Matching.{matches_type}
use purepy.Gates.Expressions.{Case, Request}
use purepy.Gates.Expressions.Compare.{read_outcome, read_verdict, compare_case}
use purepy.Gates.Expressions.Compare.Agreement.{Agrees, compare_case-Agrees}
use purepy.Gates.Known.{known_value}
use purepy.Gates.Known.Portable.{IsShallow}
use purepy.Semantics.Values.RoundTrip.{IsPortable}
use purepy.Gates.Functions.{Invocation, FunctionCase, case_entry}
use purepy.Gates.Functions.Decode.{decode_case, validate_oracles, load_replay}
use purepy.Gates.Functions.Replay.{decode_case-case_entry}
use purepy.Gates.Functions.Compare.{Problem}
use purepy.Gates.Functions.Compare.Agreement.{ResultFulfils, compare_case-Fulfils}
use purepy.Gates.Functions.Run.{Report, case_names, save_failures}
use purepy.Gates.Functions.Run.Saved.{IsPart, report_names}

pub one_hex :
    (if text_eq (codes "0x1.8p+0") (codes "0x1.8p+0") then converted tt else value_error)
    ≡ converted (tt {0})
unfolding text_eq
one_hex = refl

abbrev pub one_float : Floats (Unit {0})
one_float = record {
  is_nan = λ x. false;
  hex = λ x. codes "0x1.8p+0";
  fromhex = λ s. if text_eq s (codes "0x1.8p+0") then converted tt else value_error;
  fromhex-hex = λ x h. one_hex;
}

abbrev pub one_test : FloatTests (Unit {0})
one_test = record { same = λ x y. true; same_int = λ x z. false }

abbrev pub three : Json (Unit {0})
three = tagged (codes "int") (text (codes "3"))

abbrev add_case : Case (Unit {0})
add_case = record {
  name = codes "add";
  family = codes "int";
  expression = codes "a + 1";
  expected_type = some (codes "int");
  bindings = (codes "a", codes "int", codes "2") ∷ [];
  exception = none;
  mode = codes "expression";
  expected_value = int_value (pos 3);
  check_value = true;
}

abbrev add_verdict : Fields (Unit {0})
add_verdict = field (codes "name") (text (codes "add")) (
    field (codes "ok") (boolean true) (
      field (codes "diagnostics") (arr nil)
        (field (codes "inferred_types") (arr (cons (text (codes "int")) nil)) end)))

abbrev add_result : Fields (Unit {0})
add_result = field (codes "name") (text (codes "add")) (field (codes "value") three end)

add_clean : compare_case one_float one_test add_case add_verdict (obj add_result) ≡ some []
unfolding compare_case purepy.Gates.Expressions.Compare.compare_read read_outcome get text_eq
    valid_value valid_kind purepy.Gates.Expressions.Compare.compare_valid
    purepy.Semantics.Values.is_integer_text read_verdict
    purepy.Gates.Expressions.Compare.compare_verdict purepy.Gates.Expressions.Compare.any_code
    purepy.Gates.Expressions.Compare.compare_accepted
    purepy.Gates.Expressions.Compare.compare_outcome purepy.Gates.Expressions.Compare.compare_value
    matches_type purepy.Semantics.Matching.match_fuel purepy.Semantics.Matching.kind_is digits str
    contains get_value json_eq purepy.Gates.Expressions.Compare.compare_wanted
    purepy.Gates.Expressions.Compare.only_type purepy.Semantics.Values.all_digits encode_value
    int_text all_in
add_clean = refl

compare_case-Agrees_example :
    Agrees one_float one_test add_case (codes "int") add_verdict (obj add_result)
compare_case-Agrees_example =
    compare_case-Agrees one_float one_test add_case (codes "int") add_verdict (obj add_result) refl
      refl refl add_clean

abbrev answer_probe : List Request → Option (Json (Unit {0}))
answer_probe requests = some (
    obj (
      field (codes "schema") (integer (pos 1)) (
        field (codes "verifier_version") (text (codes "0.1"))
          (field (codes "results") (arr (cons (obj add_verdict) nil)) end))))

abbrev answer_worker : List (Case (Unit {0})) → Option (Json (Unit {0}))
answer_worker cases = some (
    obj (
      field (codes "python_version") (text (codes "3.14.0"))
        (field (codes "results") (arr (cons (obj add_result) nil)) end)))
