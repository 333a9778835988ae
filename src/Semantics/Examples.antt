-- ===== src/Semantics/Examples.antt =====
-- Tests of the tagged encoding, over floats that are written as they are, and the theorems at
-- concrete values.
pub mod Sources
use purepy.Base.{
  List, Text, ◌⊎◌, true, false, some, [], ◌∷◌, codes, ◌≡◌, refl, text_eq, arith, if◌then◌else◌,
}
use purepy.Base.Int.{negsuc}
use purepy.Base.Decimal.{str, digits}
use purepy.Base.Json.{arr, cons, nil, Json, text, null}
use purepy.Semantics.Values.{
  Floats, converted, value_error, Value, none_value, int_value, float_value, bytes_value,
  tuple_value, more, empty, encode_value, tagged, bytes_hex, int_text,
}
use purepy.Semantics.Matching.Types.{
  ExactType, tuple_of, optional, primitive, bytes_type, int_type, type_text,
}
use purepy.Semantics.Matching.Exact.{has_type}
use purepy.Base.Json.{contains}
use purepy.Semantics.Declared.{
  Node, bin_op, subscript, name_node, tuple_node, node_then, constant, ellipsis, none_constant,
  no_nodes, type_node, optional_text,
}
use purepy.Semantics.Declared.Sound.{Declares, type_node-Declares}
use purepy.Base.{none}
use purepy.Semantics.Declared.Complete.{node_of, type_node-node_of}
use purepy.Semantics.Calls.{
  Graph, raised, finished, visit_functions, visit, visit_each, visit_callees, and_then, callees,
}
use purepy.Semantics.Calls.Ranks.{rank}
use purepy.Semantics.Calls.Acyclic.{Lowers, visit_functions_lem}
use purepy.Semantics.Calls.Accepted.{IsClosed, visit_functions-finished}
use purepy.Base.{ℕ, ◌≢◌, ◌<◌, ap, ◌∙◌, subst, Bool-cases, inl, inr, eq_of_text_eq}
use purepy.Semantics.Values.RoundTrip.{IsPortable, Survives, encode_value-Survives}

pub one_hex :
    (if text_eq (codes "0x1.8p+0") (codes "0x1.8p+0") then converted tt else value_error)
    ≡ converted (tt {0})
unfolding text_eq
one_hex = refl

-- One float, `x`, which is no NaN.
abbrev pub one_float : Floats (Unit {0})
one_float = record {
  is_nan = λ x. false;
  hex = λ x. codes "0x1.8p+0";
  fromhex = λ s. if text_eq s (codes "0x1.8p+0") then converted tt else value_error;
  fromhex-hex = λ x h. one_hex;
}

abbrev sample_value : Value (Unit {0})
sample_value =
    tuple_value (
      more (int_value (negsuc 41))
        (more (float_value tt) (more (bytes_value (0 ∷ 255 ∷ [])) empty)))

encode_value-Survives_example : Survives one_float sample_value
unfolding IsPortable str digits
encode_value-Survives_example =
    encode_value-Survives one_float sample_value
      (omega arith, (omega arith, (refl, ((omega arith, (omega arith, tt)), tt))))

numbers : Unit {0}
unfolding encode_value str digits bytes_hex int_text IsPortable
numbers = tt

abbrev two_bytes : Value (Unit {0})
two_bytes = tuple_value (more (bytes_value (0 ∷ 255 ∷ [])) (more none_value empty))

abbrev bytes_or_none : ExactType
bytes_or_none = tuple_of (optional (primitive bytes_type))

abbrev two_bytes_encoded : Json (Unit {0})
two_bytes_encoded = tagged (codes "tuple") (
    arr
      (cons (tagged (codes "bytes") (text (codes "00ff"))) (cons (tagged (codes "None") null) nil)))

test_type_text : type_text bytes_or_none ≡ codes "tuple[bytes | None, ...]"
unfolding type_text
test_type_text = refl

-- The test at work: the tuple is of that type.
test_has_type : has_type bytes_or_none two_bytes ≡ true
unfolding text_eq
test_has_type = refl

-- tuple[int, ...] | None
abbrev declared : Node
declared =
    bin_op true
      (subscript (name_node (codes "tuple"))
        (tuple_node (node_then (name_node (codes "int")) (node_then (constant ellipsis) no_nodes))))
      (constant none_constant)

type_node-Declares_example : Declares (codes "tuple[int, ...] | None") 0
unfolding type_node optional_text contains text_eq
type_node-Declares_example = type_node-Declares declared 0 (codes "tuple[int, ...] | None") refl

test_nested : type_node (bin_op true declared (constant none_constant)) 0 ≡ none
unfolding type_node optional_text contains text_eq
test_nested = refl

abbrev int_tuple : ExactType
int_tuple = optional (tuple_of (primitive int_type))

type_node-node_of_example : type_node (node_of int_tuple) 0 ≡ some (type_text int_tuple)
type_node-node_of_example = type_node-node_of int_tuple 0 (tt, tt) (omega arith)

abbrev calls : Graph
calls = (codes "f", codes "g" ∷ codes "h" ∷ []) ∷ (codes "g", codes "h" ∷ []) ∷ (codes "h", []) ∷ []

test_visit : visit_functions calls ≡ finished (codes "f" ∷ codes "g" ∷ codes "h" ∷ [])
unfolding visit_functions visit visit_each visit_callees and_then callees contains text_eq
test_visit = refl

visit_functions_lem_example :
    (visit_functions calls ≡ raised)
    ⊎ ((visited : List Text) × (visit_functions calls ≡ finished visited)
        × Lowers calls (rank visited))
visit_functions_lem_example = visit_functions_lem calls

-- f calls g, which calls nothing.
abbrev two_calls : Graph
two_calls = (codes "f", codes "g" ∷ []) ∷ (codes "g", []) ∷ []

f_above : Text → ℕ
f_above name = if text_eq name (codes "f") then 1 else 0

false_is_true : false ≢ true
false_is_true e = cc

some_eq : (s t : List Text) → some s ≡ some t → s ≡ t
some_eq s t e = cc

none_is_some : (s : List Text) → none ≢ some s
none_is_some s e = cc

called_by_f : (t : Text) → contains (codes "g" ∷ []) t ≡ true → codes "g" ≡ t
unfolding contains
called_by_f t h = eq_of_text_eq (codes "g") t (ground (arith, h))

g_below_f : f_above (codes "g") < f_above (codes "f")
unfolding f_above text_eq
g_below_f = omega arith

nothing_called : (t : Text) → contains [] t ≢ true
unfolding contains
nothing_called t e = false_is_true e

two_calls-Lowers : Lowers two_calls f_above
unfolding callees
two_calls-Lowers v t targets found called = elim (Bool-cases (text_eq (codes "f") v)) [
  | inl is_f ↦
      let all = some_eq _ _ (rw is_f at found) in
      let is_g = called_by_f t (ap (λ l. contains l t) all ∙ called) in
      subst (λ n. f_above t < f_above n) (eq_of_text_eq _ _ is_f)
        (subst (λ n. f_above n < f_above (codes "f")) is_g g_below_f)
  | inr not_f ↦ elim (Bool-cases (text_eq (codes "g") v)) [
    | inl is_g ↦
        let all = some_eq _ _ (rw (not_f, is_g) at found) in
        elim (nothing_called t (ap (λ l. contains l t) all ∙ called)) [ ]
    | inr unknown ↦ elim (none_is_some _ (rw (not_f, unknown) at found)) [ ]
  ]
]

g_known : (others : List Text) × (callees two_calls (codes "g") ≡ some others)
unfolding callees text_eq
g_known = ([], refl)

two_calls-IsClosed : IsClosed two_calls
unfolding callees
two_calls-IsClosed v t targets found called = elim (Bool-cases (text_eq (codes "f") v)) [
  | inl is_f ↦
      let all = some_eq _ _ (rw is_f at found) in
      subst (λ n. (others : List Text) × (callees two_calls n ≡ some others))
        (called_by_f t (ap (λ l. contains l t) all ∙ called)) g_known
  | inr not_f ↦ elim (Bool-cases (text_eq (codes "g") v)) [
    | inl is_g ↦
        let all = some_eq _ _ (rw (not_f, is_g) at found) in
        elim (nothing_called t (ap (λ l. contains l t) all ∙ called)) [ ]
    | inr unknown ↦ elim (none_is_some _ (rw (not_f, unknown) at found)) [ ]
  ]
]

visit_functions-finished_example :
    (visited : List Text) × (visit_functions two_calls ≡ finished visited)
visit_functions-finished_example =
    visit_functions-finished two_calls f_above two_calls-Lowers two_calls-IsClosed
