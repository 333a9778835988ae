-- ===== src/Gates/Functions/Worker/Agreed.antt =====
-- The gate over functions raises no false alarm.
use purepy.Base.{ℕ, suc, ◌≤◌, Bool, true, false, some, [], Text, ◌≡◌, both_true, arith}
use purepy.Base.Json.{Json, contains}
use purepy.Base.Python.{FloatTests}
use purepy.Semantics.Values.{
  Floats, Value, Values, none_value, bool_value, int_value, float_value, str_value, bytes_value,
  tuple_value, other_value, empty, more,
}
use purepy.Semantics.Arguments.{bounded_value, bounded_values, max_depth}
use purepy.Semantics.Sources.Validated.{Python}
use purepy.Semantics.Sources.Typed.{HasExactType}
use purepy.Semantics.Sources.Worker.Sent.{IsSendable, bounded_value-depth, tuple-bounds, le_of_leb}
use purepy.Semantics.Sources.Runtime.{Called, returned, domain_error, escaped, outcome_of}
use purepy.Gates.Known.Portable.{IsShallow, AreShallow}
use purepy.Gates.Expressions.Compare.{no_exception}
use purepy.Gates.Functions.{Invocation, exceptions}
use purepy.Gates.Functions.Compare.{read_outcome, compare_outcome}

low : {F : Type 0} (v : Value F) (depth : ℕ) → bounded_value v depth ≡ true → depth ≤ 8
low v depth h =
    let p = le_of_leb depth max_depth (bounded_value-depth v depth h) in omega (arith, p)

mutual
  unfolding IsShallow AreShallow bounded_values

  shallow :
      {F : Type 0} (v : Value F) (depth : ℕ) → bounded_value v depth ≡ true → IsShallow v depth
  shallow {F} none_value depth h = low {F = F} none_value depth h
  shallow {F} (bool_value b) depth h = low {F = F} (bool_value b) depth h
  shallow {F} (int_value z) depth h = low {F = F} (int_value z) depth h
  shallow {F} (float_value x) depth h = low {F = F} (float_value x) depth h
  shallow {F} (str_value s) depth h = low {F = F} (str_value s) depth h
  shallow {F} (bytes_value b) depth h = low {F = F} (bytes_value b) depth h
  shallow {F} (tuple_value vs) depth h =
      let (_, _, inner) = tuple-bounds vs depth h in
      (low {F = F} (tuple_value vs) depth h, all_shallow vs (suc depth) inner)
  shallow {F} (other_value kind) depth h = low {F = F} (other_value kind) depth h

  all_shallow :
      {F : Type 0} (vs : Values F) (depth : ℕ)
      → bounded_values vs depth ≡ true
      → AreShallow vs depth
  all_shallow empty depth h = tt
  all_shallow (more v vs) depth h =
      let (first, rest) = both_true (bounded_value v depth) (bounded_values vs depth) h in
      (shallow v depth first, all_shallow vs depth rest)

module _ {F : Type 0} (floats : Floats F) (tests : FloatTests F) where
  -- A checked value is the expected one.
  abbrev pub IsExpected : Bool → Value F → Value F → Type 0
  IsExpected false expected v = Unit
  IsExpected true expected v = v ≡ expected

  -- What `probe` does is what the oracle says: it raises the expected exception; or none is expected,
  -- and it returns a value within the bounds, of exactly the declared type, and the expected one.
  abbrev pub Meets : Text → Invocation F → Called F → Type 0
  Meets returns i (returned v) =
      (no_exception i.exception ≡ true)
      × IsSendable floats v
      × (bounded_value v 0 ≡ true)
      × HasExactType v returns
      × IsExpected i.check_value i.expected_value v
  Meets returns i (domain_error name) =
      (i.exception ≡ some name) × (contains exceptions name ≡ true)
  Meets returns i escaped = ⊥

  -- The invocation has an outcome, which is compared without a problem.
  abbrev IsClean : Text → ℕ → Invocation F → Called F → Type 0
  IsClean returns index i called =
      (j : Json F) × (outcome_of floats index called ≡ some j)
      × ((ok : Bool) → compare_outcome floats tests ok returns i (read_outcome index j) ≡ some [])
