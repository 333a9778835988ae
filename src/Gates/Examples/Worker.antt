-- ===== src/Gates/Examples/Worker.antt =====
-- A case that the gate sends and the worker reads.
use purepy.Base.{none, true, [], ◌∷◌, codes}
use purepy.Base.Int.{pos}
use purepy.Base.Json.{Json, arr}
use purepy.Semantics.Values.{int_value}
use purepy.Semantics.Examples.Sources.{sample_parameters, sample_arguments}
use purepy.Gates.Functions.{FunctionCase}
use purepy.Base.{true}
use purepy.Base.Json.{Fields, field, end, boolean, nil}
use purepy.Semantics.Values.{Values}
use purepy.Semantics.Sources.{Tree}
use purepy.Semantics.Sources.Runtime.{Called, returned}
use purepy.Gates.Functions.{Invocation}

abbrev judged_invocation : Invocation (Unit {0})
judged_invocation = record {
  arguments = sample_arguments;
  expected_value = int_value (pos 1);
  check_value = true;
  exception = none;
}

-- The sample with its oracle.
abbrev judged_case : FunctionCase (Unit {0})
judged_case = record {
  name = codes "half-1";
  family = codes "calls";
  source = codes "sample";
  parameters = sample_parameters;
  returns = codes "int";
  invocations = judged_invocation ∷ [];
  expected_codes = [];
}

-- The half of two.
abbrev executed : Tree (Unit {0}) → Values (Unit {0}) → Called (Unit {0})
executed tree arguments = returned (int_value (pos 1))

abbrev clean_report : Fields (Unit {0})
clean_report =
    field (codes "ok") (boolean true)
      (field (codes "diagnostics") (arr nil) (field (codes "inferred_types") (arr nil) end))
