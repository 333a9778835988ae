-- ===== src/Gates/Functions/Worker/Request.antt =====
-- The request that the gate over functions sends, and the cases that the worker reads of it.
use purepy.Base.{Bool, List, [], ◌∷◌}
use purepy.Base.Json.{Json, Items, nil, cons}
use purepy.Semantics.Values.{Floats}
use purepy.Semantics.Sources.Validated.{Python, validate_case}
use purepy.Semantics.Sources.Worker
use purepy.Semantics.Sources.Worker.{worker_case}
use purepy.Gates.Functions.{FunctionCase}
use purepy.Gates.Functions.Run
use purepy.Gates.Functions.Worker.{without_oracles}

abbrev pub listed : {F : Type 0} → List (Json F) → Items F
listed [] = nil
listed (entry ∷ entries) = cons entry (listed entries)

module _ {F : Type 0} (floats : Floats F) (python : Python F) where
  -- `validate_case`, of a case of the gate.
  abbrev pub accepts_source : FunctionCase F → Bool
  accepts_source case = validate_case floats python (without_oracles case)
