-- ===== src/Gates/Examples/Projects.antt =====
-- A run of the gate over modules: one case, its two processes, and the theorem on the gate.
use purepy.Base.{Bool, Option, List, some, [], codes, text_eq}
use purepy.Base.Int.{pos}
use purepy.Base.Json.{Json, arr, cons, nil, text, obj, field, end, integer}
use purepy.Gates.Examples.Modules.{token_report, token_result}
use purepy.Gates.Modules.Compare.{ModuleCase}
use purepy.Gates.Modules.Run.{Completed}

abbrev same_name : ModuleCase (Unit {0}) → ModuleCase (Unit {0}) → Bool
same_name case other = text_eq case.name other.name

abbrev accepted : ModuleCase (Unit {0}) → Option (Completed (Unit {0}))
accepted case = some record { returncode = pos 0; stderr = []; report = some (obj token_report) }

abbrev answer : Bool → List (Json (Unit {0})) → Option (Json (Unit {0}))
answer second request = some (
    obj (
      field (codes "schema") (integer (pos 1)) (
        field (codes "python_version") (text (codes "3.14.0")) (
          field (codes "hash_randomization") (integer (pos 1))
            (field (codes "results") (arr (cons (obj token_result) nil)) end)))))
