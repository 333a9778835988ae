-- ===== src/Gates/Functions/Run/Saved.antt =====
-- The failures that `run_gate` reports, saved and read again.
use purepy.Base.{Bool, some, List, [], ◌∷◌, Text, map, ◌⊎◌, ◌≡◌}
use purepy.Base.Json.{Json}
use purepy.Base.Python.{FloatTests}
use purepy.Semantics.Values.{Floats}
use purepy.Gates.Functions.{FunctionCase}
use purepy.Gates.Functions.Decode.{decode_failures}
use purepy.Gates.Functions.Compare.{Problem}
use purepy.Gates.Functions.Run.{Report, case_names, report_entries}

-- Some of the elements, in their order.
abbrev pub IsPart : {A : Type 0} → List A → List A → Type 0
IsPart [] ys = Unit
IsPart (x ∷ xs) [] = ⊥
IsPart (x ∷ xs) (y ∷ ys) = ((x ≡ y) × IsPart xs ys) ⊎ IsPart (x ∷ xs) ys

module _ {F : Type 0} (floats : Floats F) (tests : FloatTests F) where
  abbrev pub report_names : List (Report F) → List Text
  report_names reports = map (λ report. report.name) reports

  -- The saved reports are read as some of the cases, in order, and under the names of the reports.
  abbrev pub AreSaved :
      (FunctionCase F → Bool) → (Problem → Text) → List (FunctionCase F) → List (Report F) → Type 0
  AreSaved accepts_source describe cases reports =
      (failed : List (FunctionCase F)) × (decode_failures floats accepts_source
          (report_entries describe reports)
        ≡ some failed)
      × (case_names failed ≡ report_names reports)
      × IsPart failed cases
