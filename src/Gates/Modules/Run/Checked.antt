-- ===== src/Gates/Modules/Run/Checked.antt =====
-- A gate over modules without a failure.
use purepy.Base.{Bool, true, false, Option, none, some, List, [], ◌∷◌, ◌>>=◌, Text, ◌≡◌}
use purepy.Base.Json.{Json, Fields, contains}
use purepy.Base.Python.{FloatTests, json_eq}
use purepy.Semantics.Values.{Floats}
use purepy.Gates.Results.{has_name}
use purepy.Gates.Modules.Compare.{ModuleCase, compare_case}
use purepy.Gates.Modules.Run.{Completed, static_report, version_of}

-- A version that is named is this one.
abbrev pub IsOfVersion : Text → Option Text → Type 0
IsOfVersion version none = Unit
IsOfVersion version (some v) = v ≡ version

-- A version that is named is one of these.
abbrev IsListed : List Text → Option Text → Type 0
IsListed versions none = Unit
IsListed versions (some v) = contains versions v ≡ true

module _ {F : Type 0} (tests : FloatTests F) where
  -- Both runs of the worker answer, and the answers are equal.
  abbrev pub RunsAgree : (Bool → List (Json F) → Option (Json F)) → List (Json F) → Json F → Type 0
  RunsAgree worker request payload =
      (worker false request ≡ some payload)
      × ((other : Json F) × (worker true request ≡ some other)
          × (json_eq tests payload other ≡ true))

module _ {F : Type 0} (floats : Floats F) (tests : FloatTests F) where
  -- For every case the verifier's process has a report, of the version if it names one, and the
  -- worker a result of the case's name, and the case is compared with them without a problem.
  abbrev pub AllChecked :
      (ModuleCase F → Option (Completed F))
      → Text
      → List (ModuleCase F)
      → List (Fields F)
      → List (Fields F)
      → Type 0
  AllChecked verify version [] [] [] = Unit
  AllChecked verify version (case ∷ cases) (static ∷ statics) (runtime ∷ runtimes) =
      ((verify case >>= static_report) ≡ some static)
      × IsOfVersion version (version_of static)
      × (has_name runtime case.name ≡ true)
      × (compare_case floats tests case static runtime ≡ some [])
      × AllChecked verify version cases statics runtimes
  AllChecked verify version _ _ _ = ⊥
