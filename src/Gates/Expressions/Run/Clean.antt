-- ===== src/Gates/Expressions/Run/Clean.antt =====
-- A gate without a failure.
use purepy.Base.{true, some, List, [], ◌∷◌, ◌≡◌}
use purepy.Base.Json.{Json, Fields, obj}
use purepy.Base.Python.{FloatTests}
use purepy.Semantics.Values.{Floats}
use purepy.Gates.Results.{has_name}
use purepy.Gates.Expressions.{Case}
use purepy.Gates.Expressions.Compare.{compare_case}

module _ {F : Type 0} (floats : Floats F) (tests : FloatTests F) where
  -- Each case has a result of the verifier and one of CPython, of its name, and they agree with it.
  abbrev pub AllAgree : List (Case F) → List (Fields F) → List (Fields F) → Type 0
  AllAgree [] [] [] = Unit
  AllAgree (case ∷ cases) (static ∷ statics) (runtime ∷ runtimes) =
      (has_name static case.name ≡ true)
      × (has_name runtime case.name ≡ true)
      × (compare_case floats tests case static (obj runtime) ≡ some [])
      × AllAgree cases statics runtimes
  AllAgree _ _ _ = ⊥
