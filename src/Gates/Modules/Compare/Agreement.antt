-- ===== src/Gates/Modules/Compare/Agreement.antt =====
-- What no problem means for a case of the modules that is to be accepted.
use purepy.Base.{ℕ, suc, true, Option, some, List, [], ◌∷◌, Text, codes, ◌≡◌}
use purepy.Base.Json.{Json, Items, Fields, text, arr, nil, cons, get}
use purepy.Base.Python.{FloatTests, json_eq}
use purepy.Semantics.Values.{Floats}
use purepy.Gates.Expressions.Compare.{no_exception, same_exception}
use purepy.Gates.Modules.{valid_observation}
use purepy.Gates.Modules.Types.{exact_type}
use purepy.Gates.Modules.Compare.{
  Call, ModuleCase, Outcome, value_outcome, exception_outcome, bad_outcome, read_outcome, has_text,
  good_events,
}

module _ {F : Type 0} (floats : Floats F) (tests : FloatTests F) where
  -- A text that is the expected exception.
  abbrev pub IsExpected : Option Text → Json F → Type 0
  IsExpected expected (text name) = same_exception expected name ≡ true
  IsExpected expected _ = ⊥

  -- The host's events are the call's; and the outcome is the expected exception, or no exception is
  -- expected and it is a valid value, exactly of the declared type, equal to the expected one.
  abbrev pub Fits : Text → Call F → Outcome F → Type 0
  Fits returns call bad_outcome = ⊥
  Fits returns call (exception_outcome events e) =
      (good_events floats tests call.events events ≡ true) × IsExpected call.exception e
  Fits returns call (value_outcome events value) =
      (good_events floats tests call.events events ≡ true)
      × (valid_observation floats value 0 ≡ true)
      × (no_exception call.exception ≡ true)
      × (exact_type floats value returns ≡ some true)
      × (json_eq tests value call.expected ≡ true)

  abbrev pub AllFit : Text → ℕ → List (Call F) → Items F → Type 0
  AllFit returns index [] nil = Unit
  AllFit returns index (call ∷ calls) (cons outcome outcomes) =
      Fits returns call (read_outcome index outcome) × AllFit returns (suc index) calls outcomes
  AllFit returns index _ _ = ⊥

  -- The result has the fingerprint of the case, and an outcome that fits for every call.
  abbrev pub Fulfils : ModuleCase F → Fields F → Type 0
  Fulfils case runtime =
      (outcomes : Items F) × (get runtime (codes "outcomes") ≡ some (arr outcomes))
      × (has_text runtime (codes "fingerprint") case.fingerprint ≡ true)
      × AllFit case.returns 0 case.calls outcomes
