-- ===== src/Performance/Comparison/Verdict.antt =====
-- `compare`: the incompatibilities of two reports, and the verdict.
use purepy.Base.{
  Bool, true, false, ◌&&◌, not, Option, some, List, [], ◌∷◌, ◌++◌, if◌then◌else◌, ◌>>=◌, codes,
}
use purepy.Base.Json.{Fields}
use purepy.Base.Python.{FloatTests, require}
use purepy.Performance.{Number, Arithmetic, Strings, zero_number, keys_in}
use purepy.Performance.Entries.{Entry, entry_keys, validate}
use purepy.Performance.Comparison.{
  Budgets, Difference, entries_differ, Exceeded, Status, incompatible, exploratory, passed,
  regressed, no_tally, Comparison, differing, fields_differ, entry_differences, common_keys,
  measure_keys,
}
use purepy.Performance.Comparison.Growth.{curves_of, grow_curves}

abbrev pub is_none : {A : Type 0} → List A → Bool
is_none [] = true
is_none (x ∷ xs) = false

module _ {F : Type 0} (tests : FloatTests F) (math : Arithmetic F) (strings : Strings) where
  abbrev pub valid_budget : Number F → Bool
  valid_budget x = math.finite x && not (math.less x (zero_number math))

  unfoldable pub valid_budgets : Budgets F → Bool
  valid_budgets budgets =
      valid_budget budgets.relative
      && valid_budget budgets.wall
      && valid_budget budgets.process_cpu
      && valid_budget budgets.peak_rss
      && valid_budget budgets.growth_relative

  unfoldable pub incompatibilities :
      Fields F → Fields F → List (Entry F) → List (Entry F) → Option (List (Difference F))
  incompatibilities baseline candidate previous current =
      entry_differences tests math previous current (common_keys tests math previous current)
      >>= λ differences. some (
          fields_differ (
            differing tests
              (codes "schema"
                ∷ codes "hardware"
                ∷ codes "method"
                ∷ codes "matrix"
                ∷ codes "build_settings"
                ∷ codes "runtime_environment"
                ∷ [])
              baseline candidate)
          ++ ((if keys_in tests (entry_keys previous) (entry_keys current)
                  && keys_in tests (entry_keys current) (entry_keys previous)
                then []
                else entries_differ ∷ [])
              ++ differences))

  abbrev pub status_of : List (Difference F) → List (Exceeded F) → Status
  status_of (difference ∷ differences) failures = exploratory
  status_of [] [] = passed
  status_of [] (failure ∷ failures) = regressed

  unfoldable pub compare_entries :
      Budgets F → List (Entry F) → List (Entry F) → List (Difference F) → Option (Comparison F)
  compare_entries budgets previous current differences = do
    measured ←
        measure_keys tests math budgets previous current (common_keys tests math previous current)
    curves ← curves_of tests math previous current (common_keys tests math previous current) []
    grown ← grow_curves tests math budgets previous current curves
    some (record {
      status = status_of differences (measured.failures ++ grown.failures);
      incompatibilities = differences;
      measurements = measured;
      growths = grown;
    })

  abbrev pub refused : List (Difference F) → Comparison F
  refused differences = record {
    status = incompatible;
    incompatibilities = differences;
    measurements = no_tally;
    growths = no_tally;
  }

  unfoldable pub compare : Fields F → Fields F → Budgets F → Bool → Option (Comparison F)
  compare baseline candidate budgets allow_incompatible = do
    fine ← require (valid_budgets budgets)
    previous ← validate tests math strings baseline
    current ← validate tests math strings candidate
    differences ← incompatibilities baseline candidate previous current
    (if not (is_none differences) && not allow_incompatible
        then some (refused differences)
        else compare_entries budgets previous current differences)
