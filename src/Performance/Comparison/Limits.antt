-- ===== src/Performance/Comparison/Limits.antt =====
-- What it means that a comparison passes.
use purepy.Base.{false, some, List, Text, codes, All, ◌≡◌}
use purepy.Base.Json.{Json, Fields, get, keys}
use purepy.Base.Python.{FloatTests}
use purepy.Performance.{Number, Arithmetic, Strings, Metric, metrics, Key, metric}
use purepy.Performance.Validation.{as_fields}
use purepy.Performance.Entries.{Entry}
use purepy.Performance.Comparison.{Budgets, Comparison, find_corpus, measure_limit}

module _ {F : Type 0} (tests : FloatTests F) (math : Arithmetic F) (strings : Strings) where
  -- A measure is no more than the limit that the budgets set to it.
  abbrev pub WithinMetric : Budgets F → Json F → Json F → Metric → Type 0
  WithinMetric budgets previous current m =
      (before : Number F) × (after : Number F) × (limit : Number F) × (metric math previous m
        ≡ some before)
      × (metric math current m ≡ some after)
      × (measure_limit tests math budgets m before ≡ some limit)
      × (math.less limit after ≡ false)

  abbrev pub WithinPhase : Budgets F → Fields F → Fields F → Text → Type 0
  WithinPhase budgets previous current phase =
      (before : Json F) × (after : Json F) × (get previous phase ≡ some before)
      × (get current phase ≡ some after)
      × All (WithinMetric budgets before after) metrics

  abbrev pub WithinCorpus : Budgets F → Fields F → Fields F → Type 0
  WithinCorpus budgets before after =
      (previous : Fields F) × (current : Fields F) × (as_fields (get before (codes "phases"))
        ≡ some previous)
      × (as_fields (get after (codes "phases")) ≡ some current)
      × All (WithinPhase budgets previous current) (keys previous)

  abbrev pub WithinKey : Budgets F → List (Entry F) → List (Entry F) → Key F → Type 0
  WithinKey budgets previous current key =
      (before : Fields F) × (after : Fields F) × (find_corpus tests math previous key ≡ some before)
      × (find_corpus tests math current key ≡ some after)
      × WithinCorpus budgets before after
