-- ===== src/Performance/Acceptance/Accepted.antt =====
-- What it means that a profile is met.
use purepy.Base.{ℕ, ◌+◌, true, false, some, [], ◌∷◌, Text, codes, ◌≡◌}
use purepy.Base.Int.{ℤ, pos}
use purepy.Base.Json.{Json, Fields, integer, field, end, get}
use purepy.Base.Python.{FloatTests, item}
use purepy.Performance.{Number, Arithmetic, Strings, Metric, metric_path, Key, number, at_path}
use purepy.Performance.Validation.{as_fields, as_items}
use purepy.Performance.Entries.{Entry}
use purepy.Performance.Acceptance.{metric_named, budget, idle, kind_text}
use purepy.Performance.Acceptance.Service.{
  Acceptance, holds_at, is_zero, clean_resources, succeeded, all_delivered,
}

abbrev pub AllFields : {F : Type 0} → (Text → Json F → Type 0) → Fields F → Type 0
AllFields P end = Unit
AllFields P (field key value fields) = P key value × AllFields P fields

module _ {F : Type 0} (tests : FloatTests F) (math : Arithmetic F) (strings : Strings) where
  -- The metric of the name is no more than the fixed amount and the one per module.
  abbrev pub WithinBudget : Key F → Json F → Text → Json F → Type 0
  WithinBudget key summary name formula =
      (limit : Number F) × (m : Metric) × (value : Json F) × (x : Number F) × (budget tests math
          strings formula key.modules
        ≡ some limit)
      × (metric_named name ≡ some m)
      × (at_path (metric_path m) summary ≡ some value)
      × (number math value ≡ some x)
      × (math.less limit x ≡ false)

  -- All budgets are kept, and nothing is parsed or lowered in warm runs.
  abbrev pub PhaseKeeps : Key F → Fields F → Text → Json F → Type 0
  PhaseKeeps key limits phase summary =
      AllFields (WithinBudget key summary) limits
      × (idle tests math strings phase (as_items (item summary (codes "samples"))) ≡ true)

  abbrev pub EntryKeeps : Fields F → Entry F → Type 0
  EntryKeeps budgets entry =
      (kind : Text) × (limits : Fields F) × (phases : Fields F) × (kind_text tests math strings
          entry.key.kind
        ≡ some kind)
      × (as_fields (get budgets kind) ≡ some limits)
      × (as_fields (item entry.corpus (codes "phases")) ≡ some phases)
      × AllFields (PhaseKeeps entry.key limits) phases

  -- No error and no leak; every operation succeeded and was measured; and each stream and the
  -- database have exactly the writes.
  abbrev pub IsSettled : Json F → ℤ → Type 0
  IsSettled service streams =
      (operations : Json F) × (resources : Json F) × (reads : ℕ) × (writes : ℕ) × (item service
          (codes "operations")
        ≡ some operations)
      × (item service (codes "resources_after_cleanup") ≡ some resources)
      × (succeeded tests operations (codes "read") ≡ some reads)
      × (succeeded tests operations (codes "write") ≡ some writes)
      × (is_zero tests service (codes "errors" ∷ codes "count" ∷ []) ≡ true)
      × (clean_resources tests resources ≡ true)
      × (holds_at tests service (codes "requests" ∷ []) (integer (pos (reads + writes))) ≡ true)
      × (all_delivered tests service writes streams ≡ true)
