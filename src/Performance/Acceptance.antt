-- ===== src/Performance/Acceptance.antt =====
-- tools/performance_acceptance.py: the budgets of a profile over a benchmark and a soak of the service.
pub mod Service
pub mod Accepted
use purepy.Base.{
  ℕ, zero, suc, ◌+◌, ◌*◌, Bool, true, false, ◌&&◌, ◌||◌, not, Option, none, some, List, [], ◌∷◌,
  ◌++◌, ◌==◌, if◌then◌else◌, ◌>>=◌, Text, codes, text_eq,
}
use purepy.Base.Int.{ℤ, pos, negsuc, pos_part}
use purepy.Base.Json.{
  Json, Items, Fields, null, boolean, integer, text, arr, obj, nil, cons, end, field, get, or_null,
}
use purepy.Base.Python.{FloatTests, json_eq, truthy, item, require, bool_int}
use purepy.Performance.{
  Number, whole, Arithmetic, Strings, Metric, wall_ms, process_cpu_ms, peak_rss_bytes, Key,
  as_number, number, positive_number, metric_path, at_path,
}
use purepy.Performance.Validation.{as_fields, as_items, as_count, repeated}
use purepy.Performance.Entries.{Entry, validate}

pub data Label (F : Type 0) : Type 0 where
  verifier_label : (key : Key F) (phase : Text) (m : Metric) → Label F
  service_label : Text → Label F

-- A value above its maximum, or below its minimum.
pub record Breach (F : Type 0) : Type 0 where
  pub label : Label F
  pub actual : Number F
  pub bound : Number F

pub record Checks (F : Type 0) : Type 0 where
  pub checked : ℕ
  pub failures : List (Breach F)

-- `METRICS[name]`
unfoldable pub metric_named : Text → Option Metric
metric_named name =
    if text_eq name (codes "wall_ms")
    then some wall_ms
    else if text_eq name (codes "process_cpu_ms")
    then some process_cpu_ms
    else if text_eq name (codes "peak_rss_bytes")
    then some peak_rss_bytes
    else none

-- n * z
abbrev pub scale : ℕ → ℤ → ℤ
scale n (pos m) = pos (n * m)
scale zero (negsuc m) = pos 0
scale (suc n) (negsuc m) = negsuc (n * suc m + m)

module _ {F : Type 0} where
  abbrev pub no_checks : Checks F
  no_checks = record { checked = 0; failures = [] }

  abbrev pub add_checks : Checks F → Checks F → Checks F
  add_checks a b = record { checked = a.checked + b.checked; failures = a.failures ++ b.failures }

  abbrev pub one : Bool → Breach F → Checks F
  one true breach = record { checked = 1; failures = breach ∷ [] }
  one false breach = record { checked = 1; failures = [] }

  -- An integer, or a Boolean as one.
  abbrev pub as_int : Json F → Option ℤ
  as_int (integer z) = some z
  as_int (boolean b) = some (bool_int b)
  as_int _ = none

  abbrev pub is_true : Option (Json F) → Bool
  is_true (some (boolean b)) = b
  is_true _ = false

module _ {F : Type 0} (tests : FloatTests F) where
  -- Every expected value is the actual one; a missing one is None.
  unfoldable pub agrees : Fields F → Fields F → Bool
  agrees end actual = true
  agrees (field key value expected) actual =
      json_eq tests (or_null (get actual key)) value && agrees expected actual

module _ {F : Type 0} (tests : FloatTests F) (math : Arithmetic F) (strings : Strings) where
  unfoldable pub maximum : Label F → Json F → Number F → Option (Checks F)
  maximum label value limit = do
    x ← number math value
    fine ← require (math.finite limit && math.less (whole (pos 0)) limit)
    some (one (math.less limit x) (record { label = label; actual = x; bound = limit }))

  unfoldable pub minimum : Label F → Json F → Number F → Option (Checks F)
  minimum label value limit = do
    x ← number math value
    fine ← require (math.finite limit && math.less (whole (pos 0)) limit)
    some (one (math.less x limit) (record { label = label; actual = x; bound = limit }))

  -- `entry["modules"] or 1`
  abbrev pub size_of : Json F → Option (Number F)
  size_of value =
      if truthy tests value
      then (elim (as_int value) [ some z ↦ some (whole z) | none ↦ as_number value ])
      else some (whole (pos 1))

  unfoldable pub budget : Json F → Json F → Option (Number F)
  budget formula modules = do
    fixed ← item formula (codes "fixed") >>= number math
    per_module ← item formula (codes "per_module") >>= number math
    size ← size_of modules
    scaled ← math.product per_module size
    math.sum fixed scaled

  unfoldable pub accept_metric : Key F → Text → Json F → Text → Json F → Option (Checks F)
  accept_metric key phase summary name formula = do
    limit ← budget formula key.modules
    m ← metric_named name
    value ← at_path (metric_path m) summary
    maximum (verifier_label key phase m) value limit

  unfoldable pub accept_metrics : Key F → Text → Json F → Fields F → Option (Checks F)
  accept_metrics key phase summary end = some no_checks
  accept_metrics key phase summary (field name formula limits) =
      accept_metric key phase summary name formula >>= λ first.
      accept_metrics key phase summary limits >>= λ rest. some (add_checks first rest)

  -- No parsing and no lowering in a sample of warm runs.
  unfoldable pub idle_samples : Items F → Bool
  idle_samples nil = true
  idle_samples (cons sample samples) =
      elim (at_path (codes "worker_ms" ∷ codes "parse" ∷ []) sample) [
        | none ↦ false
        | some parse ↦ elim (at_path (codes "worker_ms" ∷ codes "lower" ∷ []) sample) [
          | none ↦ false
          | some lower ↦
              json_eq tests parse (integer (pos 0))
              && json_eq tests lower (integer (pos 0))
              && idle_samples samples
        ]
      ]

  abbrev pub idle : Text → Option (Items F) → Bool
  idle phase none = not (text_eq phase (codes "warm_unchanged"))
  idle phase (some samples) = not (text_eq phase (codes "warm_unchanged")) || idle_samples samples

  unfoldable pub accept_phases : Key F → Fields F → Fields F → Option (Checks F)
  accept_phases key limits end = some no_checks
  accept_phases key limits (field phase summary phases) = do
    first ← accept_metrics key phase summary limits
    warm ← require (idle phase (as_items (item summary (codes "samples"))))
    rest ← accept_phases key limits phases
    some (add_checks first rest)

  abbrev pub kind_text : Json F → Option Text
  kind_text (text kind) = some kind
  kind_text _ = none

  unfoldable pub accept_entry : Fields F → Entry F → Option (Checks F)
  accept_entry budgets entry = do
    kind ← kind_text entry.key.kind
    limits ← as_fields (get budgets kind)
    phases ← as_fields (item entry.corpus (codes "phases"))
    accept_phases entry.key limits phases

  unfoldable pub accept_entries : Fields F → List (Entry F) → Option (Checks F)
  accept_entries budgets [] = some no_checks
  accept_entries budgets (entry ∷ entries) = accept_entry budgets entry >>= λ first.
      accept_entries budgets entries >>= λ rest. some (add_checks first rest)
