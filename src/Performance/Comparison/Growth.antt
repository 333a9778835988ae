-- ===== src/Performance/Comparison/Growth.antt =====
-- The growth of the measures from one size to the next, within each kind and number of jobs.
use purepy.Base.{
  Bool, false, ◌&&◌, Option, none, some, List, [], ◌∷◌, ◌++◌, if◌then◌else◌, ◌>>=◌, Text, codes,
}
use purepy.Base.Int.{pos}
use purepy.Base.Json.{Json, get, or_null, keys}
use purepy.Base.Python.{FloatTests, json_eq}
use purepy.Base.Sorting.{sort_texts}
use purepy.Performance.{
  Number, whole, Arithmetic, Metric, metrics, Key, number, metric, zero_number,
}
use purepy.Performance.Validation.{as_fields}
use purepy.Performance.Entries.{Entry}
use purepy.Performance.Comparison.{
  Budgets, budget_of, growth, Tally, no_tally, add_tally, one_check, sort_keys, find_corpus,
  same_inputs,
}

-- Keys of one kind and number of jobs.
pub record Curve (F : Type 0) : Type 0 where
  pub kind : Json F
  pub jobs : Json F
  pub points : List (Key F)

-- The summaries of a phase: before and after, of the smaller and of the larger corpus.
pub record Corner (F : Type 0) : Type 0 where
  pub base_small : Json F
  pub base_large : Json F
  pub head_small : Json F
  pub head_large : Json F

module _ {F : Type 0} (tests : FloatTests F) (math : Arithmetic F) where
  -- `groups.setdefault((kind, jobs), []).append(key)`
  unfoldable pub put_point : Key F → List (Curve F) → List (Curve F)
  put_point key [] = record { kind = key.kind; jobs = key.jobs; points = key ∷ [] } ∷ []
  put_point key (curve ∷ curves) =
      let rest = put_point key curves in
      if json_eq tests curve.kind key.kind && json_eq tests curve.jobs key.jobs
      then record { kind = curve.kind; jobs = curve.jobs; points = curve.points ++ (key ∷ []) }
        ∷ curves
      else curve ∷ rest

  unfoldable pub curves_of :
      List (Entry F) → List (Entry F) → List (Key F) → List (Curve F) → Option (List (Curve F))
  curves_of previous current [] curves = some curves
  curves_of previous current (key ∷ ks) curves = do
    before ← find_corpus tests math previous key
    after ← find_corpus tests math current key
    curves_of previous current ks
        (if same_inputs tests math before after then put_point key curves else curves)

  abbrev pub input_bytes : List (Entry F) → Key F → Option (Number F)
  input_bytes current key = find_corpus tests math current key >>= λ corpus.
      number math (or_null (get corpus (codes "input_bytes")))

  abbrev pub fewer_bytes : List (Entry F) → Key F → Key F → Bool
  fewer_bytes current a b = elim (input_bytes current a) [
    | none ↦ false
    | some x ↦ elim (input_bytes current b) [ none ↦ false | some y ↦ math.less x y ]
  ]

  abbrev pub larger : Number F → Number F → Number F
  larger a b = if math.less a b then b else a

  unfoldable pub grow_limit :
      Budgets F → Metric → Number F → Number F → Number F → Number F → Option (Number F)
  grow_limit budgets m input_growth base_small base_large head_small = do
    ratio ← math.quotient base_large base_small
    scaled ← math.product head_small (larger input_growth ratio)
    factor ← math.sum (whole (pos 1)) budgets.growth_relative
    allowed ← math.product scaled factor
    math.sum allowed (budget_of budgets m)

  abbrev pub positive_pair : Number F → Number F → Bool
  positive_pair a b = math.less (zero_number math) a && math.less (zero_number math) b

  unfoldable pub grow_checked :
      Budgets F
      → Key F
      → Text
      → Metric
      → Number F
      → Number F
      → Number F
      → Number F
      → Number F
      → Option (Tally F)
  grow_checked budgets key phase m input_growth base_small base_large head_small head_large = do
    limit ← grow_limit budgets m input_growth base_small base_large head_small
    noisy ← math.sum base_large (budget_of budgets m)
    some (
        one_check (math.less limit head_large && math.less noisy head_large)
          (growth key phase m head_large limit))

  unfoldable pub grow_metric :
      Budgets F → Key F → Text → Number F → Corner F → Metric → Option (Tally F)
  grow_metric budgets key phase input_growth corner m = do
    base_small ← metric math corner.base_small m
    base_large ← metric math corner.base_large m
    head_small ← metric math corner.head_small m
    head_large ← metric math corner.head_large m
    (if positive_pair base_small head_small
        then grow_checked budgets key phase m input_growth base_small base_large head_small
            head_large
        else some no_tally)

  unfoldable pub grow_metrics :
      Budgets F → Key F → Text → Number F → Corner F → List Metric → Option (Tally F)
  grow_metrics budgets key phase input_growth corner [] = some no_tally
  grow_metrics budgets key phase input_growth corner (m ∷ ms) =
      grow_metric budgets key phase input_growth corner m >>= λ first.
      grow_metrics budgets key phase input_growth corner ms >>= λ rest. some (add_tally first rest)

  abbrev pub phase_of : List (Entry F) → Key F → Text → Option (Json F)
  phase_of entries key phase = find_corpus tests math entries key >>= λ corpus.
      as_fields (get corpus (codes "phases")) >>= λ phases. get phases phase

  unfoldable pub grow_phases :
      Budgets F
      → List (Entry F)
      → List (Entry F)
      → Key F
      → Key F
      → Number F
      → List Text
      → Option (Tally F)
  grow_phases budgets previous current small large input_growth [] = some no_tally
  grow_phases budgets previous current small large input_growth (phase ∷ phases) = do
    base_small ← phase_of previous small phase
    base_large ← phase_of previous large phase
    head_small ← phase_of current small phase
    head_large ← phase_of current large phase
    first ←
        grow_metrics budgets large phase input_growth
          (record {
            base_small = base_small;
            base_large = base_large;
            head_small = head_small;
            head_large = head_large;
          })
          metrics
    rest ← grow_phases budgets previous current small large input_growth phases
    some (add_tally first rest)

  unfoldable pub grow_larger :
      Budgets F
      → List (Entry F)
      → List (Entry F)
      → Key F
      → Key F
      → Number F
      → Number F
      → Option (Tally F)
  grow_larger budgets previous current small large small_bytes large_bytes = do
    input_growth ← math.quotient large_bytes small_bytes
    corpus ← find_corpus tests math current large
    phases ← as_fields (get corpus (codes "phases"))
    grow_phases budgets previous current small large input_growth (sort_texts (keys phases))

  unfoldable pub grow_pair :
      Budgets F → List (Entry F) → List (Entry F) → Key F → Key F → Option (Tally F)
  grow_pair budgets previous current small large = do
    small_bytes ← input_bytes current small
    large_bytes ← input_bytes current large
    (if math.less small_bytes large_bytes
        then grow_larger budgets previous current small large small_bytes large_bytes
        else some no_tally)

  -- `for small, large in zip(keys, keys[1:])`
  unfoldable pub grow_curve :
      Budgets F → List (Entry F) → List (Entry F) → Key F → List (Key F) → Option (Tally F)
  grow_curve budgets previous current small [] = some no_tally
  grow_curve budgets previous current small (large ∷ points) =
      grow_pair budgets previous current small large >>= λ first.
      grow_curve budgets previous current large points >>= λ rest. some (add_tally first rest)

  abbrev pub grow_points :
      Budgets F → List (Entry F) → List (Entry F) → List (Key F) → Option (Tally F)
  grow_points budgets previous current [] = some no_tally
  grow_points budgets previous current (small ∷ points) =
      grow_curve budgets previous current small points

  unfoldable pub grow_curves :
      Budgets F → List (Entry F) → List (Entry F) → List (Curve F) → Option (Tally F)
  grow_curves budgets previous current [] = some no_tally
  grow_curves budgets previous current (curve ∷ curves) =
      grow_points budgets previous current (sort_keys tests math (fewer_bytes current) curve.points)
      >>= λ first.
          grow_curves budgets previous current curves >>= λ rest. some (add_tally first rest)
