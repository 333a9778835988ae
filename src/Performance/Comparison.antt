-- ===== src/Performance/Comparison.antt =====
-- `compare`: two reports, under budgets.
pub mod Growth
pub mod Verdict
pub mod Sorted
pub mod Limits
use purepy.Base.{
  ℕ, zero, suc, ◌+◌, Bool, true, false, ◌&&◌, ◌||◌, not, Option, none, some, List, [], ◌∷◌, ◌++◌,
  if◌then◌else◌, ◌>>=◌, Text, codes, text_eq, text_lt,
}
use purepy.Base.Sorting.{sort_texts}
use purepy.Base.Int.{ℤ, pos}
use purepy.Base.Json.{Json, Items, Fields, null, integer, real, text, obj, get, or_null, keys}
use purepy.Base.Python.{FloatTests, json_eq, item, require}
use purepy.Performance.{
  Number, whole, Arithmetic, Strings, Metric, wall_ms, process_cpu_ms, peak_rss_bytes, metrics, Key,
  as_number, number, metric, has_key, keys_in, key_eq, zero_number,
}
use purepy.Performance.Validation.{as_fields}
use purepy.Performance.Entries.{Entry, entry_keys, validate}

pub record Budgets (F : Type 0) : Type 0 where
  pub relative : Number F
  pub wall : Number F
  pub process_cpu : Number F
  pub peak_rss : Number F
  pub growth_relative : Number F

abbrev pub budget_of : {F : Type 0} → Budgets F → Metric → Number F
budget_of budgets wall_ms = budgets.wall
budget_of budgets process_cpu_ms = budgets.process_cpu
budget_of budgets peak_rss_bytes = budgets.peak_rss

pub data Difference (F : Type 0) : Type 0 where
  field_differs : Text → Difference F
  entries_differ : Difference F
  entry_differs : Key F → Text → Difference F

pub data Exceeded (F : Type 0) : Type 0 where
  measurement :
      (key : Key F) (phase : Text) (m : Metric) (baseline candidate limit : Number F) → Exceeded F
  growth : (key : Key F) (phase : Text) (m : Metric) (candidate limit : Number F) → Exceeded F

pub data Status : Type 0 where
  incompatible exploratory passed regressed : Status

-- The checks that were made, and those that failed.
pub record Tally (F : Type 0) : Type 0 where
  pub checked : ℕ
  pub failures : List (Exceeded F)

pub record Comparison (F : Type 0) : Type 0 where
  pub status : Status
  pub incompatibilities : List (Difference F)
  pub measurements : Tally F
  pub growths : Tally F

module _ {F : Type 0} where
  abbrev pub no_tally : Tally F
  no_tally = record { checked = 0; failures = [] }

  abbrev pub add_tally : Tally F → Tally F → Tally F
  add_tally a b = record { checked = a.checked + b.checked; failures = a.failures ++ b.failures }

  -- The tally of a check, with the failure if it failed.
  abbrev pub one_check : Bool → Exceeded F → Tally F
  one_check true failure = record { checked = 1; failures = failure ∷ [] }
  one_check false failure = record { checked = 1; failures = [] }

  unfoldable pub differing : FloatTests F → List Text → Fields F → Fields F → List Text
  differing tests [] a b = []
  differing tests (name ∷ names) a b =
      let rest = differing tests names a b in
      if json_eq tests (or_null (get a name)) (or_null (get b name)) then rest else name ∷ rest

  abbrev pub differ : Key F → List Text → List (Difference F)
  differ key [] = []
  differ key (name ∷ names) = entry_differs key name ∷ differ key names

  abbrev pub fields_differ : List Text → List (Difference F)
  fields_differ [] = []
  fields_differ (name ∷ names) = field_differs name ∷ fields_differ names

module _ {F : Type 0} (tests : FloatTests F) (math : Arithmetic F) where
  abbrev pub json_less : Json F → Json F → Bool
  json_less (text a) (text b) = text_lt a b
  json_less a b = elim (as_number a) [
    | none ↦ false
    | some x ↦ elim (as_number b) [ none ↦ false | some y ↦ math.less x y ]
  ]

  -- `<` of tuples
  abbrev pub key_less : Key F → Key F → Bool
  key_less a b =
      if json_eq tests a.kind b.kind
      then (if json_eq tests a.modules b.modules
          then json_less a.jobs b.jobs
          else json_less a.modules b.modules)
      else json_less a.kind b.kind

  unfoldable pub insert_key : (Key F → Key F → Bool) → Key F → List (Key F) → List (Key F)
  insert_key less key [] = key ∷ []
  insert_key less key (k ∷ ks) =
      let rest = insert_key less key ks in if less k key then k ∷ rest else key ∷ (k ∷ ks)

  unfoldable pub sort_keys : (Key F → Key F → Bool) → List (Key F) → List (Key F)
  sort_keys less [] = []
  sort_keys less (key ∷ ks) = insert_key less key (sort_keys less ks)

  unfoldable pub shared_keys : List (Key F) → List (Key F) → List (Key F)
  shared_keys [] other = []
  shared_keys (key ∷ ks) other =
      let rest = shared_keys ks other in if has_key tests other key then key ∷ rest else rest

  -- `sorted(set(previous) & set(current))`
  abbrev pub common_keys : List (Entry F) → List (Entry F) → List (Key F)
  common_keys previous current =
      sort_keys key_less (shared_keys (entry_keys previous) (entry_keys current))

  -- `entries[key]`
  unfoldable pub find_corpus : List (Entry F) → Key F → Option (Fields F)
  find_corpus [] key = none
  find_corpus (entry ∷ entries) key =
      let rest = find_corpus entries key in
      if key_eq tests entry.key key then as_fields (some entry.corpus) else rest

  unfoldable pub entry_differences :
      List (Entry F) → List (Entry F) → List (Key F) → Option (List (Difference F))
  entry_differences previous current [] = some []
  entry_differences previous current (key ∷ ks) = do
    before ← find_corpus previous key
    after ← find_corpus current key
    rest ← entry_differences previous current ks
    some (
        differ key (
          differing tests
            (codes "corpus_sha256"
              ∷ codes "changed_input_sha256"
              ∷ codes "source_files"
              ∷ codes "source_bytes"
              ∷ codes "input_bytes"
              ∷ codes "modules"
              ∷ [])
            before after)
        ++ rest)

  -- `none` of an operation passes on.
  unfoldable pub measure_limit : Budgets F → Metric → Number F → Option (Number F)
  measure_limit budgets m before = math.sum (whole (pos 1)) budgets.relative >>= λ factor.
      math.product before factor >>= λ scaled. math.sum scaled (budget_of budgets m)

  unfoldable pub measure_metric :
      Budgets F → Key F → Text → Json F → Json F → Metric → Option (Tally F)
  measure_metric budgets key phase previous current m = do
    before ← metric math previous m
    after ← metric math current m
    limit ← measure_limit budgets m before
    some (one_check (math.less limit after) (measurement key phase m before after limit))

  unfoldable pub measure_metrics :
      Budgets F → Key F → Text → Json F → Json F → List Metric → Option (Tally F)
  measure_metrics budgets key phase previous current [] = some no_tally
  measure_metrics budgets key phase previous current (m ∷ ms) =
      measure_metric budgets key phase previous current m >>= λ first.
      measure_metrics budgets key phase previous current ms >>= λ rest. some (add_tally first rest)

  unfoldable pub measure_phases :
      Budgets F → Key F → Fields F → Fields F → List Text → Option (Tally F)
  measure_phases budgets key previous current [] = some no_tally
  measure_phases budgets key previous current (phase ∷ phases) = do
    before ← get previous phase
    after ← get current phase
    first ← measure_metrics budgets key phase before after metrics
    rest ← measure_phases budgets key previous current phases
    some (add_tally first rest)

  -- Have two corpora the same inputs?
  abbrev pub same_inputs : Fields F → Fields F → Bool
  same_inputs before after =
      json_eq tests (or_null (get before (codes "corpus_sha256")))
        (or_null (get after (codes "corpus_sha256")))
      && json_eq tests (or_null (get before (codes "changed_input_sha256")))
          (or_null (get after (codes "changed_input_sha256")))

  unfoldable pub measure_corpus : Budgets F → Key F → Fields F → Fields F → Option (Tally F)
  measure_corpus budgets key before after = do
    previous ← as_fields (get before (codes "phases"))
    current ← as_fields (get after (codes "phases"))
    measure_phases budgets key previous current (sort_texts (keys previous))

  unfoldable pub measure_keys :
      Budgets F → List (Entry F) → List (Entry F) → List (Key F) → Option (Tally F)
  measure_keys budgets previous current [] = some no_tally
  measure_keys budgets previous current (key ∷ ks) = do
    before ← find_corpus previous key
    after ← find_corpus current key
    first ←
        if same_inputs before after then measure_corpus budgets key before after else some no_tally
    rest ← measure_keys budgets previous current ks
    some (add_tally first rest)
