-- ===== src/Performance.antt =====
-- tools/benchmark_compare.py: reports of benchmarks as JSON, their numbers and their identities. CPython's
-- arithmetic on its numbers, and `strip` and `lower` of texts, are parameters. `none` is an exception.
pub mod Validation
pub mod Entries
pub mod Comparison
pub mod Complete
pub mod Acceptance
pub mod Examples
use purepy.Base.{
  ℕ, Bool, true, false, ◌&&◌, ◌||◌, not, Option, none, some, List, [], ◌∷◌, ltb, ◌==◌,
  if◌then◌else◌, ◌>>=◌, Text, codes, text_eq, text_lt, length,
}
use purepy.Base.Int.{ℤ, pos, negsuc, eq_ℤ}
use purepy.Base.Json.{
  Json, Items, Fields, null, boolean, integer, real, text, arr, obj, nil, cons, end, field, get,
  contains, or_null,
}
use purepy.Base.Python.{FloatTests, json_eq, item, require}

pub data Number (F : Type 0) : Type 0 where
  whole : ℤ → Number F
  float : F → Number F

-- `finite` is whether `math.isfinite` returns true, `near` is `math.isclose` with the tolerance of
-- `validate`, and `none` of an operation is an OverflowError or a ZeroDivisionError.
pub record Arithmetic (F : Type 0) : Type 0 where
  pub finite : Number F → Bool
  pub less : Number F → Number F → Bool
  pub near : Number F → Number F → Bool
  pub sum : Number F → Number F → Option (Number F)
  pub product : Number F → Number F → Option (Number F)
  pub quotient : Number F → Number F → Option (Number F)
  pub median : List (Number F) → Option (Number F)

pub record Strings : Type 0 where
  pub strip : Text → Text
  pub lower : Text → Text

pub data Metric : Type 0 where
  wall_ms process_cpu_ms peak_rss_bytes : Metric

abbrev pub metrics : List Metric
metrics = wall_ms ∷ process_cpu_ms ∷ peak_rss_bytes ∷ []

abbrev pub metric_name : Metric → Text
metric_name wall_ms = codes "wall_ms"
metric_name process_cpu_ms = codes "process_cpu_ms"
metric_name peak_rss_bytes = codes "peak_rss_bytes"

abbrev pub metric_path : Metric → List Text
metric_path wall_ms = codes "wall_ms" ∷ codes "median" ∷ []
metric_path process_cpu_ms = codes "median_process_cpu_ms" ∷ []
metric_path peak_rss_bytes = codes "median_peak_rss_bytes" ∷ []

unfoldable pub is_hex : Text → Bool
is_hex [] = true
is_hex (c ∷ s) = ((not (ltb c 48) && ltb c 58) || (not (ltb c 97) && ltb c 103)) && is_hex s

-- A corpus of a kind, with a number of modules and of jobs.
pub record Key (F : Type 0) : Type 0 where
  pub kind : Json F
  pub modules : Json F
  pub jobs : Json F

module _ {F : Type 0} where
  unfoldable pub is_digest : Option (Json F) → Bool
  is_digest (some (text s)) = (length s == 64) && is_hex s
  is_digest _ = false

  unfoldable pub at_path : List Text → Json F → Option (Json F)
  at_path [] value = some value
  at_path (part ∷ parts) value = item value part >>= at_path parts

  unfoldable pub identity : Json F → Option (Key F)
  identity corpus = do
    kind ← item corpus (codes "corpus")
    modules ← item corpus (codes "modules")
    jobs ← item corpus (codes "jobs")
    some (record { kind = kind; modules = modules; jobs = jobs })

  abbrev pub as_number : Json F → Option (Number F)
  as_number (integer z) = some (whole z)
  as_number (real x) = some (float x)
  as_number _ = none

  abbrev pub is_positive : Option (Json F) → Bool
  is_positive (some (integer (pos n))) = not (n == 0)
  is_positive _ = false

module _ {F : Type 0} (math : Arithmetic F) where
  abbrev pub zero_number : Number F
  zero_number = whole (pos 0)

  -- `number`, without and with `positive`
  unfoldable pub number : Json F → Option (Number F)
  number value = as_number value >>= λ x.
      if math.finite x && not (math.less x zero_number) then some x else none

  unfoldable pub positive_number : Json F → Option (Number F)
  positive_number value = number value >>= λ x. if math.less zero_number x then some x else none

  unfoldable pub metric : Json F → Metric → Option (Number F)
  metric summary m = at_path (metric_path m) summary >>= number

module _ {F : Type 0} (tests : FloatTests F) where
  abbrev pub key_eq : Key F → Key F → Bool
  key_eq a b =
      json_eq tests a.kind b.kind
      && json_eq tests a.modules b.modules
      && json_eq tests a.jobs b.jobs

  unfoldable pub has_key : List (Key F) → Key F → Bool
  has_key [] k = false
  has_key (key ∷ keys) k = key_eq key k || has_key keys k

  -- `set(ks) <= set(keys)`
  unfoldable pub keys_in : List (Key F) → List (Key F) → Bool
  keys_in keys [] = true
  keys_in keys (k ∷ ks) = has_key keys k && keys_in keys ks
