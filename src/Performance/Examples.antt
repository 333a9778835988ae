-- ===== src/Performance/Examples.antt =====
-- A small report that is valid and compared with itself, and the theorems at it.
pub mod Soak
use purepy.Base.{ℕ, ◌*◌, true, false, some, none, List, [], ◌∷◌, Text, codes, ◌≡◌, refl, text_eq}
use purepy.Base.Int.{ℤ, pos, eq_ℤ, ltb_ℤ, ◌+ℤ◌, pos_part}
use purepy.Base.Json.{
  Json, Fields, null, boolean, integer, text, arr, obj, nil, cons, end, field, get, contains,
  all_in,
}
use purepy.Base.Python.{FloatTests, json_eq, items_eq, item}
use purepy.Performance.{Number, whole, float, Arithmetic, Strings, Key, keys_in}
use purepy.Performance.Validation.{valid_matrix, expected_keys}
use purepy.Performance.Entries.{Entry, validate}
use purepy.Performance.Comparison.{Budgets, Comparison, Status, passed, Tally}

abbrev pub one_test : FloatTests (Unit {0})
one_test = record { same = λ x y. true; same_int = λ x z. false }

abbrev pub value_of : Number (Unit {0}) → ℤ
value_of (whole z) = z
value_of (float x) = pos 0

-- Arithmetic on natural numbers.
abbrev pub whole_numbers : Arithmetic (Unit {0})
whole_numbers = record {
  finite = λ x. true;
  less = λ a b. ltb_ℤ (value_of a) (value_of b);
  near = λ a b. eq_ℤ (value_of a) (value_of b);
  sum = λ a b. some (whole (value_of a +ℤ value_of b));
  product = λ a b. some (whole (pos (pos_part (value_of a) * pos_part (value_of b))));
  quotient = λ a b. some a;
  median = λ xs. elim xs [ [] ↦ none | x ∷ rest ↦ some x ];
}

abbrev pub plain : Strings
plain = record { strip = λ s. s; lower = λ s. s }

abbrev pub object : List (Text × Json (Unit {0})) → Fields (Unit {0})
object [] = end
object ((name, value) ∷ entries) = field name value (object entries)

abbrev pub string : Text → Json (Unit {0})
string s = text s

abbrev pub count : ℕ → Json (Unit {0})
count n = integer (pos n)

abbrev pub first_digest : Json (Unit {0})
first_digest = string (codes "00000000000000000000000000000000000000000000000000000000000000aa")

abbrev pub second_digest : Json (Unit {0})
second_digest = string (codes "00000000000000000000000000000000000000000000000000000000000000bb")

abbrev pub summary : ℕ → Json (Unit {0})
summary hits = obj (
    object (
      (
        codes "samples",
        arr (
            cons
              (obj (
                object (
                  (codes "files", count 1)
                  ∷ (codes "cache_hits", count hits)
                  ∷ (codes "wall_ms", count 5)
                  ∷ (codes "process_cpu_ms", count 5)
                  ∷ (codes "peak_rss_bytes", count 5)
                  ∷ (
                    codes "worker_ms",
                    obj (object ((codes "parse", count 0) ∷ (codes "lower", count 0) ∷ [])),
                  )
                  ∷ [])))
              nil),
      )
      ∷ (codes "cache_hits", arr (cons (count hits) nil))
      ∷ (codes "wall_ms", obj (object ((codes "median", count 5) ∷ [])))
      ∷ (codes "median_process_cpu_ms", count 5)
      ∷ (codes "median_peak_rss_bytes", count 5)
      ∷ []))

abbrev pub edited : Json (Unit {0})
edited = obj (object ((codes "one_changed_declaration", second_digest) ∷ []))

abbrev pub tiny_corpus : Json (Unit {0})
tiny_corpus = obj (
    object (
      (codes "corpus", string (codes "tiny"))
      ∷ (codes "modules", count 1)
      ∷ (codes "jobs", count 1)
      ∷ (codes "repeats", count 1)
      ∷ (codes "corpus_sha256", first_digest)
      ∷ (codes "baseline_report_sha256", first_digest)
      ∷ (codes "source_files", count 1)
      ∷ (codes "source_bytes", count 9)
      ∷ (codes "input_bytes", count 9)
      ∷ (
        codes "equivalence",
        obj (
            object (
              (codes "workers", boolean true)
              ∷ (codes "repeated_uncached", boolean true)
              ∷ (codes "cold_warm_uncached", boolean true)
              ∷ (codes "edited_cached_uncached", boolean true)
              ∷ (codes "declaration_invalidation", boolean true)
              ∷ [])),
      )
      ∷ (
        codes "phases",
        obj (
            object (
              (codes "uncached", summary 0)
              ∷ (codes "cold_cache_population", summary 0)
              ∷ (codes "warm_unchanged", summary 1)
              ∷ (codes "one_changed_declaration", summary 0)
              ∷ [])),
      )
      ∷ (codes "changed_report_sha256", edited)
      ∷ (codes "changed_input_sha256", edited)
      ∷ []))

abbrev pub tiny_report : Fields (Unit {0})
tiny_report = object (
    (codes "schema", count 2)
    ∷ (
      codes "hardware",
      obj (
          object (
            (codes "processor", string (codes "fast"))
            ∷ (codes "platform", string (codes "p"))
            ∷ (codes "machine", string (codes "m"))
            ∷ (codes "harness_python", string (codes "3.14"))
            ∷ (codes "logical_cpus", count 4)
            ∷ [])),
    )
    ∷ (codes "method", string (codes "wall"))
    ∷ (
      codes "build_settings",
      obj (
          object (
            (codes "toolchain", string (codes "go"))
            ∷ (codes "GOARCH", string (codes "arm64"))
            ∷ (codes "GOOS", string (codes "linux"))
            ∷ [])),
    )
    ∷ (
      codes "runtime_environment",
      obj (
          object (
            (codes "GOGC", null)
            ∷ (codes "GOMEMLIMIT", null)
            ∷ (codes "GOMAXPROCS", null)
            ∷ (codes "GODEBUG", null)
            ∷ [])),
    )
    ∷ (codes "binary_sha256", first_digest)
    ∷ (
      codes "matrix",
      obj (
          object (
            (codes "sizes", arr (cons (count 1) nil))
            ∷ (codes "workers", arr (cons (count 1) nil))
            ∷ (codes "corpora", arr (cons (string (codes "tiny")) nil))
            ∷ (codes "repeats", count 1)
            ∷ (codes "functions_per_module", count 1)
            ∷ (codes "timeout_seconds", count 60)
            ∷ [])),
    )
    ∷ (codes "corpora", arr (cons tiny_corpus nil))
    ∷ [])

abbrev pub tiny_key : Key (Unit {0})
tiny_key = record { kind = string (codes "tiny"); modules = count 1; jobs = count 1 }

abbrev pub tiny_entries : List (Entry (Unit {0}))
tiny_entries = record { key = tiny_key; corpus = tiny_corpus } ∷ []

pub tiny_valid : validate one_test whole_numbers plain tiny_report ≡ some tiny_entries
unfolding validate purepy.Performance.Validation.valid_header
    purepy.Performance.Validation.are_settings purepy.Performance.Validation.valid_hardware
    purepy.Performance.Validation.axis purepy.Performance.Validation.all_unique
    purepy.Performance.Validation.has_item purepy.Performance.Validation.all_positive
    purepy.Performance.Validation.are_corpora purepy.Performance.Validation.all_true
    purepy.Performance.Validation.keys_of_jobs purepy.Performance.Validation.keys_of_sizes get
    text_eq json_eq items_eq all_in contains item valid_matrix expected_keys keys_in
    purepy.Performance.is_digest purepy.Performance.is_hex purepy.Performance.positive_number
    purepy.Performance.number purepy.Performance.at_path purepy.Performance.has_key
    purepy.Performance.identity purepy.Performance.metric purepy.Performance.Entries.all_changed
    purepy.Performance.Entries.put_group purepy.Performance.Entries.sample_numbers
    purepy.Performance.Entries.shared_fields purepy.Performance.Entries.valid_identities
    purepy.Performance.Entries.valid_metric purepy.Performance.Entries.valid_metrics
    purepy.Performance.Entries.valid_phases purepy.Performance.Entries.valid_samples
    purepy.Performance.Entries.valid_summary purepy.Performance.Entries.validate_corpora
    purepy.Performance.Entries.validate_corpus purepy.Performance.Entries.validate_entries ◌+ℤ◌
tiny_valid = refl

abbrev strict : Budgets (Unit {0})
strict = record {
  relative = whole (pos 0);
  wall = whole (pos 1);
  process_cpu = whole (pos 1);
  peak_rss = whole (pos 0);
  growth_relative = whole (pos 0);
}

-- Four phases of three metrics.
abbrev same_comparison : Comparison (Unit {0})
same_comparison = record {
  status = passed;
  incompatibilities = [];
  measurements = record { checked = 12; failures = [] };
  growths = record { checked = 0; failures = [] };
}
