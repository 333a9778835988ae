-- ===== src/Performance/Validation.antt =====
-- `validate`: the tests of a report, and the entries of its matrix.
use purepy.Base.{
  ℕ, zero, suc, Bool, true, false, ◌&&◌, ◌||◌, not, Option, none, some, List, [], ◌∷◌, ◌++◌, ◌==◌,
  if◌then◌else◌, ◌>>=◌, Text, codes, text_eq,
}
use purepy.Base.Int.{pos}
use purepy.Base.Json.{
  Json, Items, Fields, null, boolean, integer, text, arr, obj, nil, cons, end, field, get, contains,
  or_null, same_set, keys,
}
use purepy.Base.Python.{FloatTests, json_eq, truthy, require, count_items, is_text}
use purepy.Performance.{Arithmetic, Strings, Key, is_digest, is_positive, positive_number}

abbrev pub runtime_variables : List Text
runtime_variables = codes "GOGC" ∷ codes "GOMEMLIMIT" ∷ codes "GOMAXPROCS" ∷ codes "GODEBUG" ∷ []

abbrev pub generic_processors : List Text
generic_processors =
    []
    ∷ codes "unknown"
    ∷ codes "arm"
    ∷ codes "arm64"
    ∷ codes "aarch64"
    ∷ codes "x86_64"
    ∷ codes "amd64"
    ∷ codes "i386"
    ∷ codes "i686"
    ∷ []

abbrev pub known_corpora : List Text
known_corpora =
    codes "tiny"
    ∷ codes "deep"
    ∷ codes "wide"
    ∷ codes "invalid"
    ∷ codes "manifest"
    ∷ codes "reference"
    ∷ []

abbrev pub equivalence : List Text
equivalence =
    codes "workers"
    ∷ codes "repeated_uncached"
    ∷ codes "cold_warm_uncached"
    ∷ codes "edited_cached_uncached"
    ∷ codes "declaration_invalidation"
    ∷ []

-- The phases of an edit, and all phases.
abbrev pub edited_phases : Bool → List Text
edited_phases false = codes "one_changed_declaration" ∷ []
edited_phases true = codes "one_changed_declaration" ∷ codes "one_changed_manifest" ∷ []

abbrev pub all_phases : Bool → List Text
all_phases with_manifest =
    codes "uncached"
    ∷ codes "cold_cache_population"
    ∷ codes "warm_unchanged"
    ∷ edited_phases with_manifest

module _ {F : Type 0} where
  abbrev pub as_fields : Option (Json F) → Option (Fields F)
  as_fields (some (obj fields)) = some fields
  as_fields _ = none

  abbrev pub as_items : Option (Json F) → Option (Items F)
  as_items (some (arr items)) = some items
  as_items _ = none

  abbrev pub as_count : Option (Json F) → Option ℕ
  as_count (some (integer (pos n))) = if n == 0 then none else some n
  as_count _ = none

  unfoldable pub are_settings : Fields F → Bool
  are_settings end = true
  are_settings (field k null fields) = are_settings fields
  are_settings (field k (text s) fields) = are_settings fields
  are_settings _ = false

  unfoldable pub all_positive : Items F → Bool
  all_positive nil = true
  all_positive (cons v items) = is_positive (some v) && all_positive items

  unfoldable pub are_corpora : Items F → Bool
  are_corpora nil = true
  are_corpora (cons (text s) items) = contains known_corpora s && are_corpora items
  are_corpora _ = false

  -- Every value `is True`.
  unfoldable pub all_true : Fields F → Bool
  all_true end = true
  all_true (field k (boolean true) fields) = all_true fields
  all_true _ = false

  abbrev pub is_hashable : Json F → Bool
  is_hashable (arr items) = false
  is_hashable (obj fields) = false
  is_hashable _ = true

  abbrev pub is_manifest : Json F → Bool
  is_manifest (text s) = text_eq s (codes "manifest")
  is_manifest _ = false

  -- The sizes of a kind of corpus, and the entries of a kind.
  abbrev pub sizes_of : Json F → Items F → Items F
  sizes_of (text kind) sizes =
      if text_eq kind (codes "tiny")
      then cons (integer (pos 1)) nil
      else if text_eq kind (codes "reference")
      then cons null nil
      else sizes
  sizes_of kind sizes = sizes

  unfoldable pub keys_of_jobs : Json F → Json F → Items F → List (Key F)
  keys_of_jobs kind size nil = []
  keys_of_jobs kind size (cons jobs workers) =
      record { kind = kind; modules = size; jobs = jobs } ∷ keys_of_jobs kind size workers

  unfoldable pub keys_of_sizes : Json F → Items F → Items F → List (Key F)
  keys_of_sizes kind nil workers = []
  keys_of_sizes kind (cons size sizes) workers =
      keys_of_jobs kind size workers ++ keys_of_sizes kind sizes workers

  unfoldable pub expected_keys : Items F → Items F → Items F → List (Key F)
  expected_keys nil sizes workers = []
  expected_keys (cons kind corpora) sizes workers =
      keys_of_sizes kind (sizes_of kind sizes) workers ++ expected_keys corpora sizes workers

  abbrev pub repeated : ℕ → Json F → Items F
  repeated zero value = nil
  repeated (suc n) value = cons value (repeated n value)

-- The axes of a matrix, with its numbers.
pub record Matrix (F : Type 0) : Type 0 where
  pub sizes : Items F
  pub workers : Items F
  pub corpora : Items F
  pub repeats : ℕ

module _ {F : Type 0} (strings : Strings) where
  abbrev pub is_named : Option (Json F) → Bool
  is_named (some (text s)) = not (text_eq (strings.strip s) [])
  is_named _ = false

  abbrev pub is_generic : Option (Json F) → Bool
  is_generic (some (text s)) = contains generic_processors (strings.lower (strings.strip s))
  is_generic _ = true

  abbrev pub all_named : List Text → Fields F → Bool
  all_named [] fields = true
  all_named (name ∷ names) fields = is_named (get fields name) && all_named names fields

module _ {F : Type 0} (tests : FloatTests F) (math : Arithmetic F) (strings : Strings) where
  abbrev pub is_given : {A : Type 0} → Option A → Bool
  is_given none = false
  is_given (some x) = true

  abbrev pub valid_memory : Option (Json F) → Bool
  valid_memory none = true
  valid_memory (some null) = true
  valid_memory (some value) = is_given (positive_number math value)

  -- Lines 91 to 101.
  unfoldable pub valid_hardware : Fields F → Bool
  valid_hardware machine =
      all_named strings
        (codes "processor" ∷ codes "platform" ∷ codes "machine" ∷ codes "harness_python" ∷ [])
        machine
      && (not (is_generic strings (get machine (codes "processor")))
          || not (is_generic strings (get machine (codes "label"))))
      && is_positive (get machine (codes "logical_cpus"))
      && valid_memory (get machine (codes "memory_bytes"))

  -- The elements of an axis are hashable and distinct.
  unfoldable pub has_item : Items F → Json F → Bool
  has_item nil value = false
  has_item (cons v items) value = json_eq tests v value || has_item items value

  unfoldable pub all_unique : Items F → Bool
  all_unique nil = true
  all_unique (cons v items) = is_hashable v && not (has_item items v) && all_unique items

  unfoldable pub axis : Fields F → Text → Option (Items F)
  axis matrix name = as_items (get matrix name) >>= λ items.
      if all_unique items && not (count_items items == 0) then some items else none

  -- Lines 106 to 120.
  unfoldable pub valid_matrix : Fields F → Option (Matrix F)
  valid_matrix matrix = do
    sizes ← axis matrix (codes "sizes")
    workers ← axis matrix (codes "workers")
    corpora ← axis matrix (codes "corpora")
    fine ← require (all_positive sizes && all_positive workers && are_corpora corpora)
    repeats ← as_count (get matrix (codes "repeats"))
    functions ← as_count (get matrix (codes "functions_per_module"))
    timeout ← positive_number math (or_null (get matrix (codes "timeout_seconds")))
    some (record { sizes = sizes; workers = workers; corpora = corpora; repeats = repeats })

  -- Lines 76 to 105, but for the matrix.
  unfoldable pub valid_header : Fields F → Bool
  valid_header report = elim (as_fields (get report (codes "hardware"))) [
    | none ↦ false
    | some machine ↦ elim (as_fields (get report (codes "build_settings"))) [
      | none ↦ false
      | some settings ↦ elim (as_fields (get report (codes "runtime_environment"))) [
        | none ↦ false
        | some runtime ↦
            json_eq tests (or_null (get report (codes "schema"))) (integer (pos 2))
            && truthy tests (obj machine)
            && truthy tests (obj settings)
            && truthy tests (or_null (get report (codes "method")))
            && is_text (or_null (get report (codes "method")))
            && same_set (keys runtime) runtime_variables
            && are_settings runtime
            && valid_hardware machine
            && all_named strings (codes "toolchain" ∷ codes "GOARCH" ∷ codes "GOOS" ∷ []) settings
            && is_digest (get report (codes "binary_sha256"))
      ]
    ]
  ]
