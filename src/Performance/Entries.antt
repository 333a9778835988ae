-- ===== src/Performance/Entries.antt =====
-- The loop of `validate` over the corpora of a report, and `validate` itself.
use purepy.Base.{
  ℕ, ◌-◌, Bool, true, false, ◌&&◌, not, Option, none, some, List, [], ◌∷◌, ◌++◌, ◌==◌,
  if◌then◌else◌, ◌>>=◌, Text, codes, text_eq, map,
}
use purepy.Base.Int.{pos}
use purepy.Base.Json.{
  Json, Items, Fields, null, integer, arr, obj, nil, cons, end, field, get, or_null, same_set, keys,
}
use purepy.Base.Python.{FloatTests, json_eq, items_eq, item, require, count_items}
use purepy.Performance.{
  Number, Arithmetic, Strings, Metric, metrics, metric_name, Key, is_digest, identity, number,
  positive_number, metric, has_key, keys_in,
}
use purepy.Performance.Validation.{
  edited_phases, all_phases, equivalence, as_fields, as_items, as_count, all_true, is_manifest,
  expected_keys, repeated, Matrix, valid_matrix, valid_header,
}

abbrev pub cache_hits : Text → ℕ → ℕ
cache_hits phase files =
    if text_eq phase (codes "warm_unchanged")
    then files
    else if text_eq phase (codes "one_changed_declaration")
    then files - 1
    else 0

-- What entries of one corpus and size share.
pub record Group (F : Type 0) : Type 0 where
  pub kind : Json F
  pub modules : Json F
  pub shared : Items F

pub record Entry (F : Type 0) : Type 0 where
  pub key : Key F
  pub corpus : Json F

abbrev pub entry_keys : {F : Type 0} → List (Entry F) → List (Key F)
entry_keys entries = map (λ entry. entry.key) entries

module _ {F : Type 0} where
  abbrev pub same_json : FloatTests F → Option (Json F) → Json F → Bool
  same_json tests none value = json_eq tests null value
  same_json tests (some found) value = json_eq tests found value

  -- The fields that the numbers of workers must not change.
  unfoldable pub shared_fields : Fields F → Items F
  shared_fields corpus = cons (or_null (get corpus (codes "corpus_sha256"))) (
      cons (or_null (get corpus (codes "baseline_report_sha256"))) (
        cons (or_null (get corpus (codes "changed_report_sha256"))) (
          cons (or_null (get corpus (codes "changed_input_sha256"))) (
            cons (or_null (get corpus (codes "source_files"))) (
              cons (or_null (get corpus (codes "source_bytes")))
                (cons (or_null (get corpus (codes "input_bytes"))) nil))))))

module _ {F : Type 0} (tests : FloatTests F) (math : Arithmetic F) (strings : Strings) where
  -- Digests that are not the given one.
  unfoldable pub all_changed : Json F → Fields F → Bool
  all_changed base end = true
  all_changed base (field phase value fields) =
      is_digest (some value) && not (json_eq tests value base) && all_changed base fields

  abbrev pub valid_edits : List Text → Option (Json F) → Option (Json F) → Bool
  valid_edits phases (some base) (some (obj edited)) =
      same_set (keys edited) phases && all_changed base edited
  valid_edits phases base edited = false

  abbrev pub valid_equality : Option (Json F) → Bool
  valid_equality (some (obj fields)) = same_set (keys fields) equivalence && all_true fields
  valid_equality _ = false

  abbrev pub valid_bytes : Option (Number F) → Option (Number F) → Bool
  valid_bytes (some source) (some input) = not (math.less input source)
  valid_bytes _ _ = false

  -- Lines 128 to 158, but for the files and the phases.
  unfoldable pub valid_identities : ℕ → Bool → Fields F → Bool
  valid_identities repeats with_manifest corpus =
      same_json tests (get corpus (codes "repeats")) (integer (pos repeats))
      && is_digest (get corpus (codes "corpus_sha256"))
      && is_digest (get corpus (codes "baseline_report_sha256"))
      && valid_bytes (positive_number math (or_null (get corpus (codes "source_bytes"))))
          (positive_number math (or_null (get corpus (codes "input_bytes"))))
      && valid_equality (get corpus (codes "equivalence"))
      && valid_edits (edited_phases with_manifest) (get corpus (codes "baseline_report_sha256"))
          (get corpus (codes "changed_report_sha256"))
      && valid_edits (edited_phases with_manifest) (get corpus (codes "corpus_sha256"))
          (get corpus (codes "changed_input_sha256"))

  -- The groups of the entries before; `none` if the one of this entry differs.
  unfoldable pub put_group : Json F → Json F → Items F → List (Group F) → Option (List (Group F))
  put_group kind modules shared [] =
      some (record { kind = kind; modules = modules; shared = shared } ∷ [])
  put_group kind modules shared (group ∷ groups) =
      let rest = put_group kind modules shared groups in
      if json_eq tests group.kind kind && json_eq tests group.modules modules
      then (if items_eq tests group.shared shared
          then some
              (record { kind = group.kind; modules = group.modules; shared = shared } ∷ groups)
          else none)
      else (rest >>= λ others. some (group ∷ others))

  unfoldable pub valid_samples : ℕ → ℕ → Items F → Bool
  valid_samples files hits nil = true
  valid_samples files hits (cons (obj sample) samples) =
      same_json tests (get sample (codes "files")) (integer (pos files))
      && same_json tests (get sample (codes "cache_hits")) (integer (pos hits))
      && valid_samples files hits samples
  valid_samples files hits _ = false

  unfoldable pub sample_numbers : Metric → Items F → Option (List (Number F))
  sample_numbers m nil = some []
  sample_numbers m (cons (obj sample) samples) =
      number math (or_null (get sample (metric_name m))) >>= λ first.
      sample_numbers m samples >>= λ rest. some (first ∷ rest)
  sample_numbers m _ = none

  -- The summary of a metric is near the median of the samples.
  unfoldable pub valid_metric : Json F → Items F → Metric → Option (Unit {0})
  valid_metric summary samples m = do
    measured ← metric math summary m
    values ← sample_numbers m samples
    middle ← math.median values
    require (math.near measured middle)

  unfoldable pub valid_metrics : Json F → Items F → List Metric → Option (Unit {0})
  valid_metrics summary samples [] = some tt
  valid_metrics summary samples (m ∷ ms) =
      valid_metric summary samples m >>= λ fine. valid_metrics summary samples ms

  unfoldable pub valid_summary : ℕ → ℕ → Text → Json F → Option (Unit {0})
  valid_summary repeats files phase summary = do
    samples ← as_items (item summary (codes "samples"))
    fine ← require (count_items samples == repeats)
    right ← require (valid_samples files (cache_hits phase files) samples)
    hits ← item summary (codes "cache_hits")
    agrees ←
        require
          (json_eq tests hits (arr (repeated repeats (integer (pos (cache_hits phase files))))))
    valid_metrics summary samples metrics

  unfoldable pub valid_phases : ℕ → ℕ → Fields F → Option (Unit {0})
  valid_phases repeats files end = some tt
  valid_phases repeats files (field phase summary phases) =
      valid_summary repeats files phase summary >>= λ fine. valid_phases repeats files phases

  -- One round of the loop, from its key on.
  unfoldable pub validate_corpus :
      Matrix F → Key F → Fields F → List (Group F) → Option (List (Group F))
  validate_corpus matrix key corpus groups = do
    same ← require (valid_identities matrix.repeats (is_manifest key.kind) corpus)
    files ← as_count (get corpus (codes "source_files"))
    phases ← as_fields (get corpus (codes "phases"))
    expected ← require (same_set (keys phases) (all_phases (is_manifest key.kind)))
    grouped ← put_group key.kind key.modules (shared_fields corpus) groups
    fine ← valid_phases matrix.repeats files phases
    some grouped

  unfoldable pub validate_corpora :
      Matrix F → List (Entry F) → List (Group F) → Items F → Option (List (Entry F))
  validate_corpora matrix found groups nil = some found
  validate_corpora matrix found groups (cons corpus corpora) = do
    key ← identity corpus
    new ← require (not (has_key tests (entry_keys found) key))
    fields ← as_fields (some corpus)
    grouped ← validate_corpus matrix key fields groups
    validate_corpora matrix (found ++ (record { key = key; corpus = corpus } ∷ [])) grouped corpora

  -- Without corpora there are none.
  abbrev pub corpora_of : Fields F → Option (Items F)
  corpora_of report = elim (get report (codes "corpora")) [
    | none ↦ some nil
    | some corpora ↦ as_items (some corpora)
  ]

  unfoldable pub validate_entries : Matrix F → Fields F → Option (List (Entry F))
  validate_entries matrix report = do
    corpora ← corpora_of report
    found ← validate_corpora matrix [] [] corpora
    complete ← require (
        keys_in tests (entry_keys found) (expected_keys matrix.corpora matrix.sizes matrix.workers)
        && keys_in tests (expected_keys matrix.corpora matrix.sizes matrix.workers)
            (entry_keys found))
    some found

  unfoldable pub validate : Fields F → Option (List (Entry F))
  validate report = do
    fine ← require (valid_header tests math strings report)
    axes ← as_fields (get report (codes "matrix"))
    matrix ← valid_matrix tests math strings axes
    validate_entries matrix report
