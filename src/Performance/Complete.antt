-- ===== src/Performance/Complete.antt =====
-- A report that `validate` accepts has every entry of its matrix, once.
use purepy.Base.{ℕ, true, false, some, List, [], ◌∷◌, codes, All, ◌≡◌}
use purepy.Base.Json.{Json, Fields, obj, get}
use purepy.Base.Python.{FloatTests}
use purepy.Performance.{Arithmetic, Strings, Key, identity, key_eq}
use purepy.Performance.Validation.{is_manifest, Matrix}
use purepy.Performance.Entries.{Entry, entry_keys, valid_identities, valid_phases}

module _ {F : Type 0} (tests : FloatTests F) (math : Arithmetic F) (strings : Strings) where
  -- No two keys are equal.
  abbrev pub AreDistinct : List (Key F) → Type 0
  AreDistinct [] = Unit
  AreDistinct (k ∷ ks) = All (λ later. key_eq tests k later ≡ false) ks × AreDistinct ks

  -- The entry stands under its identity; its digests, sizes and comparisons are valid, and each of
  -- its phases has all samples, with the right counts, near whose medians the summary is.
  abbrev pub IsMeasured : Matrix F → Entry F → Type 0
  IsMeasured matrix entry =
      (fields : Fields F) × (files : ℕ) × (phases : Fields F) × (entry.corpus ≡ obj fields)
      × (identity entry.corpus ≡ some entry.key)
      × (valid_identities tests math strings matrix.repeats (is_manifest entry.key.kind) fields
          ≡ true)
      × (get fields (codes "phases") ≡ some (obj phases))
      × (valid_phases tests math strings matrix.repeats files phases ≡ some tt)

  -- The entries so far are distinct and measured.
  abbrev AreSound : Matrix F → List (Entry F) → Type 0
  AreSound matrix found = AreDistinct (entry_keys found) × All (IsMeasured matrix) found
