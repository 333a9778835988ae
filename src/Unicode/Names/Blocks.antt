-- ===== src/Unicode/Names/Blocks.antt =====
-- The names are read again from the start of any block.
use purepy.Base.{
  ℕ, zero, suc, ◌+◌, ◌%◌, Option, none, some, List, [], ◌∷◌, ◌++◌, ◌>>=◌, Text, Bytes, length, take,
  drop, ◌≡◌, ◌⊎◌,
}
use purepy.Unicode.Names.{block_size}

-- A reader: each name is the start of the one before, and a suffix.
unfoldable pub decode_names : ℕ → Text → Bytes → Option (List Text)
decode_names zero previous bytes = some []
decode_names (suc n) previous (shared ∷ (size ∷ bytes)) =
    let name = take shared previous ++ take size bytes in
    decode_names n name (drop size bytes) >>= λ names. some (name ∷ names)
decode_names (suc n) previous _ = none

-- An offset at which some of the names are read, from the start of a block or behind all names.
abbrev pub StartsBlock : ℕ → ℕ → List Text → Bytes → ℕ → Type 0
StartsBlock offset index names bytes o =
    (skipped : ℕ) × (m : ℕ) × (o ≡ offset + m)
    × (((index + skipped) % block_size ≡ 0) ⊎ (drop skipped names ≡ []))
    × (decode_names (length (drop skipped names)) [] (drop m bytes) ≡ some (drop skipped names))
