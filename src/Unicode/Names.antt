-- ===== src/Unicode/Names.antt =====
-- tools/generate_unicode_names.py: names.bin, the sorted names in blocks, each name as what it does
-- not share with the one before.
pub mod Blocks
use purepy.Base.{
  ℕ, zero, suc, ◌+◌, ◌%◌, Bool, true, false, ◌&&◌, Option, none, some, List, [], ◌∷◌, ◌++◌, ltb,
  leb, ◌==◌, if◌then◌else◌, ◌>>=◌, Text, Bytes, text_lt, length, drop,
}
use purepy.Base.Sorting.{sort_texts}
use purepy.Base.Python.{require}

abbrev pub block_size : ℕ
block_size = 32

-- The `while` loop: how many characters two names share at their start.
unfoldable pub shared_length : Text → Text → ℕ
shared_length (c ∷ previous) (d ∷ name) =
    let rest = shared_length previous name in if c == d then suc rest else 0
shared_length _ _ = 0

unfoldable pub is_ascii : Text → Bool
is_ascii [] = true
is_ascii (c ∷ s) = ltb c 128 && is_ascii s

-- The bytes of a name; a bytearray takes no number above 255.
unfoldable pub encode_name : ℕ → Text → Option Bytes
encode_name shared name =
    require (is_ascii (drop shared name) && ltb shared 256 && ltb (length (drop shared name)) 256)
    >>= λ fine. some (shared ∷ (length (drop shared name) ∷ drop shared name))

abbrev pub shared_at : ℕ → Text → Text → ℕ
shared_at index previous name = if (index % block_size) == 0 then 0 else shared_length previous name

abbrev pub put_offset : ℕ → ℕ → List ℕ → List ℕ
put_offset index offset offsets = if (index % block_size) == 0 then offset ∷ offsets else offsets

-- The loop from an index, with the name before and the bytes so far: the bytes that it appends and
-- the offsets, with the one behind it.
unfoldable pub encode_names : ℕ → Text → ℕ → List Text → Option (Bytes × List ℕ)
encode_names index previous offset [] = some ([], offset ∷ [])
encode_names index previous offset (name ∷ names) =
    encode_name (shared_at index previous name) name >>= λ entry.
    encode_names (suc index) name (offset + length entry) names >>= λ rest.
    some (entry ++ rest.0, put_offset index offset (rest.1))

unfoldable pub generate_data : List Text → Option (Bytes × List ℕ)
generate_data names = encode_names 0 [] 0 (sort_texts names)
