-- ===== src/Base/Slice.antt =====
-- Python's indexing and slicing of a sequence by integers: a negative index counts from the end,
-- an index out of range raises (`none`), and the bounds of a slice are clamped.
use purepy.Base.Tests.{ltb, if◌then◌else◌}
use purepy.Base.Lists.{length, get_elem?, take, drop}
use purepy.Base.Int.{ℤ, pos, negsuc}
use Prim.Native.Nat.{ℕ, ◌-◌, suc}
use mathlib.Core.List.{List}
use mathlib.Core.Option.{Option, none}

module _ {ℓ} {A : Type ℓ} where
  -- xs[i]
  abbrev pub get_item : List A → ℤ → Option A
  get_item xs (pos i) = get_elem? xs i
  get_item xs (negsuc i) = if ltb i (length xs) then get_elem? xs (length xs - suc i) else none

  -- The place in the sequence that a bound of a slice names.
  abbrev pub slice_bound : List A → ℤ → ℕ
  slice_bound xs (pos i) = i
  slice_bound xs (negsuc i) = length xs - suc i

  -- xs[start:stop]
  abbrev pub slice : List A → ℤ → ℤ → List A
  slice xs start stop =
      take (slice_bound xs stop - slice_bound xs start) (drop (slice_bound xs start) xs)

  -- xs[start:]
  abbrev pub slice_from : List A → ℤ → List A
  slice_from xs start = drop (slice_bound xs start) xs

  -- xs[:stop]
  abbrev pub slice_to : List A → ℤ → List A
  slice_to xs stop = take (slice_bound xs stop) xs
