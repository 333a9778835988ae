-- ===== src/Unicode/Examples.antt =====
-- The tables of a few names and characters, and the theorems at them.
use purepy.Base.{ℕ, List, Text, Bytes, [], ◌∷◌, ◌++◌, codes, ◌≡◌, refl}
use purepy.Unicode.Identifiers.{put_value, put_values, insert_value, sort_values, ranges}
use purepy.Unicode.Identifiers.Covered.{has, covers, AreApart, IsSetOf, covers-ranges}

abbrev two_names : List Text
two_names = codes "DIGIT TWO" ∷ codes "DIGIT ONE" ∷ []

-- "DIGIT ONE" whole, and "TWO" behind the six characters of "DIGIT ".
abbrev two_bytes : Bytes
two_bytes = (0 ∷ 9 ∷ codes "DIGIT ONE") ++ (6 ∷ 3 ∷ codes "TWO")

abbrev five_values : List ℕ
five_values = 98 ∷ 65 ∷ 97 ∷ 67 ∷ 66 ∷ []

test_ranges :
    ranges five_values ≡ record { first = 65; last = 67 } ∷ (record { first = 97; last = 98 } ∷ [])
unfolding ranges put_value put_values insert_value sort_values
test_ranges = refl

five-IsSetOf : IsSetOf five_values
unfolding has
five-IsSetOf = (refl, (refl, (refl, (refl, (refl, tt)))))

covers-ranges_example :
    ((x : ℕ) → covers (ranges five_values) x ≡ has five_values x)
    × ((bound : ℕ) × AreApart 0 (ranges five_values) bound)
covers-ranges_example = covers-ranges five_values five-IsSetOf
