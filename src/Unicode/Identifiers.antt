-- ===== src/Unicode/Identifiers.antt =====
-- tools/generate_unicode_identifiers.py: the ranges of a set of characters.
pub mod Covered
use purepy.Base.{ℕ, suc, ◌+◌, Bool, true, false, List, [], ◌∷◌, ltb, ◌==◌, if◌then◌else◌}

pub record Range : Type 0 where
  pub first : ℕ
  pub last : ℕ

-- One round: the last range is extended, or a new one appended.
unfoldable pub put_value : List Range → ℕ → List Range
put_value [] value = record { first = value; last = value } ∷ []
put_value (r ∷ []) value =
    if (r.last + 1) == value
    then record { first = r.first; last = value } ∷ []
    else r ∷ (record { first = value; last = value } ∷ [])
put_value (r ∷ (s ∷ ranges)) value = r ∷ put_value (s ∷ ranges) value

unfoldable pub put_values : List Range → List ℕ → List Range
put_values ranges [] = ranges
put_values ranges (value ∷ values) = put_values (put_value ranges value) values

unfoldable pub insert_value : ℕ → List ℕ → List ℕ
insert_value v [] = v ∷ []
insert_value v (w ∷ values) =
    let rest = insert_value v values in if ltb w v then w ∷ rest else v ∷ (w ∷ values)

-- `sorted(values)`
unfoldable pub sort_values : List ℕ → List ℕ
sort_values [] = []
sort_values (v ∷ values) = insert_value v (sort_values values)

unfoldable pub ranges : List ℕ → List Range
ranges values = put_values [] (sort_values values)
