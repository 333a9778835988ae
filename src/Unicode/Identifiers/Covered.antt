-- ===== src/Unicode/Identifiers/Covered.antt =====
-- The ranges of a set hold exactly its elements, and no two of them can be joined.
use purepy.Base.{
  ℕ, suc, ◌+◌, ◌≤◌, ◌<◌, Bool, true, false, ◌&&◌, ◌||◌, List, [], ◌∷◌, ltb, leb, ◌==◌, ◌≡◌, inl,
  inr, refl, sym, ap, ◌∙◌, arith, Bool-cases,
}
use purepy.Unicode.Identifiers.{Range, put_value, put_values, insert_value, sort_values, ranges}

unfoldable pub has : List ℕ → ℕ → Bool
has [] x = false
has (v ∷ values) x = (x == v) || has values x

abbrev pub in_range : Range → ℕ → Bool
in_range r x = leb r.first x && leb x r.last

unfoldable pub covers : List Range → ℕ → Bool
covers [] x = false
covers (r ∷ rs) x = in_range r x || covers rs x

-- No range is empty; each ends before the bound, and at least two before the next.
abbrev pub AreApart : ℕ → List Range → ℕ → Type 0
AreApart low [] bound = Unit
AreApart low (r ∷ rs) bound =
    (low ≤ r.first) × (r.first ≤ r.last) × (r.last < bound) × AreApart (r.last + 2) rs bound

-- The elements are distinct.
abbrev pub IsSetOf : List ℕ → Type 0
IsSetOf [] = Unit
IsSetOf (v ∷ values) = (has values v ≡ false) × IsSetOf values

-- Increasing, from a bound on.
abbrev IsIncreasing : ℕ → List ℕ → Type 0
IsIncreasing low [] = Unit
IsIncreasing low (v ∷ values) = (low ≤ v) × IsIncreasing (suc v) values

AreApart-mono :
    (low : ℕ) (rs : List Range) (a b : ℕ) → a ≤ b → AreApart low rs a → AreApart low rs b
AreApart-mono low [] a b h apart = tt
AreApart-mono low (r ∷ rs) a b h (from, whole, before, rest) =
    (from, whole, (omega arith), AreApart-mono (r.last + 2) rs a b h rest)

put_value-AreApart :
    (low : ℕ) (r : Range) (rs : List Range) (v : ℕ)
    → AreApart low (r ∷ rs) v
    → AreApart low (put_value (r ∷ rs) v) (suc v)
unfolding put_value
put_value-AreApart low r [] v (from, whole, before, rest) = elim (Bool-cases ((r.last + 1) == v)) [
  | inl next ↦ rw next (from, (ground (arith, next)), (omega arith), tt)
  | inr gap ↦
      rw gap (from, whole, (omega arith), ((ground (arith, gap)), (omega arith), (omega arith), tt))
]
put_value-AreApart low r (s ∷ rs) v (from, whole, before, rest) =
    (from, whole, (omega arith), put_value-AreApart (r.last + 2) s rs v rest)

joined_range :
    (first last v x : ℕ)
    → first ≤ last
    → ((last + 1) == v) ≡ true
    → (leb first x && leb x v) ≡ ((leb first x && leb x last) || (x == v))
joined_range first last v x h next = ground arith

one_value : (v x : ℕ) → (leb v x && leb x v) ≡ (x == v)
one_value v x = ground arith

or_false : (a b : Bool) → ((a || false) || b) ≡ (a || b)
or_false true b = refl
or_false false b = refl

or_assoc : (a b c : Bool) → (a || (b || c)) ≡ ((a || b) || c)
or_assoc true b c = refl
or_assoc false b c = refl

or_end : (a : Bool) → (a || false) ≡ a
or_end true = refl
or_end false = refl

covers-put_value :
    (low : ℕ) (r : Range) (rs : List Range) (v x : ℕ)
    → AreApart low (r ∷ rs) v
    → covers (put_value (r ∷ rs) v) x ≡ (covers (r ∷ rs) x || (x == v))
unfolding put_value covers
covers-put_value low r [] v x (from, whole, before, rest) = elim (Bool-cases ((r.last + 1) == v)) [
  | inl next ↦ rw next (
      or_end _
      ∙ joined_range r.first r.last v x whole next
      ∙ sym (or_false (in_range r x) (x == v)))
  | inr gap ↦ rw gap (
      ap (λ b. in_range r x || b) (or_end _ ∙ one_value v x)
      ∙ sym (or_false (in_range r x) (x == v)))
]
covers-put_value low r (s ∷ rs) v x (from, whole, before, rest) =
    ap (λ b. in_range r x || b) (covers-put_value (r.last + 2) s rs v x rest)
    ∙ or_assoc (in_range r x) (covers (s ∷ rs) x) (x == v)

put_values-AreApart :
    (rs : List Range) (values : List ℕ) (b : ℕ)
    → AreApart 0 rs b
    → IsIncreasing b values
    → (bound : ℕ) × AreApart 0 (put_values rs values) bound
unfolding put_values put_value
put_values-AreApart rs [] b h up = (b, h)
put_values-AreApart [] (v ∷ values) b h up =
    put_values-AreApart (record { first = v; last = v } ∷ []) values (suc v)
      ((omega arith), (omega arith), (omega arith), tt) up.1
put_values-AreApart (r ∷ rs) (v ∷ values) b h up =
    put_values-AreApart (put_value (r ∷ rs) v) values (suc v)
      (put_value-AreApart 0 r rs v (AreApart-mono 0 (r ∷ rs) b v up.0 h)) up.1

covers-put_values :
    (rs : List Range) (values : List ℕ) (b x : ℕ)
    → AreApart 0 rs b
    → IsIncreasing b values
    → covers (put_values rs values) x ≡ (covers rs x || has values x)
unfolding put_values has covers put_value
covers-put_values rs [] b x h up = sym (or_end (covers rs x))
covers-put_values [] (v ∷ values) b x h up =
    covers-put_values (record { first = v; last = v } ∷ []) values (suc v) x
      ((omega arith), (omega arith), (omega arith), tt) up.1
    ∙ ap (λ c. c || has values x) (or_end _ ∙ one_value v x)
covers-put_values (r ∷ rs) (v ∷ values) b x h up =
    let apart = AreApart-mono 0 (r ∷ rs) b v up.0 h in
    covers-put_values (put_value (r ∷ rs) v) values (suc v) x (put_value-AreApart 0 r rs v apart)
      up.1
    ∙ ap (λ c. c || has values x) (covers-put_value 0 r rs v x apart)
    ∙ sym (or_assoc (covers (r ∷ rs) x) (x == v) (has values x))

insert_value-IsIncreasing :
    (low v : ℕ) (values : List ℕ)
    → low ≤ v
    → has values v ≡ false
    → IsIncreasing low values
    → IsIncreasing low (insert_value v values)
unfolding insert_value has
insert_value-IsIncreasing low v [] h new up = (h, tt)
insert_value-IsIncreasing low v (w ∷ values) h new up = elim (Bool-cases (ltb w v)) [
  | inl before ↦ rw before (
    up.0,
    insert_value-IsIncreasing (suc w) v values (ground (arith, before)) (ground (arith, new)) up.1,
  )
  | inr after ↦ rw after (h, ((ground (arith, new, after)), up.1))
]

or_swap : (a b c : Bool) → (a || (b || c)) ≡ (b || (a || c))
or_swap true true c = refl
or_swap true false c = refl
or_swap false b c = refl

has-insert_value :
    (v x : ℕ) (values : List ℕ) → has (insert_value v values) x ≡ ((x == v) || has values x)
unfolding insert_value has
has-insert_value v x [] = refl
has-insert_value v x (w ∷ values) = elim (Bool-cases (ltb w v)) [
  | inl before ↦ rw before (
      ap (λ b. (x == w) || b) (has-insert_value v x values)
      ∙ or_swap (x == w) (x == v) (has values x))
  | inr after ↦ rw after refl
]

has-sort_values : (x : ℕ) (values : List ℕ) → has (sort_values values) x ≡ has values x
unfolding sort_values has
has-sort_values x [] = refl
has-sort_values x (v ∷ values) =
    has-insert_value v x (sort_values values) ∙ ap (λ b. (x == v) || b) (has-sort_values x values)

sort_values-IsIncreasing : (values : List ℕ) → IsSetOf values → IsIncreasing 0 (sort_values values)
unfolding sort_values
sort_values-IsIncreasing [] h = tt
sort_values-IsIncreasing (v ∷ values) (new, others) =
    insert_value-IsIncreasing 0 v (sort_values values) (omega arith)
      (has-sort_values v values ∙ new) (sort_values-IsIncreasing values others)

-- The ranges of a set, a list without repetitions in any order, hold a number if and only if it is
-- in the set; they are not empty, and each starts at least two behind the end of the one before.
pub covers-ranges :
    (values : List ℕ)
    → IsSetOf values
    → ((x : ℕ) → covers (ranges values) x ≡ has values x)
      × ((bound : ℕ) × AreApart 0 (ranges values) bound)
unfolding ranges covers
covers-ranges values h =
    let up = sort_values-IsIncreasing values h in
    (
      (λ x. covers-put_values [] (sort_values values) 0 x tt up ∙ has-sort_values x values),
      put_values-AreApart [] (sort_values values) 0 tt up,
    )
