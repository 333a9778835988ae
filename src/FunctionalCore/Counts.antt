-- ===== src/FunctionalCore/Counts.antt =====
-- The counting tree: what a lookup finds after an increment, and the search order of the keys.
use purepy.Base.{
  ℕ, ◌+◌, Option, none, some, ◌≡◌, true, inl, inr, arith, if◌then◌else◌, Text, text_eq, text_lt,
  text_eq_refl, text_eq_iff, text_lt-total, Bool-cases,
}
use purepy.FunctionalCore.{CountsTree, leaf, node, count_for, increment_count}

-- The count of a key after one more occurrence.
abbrev pub raised : Option ℕ → ℕ
raised none = 1
raised (some n) = n + 1

-- An increment raises the count of its own key by one, from nothing to one, and leaves the count
-- of every other key. It holds for every tree.
pub count_for-increment_count :
    (t : CountsTree) (key other : Text)
    → count_for (increment_count t key) other
      ≡ (if text_eq key other then some (raised (count_for t key)) else count_for t other)
unfolding count_for increment_count
count_for-increment_count leaf key other =
    ground (arith, text_eq_iff key other, text_eq_iff other key, text_eq_refl key)
count_for-increment_count (node k n l r) key other = ground (
  arith,
  text_eq_iff key other,
  text_eq_iff key k,
  text_eq_iff other k,
  count_for-increment_count l key other,
  count_for-increment_count r key other,
)

-- Every key of the tree satisfies `P`.
abbrev pub Keys : (Text → Type 0) → CountsTree → Type 0
Keys P leaf = Unit
Keys P (node k n l r) = P k × Keys P l × Keys P r

-- Smaller keys to the left, larger ones to the right.
abbrev pub IsSearchTree : CountsTree → Type 0
IsSearchTree leaf = Unit
IsSearchTree (node k n l r) =
    Keys (λ x. text_lt x k ≡ true) l
    × Keys (λ x. text_lt k x ≡ true) r
    × IsSearchTree l
    × IsSearchTree r

increment_count-Keys :
    (P : Text → Type 0) (t : CountsTree) (key : Text)
    → P key
    → Keys P t
    → Keys P (increment_count t key)
unfolding increment_count
increment_count-Keys P leaf key p h = (p, tt, tt)
increment_count-Keys P (node k n l r) key p h = elim (Bool-cases (text_eq key k)) [
  | inl same ↦ rw (same, Keys) h
  | inr other ↦ elim (Bool-cases (text_lt key k)) [
    | inl less ↦ rw (other, less, Keys) (h.0, increment_count-Keys P l key p h.1, h.2)
    | inr more ↦ rw (other, more, Keys) (h.0, h.1, increment_count-Keys P r key p h.2)
  ]
]

-- An increment keeps the search order.
pub increment_count-IsSearchTree :
    (t : CountsTree) (key : Text) → IsSearchTree t → IsSearchTree (increment_count t key)
unfolding increment_count
increment_count-IsSearchTree leaf key h = (tt, tt, tt, tt)
increment_count-IsSearchTree (node k n l r) key h = elim (Bool-cases (text_eq key k)) [
  | inl same ↦ rw (same, IsSearchTree) h
  | inr other ↦ elim (Bool-cases (text_lt key k)) [
    | inl less ↦
        rw (other, less, IsSearchTree)
          (
            increment_count-Keys (λ x. text_lt x k ≡ true) l key less h.0,
            h.1,
            increment_count-IsSearchTree l key h.2,
            h.3,
          )
    | inr more ↦
        rw (other, more, IsSearchTree)
          (
            h.0,
            increment_count-Keys (λ x. text_lt k x ≡ true) r key (text_lt-total key k other more)
                h.1,
            h.2,
            increment_count-IsSearchTree r key h.3,
          )
  ]
]
