-- ===== src/FunctionalCore.antt =====
-- examples/functional_core/src/core.py: folds over tuples and persistent chains, ASCII lower case by
-- divide and conquer, and the grouping of labels in an unbalanced search tree.
pub mod Chains
pub mod Lower
pub mod Counts
pub mod Groups
mod Examples
use purepy.Base.{
  ℕ, zero, suc, ◌+◌, ◌-◌, ◌/◌, Bool, true, false, ◌&&◌, Option, none, some, List, [], ◌∷◌, ◌++◌,
  leb, ◌==◌, if◌then◌else◌, ◌>>=◌, Text, text_eq, text_lt, length, get_elem?,
}

-- `Link[T] | None`: `nil` is `None`, and `link` is the named tuple.
pub data Chain {ℓ} (A : Type ℓ) : Type ℓ where
  nil : Chain A
  link : (head : A) (tail : Chain A) → Chain A

-- `CountsNode | None`. A count starts at 1 and only grows.
pub data CountsTree : Type 0 where
  leaf : CountsTree
  node : (key : Text) (count : ℕ) (left right : CountsTree) → CountsTree

abbrev pub GroupState : Type 0
GroupState = CountsTree × Chain Text

unfoldable pub compose {ℓ κ μ} : {A : Type ℓ} {B : Type κ} {C : Type μ} → (B → C) → (A → B) → A → C
compose outer inner argument = outer (inner argument)

unfoldable pub fold_tuple {ℓ κ} : {A : Type ℓ} {B : Type κ} → (A → B → A) → A → List B → A
fold_tuple step state [] = state
fold_tuple step state (item ∷ items) = fold_tuple step (step state item) items

-- The `while` loop over `remaining`.
unfoldable pub fold_chain {ℓ κ} : {A : Type ℓ} {B : Type κ} → (A → B → A) → A → Chain B → A
fold_chain step state nil = state
fold_chain step state (link head tail) = fold_chain step (step state head) tail

module _ {ℓ} {A : Type ℓ} where
  reverse_onto : Chain A → Chain A → Chain A
  reverse_onto result nil = result
  reverse_onto result (link head tail) = reverse_onto (link head result) tail

  unfoldable pub reverse_chain : Chain A → Chain A
  unfolding reverse_onto
  reverse_chain items = reverse_onto nil items

  -- The loop of `from_tuple`.
  prepend_all : Chain A → List A → Chain A
  prepend_all result [] = result
  prepend_all result (item ∷ items) = prepend_all (link item result) items

  unfoldable pub from_tuple : List A → Chain A
  unfolding prepend_all
  from_tuple items = reverse_chain (prepend_all nil items)

  prepend_if : (A → Bool) → Chain A → A → Chain A
  prepend_if predicate state item = if predicate item then link item state else state

  unfoldable pub filter_chain : (A → Bool) → Chain A → Chain A
  unfolding prepend_if
  filter_chain predicate items = reverse_chain (fold_chain (prepend_if predicate) nil items)

module _ {ℓ κ} {A : Type ℓ} {B : Type κ} where
  prepend_mapped : (A → B) → Chain B → A → Chain B
  prepend_mapped transform state item = link (transform item) state

  unfoldable pub map_chain : (A → B) → Chain A → Chain B
  unfolding prepend_mapped
  map_chain transform items = reverse_chain (fold_chain (prepend_mapped transform) nil items)

unfoldable pub lower_ascii_character : ℕ → ℕ
lower_ascii_character code = if leb 65 code && leb code 90 then code + 32 else code

-- `none` is an index out of range, or that the fuel ran out.
lower_ascii_range : ℕ → Text → ℕ → ℕ → Option Text
unfolding lower_ascii_character
lower_ascii_range zero text start stop = none
lower_ascii_range (suc fuel) text start stop =
    let middle = (start + stop) / 2 in
    let lower = lower_ascii_range fuel text start middle in
    let upper = lower_ascii_range fuel text middle stop in
    if start == stop
    then some []
    else if stop - start == 1
    then (do character ← get_elem? text start; some (lower_ascii_character character ∷ []))
    else (do first ← lower; second ← upper; some (first ++ second))

-- A range of n characters is halved down to single ones, so n + 1 calls deep is enough.
unfoldable pub lower_ascii : Text → Option Text
unfolding lower_ascii_range
lower_ascii text = lower_ascii_range (suc (length text)) text 0 (length text)

-- The `while` loop over `remaining`.
unfoldable pub count_for : CountsTree → Text → Option ℕ
count_for leaf key = none
count_for (node k count left right) key = elim (text_eq key k) [
  | true ↦ some count
  | false ↦ elim (text_lt key k) [ true ↦ count_for left key | false ↦ count_for right key ]
]

unfoldable pub increment_count : CountsTree → Text → CountsTree
increment_count leaf key = node key 1 leaf leaf
increment_count (node k count left right) key = elim (text_eq key k) [
  | true ↦ node k (count + 1) left right
  | false ↦ elim (text_lt key k) [
    | true ↦ node k count (increment_count left key) right
    | false ↦ node k count left (increment_count right key)
  ]
]

unfoldable pub add_label : GroupState → Text → GroupState
add_label (counts, order) label = elim (count_for counts label) [
  | none ↦ (increment_count counts label, link label order)
  | some _ ↦ (increment_count counts label, order)
]

unfoldable pub group_labels : List Text → GroupState
group_labels labels =
    let (counts, order) = fold_tuple add_label (leaf, nil) labels in (counts, reverse_chain order)
