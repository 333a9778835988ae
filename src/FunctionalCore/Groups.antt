-- ===== src/FunctionalCore/Groups.antt =====
-- `group_labels` against a direct count of the labels and the list of the distinct ones.
use purepy.Base.{
  ℕ, zero, suc, Bool, Option, none, some, List, [], ◌∷◌, ◌++◌, ◌≡◌, true, false, inl, inr, refl, ap,
  ◌∙◌, arith, reverse, if◌then◌else◌, Text, text_eq, text_eq_iff, append_assoc, append-nil,
  Option-cases, reverse-cons,
}
use purepy.FunctionalCore.{nil, leaf, GroupState, fold_tuple, count_for, add_label, group_labels}
use purepy.FunctionalCore.Chains.{items, items-reverse_chain}
use purepy.FunctionalCore.Counts.{
  raised, count_for-increment_count, IsSearchTree, increment_count-IsSearchTree,
}

-- How often a label occurs.
unfoldable pub occurrences : Text → List Text → ℕ
occurrences label [] = 0
occurrences label (x ∷ xs) =
    let rest = occurrences label xs in if text_eq x label then suc rest else rest

-- A label that does not occur has no count.
abbrev pub counted : ℕ → Option ℕ
counted zero = none
counted (suc n) = some (suc n)

without : Text → List Text → List Text
without label [] = []
without label (x ∷ xs) = let rest = without label xs in if text_eq x label then rest else x ∷ rest

-- The labels that occur, each once, in the order of their first occurrence.
unfoldable pub distinct : List Text → List Text
unfolding without
distinct [] = []
distinct (x ∷ xs) = x ∷ without x (distinct xs)

occurrences-snoc :
    (label x : Text) (xs : List Text)
    → occurrences label (xs ++ x ∷ [])
      ≡ (if text_eq x label then suc (occurrences label xs) else occurrences label xs)
unfolding occurrences
occurrences-snoc label x [] = refl
occurrences-snoc label x (y ∷ ys) = ground (arith, occurrences-snoc label x ys)

without-snoc :
    (label x : Text) (xs : List Text)
    → without label (xs ++ x ∷ [])
      ≡ (if text_eq x label then without label xs else without label xs ++ x ∷ [])
unfolding without
without-snoc label x [] = refl
without-snoc label x (y ∷ ys) = ground (arith, without-snoc label x ys)

-- Was the label seen before?
abbrev fresh : Text → List Text → Bool
fresh label xs = elim (counted (occurrences label xs)) [ none ↦ true | some _ ↦ false ]

distinct-snoc :
    (x : Text) (xs : List Text)
    → distinct (xs ++ x ∷ []) ≡ (if fresh x xs then distinct xs ++ x ∷ [] else distinct xs)
unfolding distinct occurrences
distinct-snoc x [] = refl
distinct-snoc x (y ∷ ys) =
    ground
      (arith, distinct-snoc x ys, without-snoc y x (distinct ys), text_eq_iff x y, text_eq_iff y x)

-- What the fold has built when it has read the labels `seen`.
record IsGrouping (seen : List Text) (s : GroupState) : Type 0 where
  counts : (key : Text) → count_for s.0 key ≡ counted (occurrences key seen)
  order : reverse (items s.1) ≡ distinct seen
  sorted : IsSearchTree s.0

raised-counted : (n : ℕ) → some (raised (counted n)) ≡ counted (suc n)
raised-counted zero = refl
raised-counted (suc n) = ap some (omega arith)

add_label-counts :
    (seen : List Text) (s : GroupState) (label key : Text)
    → IsGrouping seen s
    → count_for (add_label s label).0 key ≡ counted (occurrences key (seen ++ label ∷ []))
unfolding add_label
add_label-counts seen s label key h = ground (
  arith,
  h.counts label,
  h.counts key,
  count_for-increment_count s.0 label key,
  occurrences-snoc key label seen,
  raised-counted (occurrences label seen),
  text_eq_iff label key,
)

add_label-order :
    (seen : List Text) (s : GroupState) (label : Text)
    → IsGrouping seen s
    → reverse (items (add_label s label).1) ≡ distinct (seen ++ label ∷ [])
unfolding add_label items
add_label-order seen s label h =
    ground
      (arith, h.counts label, h.order, distinct-snoc label seen, reverse-cons label (items s.1))

add_label-IsGrouping :
    (seen : List Text) (s : GroupState) (label : Text)
    → IsGrouping seen s
    → IsGrouping (seen ++ label ∷ []) (add_label s label)
unfolding add_label
add_label-IsGrouping seen s label h = record {
  counts = λ key. add_label-counts seen s label key h;
  order = add_label-order seen s label h;
  sorted = elim (Option-cases (count_for s.0 label)) [
    | inl new ↦ rw (new, IsSearchTree) (increment_count-IsSearchTree s.0 label h.sorted)
    | inr (n, old) ↦ rw (old, IsSearchTree) (increment_count-IsSearchTree s.0 label h.sorted)
  ];
}

fold-IsGrouping :
    (seen labels : List Text) (s : GroupState)
    → IsGrouping seen s
    → IsGrouping (seen ++ labels) (fold_tuple add_label s labels)
unfolding fold_tuple
fold-IsGrouping seen [] s h = rw append-nil h
fold-IsGrouping seen (x ∷ xs) s h =
    rw append_assoc at
      (fold-IsGrouping (seen ++ x ∷ []) xs (add_label s x) (add_label-IsGrouping seen s x h))

group-IsGrouping :
    (labels : List Text) → IsGrouping labels (fold_tuple add_label (leaf, nil) labels)
unfolding count_for occurrences distinct items
group-IsGrouping labels =
    fold-IsGrouping [] labels (leaf, nil)
      (record { counts = λ key. refl; order = refl; sorted = tt })

-- For every tuple of labels, the tree holds for each key the number of its occurrences, and
-- nothing for a key that does not occur; the chain lists the labels that occur, each once, in the
-- order of first occurrence; and the tree is in search order.
pub group_labels_lem :
    (labels : List Text)
    → ((key : Text) → count_for (group_labels labels).0 key ≡ counted (occurrences key labels))
      × (items (group_labels labels).1 ≡ distinct labels)
      × IsSearchTree (group_labels labels).0
unfolding group_labels
group_labels_lem labels =
    let g = group-IsGrouping labels in (g.counts, items-reverse_chain _ ∙ g.order, g.sorted)
