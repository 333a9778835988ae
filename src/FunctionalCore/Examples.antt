-- ===== src/FunctionalCore/Examples.antt =====
-- Tests of the functional core, and the theorems at concrete inputs.
use purepy.Base.{ℕ, ◌≡◌, refl, some, List, [], ◌∷◌, Text, codes, text_eq, text_lt}
use purepy.FunctionalCore.{
  Chain, nil, link, CountsTree, leaf, node, from_tuple, fold_tuple, lower_ascii, count_for,
  increment_count, add_label, group_labels, reverse_chain,
}
use purepy.FunctionalCore.Chains.{items, items-from_tuple}
use purepy.FunctionalCore.Counts.{IsSearchTree}
use purepy.FunctionalCore.Groups.{occurrences, counted, distinct, group_labels_lem}

abbrev labels : List Text
labels = codes "pear" ∷ codes "fig" ∷ codes "pear" ∷ codes "apple" ∷ []

group_labels_test : group_labels labels ≡ (
  node (codes "pear") 2 (node (codes "fig") 1 (node (codes "apple") 1 leaf leaf) leaf) leaf,
  link (codes "pear") (link (codes "fig") (link (codes "apple") nil)),
)
unfolding group_labels fold_tuple add_label count_for increment_count reverse_chain text_eq text_lt
group_labels_test = refl

lower_ascii_test : lower_ascii (codes "MiXed [Z]") ≡ some (codes "mixed [z]")
unfolding lower_ascii
lower_ascii_test = refl

abbrev two_fruits : CountsTree
two_fruits = node (codes "fig") 3 leaf (node (codes "pear") 1 leaf leaf)

two_fruits-IsSearchTree : IsSearchTree two_fruits
unfolding text_lt
two_fruits-IsSearchTree = (tt, (refl, tt, tt), tt, (tt, tt, tt, tt))

group_labels_lem_example :
    ((key : Text) → count_for (group_labels labels).0 key ≡ counted (occurrences key labels))
    × (items (group_labels labels).1 ≡ distinct labels)
    × IsSearchTree (group_labels labels).0
group_labels_lem_example = group_labels_lem labels

abbrev numbers : Chain ℕ
numbers = link 4 (link 7 (link 2 nil))

items-from_tuple_example : items (from_tuple labels) ≡ labels
items-from_tuple_example = items-from_tuple labels
