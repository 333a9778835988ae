-- ===== src/FunctionalCore/Chains.antt =====
-- The chain functions against the library's functions on lists.
use purepy.Base.{
  Bool, List, [], ◌∷◌, ◌++◌, ◌≡◌, refl, ap, ◌∙◌, map, reverse, reverse-cons, append_assoc,
  append-nil, Bool-cases, inl, inr, if◌then◌else◌,
}
use mathlib.Core.List.{reverse-reverse}
use purepy.FunctionalCore.{
  Chain, nil, link, fold_tuple, fold_chain, reverse_onto, reverse_chain, prepend_all, from_tuple,
  prepend_if, filter_chain, prepend_mapped, map_chain,
}

-- The items of a chain, first to last.
unfoldable pub items {ℓ} : {A : Type ℓ} → Chain A → List A
items nil = []
items (link head tail) = head ∷ items tail

-- The items that a test accepts.
abbrev pub keep {ℓ} : {A : Type ℓ} → (A → Bool) → List A → List A
keep p [] = []
keep p (x ∷ xs) = if p x then x ∷ keep p xs else keep p xs

module _ {ℓ} {A : Type ℓ} where
  items-reverse_onto :
      (result c : Chain A) → items (reverse_onto result c) ≡ reverse (items c) ++ items result
  unfolding items reverse_onto
  items-reverse_onto result nil = refl
  items-reverse_onto result (link x c) =
      items-reverse_onto (link x result) c ∙ simp (reverse-cons, append_assoc)

  pub items-reverse_chain : (c : Chain A) → items (reverse_chain c) ≡ reverse (items c)
  unfolding reverse_chain items
  items-reverse_chain c = items-reverse_onto nil c ∙ append-nil _

  items-prepend_all :
      (result : Chain A) (xs : List A) → items (prepend_all result xs) ≡ reverse xs ++ items result
  unfolding items prepend_all
  items-prepend_all result [] = refl
  items-prepend_all result (x ∷ xs) =
      items-prepend_all (link x result) xs ∙ simp (reverse-cons, append_assoc)

  -- The chain made from a tuple has the tuple's items, in its order.
  pub items-from_tuple : (xs : List A) → items (from_tuple xs) ≡ xs
  unfolding from_tuple items
  items-from_tuple xs =
      items-reverse_chain _
      ∙ ap reverse (items-prepend_all nil xs ∙ append-nil _)
      ∙ reverse-reverse xs

module _ {ℓ κ} {A : Type ℓ} {B : Type κ} where
  -- A fold over a chain is the fold over the tuple of its items.
  pub fold_chain-eq-fold_tuple :
      (step : A → B → A) (state : A) (c : Chain B)
      → fold_chain step state c ≡ fold_tuple step state (items c)
  unfolding fold_chain fold_tuple items
  fold_chain-eq-fold_tuple step state nil = refl
  fold_chain-eq-fold_tuple step state (link x c) = fold_chain-eq-fold_tuple step (step state x) c

  items-fold-prepend_mapped :
      (f : A → B) (state : Chain B) (c : Chain A)
      → items (fold_chain (prepend_mapped f) state c) ≡ reverse (map f (items c)) ++ items state
  unfolding fold_chain prepend_mapped items
  items-fold-prepend_mapped f state nil = refl
  items-fold-prepend_mapped f state (link x c) =
      items-fold-prepend_mapped f (link (f x) state) c ∙ simp (reverse-cons, append_assoc)

  -- `map_chain` transforms every item and keeps their order.
  pub items-map_chain : (f : A → B) (c : Chain A) → items (map_chain f c) ≡ map f (items c)
  unfolding map_chain items
  items-map_chain f c =
      items-reverse_chain _
      ∙ ap reverse (items-fold-prepend_mapped f nil c ∙ append-nil _)
      ∙ reverse-reverse _

module _ {ℓ} {A : Type ℓ} (p : A → Bool) where
  items-fold-prepend_if :
      (state c : Chain A)
      → items (fold_chain (prepend_if p) state c) ≡ reverse (keep p (items c)) ++ items state
  unfolding fold_chain prepend_if items
  items-fold-prepend_if state nil = refl
  items-fold-prepend_if state (link x c) = elim (Bool-cases (p x)) [
    | inl e ↦ rw e (items-fold-prepend_if (link x state) c ∙ simp (reverse-cons, append_assoc))
    | inr e ↦ rw e (items-fold-prepend_if state c)
  ]

  -- `filter_chain` keeps the accepted items, in their order.
  pub items-filter_chain : (c : Chain A) → items (filter_chain p c) ≡ keep p (items c)
  unfolding filter_chain items
  items-filter_chain c =
      items-reverse_chain _
      ∙ ap reverse (items-fold-prepend_if nil c ∙ append-nil _)
      ∙ reverse-reverse _
