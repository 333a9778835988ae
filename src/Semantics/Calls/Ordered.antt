-- ===== src/Semantics/Calls/Ordered.antt =====
-- A search that finishes has put every function behind those that it calls.
use purepy.Base.{
  ℕ, zero, suc, ◌≢◌, Bool, true, false, ◌||◌, Option, none, some, List, [], ◌∷◌, Text, text_eq,
  text_eq_refl, eq_of_text_eq, ◌≡◌, refl, sym, ◌∙◌, subst, Bool-cases, inl, inr,
}
use purepy.Base.Json.{contains}
use purepy.Semantics.Calls.{
  Graph, callees, Walk, raised, out_of_fuel, finished, and_then, visit_each, visit_callees, visit,
}

abbrev pub Includes : List Text → List Text → Type 0
Includes xs ys = (n : Text) → contains xs n ≡ true → contains ys n ≡ true

distinct : false ≢ true
distinct e = cc

some_inj : (s t : List Text) → some s ≡ some t → s ≡ t
some_inj s t e = cc

or_left : (a b : Bool) → a ≡ true → (a || b) ≡ true
or_left true b e = refl
or_left false b e = elim (distinct e) [ ]

or_right : (a b : Bool) → b ≡ true → (a || b) ≡ true
or_right true b e = refl
or_right false b e = e

or_false : (a : Bool) → (a || false) ≡ true → a ≡ true
or_false true e = refl
or_false false e = e

module _ (graph : Graph) where
  -- Whatever a name of the list calls stands behind it.
  abbrev pub IsOrdered : List Text → Type 0
  IsOrdered [] = Unit
  IsOrdered (v ∷ visited) =
      ((targets : List Text) → callees graph v ≡ some targets → Includes targets visited)
      × IsOrdered visited

  -- The search ends in an order with more names, those of `wanted` among them, if it finishes.
  abbrev pub Orders : List Text → List Text → Walk → Type 0
  Orders wanted visited raised = Unit
  Orders wanted visited out_of_fuel = Unit
  Orders wanted visited (finished seen) =
      IsOrdered seen × Includes visited seen × Includes wanted seen

  widen :
      (t : Text) (targets visited seen : List Text) (w : Walk)
      → Includes visited seen
      → contains seen t ≡ true
      → Orders targets seen w
      → Orders (t ∷ targets) visited w
  unfolding contains
  widen t targets visited seen raised more there h = tt
  widen t targets visited seen out_of_fuel more there h = tt
  widen t targets visited seen (finished last) more there (ordered, grown, wanted) = (
    ordered,
    (λ n e. grown n (more n e)),
    (λ n e. elim (Bool-cases (text_eq t n)) [
      | inl same ↦ subst (λ m. contains last m ≡ true) (eq_of_text_eq t n same) (grown t there)
      | inr other ↦ wanted n (rw other at e)
    ]),
  )

  and_then-Orders :
      (t : Text) (targets visited : List Text) (w : Walk) (next : List Text → Walk)
      → Orders (t ∷ []) visited w
      → ((seen : List Text) → IsOrdered seen → Orders targets seen (next seen))
      → Orders (t ∷ targets) visited (and_then w next)
  unfolding and_then contains
  and_then-Orders t targets visited raised next h step = tt
  and_then-Orders t targets visited out_of_fuel next h step = tt
  and_then-Orders t targets visited (finished seen) next (ordered, grown, wanted) step =
      widen t targets visited seen (next seen) grown (wanted t (rw (text_eq_refl t) refl))
        (step seen ordered)

  pub visit_each-Orders :
      (visit_one : Text → List Text → Walk)
      → ((n : Text) (visited : List Text)
          → IsOrdered visited
          → Orders (n ∷ []) visited (visit_one n visited))
      → (targets visited : List Text) → IsOrdered visited
      → Orders targets visited (visit_each visit_one targets visited)
  unfolding visit_each contains
  visit_each-Orders visit_one step [] visited h = (h, (λ n e. e), (λ n e. elim (distinct e) [ ]))
  visit_each-Orders visit_one step (t ∷ targets) visited h =
      and_then-Orders t targets visited (visit_one t visited) _ (step t visited h)
        (visit_each-Orders visit_one step targets)

  -- The name is put before all that it calls.
  close-Orders :
      (name : Text) (targets visited : List Text) (w : Walk)
      → callees graph name ≡ some targets
      → Orders targets visited w
      → Orders (name ∷ []) visited (and_then w (λ seen. finished (name ∷ seen)))
  unfolding and_then contains
  close-Orders name targets visited raised found h = tt
  close-Orders name targets visited out_of_fuel found h = tt
  close-Orders name targets visited (finished seen) found (ordered, grown, wanted) = (
    (
      (λ other e. subst (λ r. Includes r seen) (some_inj targets other (sym found ∙ e)) wanted),
      ordered,
    ),
    (λ n e. or_right (text_eq name n) (contains seen n) (grown n e)),
    (λ n e. or_left (text_eq name n) (contains seen n) (or_false (text_eq name n) e)),
  )

  visit_callees-Orders :
      (visit_one : Text → List Text → Walk)
      → ((n : Text) (visited : List Text)
          → IsOrdered visited
          → Orders (n ∷ []) visited (visit_one n visited))
      → (name : Text) (o : Option (List Text)) (visited : List Text) → callees graph name ≡ o
      → IsOrdered visited
      → Orders (name ∷ []) visited (visit_callees visit_one name o visited)
  unfolding visit_callees
  visit_callees-Orders visit_one step name none visited found h = tt
  visit_callees-Orders visit_one step name (some targets) visited found h =
      close-Orders name targets visited _ found (visit_each-Orders visit_one step targets visited h)

  pub visit-Orders :
      (fuel : ℕ) (active : List Text) (name : Text) (visited : List Text)
      → IsOrdered visited
      → Orders (name ∷ []) visited (visit fuel graph active name visited)
  unfolding visit contains
  visit-Orders zero active name visited h = tt
  visit-Orders (suc fuel) active name visited h = elim (Bool-cases (contains active name)) [
    | inl again ↦ rw (again, Orders) tt
    | inr new ↦ elim (Bool-cases (contains visited name)) [
      | inl old ↦
          rw (new, old, Orders)
            (
              h,
              (λ n e. e),
              (λ n e.
                  subst (λ m. contains visited m ≡ true)
                    (eq_of_text_eq name n (or_false (text_eq name n) e)) old),
            )
      | inr unseen ↦
          rw (new, unseen)
            (visit_callees-Orders (visit fuel graph (name ∷ active))
              (visit-Orders fuel (name ∷ active)) name (callees graph name) visited refl h)
    ]
  ]
