-- ===== src/Semantics/Calls/Accepted.antt =====
-- A call graph in which no function reaches itself is accepted.
use purepy.Base.{
  ℕ, zero, suc, ◌<◌, ◌≢◌, true, false, some, List, [], ◌∷◌, Text, text_eq, text_eq_refl,
  eq_of_text_eq, length, ◌≡◌, refl, subst, arith, Bool-cases, inl, inr,
}
use purepy.Base.Json.{contains}
use purepy.Semantics.Calls.{
  Graph, callees, names, Walk, raised, out_of_fuel, finished, and_then, visit_each, visit_callees,
  visit, visit_functions,
}
use purepy.Semantics.Calls.Total.{Ends}
use purepy.Semantics.Calls.Acyclic.{Lowers, visit_functions-Ends}

-- Only functions of the graph are called.
abbrev pub IsClosed : Graph → Type 0
IsClosed graph =
    (v t : Text) (targets : List Text)
    → callees graph v ≡ some targets
    → contains targets t ≡ true
    → (others : List Text) × (callees graph t ≡ some others)

abbrev RaisesNot : Walk → Type 0
RaisesNot raised = ⊥
RaisesNot out_of_fuel = Unit
RaisesNot (finished visited) = Unit

and_then-RaisesNot :
    (w : Walk) (next : List Text → Walk)
    → RaisesNot w
    → ((seen : List Text) → RaisesNot (next seen))
    → RaisesNot (and_then w next)
unfolding and_then
and_then-RaisesNot raised next h k = h
and_then-RaisesNot out_of_fuel next h k = tt
and_then-RaisesNot (finished seen) next h k = k seen

visit_each-RaisesNot :
    (visit_one : Text → List Text → Walk) (targets : List Text)
    → ((t : Text) (seen : List Text) → contains targets t ≡ true → RaisesNot (visit_one t seen))
    → (visited : List Text) → RaisesNot (visit_each visit_one targets visited)
unfolding visit_each contains
visit_each-RaisesNot visit_one [] step visited = tt
visit_each-RaisesNot visit_one (t ∷ targets) step visited =
    and_then-RaisesNot (visit_one t visited) _ (step t visited (ground (arith, text_eq_refl t)))
      (visit_each-RaisesNot visit_one targets (λ n seen e. step n seen (ground (arith, e))))

names-callees :
    (graph : Graph) (n : Text)
    → contains (names graph) n ≡ true
    → (targets : List Text) × (callees graph n ≡ some targets)
unfolding callees contains
names-callees [] n h = ground (arith, h)
names-callees ((f, targets) ∷ graph) n h = elim (Bool-cases (text_eq f n)) [
  | inl same ↦ (targets, rw same refl)
  | inr other ↦
      let (found, e) = names-callees graph n (rw other at h) in (found, rw (other, e) refl)
]

no_loop : (n : ℕ) → n < n → ⊥
no_loop n h = omega (arith, h)

nothing : false ≢ true
nothing e = cc

module _ (graph : Graph) (rank_of : Text → ℕ) (lowers : Lowers graph rank_of)
    (closed : IsClosed graph) where
  visit-RaisesNot :
      (fuel : ℕ) (active : List Text) (name : Text) (visited targets : List Text)
      → callees graph name ≡ some targets
      → ((a : Text) → contains active a ≡ true → rank_of name < rank_of a)
      → RaisesNot (visit fuel graph active name visited)
  unfolding visit visit_callees contains
  visit-RaisesNot zero active name visited targets found above = tt
  visit-RaisesNot (suc fuel) active name visited targets found above =
      elim (Bool-cases (contains active name)) [
        | inl again ↦ elim (no_loop (rank_of name) (above name again)) [ ]
        | inr new ↦ elim (Bool-cases (contains visited name)) [
          | inl old ↦ rw (new, old) tt
          | inr unseen ↦
              let step : (t : Text) (seen : List Text)
                  → contains targets t ≡ true
                  → RaisesNot (visit fuel graph (name ∷ active) t seen) =
                λ t seen e.
                  let less = lowers name t targets found e in
                  let next = closed name t targets found e in
                  visit-RaisesNot fuel (name ∷ active) t seen next.0 next.1 (λ a m.
                    elim (Bool-cases (text_eq name a)) [
                      | inl same ↦
                          subst (λ b. rank_of t < rank_of b) (eq_of_text_eq name a same) less
                      | inr other ↦ let more = above a (rw other at m) in omega (arith, less, more)
                    ]) in
              rw (new, unseen, found)
                (and_then-RaisesNot _ _ (visit_each-RaisesNot _ targets step visited) (λ seen. tt))
        ]
      ]

  visit_functions-RaisesNot : RaisesNot (visit_functions graph)
  unfolding visit_functions contains
  visit_functions-RaisesNot =
      visit_each-RaisesNot (visit (suc (length graph)) graph []) (names graph)
        (λ n seen e.
          let found = names-callees graph n e in
          visit-RaisesNot (suc (length graph)) [] n seen found.0 found.1
            (λ a m. elim (nothing m) [ ]))
        []

finishes : (w : Walk) → Ends w → RaisesNot w → (visited : List Text) × (w ≡ finished visited)
finishes raised ends h = elim h [ ]
finishes out_of_fuel ends h = elim ends [ ]
finishes (finished visited) ends h = (visited, refl)

-- If there are ranks that every call lowers, so that no function can reach itself, and only functions
-- of the graph are called, then the search for recursive calls raises nothing and finishes.
pub visit_functions-finished :
    (graph : Graph) (rank_of : Text → ℕ)
    → Lowers graph rank_of
    → IsClosed graph
    → (visited : List Text) × (visit_functions graph ≡ finished visited)
visit_functions-finished graph rank_of lowers closed =
    finishes (visit_functions graph) (visit_functions-Ends graph)
      (visit_functions-RaisesNot graph rank_of lowers closed)
