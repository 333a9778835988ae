-- ===== src/Semantics/Calls/Acyclic.antt =====
-- The search finishes exactly when no function can reach itself.
use purepy.Base.{
  ℕ, suc, ◌<◌, true, some, List, [], ◌∷◌, Text, length, ◌≡◌, ◌⊎◌, refl, ap, arith, inl, inr,
}
use purepy.Base.Json.{contains}
use purepy.Semantics.Calls.{
  Graph, callees, names, Walk, raised, out_of_fuel, finished, visit, visit_functions,
}
use purepy.Semantics.Calls.Ordered.{Orders, visit_each-Orders, visit-Orders}
use purepy.Semantics.Calls.Ranks.{rank, rank-callee, callees-names}
use purepy.Semantics.Calls.Total.{Ends, visit-Ends, visit_each-Ends}

length-names : (graph : Graph) → length (names graph) ≡ length graph
length-names [] = refl
length-names ((f, targets) ∷ graph) = ap suc (length-names graph)

-- Every call lowers the rank.
abbrev pub Lowers : Graph → (Text → ℕ) → Type 0
Lowers graph rank_of =
    (v t : Text) (targets : List Text)
    → callees graph v ≡ some targets
    → contains targets t ≡ true
    → rank_of t < rank_of v

pub visit_functions-Ends : (graph : Graph) → Ends (visit_functions graph)
unfolding visit_functions
visit_functions-Ends graph =
    visit_each-Ends (visit (suc (length graph)) graph [])
      (λ n seen.
        visit-Ends graph (suc (length graph)) [] n seen tt
          (let e = length-names graph in omega (arith, e)))
      (names graph) []

visit_functions-Orders : (graph : Graph) → Orders graph (names graph) [] (visit_functions graph)
unfolding visit_functions
visit_functions-Orders graph =
    visit_each-Orders graph (visit (suc (length graph)) graph [])
      (visit-Orders graph (suc (length graph)) []) (names graph) [] tt

lowered :
    (graph : Graph) (w : Walk)
    → Ends w
    → Orders graph (names graph) [] w
    → (w ≡ raised) ⊎ ((visited : List Text) × (w ≡ finished visited) × Lowers graph (rank visited))
lowered graph raised ends h = inl refl
lowered graph out_of_fuel ends h = elim ends [ ]
lowered graph (finished visited) ends (ordered, _, wanted) = inr (
  visited,
  refl,
  λ v t targets found calls.
      (rank-callee graph visited v t targets ordered
        (wanted v (callees-names graph v targets found)) found calls).1,
)

-- The search for recursive calls ends, for every call graph. If it raises nothing, then the names it
-- visited have ranks that every call lowers: no function can reach itself.
pub visit_functions_lem :
    (graph : Graph)
    → (visit_functions graph ≡ raised)
      ⊎ ((visited : List Text) × (visit_functions graph ≡ finished visited)
          × Lowers graph (rank visited))
visit_functions_lem graph =
    lowered graph (visit_functions graph) (visit_functions-Ends graph)
      (visit_functions-Orders graph)
