-- ===== src/Gates/Results/Zipped.antt =====
-- The results that `read_results` returns stand for the names, one by one.
use purepy.Base.{
  true, Option, some, List, [], ◌∷◌, Text, ◌≡◌, subst, Bool-cases, inl, inr, bind-some,
  some-injective, none-some, codes,
}
use purepy.Base.Json.{Json, Items, Fields, arr, obj, nil, cons, get}
use purepy.Gates.Results.{has_name, named_results, results_of, read_results}

module _ {F : Type 0} where
  abbrev pub AreNamed : List (Fields F) → List Text → Type 0
  AreNamed [] [] = Unit
  AreNamed (found ∷ results) (name ∷ names) = (has_name found name ≡ true) × AreNamed results names
  AreNamed _ _ = ⊥

  named_results-AreNamed :
      (items : Items F) (names : List Text) (results : List (Fields F))
      → named_results items names ≡ some results
      → AreNamed results names
  unfolding named_results
  named_results-AreNamed nil [] results h = subst (λ r. AreNamed r []) (some-injective _ _ h) tt
  named_results-AreNamed (cons (obj fields) items) (name ∷ names) results h =
      elim (Bool-cases (has_name fields name)) [
        | inl is ↦
            let (rest, found, whole) =
              bind-some (named_results items names) _ results (rw is at h) in
            subst (λ r. AreNamed r (name ∷ names)) (some-injective _ _ whole)
              (is, named_results-AreNamed items names rest found)
        | inr other ↦ elim (none-some results (rw other at h)) [ ]
      ]
  named_results-AreNamed _ _ results h = elim (none-some results h) [ ]

  results_of-AreNamed :
      (found : Option (Json F)) (names : List Text) (results : List (Fields F))
      → results_of found names ≡ some results
      → AreNamed results names
  unfolding results_of
  results_of-AreNamed (some (arr items)) names results h =
      named_results-AreNamed items names results h
  results_of-AreNamed _ names results h = elim (none-some results h) [ ]

  pub read_results-AreNamed :
      (payload : Json F) (names : List Text) (results : List (Fields F))
      → read_results payload names ≡ some results
      → AreNamed results names
  unfolding read_results
  read_results-AreNamed (obj payload) names results h =
      results_of-AreNamed (get payload (codes "results")) names results h
  read_results-AreNamed _ names results h = elim (none-some results h) [ ]
