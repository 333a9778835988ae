-- ===== src/Gates/Results.antt =====
-- `read_results` of tools/differential_semantics.py, which all gates share.
pub mod Zipped
use purepy.Base.{
  Bool, true, false, ◌&&◌, Option, none, some, List, [], ◌∷◌, if◌then◌else◌, ◌>>=◌, Text, codes,
  text_eq,
}
use purepy.Base.Json.{Json, Items, Fields, null, text, arr, obj, nil, cons, end, field, get}

module _ {F : Type 0} where
  -- `result.get("name") == case.name`
  unfoldable pub has_name : Fields F → Text → Bool
  has_name fields name = elim (get fields (codes "name")) [
    | some (text s) ↦ text_eq s name
    | _ ↦ false
  ]

  -- As many results as names, each a dictionary of that name.
  unfoldable pub named_results : Items F → List Text → Option (List (Fields F))
  unfolding has_name
  named_results nil [] = some []
  named_results (cons (obj fields) items) (name ∷ names) =
      let rest = named_results items names in
      if has_name fields name then rest >>= (λ found. some (fields ∷ found)) else none
  named_results _ _ = none

  unfoldable pub results_of : Option (Json F) → List Text → Option (List (Fields F))
  results_of (some (arr items)) names = named_results items names
  results_of _ names = none

  unfoldable pub read_results : Json F → List Text → Option (List (Fields F))
  read_results (obj payload) names = results_of (get payload (codes "results")) names
  read_results _ names = none
