-- ===== src/Semantics/Calls.antt =====
-- tools/function_runtime.py, `_validated_tree`: the search for recursive calls among the functions
-- of a corpus module.
pub mod Ordered
pub mod Ranks
pub mod Total
pub mod Acyclic
pub mod Accepted
use purepy.Base.{
  ℕ, zero, suc, Bool, true, false, Option, none, some, List, [], ◌∷◌, if◌then◌else◌, Text, text_eq,
  length, map,
}
use purepy.Base.Json.{contains}

-- The functions in the order of their names, each with those that it calls, in the same order.
abbrev pub Graph : Type 0
Graph = List (Text × List Text)

-- `graph[name]`; `none` is a KeyError.
unfoldable pub callees : Graph → Text → Option (List Text)
callees [] name = none
callees ((f, targets) ∷ graph) name = if text_eq f name then some targets else callees graph name

abbrev pub names : Graph → List Text
names [] = []
names ((f, targets) ∷ graph) = f ∷ names graph

-- The end of a search: an exception, or the set `visited`, the newest name first.
pub data Walk : Type 0 where
  raised out_of_fuel : Walk
  finished : (visited : List Text) → Walk

unfoldable pub and_then : Walk → (List Text → Walk) → Walk
and_then raised next = raised
and_then out_of_fuel next = out_of_fuel
and_then (finished visited) next = next visited

unfoldable pub visit_each : (Text → List Text → Walk) → List Text → List Text → Walk
visit_each visit_one [] visited = finished visited
visit_each visit_one (target ∷ targets) visited =
    and_then (visit_one target visited) (visit_each visit_one targets)

unfoldable pub visit_callees :
    (Text → List Text → Walk) → Text → Option (List Text) → List Text → Walk
visit_callees visit_one name none visited = raised
visit_callees visit_one name (some targets) visited =
    and_then (visit_each visit_one targets visited) (λ seen. finished (name ∷ seen))

-- `visit`, whose depth the set `active` bounds.
unfoldable pub visit : ℕ → Graph → List Text → Text → List Text → Walk
visit zero graph active name visited = out_of_fuel
visit (suc fuel) graph active name visited =
    let inner =
      visit_callees (visit fuel graph (name ∷ active)) name (callees graph name) visited in
    if contains active name
    then raised
    else if contains visited name
    then finished visited
    else inner

-- The loop over the functions; no call is deeper than their number.
unfoldable pub visit_functions : Graph → Walk
visit_functions graph = visit_each (visit (suc (length graph)) graph []) (names graph) []
