-- ===== src/Semantics/Calls/Ranks.antt =====
-- The order of a search that finishes, as ranks that every call lowers.
use purepy.Base.{
  ℕ, ◌<◌, true, some, List, [], ◌∷◌, if◌then◌else◌, Text, eq_of_text_eq, length, ◌≡◌, ap, ◌∙◌,
  arith, Bool-cases, inl, inr,
}
use purepy.Base.Json.{contains}
use purepy.Semantics.Calls.{Graph, callees, names}
use purepy.Semantics.Calls.Ordered.{IsOrdered}

-- The place of a name in the list, counted from the end.
unfoldable pub rank : List Text → Text → ℕ
rank [] n = 0
rank (x ∷ xs) n = if contains xs n then rank xs n else length xs

rank_lt : (xs : List Text) (n : Text) → contains xs n ≡ true → rank xs n < length xs
unfolding rank contains
rank_lt [] n h = ground (arith, h)
rank_lt (x ∷ xs) n h = ground (arith, rank_lt xs n)

pub callees-names :
    (graph : Graph) (v : Text) (targets : List Text)
    → callees graph v ≡ some targets
    → contains (names graph) v ≡ true
unfolding callees contains
callees-names [] v targets h = ground (arith, h)
callees-names ((f, ts) ∷ graph) v targets h = ground (arith, h, callees-names graph v targets)

pub rank-callee :
    (graph : Graph) (xs : List Text) (v t : Text) (targets : List Text)
    → IsOrdered graph xs
    → contains xs v ≡ true
    → callees graph v ≡ some targets
    → contains targets t ≡ true
    → (contains xs t ≡ true) × (rank xs t < rank xs v)
unfolding rank contains
rank-callee graph [] v t targets h there found calls = ground (arith, there)
rank-callee graph (x ∷ xs) v t targets h there found calls = elim (Bool-cases (contains xs v)) [
  | inl below ↦
      let (known, less) = rank-callee graph xs v t targets h.1 below found calls in
      (ground (arith, known), ground (arith, known, below, less))
  | inr here ↦
      let same : x ≡ v = eq_of_text_eq x v (ground (arith, there, here)) in
      let known = h.0 targets (ap (callees graph) same ∙ found) t calls in
      (ground (arith, known), ground (arith, known, here, rank_lt xs t known))
]
