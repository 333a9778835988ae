-- ===== src/Performance/Comparison/Sorted.antt =====
-- What holds of all elements of a sorted list holds of all elements.
use purepy.Base.{Bool, List, [], ◌∷◌, All, Bool-cases, inl, inr}
use purepy.Base.Python.{FloatTests}
use purepy.Performance.{Arithmetic, Key}
use purepy.Performance.Comparison.{insert_key, sort_keys}

module _ {F : Type 0} (tests : FloatTests F) (math : Arithmetic F) where
  All-insert_key :
      (P : Key F → Type 0) (less : Key F → Key F → Bool) (key : Key F) (ks : List (Key F))
      → All P (insert_key tests math less key ks)
      → All P (key ∷ ks)
  unfolding insert_key
  All-insert_key P less key [] h = h
  All-insert_key P less key (k ∷ ks) h = elim (Bool-cases (less k key)) [
    | inr after ↦ rw after at h
    | inl before ↦
        let kept : P k × All P (insert_key tests math less key ks) = rw before at h in
        let (this, others) = All-insert_key P less key ks kept.1 in (this, (kept.0, others))
  ]

  pub All-sort_keys :
      (P : Key F → Type 0) (less : Key F → Key F → Bool) (ks : List (Key F))
      → All P (sort_keys tests math less ks)
      → All P ks
  unfolding sort_keys
  All-sort_keys P less [] h = h
  All-sort_keys P less (k ∷ ks) h =
      let (this, others) = All-insert_key P less k (sort_keys tests math less ks) h in
      (this, All-sort_keys P less ks others)
