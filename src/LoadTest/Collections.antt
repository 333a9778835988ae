-- ===== src/LoadTest/Collections.antt =====
-- Python's lists, dictionaries and sets, as the load test uses them.
use purepy.Base.{
  ℕ, zero, suc, Bool, false, ◌||◌, Option, none, some, List, [], ◌∷◌, ◌==◌, if◌then◌else◌,
}

unfoldable pub replicate {ℓ} : {A : Type ℓ} → ℕ → A → List A
replicate zero x = []
replicate (suc n) x = x ∷ replicate n x

-- Dictionaries in insertion order.
unfoldable pub find {ℓ} : {A : Type ℓ} → List (ℕ × A) → ℕ → Option A
find [] key = none
find ((k, v) ∷ d) key = if k == key then some v else find d key

unfoldable pub store {ℓ} : {A : Type ℓ} → List (ℕ × A) → ℕ → A → List (ℕ × A)
store [] key x = (key, x) ∷ []
store ((k, v) ∷ d) key x = if k == key then (k, x) ∷ d else (k, v) ∷ store d key x

unfoldable pub delete {ℓ} : {A : Type ℓ} → List (ℕ × A) → ℕ → List (ℕ × A)
delete [] key = []
delete ((k, v) ∷ d) key = if k == key then d else (k, v) ∷ delete d key

-- A set is the list of its members.
unfoldable pub mem : ℕ → List ℕ → Bool
mem n [] = false
mem n (x ∷ xs) = x == n || mem n xs

unfoldable pub remove : ℕ → List ℕ → List ℕ
remove n [] = []
remove n (x ∷ xs) = if x == n then remove n xs else x ∷ remove n xs
