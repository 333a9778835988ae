-- ===== src/LoadTest/Distribution/Reservoir.antt =====
-- The reservoir of a distribution.
use purepy.Base.{ℕ, zero, suc, ◌+◌, List, [], ◌∷◌, length, length-append, ◌≡◌, refl, ap, arith}
use Prim.Native.Nat.{min}
use purepy.LoadTest.Distribution.{
  Seconds, Random, Distribution, set_at, new_distribution, sample, add,
}

length-set_at {ℓ} : {A : Type ℓ} (xs : List A) (i : ℕ) (x : A) → length (set_at xs i x) ≡ length xs
unfolding set_at
length-set_at [] i x = refl
length-set_at (y ∷ xs) zero x = refl
length-set_at (y ∷ xs) (suc i) x = ap suc (length-set_at xs i x)

module _ {T : Type 0} {G : Type 0} (seconds : Seconds T) (random : Random G) where
  -- All the values, until they are more than the capacity.
  abbrev pub IsFilled : Distribution T G → Type 0
  IsFilled d = length d.values ≡ min d.count d.capacity

  length-sample :
      (d : Distribution T G) (x : T)
      → IsFilled d
      → length (sample seconds random d (d.count + 1) x).0 ≡ min (d.count + 1) d.capacity
  unfolding sample
  length-sample d x h = ground (
    arith,
    h,
    length-append d.values (x ∷ []),
    length-set_at d.values (random.randrange d.random (d.count + 1)).0 x,
  )

  pub add-IsFilled : (d : Distribution T G) (x : T) → IsFilled d → IsFilled (add seconds random d x)
  unfolding add
  add-IsFilled d x h = length-sample d x h

  pub new_distribution-IsFilled :
      (capacity : ℕ) → IsFilled (new_distribution seconds random capacity)
  unfolding new_distribution
  new_distribution-IsFilled capacity = ground arith
