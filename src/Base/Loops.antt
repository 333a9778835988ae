-- ===== src/Base/Loops.antt =====
-- `for i in range(...)` with a body that may raise: recursion on the rounds left.
use Prim.Native.Nat.{ℕ, zero, suc, ◌+◌, ◌<◌}
use mathlib.Core.Path.{◌≡◌, refl}
use mathlib.Core.Option.{Option, none, some}
use native.Mathlib.Omega.{arith}

unfoldable pub for_range {ℓ} : {S : Type ℓ} → ℕ → ℕ → (ℕ → S → Option S) → S → Option S
for_range zero i body s = some s
for_range (suc n) i body s = elim (body i s) [ none ↦ none | some t ↦ for_range n (i + 1) body t ]

-- A body that never raises from an invariant gives a loop that returns, in the invariant. The end
-- `j` is a variable with an equation.
pub for_range_total {ℓ κ} :
    {S : Type ℓ} (P : ℕ → S → Type κ) (body : ℕ → S → Option S) (n i j : ℕ) (s : S)
    → i + n ≡ j
    → ((k : ℕ) (t : S) → k < j → P k t → (u : S) × (body k t ≡ some u) × P (k + 1) u)
    → P i s
    → (u : S) × (for_range n i body s ≡ some u) × P j u
unfolding for_range
for_range_total P body zero i j s e step h = let e' : i ≡ j = omega arith in (s, refl, rw (← e') h)
for_range_total P body (suc n) i j s e step h =
    let (t, made, kept) = step i s (omega arith) h in
    let (u, ran, fine) = for_range_total P body n (i + 1) j t (omega arith) step kept in
    (u, rw (made, for_range) ran, fine)

pub for_range_three {ℓ} :
    {S : Type ℓ} (body : ℕ → S → Option S) (s a b c : S)
    → body 0 s ≡ some a
    → body 1 a ≡ some b
    → body 2 b ≡ some c
    → for_range 3 0 body s ≡ some c
unfolding for_range
for_range_three body s a b c e f g = rw (e, for_range) (rw (f, for_range) (rw (g, for_range) refl))
