-- ===== src/Gates/Modules/Coroutine/Budget.antt =====
-- The coroutines that `finish_coroutine` drives to their end.
use purepy.Base.{ℕ, zero, suc, ◌<◌, true, false, ◌≡◌, ◌↔◌, refl, ap, ◌∙◌, arith}
use purepy.Gates.Modules.Coroutine.{
  Sent, completed, suspended, raised, coroutine, Finished, returned, unsupported, failed,
  max_suspensions, drive, finish_coroutine, Completes, now, later,
}

module _ {S V E : Type 0} (send : S → Sent S V E) where
  -- After fewer suspensions than there are rounds.
  abbrev CompletesIn : V → ℕ → S → Type 0
  CompletesIn v rounds s = (n : ℕ) × (n < rounds) × Completes send v n s

  drive-Completes :
      (v : V) (n : ℕ) (s : S)
      → Completes send v n s
      → (rounds : ℕ) → n < rounds
      → drive send rounds s ≡ returned v
  unfolding drive
  drive-Completes v n s completes zero h = elim h [ ]
  drive-Completes v _ _ (now s e) (suc rounds) h = rw (drive, e) refl
  drive-Completes v _ _ (later n s next e rest) (suc rounds) h =
      rw (drive, e) (drive-Completes v n next rest rounds (omega (arith, h)))

  returned-injective : (v w : V) → (let r : Finished V E = returned v in r) ≡ returned w → v ≡ w
  returned-injective v w e = cc

  -- From what the rounds that are left find.
  step-Completes :
      (v : V) (rounds : ℕ) (s : S) (step : Sent S V E)
      → send s ≡ step
      → ((next : S) → drive send rounds next ≡ returned v → CompletesIn v rounds next)
      → (elim step [
        | completed w ↦ returned w
        | suspended true next ↦ drive send rounds next
        | suspended false next ↦ unsupported
        | raised e ↦ failed e
      ])
        ≡ returned v
      → CompletesIn v (suc rounds) s
  step-Completes v rounds s (completed w) e others h =
      (zero, omega arith, now s (e ∙ ap completed (returned-injective w v h)))
  step-Completes v rounds s (suspended true next) e others h =
      let (n, low, rest) = others next h in (suc n, omega (arith, low), later n s next e rest)
  step-Completes v rounds s (suspended false next) e others h = absurd cc
  step-Completes v rounds s (raised x) e others h = absurd cc

  drive-CompletesIn :
      (v : V) (rounds : ℕ) (s : S) → drive send rounds s ≡ returned v → CompletesIn v rounds s
  unfolding drive
  drive-CompletesIn v zero s h = absurd cc
  drive-CompletesIn v (suc rounds) s h =
      step-Completes v rounds s (send s) refl (drive-CompletesIn v rounds) h

  -- A coroutine that completes with a value after fewer than 64 suspensions, each of which yields
  -- None, is driven to that value; and a value is returned from no other coroutine.
  pub finish_coroutine_iff :
      (v : V) (s : S)
      → (finish_coroutine send (coroutine s) ≡ returned v)
        ↔ ((n : ℕ) × (n < max_suspensions) × Completes send v n s)
  unfolding finish_coroutine
  finish_coroutine_iff v s = (
    drive-CompletesIn v max_suspensions s,
    λ found. drive-Completes v found.0 s found.2 max_suspensions found.1,
  )
