-- ===== src/Gates/Modules/Coroutine.antt =====
-- tools/module_runtime.py: `finish_coroutine`. What the coroutine does when it is sent None is a
-- parameter, and so are its states; `value.close()` is left out.
pub mod Budget
use purepy.Base.{
  ℕ, zero, suc, ◌+◌, ◌<◌, Bool, true, false, ◌≡◌, ◌≢◌, ◌↔◌, refl, sym, ap, ◌∙◌, subst, arith,
}

-- What `value.send(None)` does.
pub data Sent (S V E : Type 0) : Type 0 where
  completed : V → Sent S V E
  suspended : (yielded_none : Bool) (next : S) → Sent S V E
  raised : E → Sent S V E

-- What `probe` returns: a value, or a coroutine in its first state.
pub data Result (S V : Type 0) : Type 0 where
  plain : V → Result S V
  coroutine : S → Result S V

pub data Finished (V E : Type 0) : Type 0 where
  returned : V → Finished V E
  unsupported out_of_budget : Finished V E
  failed : E → Finished V E

abbrev pub max_suspensions : ℕ
max_suspensions = 64

module _ {S V E : Type 0} (send : S → Sent S V E) where
  -- The loop, for the rounds that are left.
  unfoldable pub drive : ℕ → S → Finished V E
  drive zero s = out_of_budget
  drive (suc rounds) s = elim (send s) [
    | completed v ↦ returned v
    | suspended true next ↦ drive rounds next
    | suspended false next ↦ unsupported
    | raised e ↦ failed e
  ]

  unfoldable pub finish_coroutine : Result S V → Finished V E
  finish_coroutine (plain v) = returned v
  finish_coroutine (coroutine s) = drive max_suspensions s

  -- The coroutine completes with the value, after the number of suspensions that yield None.
  pub data Completes (v : V) : ℕ → S → Type 0 where
    now : (s : S) → send s ≡ completed v → Completes v zero s
    later :
        (n : ℕ) (s next : S)
        → send s ≡ suspended true next
        → Completes v n next
        → Completes v (suc n) s
