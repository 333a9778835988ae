-- ===== src/LoadTest/Distribution.antt =====
-- `Distribution`. Floats and the random generator are parameters: `T` are the floats, in seconds,
-- and `G` the states of `random.Random`.
pub mod Reservoir
use purepy.Base.{
  ℕ, zero, suc, ◌+◌, Bool, true, false, Option, none, some, List, [], ◌∷◌, ◌++◌, ltb, if◌then◌else◌,
  length,
}

pub record Seconds (T : Type 0) : Type 0 where
  pub nought : T
  pub plus : T → T → T
  pub minus : T → T → T
  pub less : T → T → Bool

pub record Random (G : Type 0) : Type 0 where
  pub seeded : ℕ → G
  pub randrange : G → ℕ → ℕ × G

pub record Distribution (T : Type 0) (G : Type 0) : Type 0 where
  pub capacity : ℕ
  pub count : ℕ
  pub total : T
  pub values : List T
  pub minimum : Option T
  pub maximum : Option T
  pub random : G

-- `xs[i] = x` at an index that is in range.
unfoldable pub set_at {ℓ} : {A : Type ℓ} → List A → ℕ → A → List A
set_at [] i x = []
set_at (y ∷ xs) zero x = x ∷ xs
set_at (y ∷ xs) (suc i) x = y ∷ set_at xs i x

module _ {T : Type 0} {G : Type 0} (seconds : Seconds T) (random : Random G) where
  unfoldable pub new_distribution : ℕ → Distribution T G
  new_distribution capacity = record {
    capacity = capacity;
    count = 0;
    total = seconds.nought;
    values = [];
    minimum = none;
    maximum = none;
    random = random.seeded 0;
  }

  -- `value if m is None else min(m, value)`, and the same with max.
  unfoldable pub lower : Option T → T → T
  lower none value = value
  lower (some m) value = if seconds.less value m then value else m

  unfoldable pub upper : Option T → T → T
  upper none value = value
  upper (some m) value = if seconds.less m value then value else m

  -- The reservoir and the generator, behind the new count.
  unfoldable pub sample : Distribution T G → ℕ → T → List T × G
  unfolding set_at
  sample d count value =
      let (index, next) = random.randrange d.random count in
      if ltb (length d.values) d.capacity
      then (d.values ++ value ∷ [], d.random)
      else if ltb index d.capacity
      then (set_at d.values index value, next)
      else (d.values, next)

  unfoldable pub add : Distribution T G → T → Distribution T G
  add d value =
      let (values, next) = sample d (d.count + 1) value in
      record d {
        count = d.count + 1;
        total = seconds.plus d.total value;
        minimum = some (lower d.minimum value);
        maximum = some (upper d.maximum value);
        values = values;
        random = next;
      }
