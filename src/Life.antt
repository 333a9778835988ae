-- ===== src/Life.antt =====
-- examples/branching_life/src/life.py: cellular worlds on a torus and their branching histories.
-- Sizes, the generation and the entropy are natural numbers; cells are integers, as in the source.
-- `none` is an exception (an index out of range).
pub mod Grid
pub mod Step
pub mod Histories
pub mod Forks
mod Examples
use purepy.Base.{
  ℕ, zero, suc, ◌+◌, ◌-◌, ◌*◌, ◌%◌, ◌&&◌, ◌||◌, Option, none, some, List, [], ◌∷◌, ◌++◌, ltb, ◌==◌,
  if◌then◌else◌, ◌>>=◌, get_elem?,
}
use purepy.Base.Int.{ℤ, pos, eq_ℤ, ◌+ℤ◌, ◌-ℤ◌}
use purepy.Base.Slice.{get_item, slice_from, slice_to}
use purepy.Base.Loops.{for_range}

pub record World : Type 0 where
  pub width : ℕ
  pub height : ℕ
  pub cells : List ℤ
  pub generation : ℕ

-- `first` is a history whose `previous` is `None`.
pub data History {ℓ} (A : Type ℓ) : Type ℓ where
  first : (state : A) → History A
  after : (state : A) (previous : History A) → History A

abbrev pub state {ℓ} : {A : Type ℓ} → History A → A
state (first s) = s
state (after s previous) = s

-- `History(s, history.previous)`
abbrev pub replace_state {ℓ} : {A : Type ℓ} → A → History A → History A
replace_state s (first _) = first s
replace_state s (after _ previous) = after s previous

unfoldable pub evolve {ℓ} : {A : Type ℓ} → (A → Option A) → History A → ℕ → Option (History A)
unfolding for_range
evolve advance history steps =
    for_range steps 0
      (λ unused current. advance (state current) >>= λ next. some (after next current)) history

-- The function that `rule` returns.
unfoldable pub rule : ℤ → ℤ → ℤ → ℤ
rule birth alive neighbors =
    if eq_ℤ neighbors (pos 3) || (eq_ℤ alive (pos 1) && eq_ℤ neighbors (pos 2))
    then pos 1
    else if eq_ℤ alive (pos 0) && eq_ℤ neighbors birth
    then pos 1
    else pos 0

-- `(x + d - 1) % size`: the loops over -1, 0, 1 are loops over d = 0, 1, 2.
unfoldable pub wrap : ℕ → ℕ → ℕ → ℕ
wrap x d size = (x + size + d - 1) % size

-- The body of the loop over `dx`.
unfoldable pub add_neighbor : World → ℕ → ℕ → ℕ → ℕ → ℤ → Option ℤ
add_neighbor world x y dy dx neighbors = if dx == 1 && dy == 1 then some neighbors else (do
  cell ← get_elem? world.cells (wrap y dy world.height * world.width + wrap x dx world.width)
  some (neighbors +ℤ cell))

-- The loops over `dy` and `dx`.
unfoldable pub count_neighbors : World → ℕ → ℕ → Option ℤ
unfolding for_range add_neighbor
count_neighbors world x y =
    for_range 3 0 (λ dy sum. for_range 3 0 (add_neighbor world x y dy) sum) (pos 0)

-- The body of the inner loop, over `x`.
unfoldable pub next_cell : World → (ℤ → ℤ → ℤ) → ℕ → ℕ → List ℤ → Option (List ℤ)
unfolding count_neighbors
next_cell world decide y x cells = do
  neighbors ← count_neighbors world x y
  cell ← get_elem? world.cells (y * world.width + x)
  some (cells ++ decide cell neighbors ∷ [])

unfoldable pub step_with : World → (ℤ → ℤ → ℤ) → Option World
unfolding for_range next_cell
step_with world decide = do
  cells ←
      for_range world.height 0 (λ y row. for_range world.width 0 (next_cell world decide y) row) []
  some (record world { cells = cells; generation = world.generation + 1 })

unfoldable pub step : World → Option World
unfolding step_with rule
step world = step_with world (rule (pos 3))

-- The loop of `seed`, on the rounds left.
sow : ℕ → ℕ → List ℤ → List ℤ
sow zero entropy cells = cells
sow (suc n) entropy cells =
    let drawn = (entropy * 1664525 + 1013904223) % 4294967296 in
    sow n drawn (cells ++ (if ltb (drawn % 100) 28 then pos 1 else pos 0) ∷ [])

unfoldable pub seed : ℕ → ℕ → ℕ → World
unfolding sow
seed width height entropy = record {
  width = width;
  height = height;
  cells = sow (width * height) entropy [];
  generation = 0;
}

unfoldable pub simulate : World → ℕ → Option (History World)
simulate world steps = evolve step (first world) steps

-- The world that `fork` goes on from.
unfoldable pub flip_cell : World → ℤ → Option World
unfolding ◌+ℤ◌ ◌-ℤ◌
flip_cell world cell = do
  old ← get_item world.cells cell
  some (record world {
    cells = slice_to world.cells cell ++ ((pos 1 -ℤ old) ∷ slice_from world.cells (cell +ℤ pos 1));
  })

unfoldable pub fork : History World → ℤ → ℕ → Option (History World)
fork history cell steps = do
  changed ← flip_cell (state history) cell
  evolve step (replace_state changed history) steps
