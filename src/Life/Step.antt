-- ===== src/Life/Step.antt =====
-- A step of a world: it returns for every well-formed world, and gives each place its rule's value.
use purepy.Base.{
  ℕ, zero, suc, ◌+◌, ◌*◌, ◌<◌, some, List, [], ◌∷◌, ◌++◌, ◌≡◌, ◌↔◌, ◌⊎◌, refl, ap, ◌∙◌, sym, arith,
  get_elem?, append-nil, append_assoc, All, All-append,
}
use purepy.Base.Int.{ℤ, pos}
use purepy.Base.Loops.{for_range}
use purepy.Life.{World, rule, next_cell, step_with, step}
use purepy.Life.Grid.{
  IsWorld, at, around, get_elem?-at, count_neighbors_lem, row, rows, length-rows, get_elem?-rows,
}

-- The world that the rule `decide` makes of `w`.
abbrev pub successor : World → (ℤ → ℤ → ℤ) → World
successor w decide = record w {
  cells = rows w.width w.height 0 (λ x y. decide (at w x y) (around w x y));
  generation = w.generation + 1;
}

module _ (w : World) (decide : ℤ → ℤ → ℤ) (v : IsWorld w) where
  abbrev outcome : ℕ → ℕ → ℤ
  outcome x y = decide (at w x y) (around w x y)

  next_cell_lem :
      (x y : ℕ) (cells : List ℤ)
      → x < w.width
      → y < w.height
      → next_cell w decide y x cells ≡ some (cells ++ outcome x y ∷ [])
  unfolding next_cell
  next_cell_lem x y cells p q = rw (count_neighbors_lem w x y v p q, get_elem?-at w x y v p q)

  for_range-row :
      (n x y : ℕ) (cells : List ℤ)
      → x + n ≡ w.width
      → y < w.height
      → for_range n x (next_cell w decide y) cells ≡ some (cells ++ row n x (λ c. outcome c y))
  unfolding for_range
  for_range-row zero x y cells e q = ap some (sym (append-nil cells))
  for_range-row (suc n) x y cells e q =
      rw (next_cell_lem x y cells (omega arith) q, for_range)
        (for_range-row n (x + 1) y (cells ++ outcome x y ∷ []) (omega arith) q
          ∙ ap some (append_assoc cells (outcome x y ∷ []) _))

  for_range-rows :
      (n y : ℕ) (cells : List ℤ)
      → y + n ≡ w.height
      → for_range n y (λ line made. for_range w.width 0 (next_cell w decide line) made) cells
        ≡ some (cells ++ rows w.width n y outcome)
  unfolding for_range
  for_range-rows zero y cells e = ap some (sym (append-nil cells))
  for_range-rows (suc n) y cells e =
      rw (for_range-row w.width 0 y cells (omega arith) (omega arith), for_range)
        (for_range-rows n (y + 1) (cells ++ row w.width 0 (λ c. outcome c y)) (omega arith)
          ∙ ap some (append_assoc cells _ _))

  -- On a well-formed world no index is out of range, and every place gets the value that the rule
  -- decides for its cell and the sum of its eight neighbours on the torus.
  pub step_with_lem : step_with w decide ≡ some (successor w decide)
  unfolding step_with
  step_with_lem = rw (for_range-rows w.height 0 [] (omega arith))

  pub successor-IsWorld : IsWorld (successor w decide)
  successor-IsWorld = record { filled = length-rows w.width w.height 0 outcome }

  -- The same, read off the new world: its size is kept, its generation is the next, it is
  -- well formed, and the cell at each place of the grid is what the rule decides there.
  pub step_with_total :
      (next : World) × (step_with w decide ≡ some next)
      × (next.width ≡ w.width)
      × (next.height ≡ w.height)
      × (next.generation ≡ w.generation + 1)
      × IsWorld next
      × ((x y : ℕ)
          → x < w.width
          → y < w.height
          → get_elem? next.cells (y * w.width + x) ≡ some (decide (at w x y) (around w x y)))
  step_with_total = (
    successor w decide,
    step_with_lem,
    refl,
    refl,
    refl,
    successor-IsWorld,
    λ x y p q.
        get_elem?-rows w.width w.height 0 x y outcome p q
        ∙ ap (λ r. some (outcome x r)) (omega arith),
  )

-- A cell that is dead or alive.
abbrev pub IsCell : ℤ → Type 0
IsCell c = (c ≡ pos 0) ⊎ (c ≡ pos 1)

-- Conway's rule: of a dead or a live cell, `rule(3)` makes a live one exactly if three neighbours
-- live, or two do and the cell does; and otherwise a dead one.
pub rule_conway :
    (alive neighbors : ℤ)
    → IsCell alive
    → IsCell (rule (pos 3) alive neighbors)
      × ((rule (pos 3) alive neighbors ≡ pos 1)
          ↔ (neighbors ≡ pos 3) ⊎ ((alive ≡ pos 1) × (neighbors ≡ pos 2)))
unfolding rule
rule_conway alive neighbors h = (ground arith, (λ made. ground arith, λ wanted. ground arith))

rule-IsCell : (birth alive neighbors : ℤ) → IsCell (rule birth alive neighbors)
unfolding rule
rule-IsCell birth alive neighbors = ground arith

All-row : (P : ℤ → Type 0) (n x : ℕ) (f : ℕ → ℤ) → ((c : ℕ) → P (f c)) → All P (row n x f)
All-row P zero x f h = tt
All-row P (suc n) x f h = (h x, All-row P n (x + 1) f h)

All-rows :
    (P : ℤ → Type 0) (width n y : ℕ) (f : ℕ → ℕ → ℤ)
    → ((c r : ℕ) → P (f c r))
    → All P (rows width n y f)
All-rows P width zero y f h = tt
All-rows P width (suc n) y f h =
    All-append P (row width 0 (λ c. f c y)) _ (All-row P width 0 (λ c. f c y) (λ c. h c y))
      (All-rows P width n (y + 1) f h)

-- A world of dead and live cells.
pub record IsLife (w : World) : Type 0 where
  pub world : IsWorld w
  pub binary : All IsCell w.cells

-- A step of a world of dead and live cells returns such a world, of the same size and of the next
-- generation.
pub step-IsLife :
    (w : World)
    → IsLife w
    → (next : World) × (step w ≡ some next)
      × IsLife next
      × (next.width ≡ w.width)
      × (next.height ≡ w.height)
      × (next.generation ≡ w.generation + 1)
unfolding step
step-IsLife w h =
    let decide = rule (pos 3) in
    (
      successor w decide,
      step_with_lem w decide h.world,
      record {
        world = successor-IsWorld w decide h.world;
        binary =
            All-rows IsCell w.width w.height 0 _
              (λ c r. rule-IsCell (pos 3) (at w c r) (around w c r));
      },
      refl,
      refl,
      refl,
    )
