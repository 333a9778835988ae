-- ===== src/Life/Examples.antt =====
-- Tests of the cellular worlds, and the theorems at concrete worlds.
use purepy.Base.{
  ◌+◌, ◌*◌, ◌<◌, ◌≡◌, ℕ, refl, some, none, List, [], ◌∷◌, inl, inr, get_elem?, length, arith,
}
use purepy.Base.Int.{ℤ, pos, negsuc, ◌+ℤ◌, ◌-ℤ◌}
use purepy.Life.{
  World, History, first, after, state, replace_state, evolve, rule, wrap, step_with, step, seed,
  simulate, flip_cell, fork,
}
use purepy.Life.Grid.{IsWorld, at, around}
use purepy.Life.Step.{IsLife, step_with_total}
use purepy.Life.Histories.{Grown, simulate_lem}
use purepy.Life.Forks.{set, fork_lem, fork_at_minus_one}

abbrev dead : ℤ
dead = pos 0

abbrev live : ℤ
live = pos 1

abbrev row_of_three : List ℤ
row_of_three =
    dead ∷ dead ∷ dead ∷ dead ∷ live ∷ live ∷ live ∷ dead ∷ dead ∷ dead ∷ dead ∷ dead ∷ dead ∷ dead
    ∷ dead ∷ dead ∷ []

abbrev blinker : World
blinker = record { width = 4; height = 4; cells = row_of_three; generation = 0 }

blinker-IsLife : IsLife blinker
blinker-IsLife = record {
  world = record { filled = refl };
  binary = (
    inl refl,
    (
      inl refl,
      (
        inl refl,
        (
          inl refl,
          (
            inr refl,
            (
              inr refl,
              (
                inr refl,
                (
                  inl refl,
                  (
                    inl refl,
                    (
                      inl refl,
                      (inl refl, (inl refl, (inl refl, (inl refl, (inl refl, (inl refl, tt)))))),
                    ),
                  ),
                ),
              ),
            ),
          ),
        ),
      ),
    ),
  );
}

-- Two steps bring the blinker back, two generations later.
blinker_test :
    simulate blinker 2
    ≡ some (
        after
          (record blinker { generation = 2 })
          (after
            (record {
              width = 4;
              height = 4;
              cells =
                  dead ∷ live ∷ dead ∷ dead ∷ dead ∷ live ∷ dead ∷ dead ∷ dead ∷ live ∷ dead ∷ dead
                  ∷ dead ∷ dead ∷ dead ∷ dead ∷ [];
              generation = 1;
            })
            (first blinker)))
unfolding simulate evolve step wrap ◌+ℤ◌
blinker_test = refl

seed_test : (seed 2 2 7).cells ≡ dead ∷ dead ∷ dead ∷ dead ∷ []
unfolding seed
seed_test = refl

-- A world with too few cells: the index is out of range.
step_raises : step (record { width = 2; height = 2; cells = live ∷ []; generation = 0 }) ≡ none
unfolding step wrap
step_raises = refl

step_with_total_example :
    (next : World) × (step_with blinker (rule (pos 6)) ≡ some next)
    × (next.width ≡ 4)
    × (next.height ≡ 4)
    × (next.generation ≡ 0 + 1)
    × IsWorld next
    × ((x y : ℕ)
        → x < 4
        → y < 4
        → get_elem? next.cells (y * 4 + x)
          ≡ some (rule (pos 6) (at blinker x y) (around blinker x y)))
step_with_total_example = step_with_total blinker (rule (pos 6)) blinker-IsLife.world

simulate_lem_example :
    (h : History World) × (simulate blinker 9 ≡ some h)
    × Grown step (first blinker) 9 h
    × IsLife (state h)
    × ((state h).generation ≡ 0 + 9)
    × ((state h).width ≡ 4)
    × ((state h).height ≡ 4)
simulate_lem_example = simulate_lem blinker 9 blinker-IsLife

fork_lem_example :
    (h : History World) × (fork (first blinker) (pos 5) 3 ≡ some h)
    × Grown step
        (replace_state
          (record blinker { cells = set blinker.cells 5 (pos 1 -ℤ live) })
          (first blinker))
        3
        h
    × IsLife (state h)
fork_lem_example = fork_lem (first blinker) 5 3 live blinker-IsLife refl

fork_at_minus_one_example :
    (changed : World) × (flip_cell blinker (negsuc 0) ≡ some changed)
    × (length changed.cells ≡ length blinker.cells + length blinker.cells)
    × ¬ (IsWorld changed)
fork_at_minus_one_example = fork_at_minus_one blinker blinker-IsLife (omega arith)
