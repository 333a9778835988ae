-- ===== src/Life/Forks.antt =====
-- `fork`: one cell of the last world is flipped, and the history goes on from there.
use purepy.Base.{
  ℕ, zero, suc, ◌+◌, ◌-◌, ◌<◌, some, List, [], ◌∷◌, ◌++◌, ◌≡◌, refl, ap, sym, subst, ◌∙◌, arith,
  inl, inr, length, length-append, get_elem?, get_elem?-lt, lt_of_get_elem?, lt→ltb, take, drop,
  All, All-get_elem?, length-take,
}
use purepy.Base.Int.{ℤ, pos, negsuc, ◌+ℤ◌, ◌-ℤ◌, pos-next}
use purepy.Life.{World, History, first, after, state, replace_state, step, flip_cell, fork}
use purepy.Life.Grid.{IsWorld}
use purepy.Life.Step.{IsCell, IsLife, step-IsLife}
use purepy.Life.Histories.{Grown, evolve-Grown}

module _ {ℓ} {A : Type ℓ} where
  -- A write out of bounds changes nothing.
  abbrev pub set : List A → ℕ → A → List A
  set [] i v = []
  set (x ∷ xs) zero v = v ∷ xs
  set (x ∷ xs) (suc i) v = x ∷ set xs i v

  set-eq-slices :
      (xs : List A) (i : ℕ) (v : A)
      → i < length xs
      → take i xs ++ (v ∷ drop (i + 1) xs) ≡ set xs i v
  set-eq-slices [] i v h = elim h [ ]
  set-eq-slices (x ∷ xs) zero v h = ground arith
  set-eq-slices (x ∷ xs) (suc i) v h =
      ap (λ n. x ∷ (take i xs ++ (v ∷ drop n (x ∷ xs))))
        (let e : suc i + 1 ≡ suc (i + 1) = omega arith in e)
      ∙ ap (λ l. x ∷ l) (set-eq-slices xs i v (omega arith))

  length-set : (xs : List A) (i : ℕ) (v : A) → length (set xs i v) ≡ length xs
  length-set [] i v = refl
  length-set (x ∷ xs) zero v = refl
  length-set (x ∷ xs) (suc i) v = ap suc (length-set xs i v)

All-set :
    {A : Type 0} (P : A → Type 0) (xs : List A) (i : ℕ) (v : A)
    → P v
    → All P xs
    → All P (set xs i v)
All-set P [] i v p h = h
All-set P (x ∷ xs) zero v p h = (p, h.1)
All-set P (x ∷ xs) (suc i) v p h = (h.0, All-set P xs i v p h.1)

flip-IsCell : (c : ℤ) → IsCell c → IsCell (pos 1 -ℤ c)
unfolding ◌-ℤ◌
flip-IsCell c (inl e) = rw e (inr refl)
flip-IsCell c (inr e) = rw e (inl refl)

-- With an index from the front, `flip_cell` puts 1 - c in place of the cell c at that index.
flip_cell_lem :
    (w : World) (i : ℕ) (old : ℤ)
    → i < length w.cells
    → get_elem? w.cells i ≡ some old
    → flip_cell w (pos i) ≡ some (record w { cells = set w.cells i (pos 1 -ℤ old) })
unfolding flip_cell
flip_cell_lem w i old h found =
    rw (found, pos-next i) (ap (λ c. some (record w { cells = c })) (set-eq-slices w.cells i _ h))

negsuc-next : (i : ℕ) → negsuc (suc i) +ℤ pos 1 ≡ negsuc i
unfolding ◌+ℤ◌
negsuc-next i = ground arith

-- An index from the end names the same cell from the front, unless it is the last cell.
flip_cell_from_end :
    (w : World) (i : ℕ) (old : ℤ)
    → suc i < length w.cells
    → get_elem? w.cells (length w.cells - suc (suc i)) ≡ some old
    → flip_cell w (negsuc (suc i))
      ≡ some (record w { cells = set w.cells (length w.cells - suc (suc i)) (pos 1 -ℤ old) })
unfolding flip_cell
flip_cell_from_end w i old h found =
    let next : length w.cells - suc i ≡ length w.cells - suc (suc i) + 1 = omega arith in
    rw (lt→ltb _ _ h, found, negsuc-next i, next)
      (ap (λ c. some (record w { cells = c })) (set-eq-slices w.cells _ _ (omega arith)))

state-replace_state : (s : World) (history : History World) → state (replace_state s history) ≡ s
state-replace_state s (first _) = refl
state-replace_state s (after _ _) = refl

set-IsLife :
    (w : World) (i : ℕ) (old : ℤ)
    → IsLife w
    → get_elem? w.cells i ≡ some old
    → IsLife (record w { cells = set w.cells i (pos 1 -ℤ old) })
set-IsLife w i old life found = record {
  world = record { filled = length-set w.cells i (pos 1 -ℤ old) ∙ life.world.filled };
  binary =
      All-set IsCell w.cells i (pos 1 -ℤ old)
        (flip-IsCell old (All-get_elem? IsCell w.cells i old found life.binary)) life.binary;
}

-- `fork` returns for every history that ends in a world of dead and live cells, every index of a
-- cell from the front and every number of steps: the last world is replaced by one in which that
-- cell alone is flipped (1 - c for c), and each state above is the step of the one below.
pub fork_lem :
    (history : History World) (i steps : ℕ) (old : ℤ)
    → IsLife (state history)
    → get_elem? (state history).cells i ≡ some old
    → (h : History World) × (fork history (pos i) steps ≡ some h)
      × Grown step
          (replace_state
            (record (state history) { cells = set (state history).cells i (pos 1 -ℤ old) })
            history)
          steps
          h
      × IsLife (state h)
unfolding fork
fork_lem history i steps old life found =
    let w = state history in
    let cells = set w.cells i (pos 1 -ℤ old) in
    let changed : World = record w { cells = cells } in
    let flipped : flip_cell w (pos i) ≡ some changed =
      flip_cell_lem w i old (lt_of_get_elem? w.cells i old found) found in
    let top : state (replace_state changed history) ≡ changed =
      state-replace_state changed history in
    let (h, ran, grown, fine) =
      evolve-Grown IsLife step (replace_state changed history) steps
        (λ a good. let (b, made, kept, _, _, _) = step-IsLife a good in (b, made, kept))
        (subst IsLife (sym top) (set-IsLife w i old life found)) in
    (h, rw flipped ran, grown, fine)

-- Where the source slices at -1, the tail `cells[cell + 1:]` is `cells[0:]`: on a world that has
-- cells, the index -1 gives a world with twice as many, and not a well-formed one.
pub fork_at_minus_one :
    (w : World)
    → IsLife w
    → 0 < length w.cells
    → (changed : World) × (flip_cell w (negsuc 0) ≡ some changed)
      × (length changed.cells ≡ length w.cells + length w.cells)
      × ¬ (IsWorld changed)
unfolding flip_cell
fork_at_minus_one w life some_cell =
    let (old, found) = get_elem?-lt w.cells (length w.cells - 1) (omega arith) in
    let changed : World = record w {
      cells = take (length w.cells - 1) w.cells ++ ((pos 1 -ℤ old) ∷ w.cells);
    } in
    let doubled : length changed.cells ≡ length w.cells + length w.cells =
      length-append (take (length w.cells - 1) w.cells) _
      ∙ omega (arith, length-take (length w.cells - 1) w.cells) in
    (
      changed,
      rw (lt→ltb _ _ some_cell, found),
      doubled,
      λ world. omega (arith, doubled, world.filled, life.world.filled),
    )
