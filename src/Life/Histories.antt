-- ===== src/Life/Histories.antt =====
-- Histories: `evolve` records every generation on top of the history that it was given.
use purepy.Base.{
  ℕ, zero, suc, Bool, true, false, if◌then◌else◌, ◌+◌, ◌*◌, ◌%◌, Option, some, List, [], ◌∷◌, ◌++◌,
  ◌≡◌, inl, inr, refl, ap, sym, subst, ◌∙◌, arith, ltb, length, length-append, All, All-append,
}
use purepy.Base.Int.{ℤ, pos}
use purepy.Base.Loops.{for_range_total}
use purepy.Life.{World, History, first, after, state, evolve, sow, seed, step, simulate}
use purepy.Life.Step.{IsCell, IsLife, step-IsLife}

module _ {ℓ} {A : Type ℓ} where
  -- `Grown advance old n h`: `h` holds `n` states above `old`, each made by `advance` from the one
  -- below it.
  pub data Grown (advance : A → Option A) (old : History A) : ℕ → History A → Type ℓ where
    same : Grown advance old 0 old
    grow :
        {n : ℕ} {m : ℕ} {h : History A} {next : A}
        → Grown advance old n h
        → advance (state h) ≡ some next
        → m ≡ n + 1
        → Grown advance old m (after next h)

  -- If `advance` never raises on the states that satisfy `P`, and gives such a state again, then
  -- `evolve` returns, for every number of steps, the history with that many new states on top of
  -- the old history, each the advance of the one below it.
  pub evolve-Grown {κ} :
      (P : A → Type κ) (advance : A → Option A) (old : History A) (steps : ℕ)
      → ((a : A) → P a → (b : A) × (advance a ≡ some b) × P b)
      → P (state old)
      → (h : History A) × (evolve advance old steps ≡ some h)
        × Grown advance old steps h
        × P (state h)
  unfolding evolve
  evolve-Grown P advance old steps total start =
      let (h, ran, both) =
        for_range_total (λ i h. Grown advance old i h × P (state h)) _ steps 0 steps old
          (omega arith)
          (λ k h below (grown, good).
            let (next, made, kept) = total (state h) good in
            (after next h, rw made, (grow grown made refl, kept)))
          (same, start) in
      (h, ran, both.0, both.1)

if-IsCell : (live : Bool) → IsCell (if live then pos 1 else pos 0)
if-IsCell true = inr refl
if-IsCell false = inl refl

sow-All : (n entropy : ℕ) (cells : List ℤ) → All IsCell cells → All IsCell (sow n entropy cells)
unfolding sow
sow-All zero entropy cells h = h
sow-All (suc n) entropy cells h =
    let drawn = (entropy * 1664525 + 1013904223) % 4294967296 in
    sow-All n drawn _ (All-append IsCell cells _ h (if-IsCell (ltb (drawn % 100) 28), tt))

length-sow : (n entropy : ℕ) (cells : List ℤ) → length (sow n entropy cells) ≡ length cells + n
unfolding sow
length-sow zero entropy cells = omega arith
length-sow (suc n) entropy cells =
    let drawn = (entropy * 1664525 + 1013904223) % 4294967296 in
    let cell : ℤ = if ltb (drawn % 100) 28 then pos 1 else pos 0 in
    length-sow n drawn (cells ++ cell ∷ []) ∙ omega (arith, length-append cells (cell ∷ []))

-- A seeded world is well formed, of dead and live cells, and of generation 0.
pub seed-IsLife :
    (width height entropy : ℕ)
    → IsLife (seed width height entropy) × ((seed width height entropy).generation ≡ 0)
unfolding seed
seed-IsLife width height entropy = (
  record {
    world = record { filled = length-sow (width * height) entropy [] ∙ omega arith };
    binary = sow-All (width * height) entropy [] tt;
  },
  refl,
)

-- A history grown by `step` from a world of dead and live cells ends in such a world, of the same
-- size, and its generation counts the steps.
pub Grown-step :
    {old : History World} {n : ℕ} {h : History World}
    → Grown step old n h
    → IsLife (state old)
    → IsLife (state h)
      × ((state h).generation ≡ (state old).generation + n)
      × ((state h).width ≡ (state old).width)
      × ((state h).height ≡ (state old).height)
Grown-step same life = (life, omega arith, refl, refl)
Grown-step (grow {h = h} {next = next'} grown made more) life =
    let (fine, generation, width, height) = Grown-step grown life in
    let (next, made', kept, width', height', generation') = step-IsLife (state h) fine in
    let same_world : next ≡ next' = cc in
    (
      subst IsLife same_world kept,
      ap (λ w. w.generation) (sym same_world) ∙ omega arith,
      ap (λ w. w.width) (sym same_world) ∙ width' ∙ width,
      ap (λ w. w.height) (sym same_world) ∙ height' ∙ height,
    )

-- `simulate` returns for every world of dead and live cells and every number of steps: a history
-- whose states above the first are each the step of the one below, and whose last state is again
-- such a world, of the same size, `steps` generations on.
pub simulate_lem :
    (w : World) (steps : ℕ)
    → IsLife w
    → (h : History World) × (simulate w steps ≡ some h)
      × Grown step (first w) steps h
      × IsLife (state h)
      × ((state h).generation ≡ w.generation + steps)
      × ((state h).width ≡ w.width)
      × ((state h).height ≡ w.height)
unfolding simulate
simulate_lem w steps life =
    let (h, ran, grown, fine) =
      evolve-Grown IsLife step (first w) steps
        (λ a good. let (b, made, kept, _, _, _) = step-IsLife a good in (b, made, kept)) life in
    let (fine', generation, width, height) = Grown-step grown life in
    (h, ran, grown, fine', generation, width, height)
