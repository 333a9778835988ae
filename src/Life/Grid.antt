-- ===== src/Life/Grid.antt =====
-- The torus that a world's cells stand on: its coordinates, and the neighbours of a cell.
use purepy.Base.{
  ℕ, zero, suc, ◌+◌, ◌-◌, ◌*◌, ◌%◌, ◌<◌, some, List, [], ◌∷◌, ◌++◌, ◌≡◌, refl, ap, ◌∙◌, arith,
  false, ◌&&◌, ◌==◌, if◌then◌else◌, length, get_elem?, get_or, get_elem?-get_or, length-append,
  get_elem?-append_left, get_elem?-append_right, Bool-cases, inl, inr,
}
use mathlib.Core.Path.{ap₂}
use native.Mathlib.Nat.{mod-eq-sub-mod, mod-eq_of_lt}
use purepy.Base.Int.{ℤ, pos, ◌+ℤ◌}
use purepy.Base.Loops.{for_range, for_range_three}
use purepy.Life.{World, wrap, add_neighbor, count_neighbors}

-- A world holds one cell for each place of its grid.
pub record IsWorld (w : World) : Type 0 where
  pub filled : length w.cells ≡ w.width * w.height

-- The place before and the place after, on a circle.
abbrev pub before : ℕ → ℕ → ℕ
before x size = if x == 0 then size - 1 else x - 1

abbrev pub next : ℕ → ℕ → ℕ
next x size = if x + 1 == size then 0 else x + 1

-- A sum that passes the size once.
mod_once : (n size r : ℕ) → n ≡ size + r → r < size → n % size ≡ r
mod_once n size r e h =
    mod-eq-sub-mod (omega arith) ∙ ap (λ k. k % size) (omega arith) ∙ mod-eq_of_lt h

wrap_zero : (x size : ℕ) → x < size → wrap x 0 size ≡ before x size
unfolding wrap
wrap_zero zero size h = mod-eq_of_lt (omega arith) ∙ omega arith
wrap_zero (suc x) size h = mod_once _ size x (omega arith) (omega arith) ∙ ground arith

wrap_one : (x size : ℕ) → x < size → wrap x 1 size ≡ x
unfolding wrap
wrap_one x size h = mod_once _ size x (omega arith) h

wrap_two : (x size : ℕ) → x < size → wrap x 2 size ≡ next x size
unfolding wrap
wrap_two x size h = elim (Bool-cases (x + 1 == size)) [
  | inl last ↦ rw last (
      ap (λ k. k % size) (let e : x + size + 2 - 1 ≡ size + size = ground arith in e)
      ∙ mod-eq-sub-mod (omega arith)
      ∙ mod_once _ size 0 (omega arith) (omega arith))
  | inr more ↦ rw more (mod_once _ size (x + 1) (omega arith) (ground arith))
]

before-lt : (x size : ℕ) → x < size → before x size < size
before-lt x size h = ground arith

next-lt : (x size : ℕ) → x < size → next x size < size
next-lt x size h = ground arith

-- The cell in column `x` of row `y`.
abbrev pub at : World → ℕ → ℕ → ℤ
at w x y = get_or w.cells (y * w.width + x) (pos 0)

pub index_in_range : (x y w h : ℕ) → x < w → y < h → y * w + x < w * h
index_in_range x y w h p q = grind arith

pub get_elem?-at :
    (w : World) (x y : ℕ)
    → IsWorld w
    → x < w.width
    → y < w.height
    → get_elem? w.cells (y * w.width + x) ≡ some (at w x y)
get_elem?-at w x y v p q =
    get_elem?-get_or w.cells (y * w.width + x) (pos 0)
      (omega (arith, v.filled, index_in_range x y w.width w.height p q))

-- The sum of the eight cells around a place of the torus.
abbrev pub around : World → ℕ → ℕ → ℤ
around w x y =
    let west = before x w.width in
    let east = next x w.width in
    let north = before y w.height in
    let south = next y w.height in
    pos 0
    +ℤ at w west north
    +ℤ at w x north
    +ℤ at w east north
    +ℤ at w west y
    +ℤ at w east y
    +ℤ at w west south
    +ℤ at w x south
    +ℤ at w east south

-- A neighbour that is added, by its coordinates on the torus.
add_neighbor_lem :
    (w : World) (x y dx dy column line : ℕ) (sum : ℤ)
    → IsWorld w
    → wrap x dx w.width ≡ column
    → wrap y dy w.height ≡ line
    → column < w.width
    → line < w.height
    → (dx == 1 && dy == 1) ≡ false
    → add_neighbor w x y dy dx sum ≡ some (sum +ℤ at w column line)
unfolding add_neighbor
add_neighbor_lem w x y dx dy column line sum v e f p q side =
    rw (side, e, f, get_elem?-at w column line v p q)

add_neighbor_centre : (w : World) (x y : ℕ) (sum : ℤ) → add_neighbor w x y 1 1 sum ≡ some sum
unfolding add_neighbor
add_neighbor_centre w x y sum = refl

pub count_neighbors_lem :
    (w : World) (x y : ℕ)
    → IsWorld w
    → x < w.width
    → y < w.height
    → count_neighbors w x y ≡ some (around w x y)
unfolding count_neighbors
count_neighbors_lem w x y v p q =
    let west = before-lt x w.width p in
    let east = next-lt x w.width p in
    let north = before-lt y w.height q in
    let south = next-lt y w.height q in
    let column₀ = wrap_zero x w.width p in
    let column₁ = wrap_one x w.width p in
    let column₂ = wrap_two x w.width p in
    let row₀ = wrap_zero y w.height q in
    let row₁ = wrap_one y w.height q in
    let row₂ = wrap_two y w.height q in
    for_range_three (λ dy sum. for_range 3 0 (add_neighbor w x y dy) sum) (pos 0) _ _ _
      (for_range_three (add_neighbor w x y 0) (pos 0) _ _ _
        (add_neighbor_lem w x y 0 0 _ _ (pos 0) v column₀ row₀ west north refl)
        (add_neighbor_lem w x y 1 0 _ _ _ v column₁ row₀ p north refl)
        (add_neighbor_lem w x y 2 0 _ _ _ v column₂ row₀ east north refl))
      (for_range_three (add_neighbor w x y 1) _ _ _ _
        (add_neighbor_lem w x y 0 1 _ _ _ v column₀ row₁ west q refl) (add_neighbor_centre w x y _)
        (add_neighbor_lem w x y 2 1 _ _ _ v column₂ row₁ east q refl))
      (for_range_three (add_neighbor w x y 2) _ _ _ _
        (add_neighbor_lem w x y 0 2 _ _ _ v column₀ row₂ west south refl)
        (add_neighbor_lem w x y 1 2 _ _ _ v column₁ row₂ p south refl)
        (add_neighbor_lem w x y 2 2 _ _ _ v column₂ row₂ east south refl))

-- A row of a grid, from column `x` on, and the rows from `y` on.
abbrev pub row : ℕ → ℕ → (ℕ → ℤ) → List ℤ
row zero x f = []
row (suc n) x f = f x ∷ row n (x + 1) f

abbrev pub rows : ℕ → ℕ → ℕ → (ℕ → ℕ → ℤ) → List ℤ
rows width zero y f = []
rows width (suc n) y f = row width 0 (λ x. f x y) ++ rows width n (y + 1) f

pub length-row : (n x : ℕ) (f : ℕ → ℤ) → length (row n x f) ≡ n
length-row zero x f = refl
length-row (suc n) x f = ap suc (length-row n (x + 1) f)

pub length-rows : (width n y : ℕ) (f : ℕ → ℕ → ℤ) → length (rows width n y f) ≡ width * n
length-rows width zero y f = omega arith
length-rows width (suc n) y f =
    length-append (row width 0 (λ x. f x y)) _
    ∙ omega (arith, length-row width 0 (λ x. f x y), length-rows width n (y + 1) f)

get_elem?-row : (n x i : ℕ) (f : ℕ → ℤ) → i < n → get_elem? (row n x f) i ≡ some (f (x + i))
get_elem?-row zero x i f h = elim h [ ]
get_elem?-row (suc n) x zero f h = ap (λ k. some (f k)) (omega arith)
get_elem?-row (suc n) x (suc i) f h =
    get_elem?-row n (x + 1) i f (omega arith) ∙ ap (λ k. some (f k)) (omega arith)

pub get_elem?-rows :
    (width n y x i : ℕ) (f : ℕ → ℕ → ℤ)
    → x < width
    → i < n
    → get_elem? (rows width n y f) (i * width + x) ≡ some (f x (y + i))
get_elem?-rows width zero y x i f p q = elim q [ ]
get_elem?-rows width (suc n) y x zero f p q =
    let first = row width 0 (λ c. f c y) in
    let size = length-row width 0 (λ c. f c y) in
    ap (get_elem? (rows width (suc n) y f)) (omega arith)
    ∙ get_elem?-append_left first _ x (omega (arith, size))
    ∙ get_elem?-row width 0 x (λ c. f c y) p
    ∙ ap₂ (λ c r. some (f c r)) (omega arith) (omega arith)
get_elem?-rows width (suc n) y x (suc i) f p q =
    let first = row width 0 (λ c. f c y) in
    let size = length-row width 0 (λ c. f c y) in
    ap (get_elem? (rows width (suc n) y f)) (omega (arith, size))
    ∙ get_elem?-append_right first _ (i * width + x)
    ∙ get_elem?-rows width n (y + 1) x i f p (omega arith)
    ∙ ap (λ r. some (f x r)) (omega arith)
