-- ===== src/Matrices/Spiral.antt =====
-- The spiral of "2 work/task4.c": the rounds of `fillSpiral`, one ring after another.
use home_work.Base.{
  ℕ, zero, suc, ◌+◌, ◌-◌, ◌*◌, ◌<◌, ◌≤◌, ◌≡◌, refl, ap, ◌∙◌, some, true, false, if◌then◌else◌, leb,
  arith, sym, Bool-cases, inl, inr, lt→ltb, ltb,
}
use mathlib.Core.Path.{subst}
use native.Mathlib.Nat.{mul-le-mul}
use home_work.Matrices.{Fill, round, spiral_loop, fill_spiral, ◌>>=◌}
use home_work.Matrices.Segments.{Filled, then_Filled, recast, nothing-Filled}
use home_work.Matrices.Rings.{in_square, spiral_value, ring_filled, round-Filled, middle-Filled}

square_step : (side : ℕ) → suc (suc side) * suc (suc side) ≡ side * side + 4 * (side + 1)
square_step side = grind arith

middle_value :
    (k : ℕ) (s : Fill) (a b : ℕ)
    → (if in_square k 1 a b then s.value else s.cells a b)
      ≡ (if in_square k 1 a b then spiral_value 1 s.value k a b else s.cells a b)
unfolding spiral_value
middle_value k s a b = refl

loop_step :
    (rounds size k b b' : ℕ) (s : Fill)
    → leb s.value (size * size) ≡ true
    → b - 1 ≡ b'
    → spiral_loop (suc rounds) size k b k b s
      ≡ (round size k b k b s >>= spiral_loop rounds size (k + 1) b' (k + 1) b')
unfolding spiral_loop
loop_step rounds size k b b' s more e =
    rw more (ap (λ x. round size k b k b s >>= spiral_loop rounds size (k + 1) x (k + 1) x) e)

-- When every number is written, the loop ends, whatever its bounds are.
finished-Filled :
    (rounds size top bottom left right : ℕ) (s : Fill)
    → s.value ≡ size * size + 1
    → Filled (spiral_loop (suc rounds) size top bottom left right s) (size * size + 1) s.cells
unfolding spiral_loop
finished-Filled rounds size top bottom left right s e =
    let done : leb s.value (size * size) ≡ false = ground arith in
    rw done (recast (nothing-Filled s) e λ a b. refl)

inner_value :
    (side value k a b : ℕ)
    → in_square (k + 1) side a b ≡ true
    → spiral_value (suc (suc side)) value k a b
      ≡ spiral_value side (value + 4 * (side + 1)) (k + 1) a b
unfolding spiral_value
inner_value side value k a b h = ground arith

abbrev square_filled : (side value k : ℕ) (cells : (a b : ℕ) → ℕ) → (a b : ℕ) → ℕ
square_filled side value k cells a b =
    if in_square k side a b then spiral_value side value k a b else cells a b

-- A ring, and the square inside.
ring_and_square :
    (side value k : ℕ) (cells : (a b : ℕ) → ℕ) (a b : ℕ)
    → square_filled side (value + 4 * (side + 1)) (k + 1) (ring_filled side value k cells) a b
      ≡ square_filled (suc (suc side)) value k cells a b
ring_and_square side value k cells a b = elim (Bool-cases (in_square (k + 1) side a b)) [
  | inl h ↦
      let outer : in_square k (suc (suc side)) a b ≡ true = ground arith in
      rw (h, outer) (sym (inner_value side value k a b h))
  | inr h ↦ let same : k + (side + 2) ≡ k + suc (suc side) = omega arith in rw (h, same) refl
]

square_cells :
    (side k : ℕ) (s s' : Fill) (a b : ℕ)
    → s'.value ≡ s.value + 4 * (side + 1)
    → ((a b : ℕ) → s'.cells a b ≡ ring_filled side s.value k s.cells a b)
    → square_filled side s'.value (k + 1) s'.cells a b
      ≡ square_filled (suc (suc side)) s.value k s.cells a b
square_cells side k s s' a b e c = rw (e, c a b) (ring_and_square side s.value k s.cells a b)

-- The loop on the square of `side` at the corner `k`, when the numbers left are as many as its cells.
spiral_loop-Filled :
    (rounds size side k : ℕ) (s : Fill)
    → side < rounds
    → k + side ≤ size
    → s.value + side * side ≡ size * size + 1
    → Filled
        (spiral_loop rounds size k (k + side) k (k + side) s)
        (size * size + 1)
        (square_filled side s.value k s.cells)
unfolding spiral_loop
spiral_loop-Filled zero size side k s r h e = absurd (omega arith)
spiral_loop-Filled (suc rounds) size zero k s r h e =
    recast (finished-Filled rounds size k (k + 0) k (k + 0) s (omega arith)) refl
      λ a b. ground arith
spiral_loop-Filled (suc zero) size (suc side) k s r h e = absurd (omega arith)
spiral_loop-Filled (suc (suc rounds)) size (suc zero) k s r h e =
    let more : leb s.value (size * size) ≡ true = ground arith in
    rw more (
      then_Filled (spiral_loop (suc rounds) size (k + 1) (k + 1 - 1) (k + 1) (k + 1 - 1))
        (middle-Filled size k s (omega arith))
        λ s' e' c.
          recast
            (finished-Filled rounds size (k + 1) (k + 1 - 1) (k + 1) (k + 1 - 1) s' (omega arith))
            refl λ a b. c a b ∙ middle_value k s a b)
spiral_loop-Filled (suc (suc rounds)) size (suc (suc side)) k s r h e =
    let squares : suc (suc side) * suc (suc side) ≡ side * side + 4 * (side + 1) =
      square_step side in
    let more : leb s.value (size * size) ≡ true = ground arith in
    let outer : k + suc (suc side) ≡ k + side + 2 = omega arith in
    let inner : k + side + 2 - 1 ≡ k + 1 + side = omega arith in
    subst
      (λ b.
        Filled (spiral_loop (suc (suc rounds)) size k b k b s) (size * size + 1)
          (square_filled (suc (suc side)) s.value k s.cells))
      (sym outer)
      (subst (λ r. Filled r (size * size + 1) (square_filled (suc (suc side)) s.value k s.cells))
        (sym (loop_step (suc rounds) size k (k + side + 2) (k + 1 + side) s more inner))
        (then_Filled (spiral_loop (suc rounds) size (k + 1) (k + 1 + side) (k + 1) (k + 1 + side))
          (round-Filled size side k s (omega arith))
          λ s' e' c.
            recast
              (spiral_loop-Filled (suc rounds) size side (k + 1) s' (omega arith) (omega arith)
                (omega arith))
              refl λ a b. square_cells side k s s' a b e' c))

square_fits : (size : ℕ) → size ≤ 46340 → size * size < 2147483648
square_fits size h = omega (arith, mul-le-mul h h)

-- On a matrix of `size` rows and columns, 46340 at most, no product overflows, no access is outside it, the
-- loop ends with the numbers 1 to `size * size` written, each cell of the square holds the number that the
-- spiral gives it, and no other cell is changed.
pub fill_spiral-spiral :
    (size : ℕ) (matrix : (i j : ℕ) → ℕ)
    → size ≤ 46340
    → (final : Fill) × (fill_spiral size matrix ≡ some final)
      × (final.value ≡ size * size + 1)
      × ((i j : ℕ)
          → final.cells i j
            ≡ (if in_square 0 size i j then spiral_value size 1 0 i j else matrix i j))
unfolding fill_spiral
fill_spiral-spiral size matrix few =
    let fits : ltb (size * size) 2147483648 ≡ true =
      lt→ltb (size * size) 2147483648 (square_fits size few) in
    let start : Fill = record { value = 1; cells = matrix } in
    let h : Filled (spiral_loop (size + 1) size 0 size 0 size start) (size * size + 1)
        (square_filled size 1 0 matrix) =
      subst
        (λ n.
          Filled (spiral_loop (size + 1) size 0 n 0 n start) (size * size + 1)
            (square_filled size 1 0 matrix))
        (omega arith)
        (spiral_loop-Filled (size + 1) size size 0 start (omega arith) (omega arith)
          (omega arith)) in
    (h.final, rw fits h.ends, h.value_is, h.cells_are)
