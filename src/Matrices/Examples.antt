-- ===== src/Matrices/Examples.antt =====
-- Runs of the programs of "2 work".
use home_work.Base.{ℕ, ◌≡◌, ◌+◌, ◌-◌, ◌*◌, refl, Option, arith, none, some, if◌then◌else◌, leb}
use home_work.Matrices.{Fill, fill_spiral, number_matrix, corner_matrix, max_size}
use home_work.Matrices.Rows.{Written, matrices-Written}
use home_work.Matrices.Rings.{in_square, spiral_value}
use home_work.Matrices.Spiral.{fill_spiral-spiral}

abbrev zeros : (i j : ℕ) → ℕ
zeros i j = 0

fill_spiral-spiral_example :
    (final : Fill) × (fill_spiral 3 zeros ≡ some final)
    × (final.value ≡ 3 * 3 + 1)
    × ((i j : ℕ)
        → final.cells i j ≡ (if in_square 0 3 i j then spiral_value 3 1 0 i j else zeros i j))
fill_spiral-spiral_example = fill_spiral-spiral 3 zeros (omega arith)

-- 1 2 3 / 8 9 4 / 7 6 5
abbrev cell : (i j : ℕ) → Option Fill → ℕ
cell i j none = 0
cell i j (some s) = s.cells i j

middle_of_three : cell 1 1 (fill_spiral 3 zeros) ≡ 9
unfolding fill_spiral
middle_of_three = refl

corner_of_three : cell 2 0 (fill_spiral 3 zeros) ≡ 7
unfolding fill_spiral
corner_of_three = refl

matrices-Written_example :
    Written
      (leb 2 max_size)
      (number_matrix 2 zeros)
      (1 + 2 * 2)
      (λ i j. if in_square 0 2 i j then 1 + i * 2 + j else zeros i j)
    × Written
        (leb 2 max_size)
        (corner_matrix 2 zeros)
        1
        (λ i j. if in_square 0 2 i j then (if leb (2 - 1) (i + j) then 1 else 0) else zeros i j)
matrices-Written_example = matrices-Written 2 zeros
