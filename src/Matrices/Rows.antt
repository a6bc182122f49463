-- ===== src/Matrices/Rows.antt =====
-- The matrices of "2 work/task1.c" and "2 work/task3.c", row by row.
use home_work.Base.{
  ℕ, zero, suc, ◌+◌, ◌-◌, ◌*◌, ◌<◌, ◌≤◌, ◌≡◌, refl, none, Bool, true, false, Option, if◌then◌else◌,
  ltb, leb, ◌==◌, ◌&&◌, arith, lt→ltb, leb→le, Bool-cases, inl, inr,
}
use home_work.Matrices.{
  Fill, go_right, store, number_rows, number_matrix, max_size, update, corner_cell, corner_row,
  corner_rows, corner_matrix,
}
use home_work.Matrices.Segments.{
  Filled, within, then_Filled, recast, nothing-Filled, go_right-Filled,
}
use home_work.Matrices.Rings.{in_square}

-- The cells after the rows from `i` on, `left` of them.
abbrev numbered : (size i left value : ℕ) (cells : (a b : ℕ) → ℕ) → (a b : ℕ) → ℕ
numbered size i left value cells a b =
    if within i left a && within 0 size b then value + (a - i) * size + b else cells a b

one_more_row :
    (size i left : ℕ) (s s' : Fill)
    → s'.value ≡ s.value + size
    → ((a b : ℕ)
        → s'.cells a b ≡ (if (a == i) && within 0 size b then s.value + (b - 0) else s.cells a b))
    → (a b : ℕ)
    → numbered size (i + 1) left s'.value s'.cells a b
      ≡ numbered size i (suc left) s.value s.cells a b
one_more_row size i left s s' e c a b = elim (Bool-cases (ltb i a)) [
  | inl h ↦
      let step : a - i ≡ a - (i + 1) + 1 = ground arith in
      let rows : (a - i) * size ≡ (a - (i + 1)) * size + size = rw step (grind arith) in
      ground (arith, c a b, rows, e)
  | inr h ↦
      let first : a - i ≡ 0 = ground arith in
      let rows : (a - i) * size ≡ 0 = rw first (grind arith) in ground (arith, c a b, rows, e)
]

number_rows-Filled :
    (size i left : ℕ) (s : Fill)
    → size ≤ max_size
    → i + left ≤ max_size
    → Filled
        (number_rows size i left s)
        (s.value + left * size)
        (numbered size i left s.value s.cells)
unfolding number_rows
number_rows-Filled size i zero s h k = recast (nothing-Filled s) (grind arith) λ a b. ground arith
number_rows-Filled size i (suc left) s h k =
    then_Filled (number_rows size (i + 1) left)
      (go_right-Filled max_size i 0 size s (omega arith) (omega arith))
      λ s' e c.
        recast (number_rows-Filled size (i + 1) left s' h (omega arith)) (grind (arith, e))
          (one_more_row size i left s s' e c)

abbrev cornered : (size i left : ℕ) (cells : (a b : ℕ) → ℕ) → (a b : ℕ) → ℕ
cornered size i left cells a b =
    if within i left a && within 0 size b then corner_cell size a b else cells a b

corner_row-Filled :
    (size i j left : ℕ) (s : Fill)
    → i < max_size
    → j + left ≤ max_size
    → Filled
        (corner_row size i j left s)
        s.value
        (λ a b. if (a == i) && within j left b then corner_cell size i b else s.cells a b)
unfolding corner_row
corner_row-Filled size i j zero s h k = recast (nothing-Filled s) refl λ a b. ground arith
corner_row-Filled size i j (suc left) s h k =
    let here : ltb i max_size ≡ true = lt→ltb i max_size h in
    let there : ltb j max_size ≡ true = lt→ltb j max_size (omega arith) in
    rw (here, there)
      (recast
        (corner_row-Filled size i (j + 1) left
          (record { value = s.value; cells = update s.cells i j (corner_cell size i j) }) h
          (omega arith))
        refl λ a b. ground arith)

corner_rows-Filled :
    (size i left : ℕ) (s : Fill)
    → size ≤ max_size
    → i + left ≤ max_size
    → Filled (corner_rows size i left s) s.value (cornered size i left s.cells)
unfolding corner_rows
corner_rows-Filled size i zero s h k = recast (nothing-Filled s) refl λ a b. ground arith
corner_rows-Filled size i (suc left) s h k =
    then_Filled (corner_rows size (i + 1) left)
      (corner_row-Filled size i 0 size s (omega arith) (omega arith))
      λ s' e c.
        recast (corner_rows-Filled size (i + 1) left s' h (omega arith)) e
          λ a b. ground (arith, c a b)

go_right_over :
    (top j left : ℕ) (s : Fill)
    → j ≤ max_size
    → max_size < j + left
    → go_right max_size top j left s ≡ none
unfolding go_right store
go_right_over top j zero s h k = absurd (omega arith)
go_right_over top j (suc left) s h k = elim (Bool-cases (ltb top max_size && ltb j max_size)) [
  | inl ok ↦
      let next : Fill = record { value = s.value + 1; cells = update s.cells top j s.value } in
      rw ok (go_right_over top (j + 1) left next (ground arith) (omega arith))
  | inr out ↦ rw out refl
]

corner_row_over :
    (size i j left : ℕ) (s : Fill)
    → j ≤ max_size
    → max_size < j + left
    → corner_row size i j left s ≡ none
unfolding corner_row
corner_row_over size i j zero s h k = absurd (omega arith)
corner_row_over size i j (suc left) s h k = elim (Bool-cases (ltb i max_size && ltb j max_size)) [
  | inl ok ↦
      let cells : (i j : ℕ) → ℕ = update s.cells i j (corner_cell size i j) in
      let next : Fill = record { value = s.value; cells = cells } in
      rw ok (corner_row_over size i (j + 1) left next (ground arith) (omega arith))
  | inr out ↦ rw out refl
]

-- A size above a hundred, which both programs take, leads to an access outside the matrix.
pub matrices_over :
    (size : ℕ) (matrix : (i j : ℕ) → ℕ)
    → max_size < size
    → (number_matrix size matrix ≡ none) × (corner_matrix size matrix ≡ none)
unfolding number_matrix corner_matrix number_rows corner_rows
matrices_over zero matrix h = absurd (omega arith)
matrices_over (suc size) matrix h =
    let start : Fill = record { value = 1; cells = matrix } in
    (
      rw (go_right_over 0 0 (suc size) start (omega arith) (omega arith)) refl,
      rw (corner_row_over (suc size) 0 0 (suc size) start (omega arith) (omega arith)) refl,
    )

-- The matrices of both programs, for a size up to a hundred: no access is outside the matrix; the first
-- numbers the cells of the square row by row from one, the second has a one where the row and the column are
-- `size - 1` or more together and a zero elsewhere; no other cell is changed.
pub matrices-Filled :
    (size : ℕ) (matrix : (i j : ℕ) → ℕ)
    → size ≤ max_size
    → Filled
        (number_matrix size matrix)
        (1 + size * size)
        (λ i j. if in_square 0 size i j then 1 + i * size + j else matrix i j)
      × Filled (corner_matrix size matrix) 1 (λ i j.
        if in_square 0 size i j then (if leb (size - 1) (i + j) then 1 else 0) else matrix i j)
unfolding number_matrix corner_matrix
matrices-Filled size matrix h = (
  recast (number_rows-Filled size 0 size (record { value = 1; cells = matrix }) h (omega arith))
      refl λ a b. let from_first : a - 0 ≡ a = omega arith in rw from_first refl,
  recast (corner_rows-Filled size 0 size (record { value = 1; cells = matrix }) h (omega arith))
      refl λ a b. ground arith,
)

-- With `fits` the cells are those of `after`, and without it there is an access outside the matrix.
abbrev pub Written : (fits : Bool) → Option Fill → (value : ℕ) → ((a b : ℕ) → ℕ) → Type 0
Written true r value after = Filled r value after
Written false r value after = r ≡ none

-- The matrices of both programs. For a size up to a hundred no access is outside the matrix; the first
-- program numbers the cells of the square row by row from one, the second has a one where the row and the
-- column are `size - 1` or more together and a zero elsewhere, and no other cell is changed. A larger size,
-- which both programs take, leads to an access outside the matrix.
pub matrices-Written :
    (size : ℕ) (matrix : (i j : ℕ) → ℕ)
    → Written
        (leb size max_size)
        (number_matrix size matrix)
        (1 + size * size)
        (λ i j. if in_square 0 size i j then 1 + i * size + j else matrix i j)
      × Written (leb size max_size) (corner_matrix size matrix) 1 (λ i j.
        if in_square 0 size i j then (if leb (size - 1) (i + j) then 1 else 0) else matrix i j)
matrices-Written size matrix = elim (Bool-cases (leb size max_size)) [
  | inl h ↦ rw h (matrices-Filled size matrix (leb→le size max_size h))
  | inr h ↦ rw h (matrices_over size matrix (ground arith))
]
