-- ===== src/Matrices.antt =====
-- "2 work": a square matrix filled along a spiral. The matrix is a function of its two indices, and an
-- access outside it is a fault, `none`. `bottom` and `right` are one more than in the source, so that they
-- do not become negative.
pub mod Segments
pub mod Rings
pub mod Spiral
pub mod Rows
mod Examples
use home_work.Base.{
  ℕ, zero, suc, ◌+◌, ◌-◌, ◌*◌, Option, none, some, Bool, true, false, if◌then◌else◌, ltb, leb, ◌==◌,
  ◌&&◌,
}

-- `value` and the matrix.
pub record Fill : Type 0 where
  pub value : ℕ
  pub cells : (i j : ℕ) → ℕ

infixl 5 ◌>>=◌
abbrev pub ◌>>=◌ : Option Fill → (Fill → Option Fill) → Option Fill
none >>= k = none
some s >>= k = k s

abbrev pub update : ((i j : ℕ) → ℕ) → (i j value : ℕ) → (a b : ℕ) → ℕ
update cells i j value a b = if (a == i) && (b == j) then value else cells a b

-- `matrix[i][j] = value++`
unfoldable pub store : (size i j : ℕ) → Fill → Option Fill
store size i j s =
    if ltb i size && ltb j size
    then some (record { value = s.value + 1; cells = update s.cells i j s.value })
    else none

-- The four loops, with `left` cells to go.
unfoldable pub go_right : (size top j left : ℕ) → Fill → Option Fill
unfolding store
go_right size top j zero s = some s
go_right size top j (suc left) s = store size top j s >>= go_right size top (j + 1) left

unfoldable pub go_down : (size right i left : ℕ) → Fill → Option Fill
unfolding store
go_down size right i zero s = some s
go_down size right i (suc left) s = store size i right s >>= go_down size right (i + 1) left

-- The last cell of these two is at `first`.
unfoldable pub go_left : (size bottom first left : ℕ) → Fill → Option Fill
unfolding store
go_left size bottom first zero s = some s
go_left size bottom first (suc left) s =
    store size bottom (first + left) s >>= go_left size bottom first left

unfoldable pub go_up : (size column first left : ℕ) → Fill → Option Fill
unfolding store
go_up size column first zero s = some s
go_up size column first (suc left) s =
    store size (first + left) column s >>= go_up size column first left

-- The body of the `while`.
unfoldable pub round : (size top bottom left right : ℕ) → Fill → Option Fill
unfolding go_right go_down go_left go_up
round size top bottom left right s =
    go_right size top left (right - left) s
    >>= go_down size (right - 1) (top + 1) (bottom - (top + 1))
    >>= go_left size (bottom - 1) left (right - 1 - left)
    >>= go_up size left (top + 1) (bottom - 1 - (top + 1))

unfoldable pub spiral_loop : (rounds size top bottom left right : ℕ) → Fill → Option Fill
unfolding round
spiral_loop zero size top bottom left right s = none
spiral_loop (suc rounds) size top bottom left right s =
    let next =
      round size top bottom left right s
      >>= spiral_loop rounds size (top + 1) (bottom - 1) (left + 1) (right - 1) in
    if leb s.value (size * size) then next else some s

-- `fillSpiral`; each round takes the outermost ring. `arraySize * arraySize` is an `int`, whose overflow is
-- a fault.
unfoldable pub fill_spiral : (size : ℕ) (matrix : (i j : ℕ) → ℕ) → Option Fill
unfolding spiral_loop
fill_spiral size matrix =
    if ltb (size * size) 2147483648
    then spiral_loop (size + 1) size 0 size 0 size (record { value = 1; cells = matrix })
    else none

-- The matrices of "2 work/task1.c" and "2 work/task3.c" have a hundred rows and columns.
abbrev pub max_size : ℕ
max_size = 100

-- The loops of "2 work/task1.c", with `left` rows to go.
unfoldable pub number_rows : (size i left : ℕ) → Fill → Option Fill
unfolding go_right
number_rows size i zero s = some s
number_rows size i (suc left) s = go_right max_size i 0 size s >>= number_rows size (i + 1) left

unfoldable pub number_matrix : (size : ℕ) (matrix : (i j : ℕ) → ℕ) → Option Fill
unfolding number_rows
number_matrix size matrix = number_rows size 0 size (record { value = 1; cells = matrix })

-- "2 work/task3.c": `i` is less than `size`, so that the difference is the one of `int`.
abbrev pub corner_cell : (size i j : ℕ) → ℕ
corner_cell size i j = if leb (size - 1 - i) j then 1 else 0

unfoldable pub corner_row : (size i j left : ℕ) → Fill → Option Fill
corner_row size i j zero s = some s
corner_row size i j (suc left) s =
    let cells : (i j : ℕ) → ℕ = update s.cells i j (corner_cell size i j) in
    let rest = corner_row size i (j + 1) left (record { value = s.value; cells = cells }) in
    if ltb i max_size && ltb j max_size then rest else none

unfoldable pub corner_rows : (size i left : ℕ) → Fill → Option Fill
unfolding corner_row
corner_rows size i zero s = some s
corner_rows size i (suc left) s = corner_row size i 0 size s >>= corner_rows size (i + 1) left

unfoldable pub corner_matrix : (size : ℕ) (matrix : (i j : ℕ) → ℕ) → Option Fill
unfolding corner_rows
corner_matrix size matrix = corner_rows size 0 size (record { value = 1; cells = matrix })
