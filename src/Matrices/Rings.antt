-- ===== src/Matrices/Rings.antt =====
-- One round of `fillSpiral`: the ring that it fills.
use home_work.Base.{
  ℕ, zero, suc, ◌+◌, ◌-◌, ◌*◌, ◌<◌, ◌≤◌, ◌≡◌, refl, Option, none, some, Bool, if◌then◌else◌, ltb,
  ◌==◌, ◌&&◌, arith, sym, ltb→lt, ==_iff, Bool-cases, inl, inr,
}
use mathlib.Core.Path.{subst}
use home_work.Matrices.{Fill, go_right, go_down, go_left, go_up, round, ◌>>=◌}
use home_work.Matrices.Segments.{
  Filled, within, then_Filled, recast, go_right-Filled, go_down-Filled, go_left-Filled,
  go_up-Filled,
}

abbrev pub in_square : (corner side a b : ℕ) → Bool
in_square corner side a b = within corner side a && within corner side b

-- The number in the cell `a`, `b` of the square of a side at a corner, when the corner has `value`: along
-- the top, down the right column, back along the bottom, up the left column, and on in the square inside.
unfoldable pub spiral_value : (side value corner a b : ℕ) → ℕ
spiral_value zero value k a b = 0
spiral_value (suc zero) value k a b = value
spiral_value (suc (suc side)) value k a b =
    if a == k
    then value + (b - k)
    else if b == k + side + 1
    then value + (side + 1) + (a - k)
    else if a == k + side + 1
    then value + 2 * (side + 1) + (k + side + 1 - b)
    else if b == k
    then value + 3 * (side + 1) + (k + side + 1 - a)
    else spiral_value side (value + 4 * (side + 1)) (k + 1) a b

-- The cells after each of the four loops on a ring of side `side + 2`, of which the corner has `value`.
module _ (value k side : ℕ) (cells : (a b : ℕ) → ℕ) where
  abbrev after_right : (a b : ℕ) → ℕ
  after_right a b = if (a == k) && within k (side + 2) b then value + (b - k) else cells a b

  abbrev after_down : (a b : ℕ) → ℕ
  after_down a b =
      if (b == k + side + 1) && within (k + 1) (side + 1) a
      then value + (side + 2) + (a - (k + 1))
      else after_right a b

  abbrev after_left : (a b : ℕ) → ℕ
  after_left a b =
      if (a == k + side + 1) && within k (side + 1) b
      then value + (side + 2) + (side + 1) + (k + (side + 1) - 1 - b)
      else after_down a b

  abbrev after_up : (a b : ℕ) → ℕ
  after_up a b =
      if (b == k) && within (k + 1) side a
      then value + (side + 2) + (side + 1) + (side + 1) + (k + 1 + side - 1 - a)
      else after_left a b

-- The ring around the square of `side` is filled.
abbrev pub ring_filled : (side value k : ℕ) (cells : (a b : ℕ) → ℕ) → (a b : ℕ) → ℕ
ring_filled side value k cells a b =
    if in_square (k + 1) side a b
    then cells a b
    else if in_square k (side + 2) a b
    then spiral_value (suc (suc side)) value k a b
    else cells a b

module _ (value k side : ℕ) (cells : (a b : ℕ) → ℕ) where
  abbrev Agrees : (a b : ℕ) → Type 0
  Agrees a b = after_up value k side cells a b ≡ ring_filled side value k cells a b

  top_row : (a b : ℕ) → a ≡ k → Agrees a b
  unfolding spiral_value
  top_row a b e = ground arith

  bottom_row : (a b : ℕ) → a ≡ k + side + 1 → Agrees a b
  unfolding spiral_value
  bottom_row a b e = ground arith

  between : (a b : ℕ) → k < a → a < k + side + 1 → Agrees a b
  unfolding spiral_value
  between a b h h' = ground arith

  above : (a b : ℕ) → a < k → Agrees a b
  above a b h = ground arith

  below : (a b : ℕ) → k + side + 1 < a → Agrees a b
  below a b h = ground arith

  after_up-ring_filled : (a b : ℕ) → Agrees a b
  after_up-ring_filled a b = elim (Bool-cases (ltb a k)) [
    | inl h ↦ above a b (ltb→lt a k h)
    | inr g ↦ elim (Bool-cases (a == k)) [
      | inl h ↦ top_row a b ((==_iff a k).0 h)
      | inr g' ↦ elim (Bool-cases (ltb a (k + side + 1))) [
        | inl h ↦ between a b (ground arith) (ltb→lt a (k + side + 1) h)
        | inr g'' ↦ elim (Bool-cases (a == k + side + 1)) [
          | inl h ↦ bottom_row a b ((==_iff a (k + side + 1)).0 h)
          | inr h ↦ below a b (ground arith)
        ]
      ]
    ]
  ]

module _ (size side k : ℕ) (s : Fill) (h : k + side + 2 ≤ size) where
  right_down-Filled :
      Filled
        (go_right size k k (side + 2) s >>= go_down size (k + side + 1) (k + 1) (side + 1))
        (s.value + (side + 2) + (side + 1))
        (after_down s.value k side s.cells)
  right_down-Filled =
      then_Filled (go_down size (k + side + 1) (k + 1) (side + 1))
        (go_right-Filled size k k (side + 2) s (omega arith) (omega arith))
        λ s' e c.
          recast
            (go_down-Filled size (k + side + 1) (k + 1) (side + 1) s' (omega arith) (omega arith))
            (omega arith) λ a b. ground (arith, c a b)

  left-Filled :
      Filled
        (go_right size k k (side + 2) s
          >>= go_down size (k + side + 1) (k + 1) (side + 1)
          >>= go_left size (k + side + 1) k (side + 1))
        (s.value + (side + 2) + (side + 1) + (side + 1))
        (after_left s.value k side s.cells)
  left-Filled = then_Filled (go_left size (k + side + 1) k (side + 1)) right_down-Filled λ s' e c.
      recast (go_left-Filled size (k + side + 1) k (side + 1) s' (omega arith) (omega arith))
        (omega arith) λ a b. ground (arith, c a b)

  segments-Filled :
      Filled
        (go_right size k k (side + 2) s
          >>= go_down size (k + side + 1) (k + 1) (side + 1)
          >>= go_left size (k + side + 1) k (side + 1)
          >>= go_up size k (k + 1) side)
        (s.value + 4 * (side + 1))
        (after_up s.value k side s.cells)
  segments-Filled = then_Filled (go_up size k (k + 1) side) left-Filled λ s' e c.
      recast (go_up-Filled size k (k + 1) side s' (omega arith) (omega arith)) (omega arith)
        λ a b. ground (arith, c a b)

  pub round-Filled :
      Filled
        (round size k (k + side + 2) k (k + side + 2) s)
        (s.value + 4 * (side + 1))
        (ring_filled side s.value k s.cells)
  unfolding round
  round-Filled =
      let top : k + side + 2 - k ≡ side + 2 = omega arith in
      let right : k + side + 2 - 1 ≡ k + side + 1 = omega arith in
      let down : k + side + 2 - (k + 1) ≡ side + 1 = omega arith in
      let bottom : k + side + 1 - k ≡ side + 1 = omega arith in
      let up : k + side + 1 - (k + 1) ≡ side = omega arith in
      rw (top, right, down, bottom, up)
        (recast segments-Filled refl (after_up-ring_filled s.value k side s.cells))

bind_some : (r : Option Fill) → (r >>= (λ s. some s) >>= (λ s. some s) >>= (λ s. some s)) ≡ r
bind_some none = refl
bind_some (some s) = refl

-- The cell in the middle.
pub middle-Filled :
    (size k : ℕ) (s : Fill)
    → k < size
    → Filled
        (round size k (k + 1) k (k + 1) s)
        (s.value + 1)
        (λ a b. if in_square k 1 a b then s.value else s.cells a b)
unfolding round go_down go_left go_up
middle-Filled size k s h =
    let one : k + 1 - k ≡ 1 = omega arith in
    let last : k + 1 - 1 ≡ k = omega arith in
    let none_down : k + 1 - (k + 1) ≡ 0 = omega arith in
    let none_left : k - k ≡ 0 = omega arith in
    let none_up : k - (k + 1) ≡ 0 = omega arith in
    rw (one, last, none_down, none_left, none_up)
      (subst
        (λ r. Filled r (s.value + 1) (λ a b. if in_square k 1 a b then s.value else s.cells a b))
        (sym (bind_some (go_right size k k 1 s)))
        (recast (go_right-Filled size k k 1 s h (omega arith)) refl λ a b. ground arith))
