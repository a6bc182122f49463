-- ===== src/Shops/Totals.antt =====
-- The total of a weight over a list, and what one change of the list does to it.
use home_work.Base.{ℕ, zero, suc, ◌+◌, ◌≡◌, ap, List, [], ◌∷◌, some, get_elem?, set, arith}

unfoldable pub total {ℓ} : {A : Type ℓ} → (A → ℕ) → List A → ℕ
total w [] = 0
total w (x ∷ xs) = w x + total w xs

module _ {A : Type 0} where
  pub total-set :
      (w : A → ℕ) (xs : List A) (i : ℕ) {x : A} (y : A)
      → get_elem? xs i ≡ some x
      → total w (set xs i y) + w x ≡ total w xs + w y
  unfolding total
  total-set w [] i y h = cc
  total-set w (x ∷ xs) zero {x = x'} y h = let e : x ≡ x' = cc h in omega (arith, ap w e)
  total-set w (x ∷ xs) (suc i) y h = omega (arith, total-set w xs i y h)
