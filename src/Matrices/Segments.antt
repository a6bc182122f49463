-- ===== src/Matrices/Segments.antt =====
-- The cells that each part of a round of `fillSpiral` fills.
use home_work.Base.{
  ℕ, zero, suc, ◌+◌, ◌-◌, ◌<◌, ◌≤◌, ◌≡◌, refl, ◌∙◌, Option, some, Bool, if◌then◌else◌, ltb, leb,
  ◌==◌, ◌&&◌, arith, sym, lt→ltb,
}
use mathlib.Core.Path.{subst}
use home_work.Matrices.{Fill, update, store, go_right, go_down, go_left, go_up, ◌>>=◌}

-- A step ends with `count` cells more, and the cells are those of `after`.
pub record Filled (r : Option Fill) (value : ℕ) (after : (a b : ℕ) → ℕ) : Type 0 where
  pub final : Fill
  pub ends : r ≡ some final
  pub value_is : final.value ≡ value
  pub cells_are : (a b : ℕ) → final.cells a b ≡ after a b

-- `first ≤ a < first + count`
abbrev pub within : (first count a : ℕ) → Bool
within first count a = leb first a && ltb a (first + count)

pub then_Filled :
    {r : Option Fill} {v v' : ℕ} {f g : (a b : ℕ) → ℕ} (k : Fill → Option Fill)
    → Filled r v f
    → ((s : Fill) → s.value ≡ v → ((a b : ℕ) → s.cells a b ≡ f a b) → Filled (k s) v' g)
    → Filled (r >>= k) v' g
then_Filled {v' = v'} {g = g} k h next =
    subst (λ x. Filled (x >>= k) v' g) (sym h.ends) (next h.final h.value_is h.cells_are)

pub recast :
    {r : Option Fill} {v v' : ℕ} {f g : (a b : ℕ) → ℕ}
    → Filled r v f
    → v ≡ v'
    → ((a b : ℕ) → f a b ≡ g a b)
    → Filled r v' g
recast h e c = record {
  final = h.final;
  ends = h.ends;
  value_is = h.value_is ∙ e;
  cells_are = λ a b. h.cells_are a b ∙ c a b;
}

pub nothing-Filled : (s : Fill) → Filled (some s) s.value s.cells
nothing-Filled s = record { final = s; ends = refl; value_is = refl; cells_are = λ a b. refl }

pub store-Filled :
    (size i j : ℕ) (s : Fill)
    → i < size
    → j < size
    → Filled (store size i j s) (s.value + 1) (update s.cells i j s.value)
unfolding store
store-Filled size i j s h k = record {
  final = record { value = s.value + 1; cells = update s.cells i j s.value };
  ends = rw (lt→ltb i size h, lt→ltb j size k) refl;
  value_is = refl;
  cells_are = λ a b. refl;
}

pub go_right-Filled :
    (size top j left : ℕ) (s : Fill)
    → top < size
    → j + left ≤ size
    → Filled
        (go_right size top j left s)
        (s.value + left)
        (λ a b. if (a == top) && within j left b then s.value + (b - j) else s.cells a b)
unfolding go_right
go_right-Filled size top j zero s h k = recast (nothing-Filled s) (omega arith) λ a b. ground arith
go_right-Filled size top j (suc left) s h k =
    then_Filled (go_right size top (j + 1) left) (store-Filled size top j s h (omega arith))
      λ s' e c.
        recast (go_right-Filled size top (j + 1) left s' h (omega arith)) (omega arith)
          λ a b. ground (arith, c a b)

pub go_down-Filled :
    (size right i left : ℕ) (s : Fill)
    → right < size
    → i + left ≤ size
    → Filled
        (go_down size right i left s)
        (s.value + left)
        (λ a b. if (b == right) && within i left a then s.value + (a - i) else s.cells a b)
unfolding go_down
go_down-Filled size right i zero s h k = recast (nothing-Filled s) (omega arith) λ a b. ground arith
go_down-Filled size right i (suc left) s h k =
    then_Filled (go_down size right (i + 1) left) (store-Filled size i right s (omega arith) h)
      λ s' e c.
        recast (go_down-Filled size right (i + 1) left s' h (omega arith)) (omega arith)
          λ a b. ground (arith, c a b)

pub go_left-Filled :
    (size bottom first left : ℕ) (s : Fill)
    → bottom < size
    → first + left ≤ size
    → Filled (go_left size bottom first left s) (s.value + left) (λ a b.
      if (a == bottom) && within first left b
      then s.value + (first + left - 1 - b)
      else s.cells a b)
unfolding go_left
go_left-Filled size bottom first zero s h k =
    recast (nothing-Filled s) (omega arith) λ a b. ground arith
go_left-Filled size bottom first (suc left) s h k =
    then_Filled (go_left size bottom first left)
      (store-Filled size bottom (first + left) s h (omega arith))
      λ s' e c.
        recast (go_left-Filled size bottom first left s' h (omega arith)) (omega arith)
          λ a b. ground (arith, c a b)

pub go_up-Filled :
    (size column first left : ℕ) (s : Fill)
    → column < size
    → first + left ≤ size
    → Filled (go_up size column first left s) (s.value + left) (λ a b.
      if (b == column) && within first left a
      then s.value + (first + left - 1 - a)
      else s.cells a b)
unfolding go_up
go_up-Filled size column first zero s h k =
    recast (nothing-Filled s) (omega arith) λ a b. ground arith
go_up-Filled size column first (suc left) s h k =
    then_Filled (go_up size column first left)
      (store-Filled size (first + left) column s (omega arith) h)
      λ s' e c.
        recast (go_up-Filled size column first left s' h (omega arith)) (omega arith)
          λ a b. ground (arith, c a b)
