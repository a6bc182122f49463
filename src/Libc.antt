-- ===== src/Libc.antt =====
-- What the programs use of <string.h>, over byte strings without their final NUL.
use home_work.Base.{
  ℕ, zero, suc, ◌≡◌, refl, Bool, true, false, ◌&&◌, List, [], ◌∷◌, ◌↔◌, arith, ◌==◌,
}

abbrev pub Bytes : Type 0
Bytes = List ℕ

-- `strcmp(a, b) == 0`
unfoldable pub str_eq : Bytes → Bytes → Bool
str_eq [] [] = true
str_eq [] (b ∷ bs) = false
str_eq (a ∷ as') [] = false
str_eq (a ∷ as') (b ∷ bs) = (a == b) && str_eq as' bs

-- `strncmp(a, b, n) == 0`: at most `n` bytes are compared, and none behind a NUL.
unfoldable pub strn_eq : ℕ → Bytes → Bytes → Bool
strn_eq zero as' bs = true
strn_eq (suc n) [] [] = true
strn_eq (suc n) [] (b ∷ bs) = false
strn_eq (suc n) (a ∷ as') [] = false
strn_eq (suc n) (a ∷ as') (b ∷ bs) = (a == b) && strn_eq n as' bs

pub str_eq→eq : (a b : Bytes) → str_eq a b ≡ true → a ≡ b
unfolding str_eq
str_eq→eq [] [] h = refl
str_eq→eq [] (b ∷ bs) h = cc
str_eq→eq (a ∷ as') [] h = cc
str_eq→eq (a ∷ as') (b ∷ bs) h = ground (arith, str_eq→eq as' bs)

pub str_eq_self : (a : Bytes) → str_eq a a ≡ true
unfolding str_eq
str_eq_self [] = refl
str_eq_self (a ∷ as') = ground (arith, str_eq_self as')

pub str_eq_iff : (a b : Bytes) → (str_eq a b ≡ true) ↔ (a ≡ b)
str_eq_iff a b = (str_eq→eq a b, λ e. rw e (str_eq_self b))
