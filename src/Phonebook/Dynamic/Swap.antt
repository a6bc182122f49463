-- ===== src/Phonebook/Dynamic/Swap.antt =====
-- What the changes of the block do to its list of entries.
use home_work.Base.{
  ℕ, zero, suc, ◌≤◌, ◌≡◌, refl, ap, List, [], ◌∷◌, ◌++◌, some, arith, length, length-append,
  length-replicate, length-take, take, get_elem?, set, replicate, modify_at,
}
use mathlib.Core.Path.{subst}
use mathlib.Core.List.{Perm}
use mathlib.Core.List.Perm
use home_work.Phonebook.Defs.{Person}
use home_work.Phonebook.Dynamic.{resized}

take-append_le : (n : ℕ) (ps qs : List Person) → n ≤ length ps → take n (ps ++ qs) ≡ take n ps
take-append_le zero ps qs h = refl
take-append_le (suc n) [] qs h = absurd (omega arith)
take-append_le (suc n) (p ∷ ps) qs h = ap (λ l. p ∷ l) (take-append_le n ps qs (omega arith))

take-append_one :
    (n : ℕ) (ps qs : List Person) (q : Person)
    → n ≡ length ps
    → take (suc n) (ps ++ (q ∷ qs)) ≡ ps ++ (q ∷ [])
take-append_one zero [] qs q h = refl
take-append_one (suc n) [] qs q h = absurd (omega arith)
take-append_one zero (p ∷ ps) qs q h = absurd (omega arith)
take-append_one (suc n) (p ∷ ps) qs q h = ap (λ l. p ∷ l) (take-append_one n ps qs q (omega arith))

-- A block that grows by one entry.
pub resized_grow :
    (raw : Person) (n : ℕ) (ps : List Person)
    → n ≡ length ps
    → resized raw (suc n) ps ≡ ps ++ (raw ∷ [])
unfolding resized
resized_grow raw n ps h = take-append_one n ps (replicate n raw) raw h

-- A block that shrinks.
pub resized_shrink :
    (raw : Person) (n : ℕ) (ps : List Person) → n ≤ length ps → resized raw n ps ≡ take n ps
unfolding resized
resized_shrink raw n ps h = take-append_le n ps (replicate n raw) h

pub length-resized : (raw : Person) (n : ℕ) (ps : List Person) → length (resized raw n ps) ≡ n
unfolding resized
length-resized raw n ps = omega (
  arith,
  length-take n (ps ++ replicate n raw),
  length-append ps (replicate n raw),
  length-replicate n raw,
)

-- The last entry, moved to the front, and the others.
last-perm :
    (n : ℕ) (ps : List Person) {q : Person}
    → length ps ≡ suc n
    → get_elem? ps n ≡ some q
    → Perm (q ∷ take n ps) ps
last-perm zero [] h e = absurd (omega arith)
last-perm (suc n) [] h e = absurd (omega arith)
last-perm zero (p ∷ []) {q} h e =
    let e' : p ≡ q = cc in subst (λ x. Perm (x ∷ []) (p ∷ [])) e' (Perm.refl (p ∷ []))
last-perm zero (p ∷ r ∷ ps) h e = absurd (omega arith)
last-perm (suc n) (p ∷ ps) {q} h e =
    Perm.trans (Perm.swap p q (take n ps)) (Perm.cons p (last-perm n ps (omega arith) e))

-- `ps[i] = ps[n]` for the last entry, then one entry less: entry `i` is gone, and nothing else.
pub swap_remove-perm :
    (i n : ℕ) (ps : List Person) {p q : Person}
    → length ps ≡ suc n
    → get_elem? ps i ≡ some p
    → get_elem? ps n ≡ some q
    → Perm (p ∷ take n (set ps i q)) ps
swap_remove-perm i n [] h ep eq = cc
swap_remove-perm zero zero (r ∷ []) {p} h ep eq =
    let e : r ≡ p = cc in subst (λ x. Perm (x ∷ []) (r ∷ [])) e (Perm.refl (r ∷ []))
swap_remove-perm zero zero (r ∷ s ∷ ps) h ep eq = absurd (omega arith)
swap_remove-perm zero (suc n) (r ∷ ps) {p} {q} h ep eq =
    let e' : r ≡ p = cc in
    subst (λ x. Perm (x ∷ q ∷ take n ps) (r ∷ ps)) e'
      (Perm.cons r (last-perm n ps (omega arith) eq))
swap_remove-perm (suc i) zero (r ∷ []) h ep eq = cc
swap_remove-perm (suc i) zero (r ∷ s ∷ ps) h ep eq = absurd (omega arith)
swap_remove-perm (suc i) (suc n) (r ∷ ps) {p} {q} h ep eq =
    Perm.trans (Perm.swap r p (take n (set ps i q)))
      (Perm.cons r (swap_remove-perm i n ps (omega arith) ep eq))

-- A write to the entry behind `ps`.
pub modify_at_last :
    (n : ℕ) (ps : List Person) (p : Person) (f : Person → Person)
    → n ≡ length ps
    → modify_at (ps ++ (p ∷ [])) n f ≡ ps ++ (f p ∷ [])
modify_at_last zero [] p f h = refl
modify_at_last (suc n) [] p f h = absurd (omega arith)
modify_at_last zero (q ∷ ps) p f h = absurd (omega arith)
modify_at_last (suc n) (q ∷ ps) p f h = ap (λ l. q ∷ l) (modify_at_last n ps p f (omega arith))
