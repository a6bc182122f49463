-- ===== src/Text/Find.antt =====
-- The index that `findSubstring` of "3 work/task4.c" finds.
use home_work.Base.{
  ℕ, zero, suc, ◌+◌, ◌<◌, ◌≡◌, refl, [], ◌∷◌, Option, none, some, true, false, arith, Bool-cases,
  inl, inr, length, take, drop,
}
use mathlib.Core.Path.{subst}
use home_work.Libc.{Bytes, strn_eq}
use home_work.Text.{find_substring}

-- `substr` stands at index `n` of `str`.
abbrev pub Occurs : (substr str : Bytes) → ℕ → Type 0
Occurs substr str n = take (length substr) (drop n str) ≡ substr

-- The index is one of `str`, and the first at which `substr` stands; `none`: there is no such index.
abbrev pub FirstOccurrence : (substr str : Bytes) → Option ℕ → Type 0
FirstOccurrence substr str none = (k : ℕ) → k < length str → ¬ Occurs substr str k
FirstOccurrence substr str (some n) =
    (n < length str) × Occurs substr str n × ((k : ℕ) → k < n → ¬ Occurs substr str k)

strn_eq→take : (t s : Bytes) → strn_eq (length t) s t ≡ true → take (length t) s ≡ t
unfolding strn_eq
strn_eq→take [] s h = refl
strn_eq→take (b ∷ t) [] h = cc
strn_eq→take (b ∷ t) (a ∷ s) h = ground (arith, strn_eq→take t s)

strn_eq_self : (t s : Bytes) → take (length t) s ≡ t → strn_eq (length t) s t ≡ true
unfolding strn_eq
strn_eq_self [] s h = refl
strn_eq_self (b ∷ t) [] h = absurd (cc h)
strn_eq_self (b ∷ t) (a ∷ s) h =
    let heads : a ≡ b = cc h in
    let tails : take (length t) s ≡ t = cc h in ground (arith, heads, strn_eq_self t s tails)

not_here : (t s : Bytes) → strn_eq (length t) s t ≡ false → ¬ Occurs t s 0
not_here t s h e = absurd (cc (h, strn_eq_self t s e))

module _ (substr : Bytes) (c : ℕ) (str : Bytes) (miss : ¬ Occurs substr (c ∷ str) 0) where
  none_further :
      ((k : ℕ) → k < length str → ¬ Occurs substr str k)
      → (k : ℕ) → k < length (c ∷ str)
      → ¬ Occurs substr (c ∷ str) k
  none_further h zero lt = miss
  none_further h (suc k) lt = h k (omega arith)

  none_before :
      (n : ℕ)
      → ((k : ℕ) → k < n → ¬ Occurs substr str k)
      → (k : ℕ) → k < suc n
      → ¬ Occurs substr (c ∷ str) k
  none_before n h zero lt = miss
  none_before n h (suc k) lt = h k (omega arith)

  one_further :
      (found : Option ℕ)
      → FirstOccurrence substr str found
      → FirstOccurrence substr (c ∷ str) (elim found [ none ↦ none | some n ↦ some (n + 1) ])
  one_further none h = none_further h
  one_further (some n) (lt, here, before) =
      let next : suc n ≡ n + 1 = omega arith in
      subst (λ m. FirstOccurrence substr (c ∷ str) (some m)) next
        (omega arith, here, none_before n before)

none_in_empty : (substr : Bytes) → FirstOccurrence substr [] none
none_in_empty substr k lt = absurd (omega arith)

-- On every string, `find_substring` is the first index at which the substring stands, or `none` if there is no
-- index of the string at which it stands.
pub find_substring-FirstOccurrence :
    (str substr : Bytes) → FirstOccurrence substr str (find_substring str substr)
unfolding find_substring
find_substring-FirstOccurrence [] substr = none_in_empty substr
find_substring-FirstOccurrence (c ∷ str) substr =
    elim (Bool-cases (strn_eq (length substr) (c ∷ str) substr)) [
      | inl here ↦
          rw here (omega arith, strn_eq→take substr (c ∷ str) here, λ k lt. absurd (omega arith))
      | inr miss ↦ rw miss (
          one_further substr c str (not_here substr (c ∷ str) miss) (find_substring str substr)
            (find_substring-FirstOccurrence str substr))
    ]
