-- ===== src/Phonebook/Fixed/Shift.antt =====
-- The loop of `del_abonent` in "4 work/reference_book.c" and the list of the entries.
use home_work.Base.{
  ℕ, zero, suc, ◌+◌, ◌-◌, ◌≤◌, ◌<◌, ◌≡◌, refl, sym, ap, ◌∙◌, inl, inr, Option-cases, List, [], ◌∷◌,
  none, some, arith, length, take, set, get_elem?,
}
use mathlib.Core.Option
use Prim.Native.Nat.add
use native.Mathlib.Numerals.{add-one}
use home_work.Phonebook.Defs.{Person, remove_at}
use home_work.Phonebook.Fixed.{shift_loop}

module _ (rounds i : ℕ) (ps : List Person) where
  shift_none : get_elem? ps (suc i) ≡ none → shift_loop (suc rounds) i ps ≡ none
  unfolding shift_loop
  shift_none e = let e' : get_elem? ps (i + 1) ≡ none = rw add-one e in rw (e', shift_loop)

  shift_step :
      {q : Person}
      → get_elem? ps (suc i) ≡ some q
      → shift_loop (suc rounds) i ps ≡ shift_loop rounds (suc i) (set ps i q)
  unfolding shift_loop
  shift_step {q} e =
      let e' : get_elem? ps (i + 1) ≡ some q = rw add-one e in
      rw (e', shift_loop) (ap (λ n. shift_loop rounds n (set ps i q)) (add-one i))

-- The same loop away from the head of the list.
shift_cons :
    (rounds i : ℕ) (p : Person) (ps : List Person)
    → shift_loop rounds (suc i) (p ∷ ps) ≡ Option.map (λ l. p ∷ l) (shift_loop rounds i ps)
unfolding shift_loop
shift_cons zero i p ps = refl
shift_cons (suc rounds) i p ps = elim (Option-cases (get_elem? ps (suc i))) [
  | inl e ↦ rw (shift_none rounds (suc i) (p ∷ ps) e, shift_none rounds i ps e)
  | inr (q, e) ↦
      shift_step rounds (suc i) (p ∷ ps) e
      ∙ shift_cons rounds (suc i) p (set ps i q)
      ∙ ap (Option.map (λ l. p ∷ l)) (sym (shift_step rounds i ps e))
]

-- The list that the loop leaves.
slide : ℕ → List Person → List Person
slide zero ps = ps
slide (suc rounds) [] = []
slide (suc rounds) (p ∷ []) = p ∷ []
slide (suc rounds) (p ∷ q ∷ ps) = q ∷ slide rounds (q ∷ ps)

shift-slide :
    (rounds : ℕ) (ps : List Person)
    → rounds < length ps
    → shift_loop rounds 0 ps ≡ some (slide rounds ps)
unfolding shift_loop slide
shift-slide zero ps h = refl
shift-slide (suc rounds) [] h = absurd (omega arith)
shift-slide (suc rounds) (p ∷ []) h = absurd (omega arith)
shift-slide (suc rounds) (p ∷ q ∷ ps) h =
    shift_cons rounds 0 q (q ∷ ps) ∙ rw (shift-slide rounds (q ∷ ps) (omega arith))

-- Any start of the loop, by the entries in front of it.
slide_at : ℕ → ℕ → List Person → List Person
slide_at zero rounds ps = slide rounds ps
slide_at (suc i) rounds [] = []
slide_at (suc i) rounds (p ∷ ps) = p ∷ slide_at i rounds ps

shift-slide_at :
    (i rounds : ℕ) (ps : List Person)
    → i + rounds < length ps
    → shift_loop rounds i ps ≡ some (slide_at i rounds ps)
unfolding slide_at
shift-slide_at zero rounds ps h = shift-slide rounds ps (omega arith)
shift-slide_at (suc i) rounds [] h = absurd (omega arith)
shift-slide_at (suc i) rounds (p ∷ ps) h =
    shift_cons rounds i p ps ∙ rw (shift-slide_at i rounds ps (omega arith))

take-slide :
    (rounds : ℕ) (p : Person) (ps : List Person)
    → rounds ≤ length ps
    → take rounds (slide rounds (p ∷ ps)) ≡ take rounds ps
unfolding slide
take-slide zero p ps h = refl
take-slide (suc rounds) p [] h = absurd (omega arith)
take-slide (suc rounds) p (q ∷ ps) h = ap (λ l. q ∷ l) (take-slide rounds q ps (omega arith))

length-slide : (rounds : ℕ) (ps : List Person) → length (slide rounds ps) ≡ length ps
unfolding slide
length-slide zero ps = refl
length-slide (suc rounds) [] = refl
length-slide (suc rounds) (p ∷ []) = refl
length-slide (suc rounds) (p ∷ q ∷ ps) = ap suc (length-slide rounds (q ∷ ps))

length-slide_at : (i rounds : ℕ) (ps : List Person) → length (slide_at i rounds ps) ≡ length ps
unfolding slide_at
length-slide_at zero rounds ps = length-slide rounds ps
length-slide_at (suc i) rounds [] = refl
length-slide_at (suc i) rounds (p ∷ ps) = ap suc (length-slide_at i rounds ps)

take-slide_at :
    (i rounds : ℕ) (ps : List Person)
    → i + rounds < length ps
    → take (i + rounds) (slide_at i rounds ps) ≡ remove_at i (take (suc (i + rounds)) ps)
unfolding slide_at remove_at
take-slide_at zero rounds [] h = absurd (omega arith)
take-slide_at zero rounds (p ∷ ps) h = rw add.zero (take-slide rounds p ps (omega arith))
take-slide_at (suc i) rounds [] h = absurd (omega arith)
take-slide_at (suc i) rounds (p ∷ ps) h =
    rw add.suc (ap (λ l. p ∷ l) (take-slide_at i rounds ps (omega arith)))

-- After the loop the first `count - 1` entries are the old ones without entry `i`.
pub shift-remove_at :
    (i count : ℕ) (ps : List Person)
    → i < count
    → count ≤ length ps
    → (qs : List Person) × (shift_loop (count - 1 - i) i ps ≡ some qs)
      × (length qs ≡ length ps)
      × (remove_at i (take count ps) ≡ take (count - 1) qs)
shift-remove_at i count ps lt le =
    let rounds : ℕ = count - 1 - i in
    (
      slide_at i rounds ps,
      shift-slide_at i rounds ps (omega arith),
      length-slide_at i rounds ps,
      ap (λ n. remove_at i (take n ps)) {x = count} {y = suc (i + rounds)} (omega arith)
          ∙ sym (take-slide_at i rounds ps (omega arith))
          ∙ ap (λ n. take n (slide_at i rounds ps)) {x = i + rounds} {y = count - 1} (omega arith),
    )
