-- ===== src/Shell/Words.antt =====
-- The arguments that the shell of "12 work/task3.c" finds in a line.
use home_work.Base.{
  ℕ, zero, suc, ◌+◌, ◌<◌, ◌≤◌, ◌≡◌, refl, ap, ◌∙◌, List, [], ◌∷◌, Option, none, some, true, false,
  if◌then◌else◌, ltb, length, arith, Bool-cases, inl, inr, ◌⊎◌,
}
use home_work.Libc.{Bytes}
use home_work.Shell.{
  is_delimiter, skip_delimiters, token, behind_token, strtok, put, fill_args, args_of,
}

-- A byte in front of the first piece.
abbrev onto_first : ℕ → List Bytes → List Bytes
onto_first c [] = (c ∷ []) ∷ []
onto_first c (piece ∷ pieces) = (c ∷ piece) ∷ pieces

-- The pieces of a text between its delimiters, the empty ones included.
unfoldable pub pieces : Bytes → List Bytes
pieces [] = [] ∷ []
pieces (c ∷ text) = if is_delimiter c then [] ∷ pieces text else onto_first c (pieces text)

abbrev pub not_empty : List Bytes → List Bytes
not_empty [] = []
not_empty ([] ∷ rest) = not_empty rest
not_empty ((c ∷ piece) ∷ rest) = (c ∷ piece) ∷ not_empty rest

-- The words of a text.
unfoldable pub words : Bytes → List Bytes
unfolding pieces
words text = not_empty (pieces text)

-- The first piece is the token, and the others have the words behind it.
first_piece :
    (text : Bytes)
    → (others : List Bytes) × (pieces text ≡ token text ∷ others)
      × (not_empty others ≡ words (behind_token text))
unfolding pieces token behind_token words
first_piece [] = ([], refl, refl)
first_piece (c ∷ text) = elim (Bool-cases (is_delimiter c)) [
  | inl h ↦ rw h (pieces text, refl, refl)
  | inr h ↦ let (others, e, e') = first_piece text in rw h (others, ap (onto_first c) e, e')
]

pub words-delimiter : (c : ℕ) (text : Bytes) → is_delimiter c ≡ true → words (c ∷ text) ≡ words text
unfolding words pieces
words-delimiter c text h = rw h refl

words-other :
    (c : ℕ) (text : Bytes)
    → is_delimiter c ≡ false
    → words (c ∷ text) ≡ (c ∷ token text) ∷ words (behind_token text)
unfolding words pieces
words-other c text h =
    let (others, e, e') = first_piece text in
    rw h (ap (λ x. not_empty (onto_first c x)) e ∙ ap (λ x. (c ∷ token text) ∷ x) e')

strtok-delimiter : (c : ℕ) (text : Bytes) → is_delimiter c ≡ true → strtok (c ∷ text) ≡ strtok text
unfolding strtok skip_delimiters
strtok-delimiter c text h = rw (strtok, skip_delimiters, h) refl

strtok-other :
    (c : ℕ) (text : Bytes)
    → is_delimiter c ≡ false
    → strtok (c ∷ text) ≡ some (c ∷ token text, behind_token text)
unfolding strtok skip_delimiters token behind_token
strtok-other c text h = rw (strtok, skip_delimiters, h) (rw (token, behind_token, h) refl)

behind_token-shorter : (text : Bytes) → length (behind_token text) ≤ length text
unfolding behind_token
behind_token-shorter [] = omega arith
behind_token-shorter (c ∷ text) = elim (Bool-cases (is_delimiter c)) [
  | inl h ↦ rw h (omega arith)
  | inr h ↦ rw h (omega (arith, behind_token-shorter text))
]

-- `strtok` finds the first word, and goes on with the others.
abbrev Finds : Bytes → Type 0
Finds text =
    ((strtok text ≡ none) × (words text ≡ []))
    ⊎ ((found : Bytes × Bytes) × (strtok text ≡ some found)
        × (words text ≡ found.0 ∷ words (found.1))
        × (length (found.1) < length text))

strtok-Finds : (text : Bytes) → Finds text
unfolding strtok skip_delimiters words pieces
strtok-Finds [] = inl (refl, refl)
strtok-Finds (c ∷ text) = elim (Bool-cases (is_delimiter c)) [
  | inl h ↦
      let first = strtok-delimiter c text h in
      let same = words-delimiter c text h in
      elim (strtok-Finds text) [
        | inl (e, e') ↦ inl (first ∙ e, same ∙ e')
        | inr (found, e, e', l) ↦ inr (found, first ∙ e, same ∙ e', omega (arith, l))
      ]
  | inr h ↦ inr (
    (c ∷ token text, behind_token text),
    strtok-other c text h,
    words-other c text h,
    omega (arith, behind_token-shorter text),
  )
]

abbrev fitting : (i : ℕ) (found : List Bytes) → Option (List Bytes)
fitting i found = if ltb (i + length found) 100 then some found else none

put-fitting :
    (i : ℕ) (arg : Bytes) (rest : List Bytes)
    → (if ltb i 100 then put arg (fitting (i + 1) rest) else none) ≡ fitting i (arg ∷ rest)
put-fitting i arg rest =
    let total : i + 1 + length rest ≡ i + length (arg ∷ rest) = omega arith in
    rw total (elim (Bool-cases (ltb (i + length (arg ∷ rest)) 100)) [
      | inl h ↦ let room : ltb i 100 ≡ true = ground arith in rw (room, h) refl
      | inr h ↦ rw h (elim (Bool-cases (ltb i 100)) [ inl g ↦ rw g refl | inr g ↦ rw g refl ])
    ])

zero_add : (n : ℕ) → 0 + n ≡ n
zero_add n = omega arith

add_zero : (n : ℕ) → n + 0 ≡ n
add_zero n = omega arith

fill_args-words :
    (rounds i : ℕ) (text : Bytes)
    → length text < rounds
    → fill_args rounds i text ≡ fitting i (words text)
unfolding fill_args
fill_args-words zero i text h = absurd (omega arith)
fill_args-words (suc rounds) i text h = elim (strtok-Finds text) [
  | inl (e, e') ↦ rw (fill_args, e, e', add_zero i) refl
  | inr (found, e, e', l) ↦
      rw (fill_args, e, e', fill_args-words rounds (i + 1) (found.1) (omega arith))
        (put-fitting i (found.0) (words (found.1)))
]

-- The array of arguments holds the words of the text if they are fewer than a hundred, and else a write goes
-- behind its end.
pub args_of-words :
    (text : Bytes)
    → args_of text ≡ (if ltb (length (words text)) 100 then some (words text) else none)
unfolding args_of
args_of-words text =
    fill_args-words (suc (length text)) 0 text (omega arith)
    ∙ rw (zero_add (length (words text))) refl
