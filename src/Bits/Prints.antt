-- ===== src/Bits/Prints.antt =====
-- What `printBinary` prints and what `countOnes` counts, of "1 work".
use home_work.Base.{
  ℕ, zero, suc, ◌+◌, ◌*◌, ◌/◌, ◌%◌, ◌<◌, ◌≤◌, ◌≡◌, refl, ap, ◌∙◌, [], ◌∷◌, ◌++◌, some, Bool, true,
  false, if◌then◌else◌, ◌==◌, ◌&&◌, not, Bool-cases, inl, inr, arith, ==_iff, append_assoc,
}
use home_work.Libc.{Bytes}
use home_work.Bits.{bit_and, digit, gap, print_loop, print_binary, counted, count_loop, count_ones}
use home_work.Bits.Words.{
  pow2, bit, weight, bit_and-pow2, low, low_whole, ones, ones_step, ones_of_zero, weight-zero,
}

-- The number whose binary digits a text has; other characters are passed over.
unfoldable pub read_binary : (number : ℕ) → Bytes → ℕ
read_binary number [] = number
read_binary number (c ∷ text) =
    if c == 48
    then read_binary (number * 2) text
    else if c == 49
    then read_binary (number * 2 + 1) text
    else read_binary number text

-- How often a text has the character "1".
unfoldable pub ones_in : Bytes → ℕ
ones_in [] = 0
ones_in (c ∷ text) = if c == 49 then suc (ones_in text) else ones_in text

abbrev character : Bool → ℕ
character true = 49
character false = 48

-- The digits of a number, the highest first, with the gaps between bytes.
unfoldable digits_text : (k i n : ℕ) → Bytes
unfolding bit
digits_text zero i n = 10 ∷ []
digits_text (suc k) i n = character (bit k n) ∷ gap i ++ digits_text k (i + 1) n

pow2_positive : (k : ℕ) → 0 < pow2 k
unfolding pow2
pow2_positive zero = omega arith
pow2_positive (suc k) = omega (arith, pow2_positive k)

chosen : (k : ℕ) (b : Bool) → (if weight k b == 0 then 48 else 49) ≡ character b
chosen k true = ground (arith, pow2_positive k)
chosen k false = refl

digit-pow2 : (k n : ℕ) → k < 32 → digit n (pow2 k) ≡ character (bit k n)
digit-pow2 k n h = rw (bit_and-pow2 32 k n h) (chosen k (bit k n))

-- The mask when `k` rounds are left.
abbrev top : ℕ → ℕ
top zero = 0
top (suc k) = pow2 k

top_half : (k : ℕ) → pow2 k / 2 ≡ top k
unfolding pow2
top_half zero = refl
top_half (suc k) = omega arith

print_loop-digits_text :
    (k i n : ℕ) → k ≤ 32 → print_loop k i n (top k) ++ (10 ∷ []) ≡ digits_text k i n
unfolding print_loop digits_text
print_loop-digits_text zero i n h = refl
print_loop-digits_text (suc k) i n h =
    let tail = append_assoc (gap i) (print_loop k (i + 1) n (top k)) (10 ∷ []) in
    rw (digit-pow2 k n (omega arith), top_half k)
      (ap (λ t. character (bit k n) ∷ t)
        (tail ∙ ap (λ t. gap i ++ t) (print_loop-digits_text k (i + 1) n (omega arith))))

read-gap :
    (number i : ℕ) (text : Bytes) → read_binary number (gap i ++ text) ≡ read_binary number text
unfolding read_binary
read-gap number i text = elim (Bool-cases (((i + 1) % 8 == 0) && not (i == 31))) [
  | inl h ↦ rw h refl
  | inr h ↦ rw h refl
]

ones_in-gap : (i : ℕ) (text : Bytes) → ones_in (gap i ++ text) ≡ ones_in text
unfolding ones_in
ones_in-gap i text = elim (Bool-cases (((i + 1) % 8 == 0) && not (i == 31))) [
  | inl h ↦ rw h refl
  | inr h ↦ rw h refl
]

-- `number`, shifted by `k` places.
unfoldable shifted : (number k : ℕ) → ℕ
shifted number zero = number
shifted number (suc k) = shifted (number * 2) k

shifted_add : (k a b : ℕ) → shifted (a + b) k ≡ shifted a k + shifted b k
unfolding shifted
shifted_add zero a b = refl
shifted_add (suc k) a b = ap (λ c. shifted c k) (omega arith) ∙ shifted_add k (a * 2) (b * 2)

shifted_one : (k : ℕ) → shifted 1 k ≡ pow2 k
unfolding shifted pow2
shifted_one zero = refl
shifted_one (suc k) = omega (arith, shifted_add k 1 1, shifted_one k)

shifted_zero : (k : ℕ) → shifted 0 k ≡ 0
unfolding shifted
shifted_zero zero = refl
shifted_zero (suc k) = shifted_zero k

read-digits_text :
    (k i n number : ℕ) → read_binary number (digits_text k i n) ≡ shifted number k + low k n
unfolding read_binary digits_text shifted low
read-digits_text zero i n number = omega arith
read-digits_text (suc k) i n number = elim (Bool-cases (bit k n)) [
  | inl h ↦
      rw (h, read-gap (number * 2 + 1) i (digits_text k (i + 1) n))
        (omega (
          arith,
          read-digits_text k (i + 1) n (number * 2 + 1),
          shifted_add k (number * 2) 1,
          shifted_one k,
        ))
  | inr h ↦
      rw (h, read-gap (number * 2) i (digits_text k (i + 1) n))
        (omega (arith, read-digits_text k (i + 1) n (number * 2)))
]

ones_in-digits_text : (k i n : ℕ) → ones_in (digits_text k i n) ≡ ones k n
unfolding ones_in digits_text ones
ones_in-digits_text zero i n = refl
ones_in-digits_text (suc k) i n = elim (Bool-cases (bit k n)) [
  | inl h ↦
      rw (h, ones_in-gap i (digits_text k (i + 1) n))
        (omega (arith, ones_in-digits_text k (i + 1) n))
  | inr h ↦
      rw (h, ones_in-gap i (digits_text k (i + 1) n))
        (omega (arith, ones_in-digits_text k (i + 1) n))
]

counted-bit : (n count : ℕ) → counted n count ≡ count + n % 2
unfolding counted pow2
counted-bit n count =
    let masked : bit_and 32 n 1 ≡ n % 2 = bit_and-pow2 32 0 n (omega arith) ∙ weight-zero n in
    rw masked (ground arith)

count_loop-ones :
    (rounds k n count : ℕ)
    → n < pow2 k
    → k < rounds
    → count_loop rounds n count ≡ some (count + ones k n)
unfolding count_loop pow2
count_loop-ones zero k n count h r = absurd (omega arith)
count_loop-ones (suc rounds) zero n count h r =
    let empty : n ≡ 0 = omega arith in
    rw ((==_iff n 0).1 empty) (ap some (omega (arith, ones_of_zero 0, ap (ones 0) empty)))
count_loop-ones (suc rounds) (suc k) n count h r = elim (Bool-cases (n == 0)) [
  | inl e ↦
      let empty : n ≡ 0 = (==_iff n 0).0 e in
      rw e (ap some (omega (arith, ones_of_zero (suc k), ap (ones (suc k)) empty)))
  | inr e ↦
      rw (e, counted-bit n count)
        (count_loop-ones rounds k (n / 2) (count + n % 2) (omega arith) (omega arith)
          ∙ ap some (omega (arith, ones_step k n)))
]

-- The digits that `printBinary` prints of a word of 32 bits read back as the word, and `countOnes` returns
-- how many of them are 1, and needs no more than 33 tests.
pub print_binary-reads_back :
    (n : ℕ)
    → n < 4294967296
    → (read_binary 0 (print_binary n) ≡ n) × (count_ones n ≡ some (ones_in (print_binary n)))
unfolding print_binary count_ones pow2
print_binary-reads_back n h =
    let text : print_binary n ≡ digits_text 32 0 n = print_loop-digits_text 32 0 n (omega arith) in
    let value = read-digits_text 32 0 n 0 in
    let counted_all = count_loop-ones 33 32 n 0 h (omega arith) in
    rw text (
      omega (arith, value, shifted_zero 32, low_whole 32 n h),
      counted_all ∙ ap some (omega (arith, ones_in-digits_text 32 0 n)),
    )
