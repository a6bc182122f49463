-- ===== src/Checksum/Verifies.antt =====
-- The receiver's test of a checksum ("16 work/socket work 4"): the sum of the words with it is a multiple of
-- 2 ^ 16 - 1.
use home_work.Base.{
  ℕ, suc, ◌+◌, ◌-◌, ◌*◌, ◌/◌, ◌%◌, ◌≤◌, ◌<◌, ◌≡◌, refl, sym, ap, ◌∙◌, [], ◌∷◌, some, ◌==◌,
  if◌then◌else◌, arith, length, Bool, true, false, ◌&&◌, ltb, Bool-cases, inl, inr,
}
use native.Mathlib.Nat.{mod-eq_of_lt}
use home_work.Libc.{Bytes}
use home_work.Checksum.{sum_words, fold_twice, checksum_twice, fold_loop, complement, checksum_loop}

-- Every number of the list is a byte.
abbrev pub are_bytes : Bytes → Bool
are_bytes [] = true
are_bytes (b ∷ bytes) = ltb b 256 && are_bytes bytes

-- The sum of the words, of whatever size.
abbrev pub word_sum : Bytes → ℕ
word_sum [] = 0
word_sum (b ∷ []) = b
word_sum (a ∷ b ∷ bytes) = a + b * 256 + word_sum bytes

are_bytes_cons :
    (b : ℕ) (bytes : Bytes) → are_bytes (b ∷ bytes) ≡ true → (b < 256) × (are_bytes bytes ≡ true)
are_bytes_cons b bytes h = ground arith

word_sum-bound :
    (bytes : Bytes) → are_bytes bytes ≡ true → word_sum bytes * 2 ≤ (length bytes + 1) * 65535
word_sum-bound [] h = omega arith
word_sum-bound (b ∷ []) h = let (lt, rest) = are_bytes_cons b [] h in omega arith
word_sum-bound (a ∷ b ∷ bytes) h =
    let (lt_a, rest) = are_bytes_cons a (b ∷ bytes) h in
    let (lt_b, tail) = are_bytes_cons b bytes rest in omega (arith, word_sum-bound bytes tail)

sum_words-exact :
    (modulus sum : ℕ) (bytes : Bytes)
    → sum + word_sum bytes < modulus
    → sum_words modulus sum bytes ≡ sum + word_sum bytes
unfolding sum_words
sum_words-exact modulus sum [] h = omega arith
sum_words-exact modulus sum (b ∷ []) h = mod-eq_of_lt h
sum_words-exact modulus sum (a ∷ b ∷ bytes) h =
    rw (mod-eq_of_lt {n = sum + (a + b * 256)} {m = modulus} (omega arith))
      (sum_words-exact modulus (sum + (a + b * 256)) bytes (omega arith) ∙ omega arith)

sum_words_whole :
    (modulus : ℕ) (bytes : Bytes)
    → word_sum bytes < modulus
    → sum_words modulus 0 bytes ≡ word_sum bytes
sum_words_whole modulus bytes h = sum_words-exact modulus 0 bytes (omega arith) ∙ omega arith

folded_twice :
    (sum : ℕ)
    → sum < 4294967296
    → (k : ℕ) × (sum + (4294967295 - fold_twice sum) % 65536 ≡ 65535 * k)
unfolding fold_twice
folded_twice sum h =
    (sum / 65536 + (if (sum / 65536 + sum % 65536) / 65536 == 0 then 1 else 2), ground arith)

fold_loop_done : (rounds sum : ℕ) → sum < 65536 → fold_loop (suc rounds) sum ≡ some sum
unfolding fold_loop
fold_loop_done rounds sum h = let e : (sum / 65536 == 0) ≡ true = ground arith in rw e refl

fold_loop_step :
    (rounds sum : ℕ)
    → 65536 ≤ sum
    → sum < 4294967296
    → fold_loop (suc rounds) sum ≡ fold_loop rounds (sum % 65536 + sum / 65536)
unfolding fold_loop
fold_loop_step rounds sum h lt =
    let e : (sum / 65536 == 0) ≡ false = ground arith in
    let small : (sum % 65536 + sum / 65536) % 18446744073709551616 ≡ sum % 65536 + sum / 65536 =
      omega arith in
    rw (e, small) refl

fold_loop-twice :
    (sum : ℕ)
    → sum < 4294967296
    → (r : ℕ) × (fold_loop 3 sum ≡ some r) × (r ≡ fold_twice sum % 65536)
unfolding fold_twice
fold_loop-twice sum h =
    let once : ℕ = sum % 65536 + sum / 65536 in
    elim (Bool-cases (ltb sum 65536)) [
      | inl small ↦ (sum, fold_loop_done 2 sum (ground arith), ground arith)
      | inr large ↦ elim (Bool-cases (ltb once 65536)) [
        | inl small ↦ (
          once,
          fold_loop_step 2 sum (ground arith) h ∙ fold_loop_done 1 once (ground arith),
          ground arith,
        )
        | inr still ↦ (
          once % 65536 + once / 65536,
          fold_loop_step 2 sum (ground arith) h
              ∙ fold_loop_step 1 once (ground arith) (omega arith)
              ∙ fold_loop_done 0 (once % 65536 + once / 65536) (ground arith),
          ground arith,
        )
      ]
    ]

same_complement :
    (folded r : ℕ)
    → folded < 4294967296
    → r ≡ folded % 65536
    → (18446744073709551615 - r) % 65536 ≡ (4294967295 - folded) % 65536
same_complement folded r lt e = omega arith

fold_twice-bound : (sum : ℕ) → sum < 4294967296 → fold_twice sum < 4294967296
unfolding fold_twice
fold_twice-bound sum h = omega arith

-- For at most 131,070 bytes neither sum wraps.
sum_fits :
    (bytes : Bytes) → are_bytes bytes ≡ true → length bytes ≤ 131070 → word_sum bytes < 4294967296
sum_fits bytes h le = omega (arith, word_sum-bound bytes h)

-- For at most 131,070 bytes, the checksum of rawClient.c is below 2 ^ 16, and together with the sum of the
-- words it comes to a multiple of 2 ^ 16 - 1.
pub checksum_twice-verifies :
    (bytes : Bytes)
    → are_bytes bytes ≡ true
    → length bytes ≤ 131070
    → (checksum_twice bytes < 65536) × (k : ℕ) × (word_sum bytes + checksum_twice bytes ≡ 65535 * k)
unfolding checksum_twice
checksum_twice-verifies bytes h le =
    let fits : word_sum bytes < 4294967296 = sum_fits bytes h le in
    let (k, e) = folded_twice (word_sum bytes) fits in
    rw (sum_words_whole 4294967296 bytes fits) (omega arith, k, e)

-- For at most 131,070 bytes, the loop of rawClient2.c and rawClient3.c ends, and its checksum is the one that
-- rawClient.c computes with two folds.
pub checksum_loop-twice :
    (bytes : Bytes)
    → are_bytes bytes ≡ true
    → length bytes ≤ 131070
    → checksum_loop bytes ≡ some (checksum_twice bytes)
unfolding checksum_twice checksum_loop
checksum_loop-twice bytes h le =
    let fits : word_sum bytes < 4294967296 = sum_fits bytes h le in
    let (r, e, e') = fold_loop-twice (word_sum bytes) fits in
    ap (λ sum. complement (fold_loop 3 sum))
      (sum_words_whole 18446744073709551616 bytes (omega (arith, fits)))
    ∙ ap complement e
    ∙ ap some (
        same_complement (fold_twice (word_sum bytes)) r (fold_twice-bound (word_sum bytes) fits) e')
    ∙ ap (λ sum. some ((4294967295 - fold_twice sum) % 65536))
        (sym (sum_words_whole 4294967296 bytes fits))

-- For at most 131,070 bytes, the loop of rawClient2.c and rawClient3.c ends, its checksum is the one that
-- rawClient.c computes with two folds, and this is below 2 ^ 16 and comes together with the sum of the words
-- to a multiple of 2 ^ 16 - 1.
pub checksums-verify :
    (bytes : Bytes)
    → are_bytes bytes ≡ true
    → length bytes ≤ 131070
    → (checksum_loop bytes ≡ some (checksum_twice bytes))
      × (checksum_twice bytes < 65536)
      × (k : ℕ) × (word_sum bytes + checksum_twice bytes ≡ 65535 * k)
checksums-verify bytes h le =
    let (below, k, e) = checksum_twice-verifies bytes h le in
    (checksum_loop-twice bytes h le, below, k, e)
