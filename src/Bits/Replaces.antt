-- ===== src/Bits/Replaces.antt =====
-- The replacement of the third byte of a number, of "1 work/task4.c" and "3 work/task1.c".
use mathlib.Core.Option
use home_work.Base.{
  ℕ, zero, suc, ◌+◌, ◌*◌, ◌/◌, ◌%◌, ◌<◌, ◌≡◌, refl, ap, ◌∙◌, sym, Option, some, none, arith, ltb,
  if◌then◌else◌, Bool-cases, inl, inr,
}
use home_work.Base.Int.{ℤ, pos, negsuc}
use home_work.Bits.{bit_and, bit_or, either, replace_by_masks, replace_in_memory, bytes_of}

abbrev widen : (k w : ℕ) → ℕ
widen zero w = w
widen (suc k) w = suc (widen k w)

-- `k` digits 1, and `k` digits 0, below the digits of `m`.
unfoldable ones_below : (k m : ℕ) → ℕ
ones_below zero m = m
ones_below (suc k) m = 1 + 2 * ones_below k m

unfoldable zeros_below : (k m : ℕ) → ℕ
zeros_below zero m = m
zeros_below (suc k) m = 2 * zeros_below k m

-- The `k` lowest digits of `n`, below the digits of `m`.
unfoldable digits_below : (k n m : ℕ) → ℕ
digits_below zero n m = m
digits_below (suc k) n m = n % 2 + 2 * digits_below k (n / 2) m

unfoldable shifted_right : (k n : ℕ) → ℕ
shifted_right zero n = n
shifted_right (suc k) n = shifted_right k (n / 2)

bit_and-ones_below :
    (k w n m : ℕ)
    → bit_and (widen k w) n (ones_below k m) ≡ digits_below k n (bit_and w (shifted_right k n) m)
unfolding bit_and ones_below digits_below shifted_right
bit_and-ones_below zero w n m = refl
bit_and-ones_below (suc k) w n m =
    let half : (1 + 2 * ones_below k m) / 2 ≡ ones_below k m = omega arith in
    rw half (omega (arith, bit_and-ones_below k w (n / 2) m))

bit_and-zeros_below :
    (k w n m : ℕ)
    → bit_and (widen k w) n (zeros_below k m) ≡ zeros_below k (bit_and w (shifted_right k n) m)
unfolding bit_and zeros_below shifted_right
bit_and-zeros_below zero w n m = refl
bit_and-zeros_below (suc k) w n m =
    let half : 2 * zeros_below k m / 2 ≡ zeros_below k m = omega arith in
    rw half (omega (arith, bit_and-zeros_below k w (n / 2) m))

either-zero : (a : ℕ) → a < 2 → either a 0 ≡ a
either-zero zero h = refl
either-zero (suc a) h = omega arith

bit_or-zeros_below :
    (k w n a m : ℕ)
    → bit_or (widen k w) (digits_below k n a) (zeros_below k m) ≡ digits_below k n (bit_or w a m)
unfolding bit_or zeros_below digits_below
bit_or-zeros_below zero w n a m = refl
bit_or-zeros_below (suc k) w n a m =
    let half : 2 * zeros_below k m / 2 ≡ zeros_below k m = omega arith in
    let even : 2 * zeros_below k m % 2 ≡ 0 = omega arith in
    let rest : (n % 2 + 2 * digits_below k (n / 2) a) / 2 ≡ digits_below k (n / 2) a =
      omega arith in
    let first : (n % 2 + 2 * digits_below k (n / 2) a) % 2 ≡ n % 2 = omega arith in
    rw (half, even, rest, first, either-zero (n % 2) (omega arith))
      (omega (arith, bit_or-zeros_below k w (n / 2) a m))

zeros_below-bit_or :
    (k w a b : ℕ)
    → bit_or (widen k w) (zeros_below k a) b ≡ digits_below k b (bit_or w a (shifted_right k b))
unfolding bit_or zeros_below digits_below shifted_right
zeros_below-bit_or zero w a b = refl
zeros_below-bit_or (suc k) w a b =
    let half : 2 * zeros_below k a / 2 ≡ zeros_below k a = omega arith in
    let even : 2 * zeros_below k a % 2 ≡ 0 = omega arith in
    rw (half, even) (omega (arith, zeros_below-bit_or k w a (b / 2)))

-- A byte.
digits_below-byte : (n m : ℕ) → digits_below 8 n m ≡ n % 256 + 256 * m
unfolding digits_below
digits_below-byte n m = omega arith

shifted_right-byte : (n : ℕ) → shifted_right 8 n ≡ n / 256
unfolding shifted_right
shifted_right-byte n = omega arith

zeros_below-byte : (m : ℕ) → zeros_below 8 m ≡ 256 * m
unfolding zeros_below
zeros_below-byte m = omega arith

mask_digits : ones_below 8 (ones_below 8 (zeros_below 8 (ones_below 8 0))) ≡ 4278255615
unfolding ones_below zeros_below
mask_digits = refl

masked_byte : (n : ℕ) → bit_and 8 n (ones_below 8 0) ≡ digits_below 8 n 0
unfolding bit_and
masked_byte n = bit_and-ones_below 8 0 n 0

joined_byte : (n : ℕ) → bit_or 8 (digits_below 8 n 0) (zeros_below 8 0) ≡ digits_below 8 n 0
unfolding bit_or
joined_byte n = bit_or-zeros_below 8 0 n 0 0

-- What the mask 0xFF00FFFF keeps.
masked :
    (n : ℕ)
    → bit_and 32 n 4278255615
      ≡ digits_below 8 n
          (digits_below 8 (n / 256) (zeros_below 8 (digits_below 8 (n / 16777216) 0)))
masked n =
    let first = shifted_right-byte n in
    let second = shifted_right-byte (n / 256) in
    let third = shifted_right-byte (n / 256 / 256) in
    let top : n / 256 / 256 / 256 ≡ n / 16777216 = omega arith in
    rw (sym mask_digits) (
      bit_and-ones_below 8 24 n _
      ∙ ap (digits_below 8 n) (
          rw first (
            bit_and-ones_below 8 16 (n / 256) _
            ∙ ap (digits_below 8 (n / 256)) (
                rw second (
                  bit_and-zeros_below 8 8 (n / 256 / 256) _
                  ∙ ap (zeros_below 8) (rw (third, top) (masked_byte (n / 16777216))))))))

-- A byte, shifted to the third place and joined to it.
joined :
    (n top b : ℕ)
    → b < 256
    → bit_or 32
        (digits_below 8 n (digits_below 8 (n / 256) (zeros_below 8 (digits_below 8 top 0))))
        (zeros_below 8 (zeros_below 8 b))
      ≡ digits_below 8 n (digits_below 8 (n / 256) (digits_below 8 b (digits_below 8 top 0)))
joined n top b h =
    let gone : shifted_right 8 b ≡ zeros_below 8 0 =
      shifted_right-byte b ∙ omega (arith, zeros_below-byte 0) in
    bit_or-zeros_below 8 24 n _ _
    ∙ ap (digits_below 8 n) (
        bit_or-zeros_below 8 16 (n / 256) _ _
        ∙ ap (digits_below 8 (n / 256))
            (zeros_below-bit_or 8 8 _ b ∙ ap (digits_below 8 b) (rw gone (joined_byte top))))

-- The number with its third byte replaced, as its bytes.
four_bytes :
    (n b : ℕ)
    → b < 256
    → digits_below 8 n
        (digits_below 8 (n / 256) (digits_below 8 b (digits_below 8 (n / 16777216) 0)))
      ≡ replace_in_memory n b
unfolding replace_in_memory bytes_of
four_bytes n b h =
    rw
      (
        digits_below-byte (n / 16777216) 0,
        digits_below-byte b _,
        digits_below-byte (n / 256) _,
        digits_below-byte n _,
      )
      (omega arith)

shifted_byte : (b : ℕ) → b * 65536 ≡ zeros_below 8 (zeros_below 8 b)
shifted_byte b = omega (arith, zeros_below-byte b, zeros_below-byte (zeros_below 8 b))

abbrev pub byte_value : ℤ → Option ℕ
byte_value (negsuc k) = none
byte_value (pos b) = if ltb 255 b then none else some b

-- The masks put the new byte where the write to the third byte in memory puts it; a value below 0 or above
-- 255 is refused.
pub replace_by_masks-memory :
    (number : ℕ) (new_byte : ℤ)
    → replace_by_masks number new_byte ≡ Option.map (replace_in_memory number) (byte_value new_byte)
unfolding replace_by_masks
replace_by_masks-memory n (negsuc k) = refl
replace_by_masks-memory n (pos b) = elim (Bool-cases (ltb 255 b)) [
  | inl large ↦ rw large refl
  | inr small ↦
      let byte : b < 256 = ground arith in
      rw (small, masked n, shifted_byte b)
        (ap some (joined n (n / 16777216) b byte ∙ four_bytes n b byte))
]
