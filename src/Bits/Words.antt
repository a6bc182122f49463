-- ===== src/Bits/Words.antt =====
-- The binary digits of a number, and the masks of one bit.
use home_work.Base.{
  ℕ, zero, suc, ◌+◌, ◌*◌, ◌/◌, ◌%◌, ◌<◌, ◌≡◌, refl, Bool, true, false, ◌==◌, arith,
}
use home_work.Bits.{bit_and}

unfoldable pub pow2 : ℕ → ℕ
pow2 zero = 1
pow2 (suc k) = pow2 k * 2

-- The binary digit of `n` with `k` digits below it.
unfoldable pub bit : (k n : ℕ) → Bool
bit zero n = n % 2 == 1
bit (suc k) n = bit k (n / 2)

abbrev pub weight : (k : ℕ) → Bool → ℕ
weight k true = pow2 k
weight k false = 0

weight-suc : (k : ℕ) (b : Bool) → weight (suc k) b ≡ weight k b * 2
unfolding pow2
weight-suc k true = refl
weight-suc k false = refl

bit_and-zero : (w n : ℕ) → bit_and w n 0 ≡ 0
unfolding bit_and
bit_and-zero zero n = refl
bit_and-zero (suc w) n = omega (arith, bit_and-zero w (n / 2))

pub weight-zero : (n : ℕ) → weight 0 (bit 0 n) ≡ n % 2
unfolding pow2 bit
weight-zero n = ground arith

-- A mask of one bit keeps that bit.
pub bit_and-pow2 : (w k n : ℕ) → k < w → bit_and w n (pow2 k) ≡ weight k (bit k n)
unfolding bit_and pow2 bit
bit_and-pow2 zero k n h = absurd (omega arith)
bit_and-pow2 (suc w) zero n h = omega (arith, bit_and-zero w (n / 2), weight-zero n)
bit_and-pow2 (suc w) (suc k) n h =
    let half : pow2 k * 2 / 2 ≡ pow2 k = omega arith in
    rw half (omega (arith, bit_and-pow2 w k (n / 2) (omega arith), weight-suc k (bit k (n / 2))))

-- The `k` lowest digits of `n`, as a number.
unfoldable pub low : (k n : ℕ) → ℕ
unfolding pow2 bit
low zero n = 0
low (suc k) n = weight k (bit k n) + low k n

low_step : (k n : ℕ) → low (suc k) n ≡ n % 2 + 2 * low k (n / 2)
unfolding low bit
low_step zero n = omega (arith, weight-zero n)
low_step (suc k) n = omega (arith, low_step k n, weight-suc k (bit k (n / 2)))

pub low_whole : (k n : ℕ) → n < pow2 k → low k n ≡ n
unfolding low pow2
low_whole zero n h = omega arith
low_whole (suc k) n h = omega (arith, low_step k n, low_whole k (n / 2) (omega arith))

abbrev pub one : Bool → ℕ
one true = 1
one false = 0

-- How many of the `k` lowest digits are 1.
unfoldable pub ones : (k n : ℕ) → ℕ
unfolding bit
ones zero n = 0
ones (suc k) n = one (bit k n) + ones k n

pub ones_step : (k n : ℕ) → ones (suc k) n ≡ n % 2 + ones k (n / 2)
unfolding ones bit
ones_step zero n = ground arith
ones_step (suc k) n = omega (arith, ones_step k n)

pub ones_of_zero : (k : ℕ) → ones k 0 ≡ 0
unfolding ones
ones_of_zero zero = refl
ones_of_zero (suc k) = omega (arith, ones_step k 0, ones_of_zero k)
