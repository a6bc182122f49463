-- ===== src/Checksum.antt =====
-- The Internet checksum of "16 work/socket work 4": `checksum` of rawClient.c, which folds a 32-bit sum
-- twice, and `checksum` of rawClient2.c and rawClient3.c, which folds a 64-bit sum until it fits 16 bits. A
-- 16-bit word of memory is little-endian.
pub mod Verifies
mod Examples
use home_work.Base.{
  ℕ, zero, suc, ◌+◌, ◌-◌, ◌*◌, ◌/◌, ◌%◌, List, [], ◌∷◌, Option, none, some, ◌==◌, if◌then◌else◌,
}
use home_work.Libc.{Bytes}

-- The sum of the words, and of an odd byte, in an unsigned number that wraps at `modulus`.
unfoldable pub sum_words : (modulus sum : ℕ) → Bytes → ℕ
sum_words modulus sum [] = sum
sum_words modulus sum (b ∷ []) = (sum + b) % modulus
sum_words modulus sum (a ∷ b ∷ bytes) = sum_words modulus ((sum + (a + b * 256)) % modulus) bytes

-- `sum = (sum >> 16) + (sum & 0xFFFF); sum += (sum >> 16);`
unfoldable pub fold_twice : ℕ → ℕ
fold_twice sum =
    let folded = (sum / 65536 + sum % 65536) % 4294967296 in (folded + folded / 65536) % 4294967296

-- `~sum` in 32 bits, cut to 16.
unfoldable pub checksum_twice : Bytes → ℕ
unfolding sum_words fold_twice
checksum_twice bytes = (4294967295 - fold_twice (sum_words 4294967296 0 bytes)) % 65536

-- `while (sum >> 16) sum = (sum & 0xFFFF) + (sum >> 16);`
unfoldable pub fold_loop : (rounds sum : ℕ) → Option ℕ
fold_loop zero sum = none
fold_loop (suc rounds) sum =
    let rest = fold_loop rounds ((sum % 65536 + sum / 65536) % 18446744073709551616) in
    if sum / 65536 == 0 then some sum else rest

-- `(uint16_t)(~sum)` of a 64-bit sum
abbrev pub complement : Option ℕ → Option ℕ
complement none = none
complement (some sum) = some ((18446744073709551615 - sum) % 65536)

-- Three tests of the loop are enough for a sum below 2 ^ 32.
unfoldable pub checksum_loop : Bytes → Option ℕ
unfolding sum_words fold_loop
checksum_loop bytes = complement (fold_loop 3 (sum_words 18446744073709551616 0 bytes))
