-- ===== src/Bits.antt =====
-- The programs on the bits of a number: "1 work/task1.c" to "1 work/task4.c" and "3 work/task1.c". An `int`
-- or an `unsigned int` is its word of 32 bits, a number below 2 ^ 32.
pub mod Words
pub mod Prints
pub mod Replaces
mod Examples
use home_work.Base.{
  ℕ, zero, suc, ◌+◌, ◌*◌, ◌/◌, ◌%◌, min, List, [], ◌∷◌, ◌++◌, Option, none, some, Bool, true, false,
  if◌then◌else◌, ◌==◌, ◌&&◌, ltb, not, set,
}
use home_work.Base.Int.{ℤ, pos, negsuc}
use home_work.Libc.{Bytes}

-- `a & b` and `a | b` on words of `width` bits, bit by bit.
unfoldable pub bit_and : (width a b : ℕ) → ℕ
bit_and zero a b = 0
bit_and (suc width) a b = min (a % 2) (b % 2) + 2 * bit_and width (a / 2) (b / 2)

abbrev pub either : (a b : ℕ) → ℕ
either zero b = b
either (suc a) b = 1

unfoldable pub bit_or : (width a b : ℕ) → ℕ
bit_or zero a b = 0
bit_or (suc width) a b = either (a % 2) (b % 2) + 2 * bit_or width (a / 2) (b / 2)

-- 2 ^ 31, which is `1 << 31` as an unsigned word.
abbrev pub highest_bit : ℕ
highest_bit = 2147483648

-- "0" or "1" for `n & mask`.
abbrev pub digit : (n mask : ℕ) → ℕ
digit n mask = if bit_and 32 n mask == 0 then 48 else 49

-- A space behind a byte, but for the last one.
abbrev pub gap : (i : ℕ) → Bytes
gap i = if ((i + 1) % 8 == 0) && not (i == 31) then 32 ∷ [] else []

-- The loop of `printBinary`, with `rounds` rounds left.
unfoldable pub print_loop : (rounds i n mask : ℕ) → Bytes
unfolding bit_and
print_loop zero i n mask = []
print_loop (suc rounds) i n mask = digit n mask ∷ gap i ++ print_loop rounds (i + 1) n (mask / 2)

-- What `printBinary` prints.
unfoldable pub print_binary : (n : ℕ) → Bytes
unfolding print_loop
print_binary n = print_loop 32 0 n highest_bit ++ (10 ∷ [])

-- The body of the loop of `countOnes`: `count`, one more where `n & 1`.
unfoldable pub counted : (n count : ℕ) → ℕ
unfolding bit_and
counted n count = if bit_and 32 n 1 == 0 then count else count + 1

-- The loop of `countOnes`, with a bound on its rounds.
unfoldable pub count_loop : (rounds n count : ℕ) → Option ℕ
unfolding counted
count_loop zero n count = none
count_loop (suc rounds) n count =
    let rest = count_loop rounds (n / 2) (counted n count) in if n == 0 then some count else rest

-- A number of 32 bits leaves the loop at the 33rd test at the latest.
unfoldable pub count_ones : (n : ℕ) → Option ℕ
unfolding count_loop
count_ones n = count_loop 33 n 0

-- "1 work/task4.c": 0xFF00FFFF clears the third byte; `none` is the message for a value that is not a byte.
unfoldable pub replace_by_masks : (number : ℕ) (new_byte : ℤ) → Option ℕ
unfolding bit_and bit_or
replace_by_masks number (negsuc k) = none
replace_by_masks number (pos new_byte) =
    if ltb 255 new_byte
    then none
    else some (bit_or 32 (bit_and 32 number 4278255615) (new_byte * 65536))

-- The four bytes of a word in memory, the lowest first.
unfoldable pub bytes_of : (num : ℕ) → Bytes
bytes_of num = num % 256 ∷ num / 256 % 256 ∷ num / 65536 % 256 ∷ num / 16777216 % 256 ∷ []

abbrev pub word_of : Bytes → ℕ
word_of [] = 0
word_of (byte ∷ bytes) = byte + 256 * word_of bytes

-- "3 work/task1.c": `byte_ptr[2] = new_byte`
unfoldable pub replace_in_memory : (num new_byte : ℕ) → ℕ
unfolding bytes_of
replace_in_memory num new_byte = word_of (set (bytes_of num) 2 new_byte)
