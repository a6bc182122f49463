-- ===== src/Text.antt =====
-- Functions on C strings: `reverse_string` of the socket servers ("16 work") and `findSubstring` of
-- "3 work/task4.c". A string is the list of its bytes in front of the NUL.
mod Examples
pub mod Find
pub mod Reverse
use home_work.Base.{
  ℕ, zero, suc, ◌+◌, ◌-◌, ◌/◌, List, [], ◌∷◌, Option, none, some, length, get_elem?, set, drop,
  if◌then◌else◌, ◌==◌,
}
use home_work.Libc.{Bytes, strn_eq}

-- `temp = str[i]; str[i] = str[j]; str[j] = temp;`, where `none` is an access out of range.
unfoldable pub swap : ℕ → ℕ → Bytes → Option Bytes
swap i j str = elim (get_elem? str i) [
  | none ↦ none
  | some temp ↦ elim (get_elem? str j) [ none ↦ none | some c ↦ some (set (set str i c) j temp) ]
]

-- `for (i = ...; i < length / 2; i++)` with `rounds` rounds left.
unfoldable pub reverse_loop : (rounds i length : ℕ) → Bytes → Option Bytes
unfolding swap
reverse_loop zero i n str = some str
reverse_loop (suc rounds) i n str = elim (swap i (n - 1 - i) str) [
  | none ↦ none
  | some str' ↦ reverse_loop rounds (i + 1) n str'
]

unfoldable pub reverse_string : Bytes → Option Bytes
unfolding reverse_loop
reverse_string str = reverse_loop (length str / 2) 0 (length str) str

-- The bytes in front of the first NUL.
unfoldable pub until_nul : Bytes → Bytes
until_nul [] = []
until_nul (b ∷ bs) = if b == 0 then [] else b ∷ until_nul bs

-- `for (p = str; *p != '\0'; p++)`: the result is `p - str`.
unfoldable pub find_substring : (str substr : Bytes) → Option ℕ
unfolding strn_eq
find_substring [] substr = none
find_substring (c ∷ str) substr =
    if strn_eq (length substr) (c ∷ str) substr
    then some 0
    else elim (find_substring str substr) [ none ↦ none | some n ↦ some (n + 1) ]
