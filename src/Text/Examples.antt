-- ===== src/Text/Examples.antt =====
-- Runs of the string functions.
use home_work.Base.{refl, ◌≡◌, [], ◌∷◌, some}
use home_work.Libc.{strn_eq}
use home_work.Text.{find_substring, reverse_string}
use home_work.Text.Find.{FirstOccurrence, find_substring-FirstOccurrence}
use home_work.Text.Reverse.{reverse_string-reverse}

reverse_string-reverse_example : reverse_string (97 ∷ 98 ∷ 99 ∷ []) ≡ some (99 ∷ 98 ∷ 97 ∷ [])
reverse_string-reverse_example = reverse_string-reverse (97 ∷ 98 ∷ 99 ∷ [])

-- "ab" in "cab".
find_ab : find_substring (99 ∷ 97 ∷ 98 ∷ []) (97 ∷ 98 ∷ []) ≡ some 1
unfolding find_substring strn_eq
find_ab = refl

find_substring-FirstOccurrence_example :
    FirstOccurrence
      (97 ∷ 98 ∷ [])
      (99 ∷ 97 ∷ 98 ∷ [])
      (find_substring (99 ∷ 97 ∷ 98 ∷ []) (97 ∷ 98 ∷ []))
find_substring-FirstOccurrence_example =
    find_substring-FirstOccurrence (99 ∷ 97 ∷ 98 ∷ []) (97 ∷ 98 ∷ [])
