-- ===== src/Phonebook/Defs.antt =====
-- The record type that the three phone books declare, the messages that they print, and the lists
-- that their searches and listings come to.
use home_work.Base.{ℕ, zero, suc, ◌+◌, List, [], ◌∷◌, Option, none, some, if◌then◌else◌}
use home_work.Base.{Bool, false, ◌==◌}
use home_work.Base.Int.{ℤ, pos, negsuc}
use home_work.Libc.{Bytes, str_eq}

-- The three `char[10]` fields hold C strings.
pub record Person : Type 0 where
  pub name : Bytes
  pub second_name : Bytes
  pub tel : Bytes

abbrev pub field_size : ℕ
field_size = 10

abbrev pub max_abonents : ℕ
max_abonents = 100

abbrev pub search_size : ℕ
search_size = 100

-- What reaches the screen; the menu and the prompts, which are the same text in every run, are left
-- out.
pub data Message : Type 0 where
  added overfull empty_book bad_index not_found removed bye bad_choice no_memory : Message
  entry : ℕ → Person → Message
  found : Person → Message

-- The entries numbered from `n` on, as `show_abonent` prints them.
unfoldable pub numbered : ℕ → List Person → List Message
numbered n [] = []
numbered n (p ∷ ps) = entry n p ∷ numbered (n + 1) ps

-- The first person of that name.
unfoldable pub find_name : Bytes → List Person → Option Person
find_name w [] = none
find_name w (p ∷ ps) = if str_eq p.name w then some p else find_name w ps

unfoldable pub remove_at : ℕ → List Person → List Person
remove_at i [] = []
remove_at zero (p ∷ ps) = ps
remove_at (suc i) (p ∷ ps) = p ∷ remove_at i ps

abbrev pub is_choice : ℤ → ℕ → Bool
is_choice (pos n) k = n == k
is_choice (negsuc n) k = false
