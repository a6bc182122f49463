-- ===== src/Phonebook/Fixed/Spec.antt =====
-- Deletion and search of "4 work/reference_book.c" over a list of persons.
use home_work.Base.{length, ltb, if◌then◌else◌, Option, none, some}
use home_work.Base.Int.{ℤ, pos, negsuc}
use home_work.Console.{Cmd, ◌>>=◌, scan_word, print, modify}
use home_work.Phonebook.Defs.{
  Person, search_size, not_found, bad_index, remove_at, found, find_name,
}
use home_work.Phonebook.Table.View.{Abstract}

-- The entry with that index disappears; the order of the others stays.
unfoldable pub spec_del : ℤ → Cmd Abstract (Unit {0})
spec_del (negsuc n) s = print bad_index s
spec_del (pos i) s = if ltb i (length s.book) then modify (remove_at i) s else print bad_index s

abbrev pub answer : Option Person → Cmd Abstract (Unit {0})
answer none s = print not_found s
answer (some p) s = print (found p) s

unfoldable pub spec_search : Cmd Abstract (Unit {0})
spec_search = do search_name ← scan_word search_size; λ s. answer (find_name search_name s.book) s
