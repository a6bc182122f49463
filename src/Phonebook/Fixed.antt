-- ===== src/Phonebook/Fixed.antt =====
-- "4 work/reference_book.c": a table of a hundred entries in which a deletion moves the entries
-- behind it forward. `add_abonent` and `show_abonent` are those of `Phonebook.Table`.
pub mod Shift
pub mod Spec
pub mod Refines
pub mod Index
pub mod Ends
use home_work.Base.{
  ℕ, zero, suc, ◌+◌, ◌-◌, ltb, if◌then◌else◌, Bool, true, false, List, Option, none, some,
  get_elem?, set,
}
use home_work.Base.Int.{ℤ, pos, negsuc}
use home_work.Libc.{Bytes}
use home_work.Console.{
  Item, Session, Run, Cmd, done, fault, out_of_fuel, pure, ◌>>=◌, ◌>>◌, scan_word, scan_number,
  print,
}
use home_work.Phonebook.Defs.{
  Person, Message, search_size, not_found, bad_index, bye, bad_choice, is_choice,
}
use home_work.Phonebook.Listing.{search_loop}
use home_work.Phonebook.Menu.{Operations, run_menu}
use home_work.Phonebook.Table.{Table, State, empty_table, add_abonent, show_abonent}

-- `for (i = index; i < count - 1; i++) phonebook[i] = phonebook[i + 1];` with `rounds` rounds left.
pub shift_loop : (rounds i : ℕ) → List Person → Option (List Person)
shift_loop zero i ps = some ps
shift_loop (suc rounds) i ps = elim (get_elem? ps (i + 1)) [
  | none ↦ none
  | some p ↦ shift_loop rounds (i + 1) (set ps i p)
]

delete_entry : ℕ → Cmd State (Unit {0})
unfolding shift_loop
delete_entry i s = elim (shift_loop (s.book.count - 1 - i) i s.book.phonebook) [
  | none ↦ fault
  | some ps ↦ done tt (record s { book = record { phonebook = ps; count = s.book.count - 1 } })
]

-- The guard is `index < count && index >= 0`.
pub del_abonent : ℤ → Cmd State (Unit {0})
unfolding delete_entry
del_abonent (negsuc n) s = print bad_index s
del_abonent (pos i) s = if ltb i s.book.count then delete_entry i s else print bad_index s

pub search_abonent : Cmd State (Unit {0})
unfolding search_loop
search_abonent = do
  search_name ← scan_word search_size
  found ← (λ s. search_loop s.book.phonebook search_name s.book.count 0 s)
  if found then pure tt else print not_found

abbrev pub fixed : Operations Table
fixed = record {
  add = add_abonent;
  del = del_abonent;
  search = search_abonent;
  show = show_abonent;
}

pub main : List Item → Run State (Unit {0})
main input = run_menu fixed empty_table input
