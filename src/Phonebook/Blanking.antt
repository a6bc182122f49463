-- ===== src/Phonebook/Blanking.antt =====
-- "5 work/task1.c": a table of a hundred entries in which a deletion only empties the three texts of
-- an entry, and a search goes through the whole table. `add_abonent` and `show_abonent` are those
-- of `Phonebook.Table`.
pub mod Refines
use home_work.Base.{
  ℕ, zero, suc, ◌+◌, ltb, if◌then◌else◌, Bool, true, false, List, [], Option, none, some, get_elem?,
  modify_at,
}
use home_work.Base.Int.{ℤ, pos, negsuc}
use home_work.Libc.{Bytes, str_eq}
use home_work.Console.{
  Item, Session, Run, Cmd, and_then, done, fault, ◌>>=◌, scan_word, print, modify,
}
use home_work.Phonebook.Defs.{Person, Message, search_size, found, not_found, bad_index}
use home_work.Phonebook.Menu.{Operations, run_menu}
use home_work.Phonebook.Table.{Table, State, empty_table, add_abonent, show_abonent}

-- `name[0] = '\0'`, and so for the other fields.
abbrev pub blank : Person → Person
blank p = record { name = []; second_name = []; tel = [] }

pub del_abonent : ℤ → Cmd State (Unit {0})
del_abonent (negsuc n) s = print bad_index s
del_abonent (pos i) s =
    if ltb i s.book.count
    then modify (λ b. record { phonebook = modify_at b.phonebook i blank; count = b.count }) s
    else print bad_index s

-- Each round prints its own verdict; `found` is set and never read.
search_loop : Bytes → (rounds i : ℕ) → Cmd State (Unit {0})
search_loop w zero i s = done tt s
search_loop w (suc rounds) i s = elim (get_elem? s.book.phonebook i) [
  | none ↦ fault
  | some p ↦
      and_then ((if str_eq p.name w then print (found p) else print not_found) s)
        (λ _ s'. search_loop w rounds (i + 1) s')
]

pub search_abonent : Cmd State (Unit {0})
unfolding search_loop
search_abonent = do
  search_name ← scan_word search_size
  λ s. search_loop search_name s.book.count 0 s

abbrev pub blanking : Operations Table
blanking = record {
  add = add_abonent;
  del = del_abonent;
  search = search_abonent;
  show = show_abonent;
}

pub main : List Item → Run State (Unit {0})
main input = run_menu blanking empty_table input
