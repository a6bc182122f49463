-- ===== src/Phonebook/Table.antt =====
-- The table of a hundred entries of "4 work/reference_book.c" and "5 work/task1.c", and the two
-- operations that these files share: `add_abonent` and `show_abonent`.
pub mod View
pub mod Ends
use home_work.Base.{
  ℕ, zero, suc, ◌+◌, ◌==◌, ltb, if◌then◌else◌, List, [], Option, none, some, get_elem?, modify_at,
  replicate,
}
use home_work.Console.{Session, Run, Cmd, done, fault, pure, ◌>>=◌, ◌>>◌, scan_word, print, modify}
use home_work.Phonebook.Listing.{show_loop}
use home_work.Phonebook.Defs.{
  Person, Message, field_size, max_abonents, added, overfull, empty_book, entry,
}

-- `person phonebook[100]` and `int count`.
pub record Table : Type 0 where
  pub phonebook : List Person
  pub count : ℕ

abbrev pub State : Type 0
State = Session Table Message

-- Static storage is zeroed.
abbrev pub zeroed : Person
zeroed = record { name = []; second_name = []; tel = [] }

abbrev pub empty_table : Table
empty_table = record { phonebook = replicate max_abonents zeroed; count = 0 }

-- A write through `phonebook[count].field`.
abbrev pub write_last : (Person → Person) → Cmd State (Unit {0})
write_last f = modify (λ b. record { phonebook = modify_at b.phonebook b.count f; count = b.count })

abbrev pub increment : Table → Table
increment b = record { phonebook = b.phonebook; count = b.count + 1 }

append_abonent : Cmd State (Unit {0})
append_abonent = do
  name ← scan_word field_size
  write_last (λ p. record p { name = name })
  second_name ← scan_word field_size
  write_last (λ p. record p { second_name = second_name })
  tel ← scan_word field_size
  write_last (λ p. record p { tel = tel })
  modify increment
  print added

unfoldable pub add_abonent : Cmd State (Unit {0})
unfolding append_abonent
add_abonent s = if ltb s.book.count max_abonents then append_abonent s else print overfull s

unfoldable pub show_abonent : Cmd State (Unit {0})
unfolding show_loop
show_abonent s =
    if s.book.count == 0 then print empty_book s else show_loop s.book.phonebook s.book.count 0 s
