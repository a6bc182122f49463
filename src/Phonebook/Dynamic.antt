-- ===== src/Phonebook/Dynamic.antt =====
-- "6 work/reference_book.c": a phone book in a block that grows and shrinks by `realloc`. A
-- deletion moves the last entry into the gap. The answer of `realloc` is a parameter: whether the
-- system has `n` entries' worth of memory to give, at a time that is told by what has been printed
-- (a message stands between any two calls), and what a new entry holds before it is written.
pub mod Swap
pub mod Safety
pub mod Delete
use home_work.Base.{
  ℕ, zero, suc, ◌+◌, ◌-◌, ◌==◌, ltb, if◌then◌else◌, Bool, true, false, not, ◌&&◌, List, [], ◌∷◌,
  ◌++◌, Option, none, some, get_elem?, set, take, modify_at, length, replicate,
}
use home_work.Base.Int.{ℤ, pos, negsuc}
use home_work.Libc.{Bytes}
use home_work.Console.{
  Item, Session, Run, Cmd, done, exited, fault, out_of_fuel, pure, ◌>>=◌, ◌>>◌, scan_word,
  scan_number, print, modify,
}
use home_work.Console.Safe.{is_least}
use home_work.Phonebook.Defs.{
  Person, Message, field_size, search_size, added, empty_book, not_found, removed, bad_index, bye,
  bad_choice, no_memory, is_choice,
}
use home_work.Phonebook.Listing.{search_loop, show_loop}
use home_work.Phonebook.Menu.{Operations, run_menu}

-- The block behind `person* phonebook`, `NULL` being the empty one, and `int count`.
pub record Block : Type 0 where
  pub phonebook : List Person
  pub count : ℕ

abbrev pub State : Type 0
State = Session Block Message

abbrev pub empty_block : Block
empty_block = record { phonebook = []; count = 0 }

-- `exit(1)`
abbrev pub exit_failure : Cmd State (Unit {0})
exit_failure s = exited 1 s

-- `index - 1` on an `int` above the least one.
pub predecessor : ℤ → ℤ
predecessor (pos zero) = negsuc 0
predecessor (pos (suc n)) = pos n
predecessor (negsuc n) = negsuc (suc n)

-- `realloc(phonebook, n * sizeof(person))` that succeeds: the entries that both blocks have room for
-- are kept.
unfoldable pub resized : Person → ℕ → List Person → List Person
resized raw n ps = take n (ps ++ replicate n raw)

abbrev pub write_last : (Person → Person) → Cmd State (Unit {0})
write_last f = modify (λ b. record { phonebook = modify_at b.phonebook b.count f; count = b.count })

read_abonent : Cmd State (Unit {0})
read_abonent = do
  name ← scan_word field_size
  write_last (λ p. record p { name = name })
  second_name ← scan_word field_size
  write_last (λ p. record p { second_name = second_name })
  tel ← scan_word field_size
  write_last (λ p. record p { tel = tel })
  modify (λ b. record { phonebook = b.phonebook; count = b.count + 1 })
  print added

pub show_abonent : Cmd State (Unit {0})
unfolding show_loop
show_abonent s =
    if s.book.count == 0 then print empty_book s else show_loop s.book.phonebook s.book.count 0 s

pub search_abonent : Cmd State (Unit {0})
unfolding search_loop
search_abonent = do
  search_name ← scan_word search_size
  found ← (λ s. search_loop s.book.phonebook search_name s.book.count 0 s)
  if found then pure tt else print not_found

module _ (has_memory : List Message → ℕ → Bool) (raw : Person) where
  abbrev pub resize : ℕ → Cmd State (Unit {0})
  resize n = modify (λ b. record { phonebook = resized raw n b.phonebook; count = b.count })

  pub add_abonent : Cmd State (Unit {0})
  unfolding read_abonent
  add_abonent s =
      if has_memory s.output (s.book.count + 1)
      then (do resize (s.book.count + 1); read_abonent) s
      else (do print no_memory; exit_failure) s

  -- The block shrinks to `count` entries. `realloc` to no bytes may return `NULL`, which is no
  -- error.
  shrink_block : Cmd State (Unit {0})
  shrink_block s =
      if ltb 0 s.book.count && not (has_memory s.output s.book.count)
      then (do print no_memory; exit_failure) s
      else (do resize s.book.count; print removed) s

  -- `phonebook[index] = phonebook[count - 1]; count--;`
  delete_entry : ℕ → Cmd State (Unit {0})
  unfolding shrink_block
  delete_entry i s = elim (get_elem? s.book.phonebook (s.book.count - 1)) [
    | none ↦ fault
    | some p ↦
        (do
          modify (λ b. record { phonebook = set b.phonebook i p; count = b.count - 1 })
          shrink_block)
          s
  ]

  pub del_abonent : ℤ → Cmd State (Unit {0})
  unfolding delete_entry
  del_abonent (negsuc n) s = print bad_index s
  del_abonent (pos i) s = if ltb i s.book.count then delete_entry i s else print bad_index s

  -- `main` passes `index - 1` on, which overflows at the least `int`.
  pub del_shown : ℤ → Cmd State (Unit {0})
  unfolding is_least
  del_shown index s = if is_least index then fault else del_abonent (predecessor index) s

  abbrev pub dynamic : Operations Block
  dynamic = record {
    add = add_abonent;
    del = del_shown;
    search = search_abonent;
    show = show_abonent;
  }

  pub main : List Item → Run State (Unit {0})
  main input = run_menu dynamic empty_block input
