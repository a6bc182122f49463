-- ===== src/Phonebook/Examples.antt =====
-- Short runs of the three phone books, and the theorems at concrete data.
use home_work.Base.{
  ℕ, ◌-◌, ◌≡◌, refl, ◌≢◌, Bool, true, List, [], ◌∷◌, arith, length, replicate, ◌<◌, get_elem?, ◌++◌,
  some,
}
use mathlib.Core.List.{Perm}
use home_work.Base.Int.{pos}
use home_work.Console.{Item, word, number, done, out_of_fuel}
use home_work.Console.Sim.{Sim, Related}
use home_work.Phonebook.Defs.{Person, Message, added, removed, entry}
use home_work.Phonebook.Menu.{run_menu, dispatch}
use home_work.Phonebook.Table.{State, zeroed, show_abonent}
use home_work.Phonebook.Table.View.{IsView}
use home_work.Phonebook.Fixed
use home_work.Phonebook.Fixed.Index.{del_abonent_shown_number}
use home_work.Phonebook.Blanking
use home_work.Phonebook.Dynamic
use home_work.Phonebook.Dynamic.{Block}
use home_work.Phonebook.Dynamic.Delete.{del_abonent-perm, add_abonent-append}

abbrev anna : Person
anna = record { name = 65 ∷ []; second_name = 66 ∷ []; tel = 55 ∷ [] }

abbrev boris : Person
boris = record { name = 67 ∷ []; second_name = 68 ∷ []; tel = 56 ∷ [] }

-- Both are added, the entry shown under number 1 is to be deleted, and the book is shown.
abbrev typed : List Item
typed =
    number (pos 1)
    ∷ word (65 ∷ [])
    ∷ word (66 ∷ [])
    ∷ word (55 ∷ [])
    ∷ number (pos 1)
    ∷ word (67 ∷ [])
    ∷ word (68 ∷ [])
    ∷ word (56 ∷ [])
    ∷ number (pos 2)
    ∷ number (pos 1)
    ∷ number (pos 4)
    ∷ number (pos 5)
    ∷ []

abbrev two_entries : State
two_entries = record {
  book = record { phonebook = anna ∷ boris ∷ replicate 98 zeroed; count = 2 };
  input = [];
  output = [];
}

two_entries-IsView : IsView two_entries.book (anna ∷ boris ∷ [])
two_entries-IsView = record { size = refl; few = omega arith; entries = refl }

main-refines_example :
    Sim (Related IsView) (Fixed.main typed) (Fixed.Refines.spec_main typed)
    × (Fixed.main typed ≢ out_of_fuel)
main-refines_example = Fixed.Refines.main-refines typed

del_abonent_shown_number_example :
    (p : Person) × (lines : List Message) × (t : State) × (show_abonent two_entries
      ≡ done tt (record two_entries { output = [] ++ lines }))
    × (get_elem? lines 0 ≡ some (entry 1 p))
    × (dispatch Fixed.fixed (pos 2) (record two_entries { input = number (pos 1) ∷ [] })
        ≡ done tt t)
    × (get_elem? t.book.phonebook 0 ≡ some p)
    × (0 < t.book.count)
del_abonent_shown_number_example =
    del_abonent_shown_number two_entries (anna ∷ boris ∷ []) 0 [] two_entries-IsView (omega arith)

blanking-refines_example :
    Sim (Related IsView) (Blanking.main typed) (run_menu Blanking.Refines.list_book [] typed)
    × (Blanking.main typed ≢ out_of_fuel)
blanking-refines_example = Blanking.Refines.blanking-refines typed

abbrev plenty : List Message → ℕ → Bool
plenty log n = true

abbrev two_blocks : Dynamic.State
two_blocks = record {
  book = record { phonebook = anna ∷ boris ∷ []; count = 2 };
  input = [];
  output = [];
}

del_abonent-perm_example :
    (qs : List Person) × (Dynamic.del_abonent plenty zeroed (Dynamic.predecessor (pos 1)) two_blocks
      ≡ done tt (record {
        book = record { phonebook = qs; count = 2 - 1 };
        input = [];
        output = removed ∷ [];
      }))
    × Perm (anna ∷ qs) (anna ∷ boris ∷ [])
    × ◌≡◌ {A = ℕ} (2 - 1) (length qs)
del_abonent-perm_example =
    del_abonent-perm plenty zeroed two_blocks 0 anna (record { size = refl }) refl refl

add_abonent-append_example :
    Dynamic.add_abonent plenty zeroed (record {
      book = record { phonebook = anna ∷ []; count = 1 };
      input = word (67 ∷ []) ∷ word (68 ∷ []) ∷ word (56 ∷ []) ∷ [];
      output = [];
    })
    ≡ done tt (record {
      book = record { phonebook = anna ∷ boris ∷ []; count = 2 };
      input = [];
      output = added ∷ [];
    })
add_abonent-append_example =
    add_abonent-append plenty zeroed (record { phonebook = anna ∷ []; count = 1 }) (67 ∷ [])
      (68 ∷ []) (56 ∷ []) [] [] (record { size = refl }) (omega arith) (omega arith) (omega arith)
      refl
