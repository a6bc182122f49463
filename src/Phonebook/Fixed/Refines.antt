-- ===== src/Phonebook/Fixed/Refines.antt =====
-- "4 work/reference_book.c" and the menu over a list of persons.
use home_work.Base.{
  ℕ, ◌≢◌, ◌<◌, refl, ap, ◌∙◌, inl, inr, Bool-cases, ltb, if◌then◌else◌, List, [], ◌∷◌, Option, none,
  some, arith,
}
use home_work.Base.Int.{ℤ, pos, negsuc}
use home_work.Console.{Item, Run, and_then, out_of_fuel, pure, print, modify}
use home_work.Console.Sim.{Sim, both_done, and_then-Sim, Related, scan_word-Sim, print-Sim}
use home_work.Phonebook.Defs.{
  Person, search_size, not_found, bad_index, remove_at, found, find_name,
}
use home_work.Phonebook.Listing.{search_loop-find_name, reported, say}
use home_work.Phonebook.Table.{State, empty_table}
use home_work.Phonebook.Table.View.{
  Abstract, IsView, spec_add, spec_show, length-view, say-Related, add_abonent-Sim,
  show_abonent-Sim,
}
use home_work.Phonebook.Fixed.{del_abonent, delete_entry, search_abonent, fixed, main}
use home_work.Phonebook.Menu.{Operations, run_menu}
use home_work.Phonebook.Menu.Sim.{Simulates, run_menu-Sim}
use home_work.Phonebook.Menu.Ends.{IsFinite, run_menu-EndsWith}
use home_work.Console.Ends.{ends_of_Sim}
use home_work.Phonebook.Fixed.Ends.{spec_del-Left, spec_search-Left}
use home_work.Phonebook.Table.Ends.{spec_add-Left, spec_show-Left}
use home_work.Phonebook.Fixed.Spec.{spec_del, answer, spec_search}
use home_work.Phonebook.Fixed.Shift.{shift-remove_at}

abbrev pub list_book : Operations (List Person)
list_book = record { add = spec_add; del = spec_del; search = spec_search; show = spec_show }

module _ {s : State} {t : Abstract} (r : Related IsView s t) where
  delete_entry-Sim :
      (i : ℕ) → i < s.book.count → Sim (Related IsView) (delete_entry i s) (modify (remove_at i) t)
  unfolding delete_entry
  delete_entry-Sim i lt =
      let (qs, e, size, gone) =
        shift-remove_at i s.book.count s.book.phonebook lt
          (omega (arith, r.book.size, r.book.few)) in
      rw (e, delete_entry)
        (both_done (record {
          book = record {
            size = size ∙ r.book.size;
            few = omega (arith, r.book.few);
            entries = ap (remove_at i) r.book.entries ∙ gone;
          };
          input = r.input;
          output = r.output;
        }))

  del_abonent-Sim : (index : ℤ) → Sim (Related IsView) (del_abonent index s) (spec_del index t)
  unfolding del_abonent spec_del
  del_abonent-Sim (negsuc n) = print-Sim bad_index r
  del_abonent-Sim (pos i) = rw (length-view r.book) (elim (Bool-cases (ltb i s.book.count)) [
    | inl within ↦ rw within (delete_entry-Sim i (ground arith))
    | inr beyond ↦ rw beyond (print-Sim bad_index r)
  ])

  reported-Sim :
      (o : Option Person)
      → Sim
          (Related IsView)
          (and_then (reported o s) (λ found. if found then pure tt else print not_found))
          (answer o t)
  unfolding reported say
  reported-Sim none = print-Sim not_found r
  reported-Sim (some p) = both_done (say-Related (found p ∷ []) (found p ∷ []) r refl)

search_abonent-Sim :
    {s : State} {t : Abstract}
    → Related IsView s t
    → Sim (Related IsView) (search_abonent s) (spec_search t)
unfolding search_abonent spec_search
search_abonent-Sim r =
    and_then-Sim (scan_word-Sim search_size r) (λ s t q. q)
      λ w s t r.
        rw
          (
            search_loop-find_name s.book.phonebook w s.book.count 0 s
                (omega (arith, r.book.size, r.book.few)),
            ← r.book.entries,
          )
          (reported-Sim r (find_name w t.book))

fixed-Simulates : Simulates IsView fixed list_book
fixed-Simulates = record {
  add = λ s t r. add_abonent-Sim r;
  del = λ index s t r. del_abonent-Sim r index;
  search = λ s t r. search_abonent-Sim r;
  show = λ s t r. show_abonent-Sim r;
}

pub spec_main : List Item → Run Abstract (Unit {0})
spec_main input = run_menu list_book [] input

list_book-IsFinite : IsFinite list_book
list_book-IsFinite = record {
  add = spec_add-Left;
  del = λ index n. spec_del-Left n index;
  search = spec_search-Left;
  show = spec_show-Left;
}

start : IsView empty_table []
start = record { size = refl; few = omega arith; entries = refl }

-- As long as every `scanf` finds an item of its kind, the program over the array of a hundred entries
-- does what the menu over a list of persons does: up to a normal end, and up to the first item that
-- is missing or of another kind, the messages and the input left are the same, the list is what the
-- array holds below `count`, and `count` is at most 100; one run has undefined behaviour (a word too
-- long for its array) exactly when the other has, and nothing more is said of it. The rounds of the
-- menu are no more than the items of the input.
pub main-refines :
    (input : List Item)
    → Sim (Related IsView) (main input) (spec_main input) × (main input ≢ out_of_fuel)
unfolding main spec_main
main-refines input =
    let sim = run_menu-Sim fixed-Simulates empty_table [] input start in
    (sim, ends_of_Sim (λ s. Unit) sim (run_menu-EndsWith list_book-IsFinite [] input))
