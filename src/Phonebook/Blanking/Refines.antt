-- ===== src/Phonebook/Blanking/Refines.antt =====
-- "5 work/task1.c" and a menu over a list of persons with a deletion that empties an entry.
use home_work.Base.{
  ℕ, zero, suc, ◌+◌, ◌≤◌, ◌<◌, ◌≡◌, ◌≢◌, refl, sym, ap, ◌∙◌, inl, inr, Bool-cases, ltb,
  if◌then◌else◌, List, [], ◌∷◌, some, arith, length, take, drop, get_elem?, get_elem?_total,
  drop-eq-cons, modify_at, length-modify_at, map,
}
use native.Mathlib.Numerals.{add-one}
use home_work.Base.Int.{ℤ, pos, negsuc}
use home_work.Libc.{Bytes, str_eq}
use home_work.Console.{Item, Cmd, done, out_of_fuel, ◌>>=◌, scan_word, print, modify}
use home_work.Console.Sim.{Sim, both_done, and_then-Sim, Related, scan_word-Sim, print-Sim}
use home_work.Console.Ends.{
  EndsWith, Left, and_then-EndsWith, if-EndsWith, scan_word-EndsWith, ends_of_Sim,
}
use home_work.Phonebook.Defs.{Person, Message, search_size, found, not_found, bad_index}
use home_work.Phonebook.Listing.{say, say_nil, say-say}
use home_work.Phonebook.Menu.{Operations, run_menu}
use home_work.Phonebook.Menu.Sim.{Simulates, run_menu-Sim}
use home_work.Phonebook.Menu.Ends.{IsFinite, run_menu-EndsWith}
use home_work.Phonebook.Table.{State, empty_table}
use home_work.Phonebook.Table.View.{
  Abstract, IsView, spec_add, spec_show, length-view, say-Related, add_abonent-Sim,
  show_abonent-Sim,
}
use home_work.Phonebook.Table.Ends.{spec_add-Left, spec_show-Left}
use home_work.Phonebook.Blanking.{blank, del_abonent, search_loop, search_abonent, blanking, main}

-- What the search prints for an entry.
unfoldable pub verdict : Bytes → Person → Message
verdict w p = if str_eq p.name w then found p else not_found

unfoldable pub spec_del : ℤ → Cmd Abstract (Unit {0})
spec_del (negsuc n) s = print bad_index s
spec_del (pos i) s =
    if ltb i (length s.book) then modify (λ ps. modify_at ps i blank) s else print bad_index s

unfoldable pub spec_search : Cmd Abstract (Unit {0})
unfolding say
spec_search = do
  search_name ← scan_word search_size
  λ s. done tt (say (map (verdict search_name) s.book) s)

abbrev pub list_book : Operations (List Person)
list_book = record { add = spec_add; del = spec_del; search = spec_search; show = spec_show }

take-modify_at_below :
    (n i : ℕ) (ps : List Person) (f : Person → Person)
    → i < n
    → take n (modify_at ps i f) ≡ modify_at (take n ps) i f
take-modify_at_below zero i ps f h = absurd (omega arith)
take-modify_at_below (suc n) i [] f h = refl
take-modify_at_below (suc n) zero (p ∷ ps) f h = refl
take-modify_at_below (suc n) (suc i) (p ∷ ps) f h =
    ap (λ l. p ∷ l) (take-modify_at_below n i ps f (omega arith))

module _ {s : State} {t : Abstract} (r : Related IsView s t) where
  del_abonent-Sim : (index : ℤ) → Sim (Related IsView) (del_abonent index s) (spec_del index t)
  unfolding del_abonent spec_del
  del_abonent-Sim (negsuc n) = print-Sim bad_index r
  del_abonent-Sim (pos i) = rw (length-view r.book) (elim (Bool-cases (ltb i s.book.count)) [
    | inl within ↦ rw within (
        both_done (record {
          book = record {
            size = length-modify_at s.book.phonebook i blank ∙ r.book.size;
            few = r.book.few;
            entries =
                ap (λ ps. modify_at ps i blank) r.book.entries
                ∙ sym (take-modify_at_below s.book.count i s.book.phonebook blank (ground arith));
          };
          input = r.input;
          output = r.output;
        }))
    | inr beyond ↦ rw beyond (print-Sim bad_index r)
  ])

search_step :
    (w : Bytes) (rounds i : ℕ) (s : State) (p : Person)
    → get_elem? s.book.phonebook i ≡ some p
    → search_loop w (suc rounds) i s ≡ search_loop w rounds (i + 1) (say (verdict w p ∷ []) s)
unfolding search_loop verdict say
search_step w rounds i s p e = elim (Bool-cases (str_eq p.name w)) [
  | inl same ↦ rw (e, search_loop, same)
  | inr other ↦ rw (e, search_loop, other)
]

next_entry :
    (w : Bytes) (ps : List Person) (rounds i : ℕ) (p : Person)
    → get_elem? ps i ≡ some p
    → map (verdict w) (take (suc rounds) (drop i ps))
      ≡ verdict w p ∷ map (verdict w) (take rounds (drop (i + 1) ps))
next_entry w ps rounds i p e = rw (drop-eq-cons ps i e, add-one) refl

search_loop-map :
    (w : Bytes) (ps : List Person) (rounds i : ℕ) (s : State)
    → s.book.phonebook ≡ ps
    → i + rounds ≤ length ps
    → search_loop w rounds i s ≡ done tt (say (map (verdict w) (take rounds (drop i ps))) s)
unfolding search_loop
search_loop-map w ps zero i s b h = ap (done tt) (sym (say_nil s))
search_loop-map w ps (suc rounds) i s b h =
    let (p, e) = get_elem?_total ps i (omega arith) in
    search_step w rounds i s p (rw b e)
    ∙ search_loop-map w ps rounds (i + 1) (say (verdict w p ∷ []) s) (unfold say in b) (omega arith)
    ∙ ap (done tt)
        (say-say (verdict w p ∷ []) _ s ∙ ap (λ l. say l s) (sym (next_entry w ps rounds i p e)))

search_abonent-Sim :
    {s : State} {t : Abstract}
    → Related IsView s t
    → Sim (Related IsView) (search_abonent s) (spec_search t)
unfolding search_abonent spec_search
search_abonent-Sim r =
    and_then-Sim (scan_word-Sim search_size r) (λ s t q. q)
      λ w s t r.
        rw
          (search_loop-map w s.book.phonebook s.book.count 0 s refl
            (omega (arith, r.book.size, r.book.few)))
          (both_done (say-Related _ _ r (ap (map (verdict w)) (sym r.book.entries))))

blanking-Simulates : Simulates IsView blanking list_book
blanking-Simulates = record {
  add = λ s t r. add_abonent-Sim r;
  del = λ index s t r. del_abonent-Sim r index;
  search = λ s t r. search_abonent-Sim r;
  show = λ s t r. show_abonent-Sim r;
}

spec_del-Left : (index : ℤ) (n : ℕ) (t : Abstract) → Left n t → EndsWith (Left n) (spec_del index t)
unfolding spec_del
spec_del-Left (negsuc k) n t h = h
spec_del-Left (pos i) n t h = if-EndsWith (Left n) (ltb i (length t.book)) _ _ h h

spec_search-Left : (n : ℕ) (t : Abstract) → Left n t → EndsWith (Left n) (spec_search t)
unfolding spec_search
spec_search-Left n t h =
    and_then-EndsWith (Left n) (Left n) _ _ (scan_word-EndsWith search_size t n h) λ w s p. p

list_book-IsFinite : IsFinite list_book
list_book-IsFinite = record {
  add = spec_add-Left;
  del = spec_del-Left;
  search = spec_search-Left;
  show = spec_show-Left;
}

start : IsView empty_table []
start = record { size = refl; few = omega arith; entries = refl }

-- As long as every `scanf` finds an item of its kind, the program does what the menu over a list
-- does in which a deletion empties the entry with the index, which stays in the list, and a search
-- prints for every entry either that it is found or that it is not: up to a normal end, and up to
-- the first item that is missing or of another kind, the messages and the input left are the same
-- and the list is what the array holds below `count`; one run has undefined behaviour exactly when
-- the other has, and nothing more is said of it. The rounds are no more than the items.
pub blanking-refines :
    (input : List Item)
    → Sim (Related IsView) (main input) (run_menu list_book [] input) × (main input ≢ out_of_fuel)
unfolding main
blanking-refines input =
    let sim = run_menu-Sim blanking-Simulates empty_table [] input start in
    (sim, ends_of_Sim (λ s. Unit) sim (run_menu-EndsWith list_book-IsFinite [] input))
