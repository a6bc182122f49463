-- ===== src/Phonebook/Fixed/Index.antt =====
-- The number that `show_abonent` of "4 work/reference_book.c" prints and the index that `del_abonent` takes.
use home_work.Base.{
  ℕ, zero, suc, ◌-◌, ◌<◌, ◌≡◌, refl, sym, ap, ◌∙◌, inl, inr, Bool-cases, ltb, List, [], ◌∷◌, ◌++◌,
  arith, take, get_elem?, get_elem?-take, get_elem?_total, some, false, ◌+◌, ◌==◌, ◌≤◌, length,
}
use home_work.Base.Int.{pos}
use home_work.Console.{Item, number, done}
use home_work.Phonebook.Defs.{Person, Message, entry, numbered, bad_index, remove_at}
use home_work.Phonebook.Listing.{show_loop-numbered, say}
use home_work.Phonebook.Menu.{dispatch}
use home_work.Phonebook.Table.{State, show_abonent}
use home_work.Phonebook.Table.View.{IsView}
use home_work.Phonebook.Fixed.{delete_entry, del_abonent, fixed}
use home_work.Phonebook.Fixed.Shift.{shift-remove_at}

get_elem?-remove_at-suc :
    (i : ℕ) (ps : List Person) → get_elem? (remove_at (suc i) ps) i ≡ get_elem? ps i
unfolding remove_at
get_elem?-remove_at-suc i [] = refl
get_elem?-remove_at-suc zero (p ∷ ps) = refl
get_elem?-remove_at-suc (suc i) (p ∷ ps) = get_elem?-remove_at-suc i ps

get_elem?-numbered :
    (n i : ℕ) (ps : List Person) (p : Person)
    → get_elem? ps i ≡ some p
    → get_elem? (numbered n ps) i ≡ some (entry (n + i) p)
unfolding numbered
get_elem?-numbered n i [] p e = cc e
get_elem?-numbered n zero (q ∷ ps) p e =
    let same : q ≡ p = cc e in
    let number : n ≡ n + 0 = omega arith in
    ap (λ x. some (entry x q)) number ∙ ap (λ x. some (entry (n + 0) x)) same
get_elem?-numbered n (suc i) (q ∷ ps) p e =
    let number : n + 1 + i ≡ n + suc i = omega arith in
    get_elem?-numbered (n + 1) i ps p e ∙ ap (λ x. some (entry x p)) number

-- The index behind the one of an entry.
del_abonent_behind :
    (s : State) (c : List Person) (i : ℕ)
    → IsView s.book c
    → i < s.book.count
    → (t : State) × (del_abonent (pos (suc i)) s ≡ done tt t)
      × (get_elem? t.book.phonebook i ≡ get_elem? s.book.phonebook i)
      × (i < t.book.count)
unfolding del_abonent delete_entry
del_abonent_behind s c i v lt = elim (Bool-cases (ltb (suc i) s.book.count)) [
  | inl within ↦
      let ps = s.book.phonebook in
      let below : suc i < s.book.count = ground arith in
      let (qs, e, size, gone) =
        shift-remove_at (suc i) s.book.count ps below (omega (arith, v.size, v.few)) in
      (
        record s { book = record { phonebook = qs; count = s.book.count - 1 } },
        rw (within, e, delete_entry) refl,
        sym (get_elem?-take qs (s.book.count - 1) i (omega arith))
            ∙ ap (λ l. get_elem? l i) (sym gone)
            ∙ get_elem?-remove_at-suc i (take s.book.count ps)
            ∙ get_elem?-take ps s.book.count i lt,
        omega arith,
      )
  | inr beyond ↦ (record s { output = s.output ++ (bad_index ∷ []) }, rw beyond refl, refl, lt)
]

-- What `show_abonent` prints of an entry.
show_abonent_entry :
    (s : State) (i : ℕ) (p : Person)
    → i < s.book.count
    → s.book.count ≤ length s.book.phonebook
    → get_elem? s.book.phonebook i ≡ some p
    → (lines : List Message) × (show_abonent s ≡ done tt (record s { output = s.output ++ lines }))
      × (get_elem? lines i ≡ some (entry (i + 1) p))
unfolding show_abonent say
show_abonent_entry s i p lt size at =
    let some_left : (s.book.count == 0) ≡ false = ground arith in
    let number : 1 + i ≡ i + 1 = omega arith in
    (
      numbered 1 (take s.book.count s.book.phonebook),
      rw some_left (show_loop-numbered s.book.phonebook s.book.count 0 s (omega arith)),
      get_elem?-numbered 1 i (take s.book.count s.book.phonebook) p
            (get_elem?-take s.book.phonebook s.book.count i lt ∙ at)
          ∙ ap (λ x. some (entry x p)) number,
    )

-- Typing the number under which `show_abonent` prints an entry, at the menu's choice 2, never deletes that
-- entry: whatever is typed behind it, `show_abonent` prints the entry at index `i` under the number `i + 1`,
-- and the choice 2 with this number goes through and leaves the entry where it is, below `count`.
pub del_abonent_shown_number :
    (s : State) (c : List Person) (i : ℕ) (rest : List Item)
    → IsView s.book c
    → i < s.book.count
    → (p : Person) × (lines : List Message) × (t : State) × (show_abonent s
        ≡ done tt (record s { output = s.output ++ lines }))
      × (get_elem? lines i ≡ some (entry (i + 1) p))
      × (dispatch fixed (pos 2) (record s { input = number (pos (suc i)) ∷ rest }) ≡ done tt t)
      × (get_elem? t.book.phonebook i ≡ some p)
      × (i < t.book.count)
unfolding dispatch
del_abonent_shown_number s c i rest v lt =
    let size : s.book.count ≤ length s.book.phonebook = omega (arith, v.size, v.few) in
    let (p, at) = get_elem?_total s.book.phonebook i (omega (arith, size)) in
    let (lines, shown, line) = show_abonent_entry s i p lt size at in
    let (t, deleted, kept, below) = del_abonent_behind (record s { input = rest }) c i v lt in
    (p, lines, t, shown, line, deleted, kept ∙ at, below)
