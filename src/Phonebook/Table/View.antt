-- ===== src/Phonebook/Table/View.antt =====
-- The abstract phone book is the list of the entries below `count`; the shared operations refine
-- their counterparts on it.
use home_work.Base.{
  ◌≤◌, ◌<◌, ◌≡◌, sym, ap, ◌∙◌, inl, inr, Bool-cases, ◌==◌, ltb, if◌then◌else◌, List, [], ◌∷◌, ◌++◌,
  some, arith, length, take, get_elem?, modify_at, length-modify_at, take-modify_at,
  get_elem?-modify_at, get_elem?_total, take-add_one, length-take,
}
use native.Mathlib.Numerals.{add-one}
use mathlib.Core.Path.{ap₂}
use home_work.Console.{Session, Cmd, done, ◌>>=◌, ◌>>◌, scan_word, print, modify}
use home_work.Console.Sim.{
  Sim, both_done, and_then-Sim, Related, scan_word-Sim, print-Sim, modify-Sim, Related-map,
}
use home_work.Phonebook.Defs.{
  Person, Message, field_size, max_abonents, added, overfull, empty_book, numbered,
}
use home_work.Phonebook.Table.{Table, State, increment, append_abonent, add_abonent, show_abonent}
use home_work.Phonebook.Listing.{show_loop-numbered, say}

abbrev pub Abstract : Type 0
Abstract = Session (List Person) Message

pub record IsView (b : Table) (c : List Person) : Type 0 where
  pub size : length b.phonebook ≡ max_abonents
  pub few : b.count ≤ max_abonents
  pub entries : c ≡ take b.count b.phonebook

-- Three words that fit their fields are appended as one person, if there is room.
abbrev pub append_person : Cmd Abstract (Unit {0})
append_person = do
  name ← scan_word field_size
  second_name ← scan_word field_size
  tel ← scan_word field_size
  modify (λ ps. ps ++ (record { name = name; second_name = second_name; tel = tel } ∷ []))
  print added

unfoldable pub spec_add : Cmd Abstract (Unit {0})
spec_add s = if ltb (length s.book) max_abonents then append_person s else print overfull s

unfoldable pub spec_show : Cmd Abstract (Unit {0})
unfolding say
spec_show s = if length s.book == 0 then print empty_book s else done tt (say (numbered 1 s.book) s)

pub length-view : {b : Table} {c : List Person} → IsView b c → length c ≡ b.count
length-view {b} v =
    ap length v.entries ∙ omega (arith, length-take b.count b.phonebook, v.size, v.few)

-- The entry at `count`, which is being written, is `p`.
record IsPending (p : Person) (b : Table) (c : List Person) : Type 0 where
  view : IsView b c
  room : b.count < max_abonents
  last : get_elem? b.phonebook b.count ≡ some p

written : (Person → Person) → State → State
written f s = record s {
  book = record { phonebook = modify_at s.book.phonebook s.book.count f; count = s.book.count };
}

module _ {p : Person} {s : State} {t : Abstract} (r : Related (IsPending p) s t) where
  write : (f : Person → Person) → Related (IsPending (f p)) (written f s) t
  unfolding written
  write f = record {
    book = record {
      view = record {
        size = length-modify_at s.book.phonebook s.book.count f ∙ r.book.view.size;
        few = r.book.view.few;
        entries = r.book.view.entries ∙ sym (take-modify_at s.book.phonebook s.book.count f);
      };
      room = r.book.room;
      last = get_elem?-modify_at s.book.phonebook s.book.count f r.book.last;
    };
    input = r.input;
    output = r.output;
  }

  finish :
      Sim
        (Related IsView)
        ((modify increment >> print added) s)
        ((modify (λ ps. ps ++ (p ∷ [])) >> print added) t)
  finish =
      and_then-Sim
        (modify-Sim {Q' = IsView} increment (λ ps. ps ++ (p ∷ [])) r
          (record {
            size = r.book.view.size;
            few = omega (arith, r.book.room);
            entries =
                ap (λ l. l ++ (p ∷ [])) r.book.view.entries
                ∙ sym (take-add_one s.book.phonebook s.book.count r.book.last)
                ∙ ap (λ n. take n s.book.phonebook) (sym (add-one s.book.count));
          }))
        (λ s t q. q) λ _ s t q. print-Sim added q

settle : {p : Person} (s : State) (t : Abstract) → Related (IsPending p) s t → Related IsView s t
settle = Related-map λ b c q. q.view

append-Sim :
    {p : Person} {s : State} {t : Abstract}
    → Related (IsPending p) s t
    → Sim (Related IsView) (append_abonent s) (append_person t)
unfolding append_abonent written
append-Sim r = and_then-Sim (scan_word-Sim field_size r) settle λ name s t r.
    and_then-Sim (scan_word-Sim field_size (write r (λ p. record p { name = name }))) settle
      λ second s t r.
        and_then-Sim (scan_word-Sim field_size (write r (λ p. record p { second_name = second })))
          settle λ tel s t r. finish (write r (λ p. record p { tel = tel }))

pub add_abonent-Sim :
    {s : State} {t : Abstract}
    → Related IsView s t
    → Sim (Related IsView) (add_abonent s) (spec_add t)
unfolding add_abonent spec_add
add_abonent-Sim {s} r = rw (length-view r.book) (elim (Bool-cases (ltb s.book.count max_abonents)) [
  | inl room ↦
      let (p, last) = get_elem?_total s.book.phonebook s.book.count (ground (arith, r.book.size)) in
      rw room (
        append-Sim (record {
          book = record { view = r.book; room = ground arith; last = last };
          input = r.input;
          output = r.output;
        }))
  | inr full ↦ rw full (print-Sim overfull r)
])

pub say-Related :
    {s : State} {t : Abstract} (ms ns : List Message)
    → Related IsView s t
    → ms ≡ ns
    → Related IsView (say ms s) (say ns t)
unfolding say
say-Related {s} {t} ms ns r e = record {
  book = r.book;
  input = r.input;
  output = ap₂ ◌++◌ r.output e;
}

pub show_abonent-Sim :
    {s : State} {t : Abstract}
    → Related IsView s t
    → Sim (Related IsView) (show_abonent s) (spec_show t)
unfolding show_abonent spec_show
show_abonent-Sim {s} r = rw (length-view r.book) (elim (Bool-cases (s.book.count == 0)) [
  | inl none_left ↦ rw none_left (print-Sim empty_book r)
  | inr some_left ↦
      rw
        (
          some_left,
          show_loop-numbered s.book.phonebook s.book.count 0 s
              (omega (arith, r.book.size, r.book.few)),
        )
        (both_done (say-Related _ _ r (ap (numbered 1) (sym r.book.entries))))
])
