-- ===== src/Phonebook/Dynamic/Delete.antt =====
-- What a deletion and an addition do to the entries of the growing phone book.
use home_work.Base.{
  ℕ, suc, ◌+◌, ◌-◌, ◌<◌, ◌≡◌, ap, ◌∙◌, Bool, true, ltb, List, [], ◌∷◌, ◌++◌, some, arith, length,
  length-set, take, get_elem?, get_elem?_total, set, modify_at, inl, inr, Bool-cases, lt→ltb,
  lt_of_get_elem?, length-take, ◌≤◌,
}
use native.Mathlib.Numerals.{add-one}
use mathlib.Core.List.{Perm}
use home_work.Base.Int.{pos}
use home_work.Libc.{Bytes}
use home_work.Console.{Item, word, done}
use home_work.Phonebook.Defs.{Person, Message, field_size, removed, added}
use home_work.Phonebook.Dynamic.{
  Block, State, resized, shrink_block, delete_entry, del_abonent, predecessor, read_abonent,
  add_abonent,
}
use home_work.Phonebook.Dynamic.Swap.{
  resized_grow, resized_shrink, swap_remove-perm, modify_at_last,
}
use home_work.Phonebook.Dynamic.Safety.{IsBlock}

-- The three fields of a new last entry, one after the other.
three_writes :
    (raw : Person) (n : ℕ) (ps : List Person) (x y z : Bytes)
    → n ≡ length ps
    → modify_at
        (modify_at
          (modify_at (resized raw (n + 1) ps) n (λ p. record p { name = x }))
          n
          (λ p. record p { second_name = y }))
        n
        (λ p. record p { tel = z })
      ≡ ps ++ (record { name = x; second_name = y; tel = z } ∷ [])
three_writes raw n ps x y z h = rw (
  add-one n,
  resized_grow raw n ps h,
  modify_at_last n ps raw (λ p. record p { name = x }) h,
  modify_at_last n ps (record raw { name = x }) (λ p. record p { second_name = y }) h,
  modify_at_last n ps (record raw { name = x; second_name = y }) (λ p. record p { tel = z }) h,
)

module _ (has_memory : List Message → ℕ → Bool) (raw : Person) where
  shrink_block-done :
      (s : State)
      → has_memory s.output s.book.count ≡ true
      → shrink_block has_memory raw s
        ≡ done tt (record s {
          book = record {
            phonebook = resized raw s.book.count s.book.phonebook;
            count = s.book.count;
          };
          output = s.output ++ (removed ∷ []);
        })
  unfolding shrink_block
  shrink_block-done s m = elim (Bool-cases (ltb 0 s.book.count)) [
    | inl some_left ↦ rw (some_left, m)
    | inr none_left ↦ rw none_left
  ]

  delete_entry-done :
      (s : State) (i : ℕ) (q : Person)
      → get_elem? s.book.phonebook (s.book.count - 1) ≡ some q
      → has_memory s.output (s.book.count - 1) ≡ true
      → delete_entry has_memory raw i s
        ≡ done tt (record s {
          book = record {
            phonebook = resized raw (s.book.count - 1) (set s.book.phonebook i q);
            count = s.book.count - 1;
          };
          output = s.output ++ (removed ∷ []);
        })
  unfolding delete_entry
  delete_entry-done s i q e m = rw (e, delete_entry) (shrink_block-done _ m)

  -- `show_abonent` numbers entry `i` with `i + 1`. If that number is typed and `realloc` succeeds,
  -- the deletion leaves a block whose `count` is its size and whose entries are, up to their order,
  -- the old ones without entry `i`; nothing but the message is printed.
  pub del_abonent-perm :
      (s : State) (i : ℕ) (p : Person)
      → IsBlock 0 s.book
      → get_elem? s.book.phonebook i ≡ some p
      → has_memory s.output (s.book.count - 1) ≡ true
      → (qs : List Person) × (del_abonent has_memory raw (predecessor (pos (suc i))) s
          ≡ done tt (record s {
            book = record { phonebook = qs; count = s.book.count - 1 };
            output = s.output ++ (removed ∷ []);
          }))
        × Perm (p ∷ qs) s.book.phonebook
        × (s.book.count - 1 ≡ length qs)
  unfolding del_abonent predecessor
  del_abonent-perm s i p b e m =
      let ps = s.book.phonebook in
      let n : ℕ = s.book.count - 1 in
      let within : i < length ps = lt_of_get_elem? ps i e in
      let size : length ps ≡ suc n = omega (arith, b.size) in
      let guard : ltb i s.book.count ≡ true = lt→ltb _ _ (omega (arith, b.size)) in
      let (q, last) = get_elem?_total ps n (omega arith) in
      let kept : n ≤ length (set ps i q) = omega (arith, length-set ps i q) in
      (
        take n (set ps i q),
        rw guard (
            delete_entry-done s i q last m
            ∙ ap
                (λ l. done tt (record s {
                  book = record { phonebook = l; count = s.book.count - 1 };
                  output = s.output ++ (removed ∷ []);
                }))
                (resized_shrink raw n (set ps i q) kept)),
        swap_remove-perm i n ps size e last,
        omega (arith, length-take n (set ps i q)),
      )

  -- Three words that fit are appended as one person, if `realloc` succeeds.
  pub add_abonent-append :
      (b : Block) (name second_name tel : Bytes) (rest : List Item) (output : List Message)
      → IsBlock 0 b
      → length name < field_size
      → length second_name < field_size
      → length tel < field_size
      → has_memory output (b.count + 1) ≡ true
      → add_abonent has_memory raw (record {
        book = b;
        input = word name ∷ word second_name ∷ word tel ∷ rest;
        output = output;
      })
        ≡ done tt (record {
          book = record {
            phonebook =
                b.phonebook ++ (record { name = name; second_name = second_name; tel = tel } ∷ []);
            count = b.count + 1;
          };
          input = rest;
          output = output ++ (added ∷ []);
        })
  unfolding add_abonent read_abonent
  add_abonent-append b x y z rest output i hx hy hz m =
      rw
        (
          m,
          lt→ltb (length x) field_size hx,
          lt→ltb (length y) field_size hy,
          lt→ltb (length z) field_size hz,
        )
        (ap
          (λ l. done tt (record {
            book = record { phonebook = l; count = b.count + 1 };
            input = rest;
            output = output ++ (added ∷ []);
          }))
          (three_writes raw b.count b.phonebook x y z (omega (arith, i.size))))
