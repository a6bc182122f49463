-- ===== src/Phonebook/Listing.antt =====
-- The two loops over the entries of a phone book, which "4 work/reference_book.c" and
-- "6 work/reference_book.c" share: the listing of `show_abonent` and the search of
-- `search_abonent`, with what they come to as functions of the list. A read outside the array is a
-- fault.
use home_work.Base.{
  ℕ, zero, suc, ◌+◌, ◌≤◌, ◌≡◌, refl, sym, ap, ◌∙◌, inl, inr, Bool-cases, Bool, true, false, List,
  [], ◌∷◌, ◌++◌, Option, none, some, arith, length, take, drop, get_elem?, get_elem?_total,
  drop-eq-cons, append_assoc, append-nil,
}
use native.Mathlib.Numerals.{add-one}
use home_work.Libc.{Bytes, str_eq}
use home_work.Console.{Session, Run, Cmd, done, fault, and_then, print}
use home_work.Phonebook.Defs.{Person, Message, entry, found, numbered, find_name}

module _ {B : Type 0} where
  -- `rounds` rounds are left, and the next one is at `i`.
  unfoldable pub show_loop : List Person → (rounds i : ℕ) → Cmd (Session B Message) (Unit {0})
  show_loop ps zero i s = done tt s
  show_loop ps (suc rounds) i s = elim (get_elem? ps i) [
    | none ↦ fault
    | some p ↦ and_then (print (entry (i + 1) p) s) (λ _ s'. show_loop ps rounds (i + 1) s')
  ]

  -- The loop ends early at the first name that is equal; the result is the flag `found`.
  unfoldable pub search_loop : List Person → Bytes → (rounds i : ℕ) → Cmd (Session B Message) Bool
  search_loop ps w zero i s = done false s
  search_loop ps w (suc rounds) i s = elim (get_elem? ps i) [
    | none ↦ fault
    | some p ↦ elim (str_eq p.name w) [
      | true ↦ and_then (print (found p) s) (λ _ s'. done true s')
      | false ↦ search_loop ps w rounds (i + 1) s
    ]
  ]

  unfoldable pub say : List Message → Session B Message → Session B Message
  say ms s = record s { output = s.output ++ ms }

  pub say_nil : (s : Session B Message) → say [] s ≡ s
  unfolding say
  say_nil s = ap (λ o. record { book = s.book; input = s.input; output = o }) (append-nil s.output)

  pub say-say :
      (ms ns : List Message) (s : Session B Message) → say ns (say ms s) ≡ say (ms ++ ns) s
  unfolding say
  say-say ms ns s =
      ap (λ o. record { book = s.book; input = s.input; output = o }) (append_assoc s.output ms ns)

  show_step :
      (ps : List Person) (rounds i : ℕ) (s : Session B Message) (p : Person)
      → get_elem? ps i ≡ some p
      → show_loop ps rounds (i + 1) (say (entry (i + 1) p ∷ []) s)
        ≡ done tt (
            say
              (numbered (i + 1 + 1) (take rounds (drop (i + 1) ps)))
              (say (entry (i + 1) p ∷ []) s))
      → show_loop ps (suc rounds) i s
        ≡ done tt (say (numbered (i + 1) (take (suc rounds) (drop i ps))) s)
  unfolding show_loop numbered
  show_step ps rounds i s p e ih =
      rw (e, drop-eq-cons ps i e, show_loop)
        (unfold say in
          ih
          ∙ ap (done tt) (say-say (entry (i + 1) p ∷ []) _ s)
          ∙ ap
              (λ n.
                done tt (say (entry (i + 1) p ∷ numbered (i + 1 + 1) (take rounds (drop n ps))) s))
              (add-one i))

  pub show_loop-numbered :
      (ps : List Person) (rounds i : ℕ) (s : Session B Message)
      → i + rounds ≤ length ps
      → show_loop ps rounds i s ≡ done tt (say (numbered (i + 1) (take rounds (drop i ps))) s)
  unfolding show_loop numbered
  show_loop-numbered ps zero i s h = ap (done tt) (sym (say_nil s))
  show_loop-numbered ps (suc rounds) i s h =
      let (p, e) = get_elem?_total ps i (omega arith) in
      show_step ps rounds i s p e
        (show_loop-numbered ps rounds (i + 1) (say (entry (i + 1) p ∷ []) s) (omega arith))

  -- The outcome of a search, from the entry that it finds.
  unfoldable pub reported : Option Person → Session B Message → Run (Session B Message) Bool
  reported none s = done false s
  reported (some p) s = done true (say (found p ∷ []) s)

  search_step :
      (ps : List Person) (w : Bytes) (rounds i : ℕ) (s : Session B Message) (p : Person)
      → get_elem? ps i ≡ some p
      → search_loop ps w rounds (i + 1) s ≡ reported (find_name w (take rounds (drop (i + 1) ps))) s
      → search_loop ps w (suc rounds) i s ≡ reported (find_name w (take (suc rounds) (drop i ps))) s
  unfolding search_loop find_name reported say
  search_step ps w rounds i s p e ih = elim (Bool-cases (str_eq p.name w)) [
    | inl same ↦ rw (e, drop-eq-cons ps i e, search_loop, same) refl
    | inr other ↦
        rw (e, drop-eq-cons ps i e, search_loop, other)
          (ih ∙ ap (λ n. reported (find_name w (take rounds (drop n ps))) s) (add-one i))
  ]

  -- The loop finds the first entry with the name, and prints that entry alone.
  pub search_loop-find_name :
      (ps : List Person) (w : Bytes) (rounds i : ℕ) (s : Session B Message)
      → i + rounds ≤ length ps
      → search_loop ps w rounds i s ≡ reported (find_name w (take rounds (drop i ps))) s
  unfolding search_loop find_name reported
  search_loop-find_name ps w zero i s h = refl
  search_loop-find_name ps w (suc rounds) i s h =
      let (p, e) = get_elem?_total ps i (omega arith) in
      search_step ps w rounds i s p e (search_loop-find_name ps w rounds (i + 1) s (omega arith))
