-- ===== src/Console/Sim.antt =====
-- Two console programs that stop in the same way, with the same input left and the same messages,
-- over data that a relation connects: the rules by which a refinement is proved step by step.
use home_work.Base.{ℕ, List, [], ◌∷◌, ◌++◌, ◌≡◌, refl, length, ltb, Bool-cases, inl, inr, ap}
use mathlib.Core.Path.{subst}
use home_work.Console.{
  Item, word, number, Run, done, exited, fault, stopped, out_of_fuel, Session, Cmd, and_then,
  scan_word, take_word, scan_number, take_number, print, modify,
}

pub data Sim {S T : Type 0} {A : Type 0} (R : S → T → Type 0) : Run S A → Run T A → Type 0 where
  both_done : {a : A} {s : S} {t : T} → R s t → Sim R (done a s) (done a t)
  both_exited : {n : ℕ} {s : S} {t : T} → R s t → Sim R (exited n s) (exited n t)
  both_fault : Sim R fault fault
  both_stopped : {s : S} {t : T} → R s t → Sim R (stopped s) (stopped t)
  both_out_of_fuel : Sim R out_of_fuel out_of_fuel

module _ {S T : Type 0} {A C : Type 0} {R R' : S → T → Type 0} where
  -- The relation may be weakened at an exit, and where the run is no longer followed.
  pub and_then-Sim :
      {m : Run S A} {n : Run T A} {k : A → Cmd S C} {l : A → Cmd T C}
      → Sim R m n
      → ((s : S) (t : T) → R s t → R' s t)
      → ((a : A) (s : S) (t : T) → R s t → Sim R' (k a s) (l a t))
      → Sim R' (and_then m k) (and_then n l)
  and_then-Sim (both_done r) weaken next = next _ _ _ r
  and_then-Sim (both_exited r) weaken next = both_exited (weaken _ _ r)
  and_then-Sim both_fault weaken next = both_fault
  and_then-Sim (both_stopped r) weaken next = both_stopped (weaken _ _ r)
  and_then-Sim both_out_of_fuel weaken next = both_out_of_fuel

-- Sessions over related data, at the same point of the input and of the output.
pub record Related {B C M : Type 0} (Q : B → C → Type 0) (s : Session B M) (t : Session C M)
    : Type 0 where
  pub book : Q s.book t.book
  pub input : s.input ≡ t.input
  pub output : s.output ≡ t.output

module _ {B C M : Type 0} {Q : B → C → Type 0} where
  take_word-Sim :
      (size : ℕ) (is : List Item) {s : Session B M} {t : Session C M}
      → Related Q s t
      → Sim (Related Q) (take_word size is s) (take_word size is t)
  take_word-Sim size [] r = both_stopped r
  take_word-Sim size (number z ∷ rest) r = both_stopped r
  take_word-Sim size (word w ∷ rest) r = elim (Bool-cases (ltb (length w) size)) [
    | inl fits ↦ rw fits (both_done (record { book = r.book; input = refl; output = r.output }))
    | inr over ↦ rw over both_fault
  ]

  pub scan_word-Sim :
      (size : ℕ) {s : Session B M} {t : Session C M}
      → Related Q s t
      → Sim (Related Q) (scan_word size s) (scan_word size t)
  scan_word-Sim size {s} {t} r =
      subst (λ is. Sim (Related Q) (take_word size s.input s) (take_word size is t)) r.input
        (take_word-Sim size s.input r)

  take_number-Sim :
      (is : List Item) {s : Session B M} {t : Session C M}
      → Related Q s t
      → Sim (Related Q) (take_number is s) (take_number is t)
  take_number-Sim [] r = both_stopped r
  take_number-Sim (word w ∷ rest) r = both_stopped r
  take_number-Sim (number z ∷ rest) r =
      both_done (record { book = r.book; input = refl; output = r.output })

  pub scan_number-Sim :
      {s : Session B M} {t : Session C M}
      → Related Q s t
      → Sim (Related Q) (scan_number s) (scan_number t)
  scan_number-Sim {s} {t} r =
      subst (λ is. Sim (Related Q) (take_number s.input s) (take_number is t)) r.input
        (take_number-Sim s.input r)

  pub print-Sim :
      (m : M) {s : Session B M} {t : Session C M}
      → Related Q s t
      → Sim (Related Q) (print m s) (print m t)
  print-Sim m r =
      both_done
        (record { book = r.book; input = r.input; output = ap (λ o. o ++ (m ∷ [])) r.output })

  pub modify-Sim :
      {Q' : B → C → Type 0} (f : B → B) (g : C → C) {s : Session B M} {t : Session C M}
      → Related Q s t
      → Q' (f s.book) (g t.book)
      → Sim (Related Q') (modify f s) (modify g t)
  modify-Sim f g r q = both_done (record { book = q; input = r.input; output = r.output })

pub Related-map :
    {B C M : Type 0} {Q Q' : B → C → Type 0}
    → ((b : B) (c : C) → Q b c → Q' b c)
    → (s : Session B M) (t : Session C M) → Related Q s t
    → Related Q' s t
Related-map f s t r = record { book = f _ _ r.book; input = r.input; output = r.output }
