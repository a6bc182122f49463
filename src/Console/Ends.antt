-- ===== src/Console/Ends.antt =====
-- Programs whose runs do not exhaust their fuel, and which leave a bounded part of the input.
use home_work.Base.{
  ℕ, ◌≤◌, ◌<◌, ◌≢◌, List, [], ◌∷◌, inl, inr, Bool-cases, ltb, length, arith, Bool, true, false,
  if◌then◌else◌,
}
use home_work.Console.{
  Item, word, number, Run, done, exited, fault, stopped, out_of_fuel, Session, Cmd, and_then,
  scan_word, take_word, scan_number, take_number,
}
use home_work.Console.Sim.{Sim, both_done, both_exited, both_fault, both_stopped, both_out_of_fuel}

-- The bound on the rounds does not run out, where the run is followed; a normal end leaves a state
-- with `P`.
abbrev pub EndsWith : {S A : Type 0} → (S → Type 0) → Run S A → Type 0
EndsWith P (done a s) = P s
EndsWith P (exited k s) = Unit
EndsWith P fault = Unit
EndsWith P (stopped s) = Unit
EndsWith P out_of_fuel = ⊥

module _ {S A C : Type 0} (P Q : S → Type 0) where
  pub and_then-EndsWith :
      (m : Run S A) (f : A → Cmd S C)
      → EndsWith P m
      → ((a : A) (s : S) → P s → EndsWith Q (f a s))
      → EndsWith Q (and_then m f)
  and_then-EndsWith (done a s) f h next = next a s h
  and_then-EndsWith (exited j s) f h next = tt
  and_then-EndsWith fault f h next = tt
  and_then-EndsWith (stopped s) f h next = tt
  and_then-EndsWith out_of_fuel f h next = h

module _ {S T A : Type 0} (P : T → Type 0) {R : S → T → Type 0} where
  -- A program that does what another does needs no more rounds.
  pub ends_of_Sim : {m : Run S A} {n : Run T A} → Sim R m n → EndsWith P n → m ≢ out_of_fuel
  ends_of_Sim (both_done r) h = λ e. cc
  ends_of_Sim (both_exited r) h = λ e. cc
  ends_of_Sim both_fault h = λ e. cc
  ends_of_Sim (both_stopped r) h = λ e. cc
  ends_of_Sim both_out_of_fuel h = λ e. h

module _ {B M : Type 0} where
  -- At most `n` items are left.
  abbrev pub Left : ℕ → Session B M → Type 0
  Left n s = length s.input ≤ n

  take_word-EndsWith :
      (size : ℕ) (is : List Item) (s : Session B M) (n : ℕ)
      → length is ≤ n
      → EndsWith (Left n) (take_word size is s)
  take_word-EndsWith size [] s n h = tt
  take_word-EndsWith size (number z ∷ rest) s n h = tt
  take_word-EndsWith size (word w ∷ rest) s n h = elim (Bool-cases (ltb (length w) size)) [
    | inl fits ↦ rw fits (omega arith)
    | inr over ↦ rw over tt
  ]

  pub scan_word-EndsWith :
      (size : ℕ) (s : Session B M) (n : ℕ) → Left n s → EndsWith (Left n) (scan_word size s)
  scan_word-EndsWith size s n h = take_word-EndsWith size s.input s n h

  take_number-EndsWith :
      (is : List Item) (s : Session B M) (n : ℕ)
      → length is ≤ n
      → EndsWith (λ t. length t.input < n) (take_number is s)
  take_number-EndsWith [] s n h = tt
  take_number-EndsWith (word w ∷ rest) s n h = tt
  take_number-EndsWith (number z ∷ rest) s n h = omega arith

  pub scan_number-EndsWith :
      (s : Session B M) (n : ℕ) → Left n s → EndsWith (λ t. length t.input < n) (scan_number s)
  scan_number-EndsWith s n h = take_number-EndsWith s.input s n h

module _ {S A : Type 0} (P : S → Type 0) where
  pub choose-EndsWith :
      (b : Bool) (m n : Cmd S A) (s : S)
      → EndsWith P (m s)
      → EndsWith P (n s)
      → EndsWith P ((if b then m else n) s)
  choose-EndsWith true m n s p q = p
  choose-EndsWith false m n s p q = q

  pub if-EndsWith :
      (b : Bool) (m n : Run S A) → EndsWith P m → EndsWith P n → EndsWith P (if b then m else n)
  if-EndsWith true m n p q = p
  if-EndsWith false m n p q = q
