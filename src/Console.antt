-- ===== src/Console.antt =====
-- A console program: global data of type `B`, the items that `scanf` reads from the standard input,
-- and the messages that the program prints, as a state monad with the ways in which C code stops.
pub mod Sim
pub mod Ends
pub mod Safe
use home_work.Base.{ℕ, List, [], ◌∷◌, ◌++◌, length, if◌then◌else◌, ltb}
use home_work.Base.Int.{ℤ}
use home_work.Libc.{Bytes}

-- One conversion of `scanf`: a word read by `%s`, or a number read by `%d`.
pub data Item : Type 0 where
  word : Bytes → Item
  number : ℤ → Item

-- `fault` is undefined behaviour, such as a write past the end of an array. `stopped` is not an end
-- of the program: the run is followed up to here, since the next item is missing or is not of the
-- kind that is read. There `scanf` fails, which the code does not see: it goes on with what its
-- variables hold.
pub data Run (S : Type 0) (A : Type 0) : Type 0 where
  done : A → S → Run S A
  exited : ℕ → S → Run S A
  fault : Run S A
  stopped : S → Run S A
  out_of_fuel : Run S A

pub record Session (B : Type 0) (M : Type 0) : Type 0 where
  pub book : B
  pub input : List Item
  pub output : List M

abbrev pub Cmd : Type 0 → Type 0 → Type 0
Cmd S A = S → Run S A

module _ {S : Type 0} {A C : Type 0} where
  abbrev pub and_then : Run S A → (A → Cmd S C) → Run S C
  and_then (done a s) k = k a s
  and_then (exited n s) k = exited n s
  and_then fault k = fault
  and_then (stopped s) k = stopped s
  and_then out_of_fuel k = out_of_fuel

  infixl 5 ◌>>=◌ ◌>>◌
  abbrev pub ◌>>=◌ : Cmd S A → (A → Cmd S C) → Cmd S C
  m >>= k = λ s. and_then (m s) k

  abbrev pub ◌>>◌ : Cmd S A → Cmd S C → Cmd S C
  m >> n = m >>= λ _. n

abbrev pub pure : {S A : Type 0} → A → Cmd S A
pure a s = done a s

module _ {B M : Type 0} where
  -- The item `i` is consumed by `scanf("%s", array)` with `size` bytes behind the pointer: the word
  -- and its NUL must fit.
  abbrev pub take_word : ℕ → List Item → Session B M → Run (Session B M) Bytes
  take_word size [] s = stopped s
  take_word size (number z ∷ rest) s = stopped s
  take_word size (word w ∷ rest) s =
      if ltb (length w) size then done w (record s { input = rest }) else fault

  abbrev pub scan_word : ℕ → Cmd (Session B M) Bytes
  scan_word size s = take_word size s.input s

  abbrev pub take_number : List Item → Session B M → Run (Session B M) ℤ
  take_number [] s = stopped s
  take_number (word w ∷ rest) s = stopped s
  take_number (number z ∷ rest) s = done z (record s { input = rest })

  abbrev pub scan_number : Cmd (Session B M) ℤ
  scan_number s = take_number s.input s

  abbrev pub print : M → Cmd (Session B M) (Unit {0})
  print m s = done tt (record s { output = s.output ++ (m ∷ []) })

  abbrev pub modify : (B → B) → Cmd (Session B M) (Unit {0})
  modify f s = done tt (record s { book = f s.book })
