-- ===== src/Console/Safe.antt =====
-- Programs without undefined behaviour: a run neither faults nor exhausts its fuel.
use home_work.Base.{
  ℕ, ◌≤◌, ◌<◌, ◌≢◌, List, [], ◌∷◌, inl, inr, Bool-cases, Bool, true, false, ltb, length, arith,
  if◌then◌else◌, leb, ◌≡◌,
}
use home_work.Base.Int.{ℤ, pos, negsuc}
use home_work.Console.{
  Item, word, number, Run, done, exited, fault, stopped, out_of_fuel, Session, Cmd, and_then,
  scan_word, take_word, scan_number, take_number,
}

-- A normal end, or an exit, leaves a state with `P`.
abbrev pub SafeWith : {S A : Type 0} → (S → Type 0) → Run S A → Type 0
SafeWith P (done a s) = P s
SafeWith P (exited k s) = Unit
SafeWith P fault = ⊥
SafeWith P (stopped s) = Unit
SafeWith P out_of_fuel = ⊥

module _ {S A C : Type 0} (P Q : S → Type 0) where
  pub and_then-SafeWith :
      (m : Run S A) (f : A → Cmd S C)
      → SafeWith P m
      → ((a : A) (s : S) → P s → SafeWith Q (f a s))
      → SafeWith Q (and_then m f)
  and_then-SafeWith (done a s) f h next = next a s h
  and_then-SafeWith (exited j s) f h next = tt
  and_then-SafeWith fault f h next = h
  and_then-SafeWith (stopped s) f h next = tt
  and_then-SafeWith out_of_fuel f h next = h

module _ {S A : Type 0} (P : S → Type 0) where
  pub choose-SafeWith :
      (b : Bool) (m n : Cmd S A) (s : S)
      → SafeWith P (m s)
      → SafeWith P (n s)
      → SafeWith P ((if b then m else n) s)
  choose-SafeWith true m n s p q = p
  choose-SafeWith false m n s p q = q

  pub not_fault : (r : Run S A) → SafeWith P r → (r ≢ fault) × (r ≢ out_of_fuel)
  not_fault (done a s) h = (λ e. cc, λ e. cc)
  not_fault (exited k s) h = (λ e. cc, λ e. cc)
  not_fault fault h = absurd h
  not_fault (stopped s) h = (λ e. cc, λ e. cc)
  not_fault out_of_fuel h = absurd h

-- The least `int`, -2 ^ 31, and what lies below it.
unfoldable pub is_least : ℤ → Bool
is_least (pos n) = false
is_least (negsuc n) = leb 2147483647 n

-- Every word fits an array of `size` bytes, and every number lies above the least `int`.
abbrev pub Fits : ℕ → List Item → Type 0
Fits size [] = Unit
Fits size (word w ∷ rest) = (length w < size) × Fits size rest
Fits size (number z ∷ rest) = (is_least z ≡ false) × Fits size rest

module _ {B M : Type 0} (Q : B → Type 0) (size : ℕ) where
  -- The data have `Q`, every word left fits, and at most `n` items are left.
  pub record IsSafe (n : ℕ) (s : Session B M) : Type 0 where
    pub book : Q s.book
    pub fits : Fits size s.input
    pub left : length s.input ≤ n

  take_word-SafeWith :
      (cap : ℕ) (is : List Item) (n : ℕ) (s : Session B M)
      → size ≤ cap
      → Q s.book
      → Fits size is
      → length is ≤ n
      → SafeWith (IsSafe n) (take_word cap is s)
  take_word-SafeWith cap [] n s le q f h = tt
  take_word-SafeWith cap (number z ∷ rest) n s le q f h = tt
  take_word-SafeWith cap (word w ∷ rest) n s le q f h = elim (Bool-cases (ltb (length w) cap)) [
    | inl fits ↦ rw fits (record { book = q; fits = f.1; left = omega arith })
    | inr over ↦ absurd (ground (arith, f.0))
  ]

  pub scan_word-SafeWith :
      (cap n : ℕ) (s : Session B M)
      → size ≤ cap
      → IsSafe n s
      → SafeWith (IsSafe n) (scan_word cap s)
  scan_word-SafeWith cap n s le i = take_word-SafeWith cap s.input n s le i.book i.fits i.left

  take_number-SafeWith :
      (is : List Item) (n : ℕ) (s : Session B M)
      → Q s.book
      → Fits size is
      → length is ≤ n
      → SafeWith (λ t. IsSafe n t × (length t.input < n)) (take_number is s)
  take_number-SafeWith [] n s q f h = tt
  take_number-SafeWith (word w ∷ rest) n s q f h = tt
  take_number-SafeWith (number z ∷ rest) n s q f h =
      (record { book = q; fits = f.1; left = omega arith }, omega arith)

  pub scan_number-SafeWith :
      (n : ℕ) (s : Session B M)
      → IsSafe n s
      → SafeWith (λ t. IsSafe n t × (length t.input < n)) (scan_number s)
  scan_number-SafeWith n s i = take_number-SafeWith s.input n s i.book i.fits i.left

  take_number-then-SafeWith :
      {C : Type 0} (R : Session B M → Type 0) (f : ℤ → Cmd (Session B M) C) (is : List Item) (n : ℕ)
      (s : Session B M)
      → Q s.book
      → Fits size is
      → length is ≤ n
      → ((z : ℤ) (t : Session B M) → is_least z ≡ false → IsSafe n t → SafeWith R (f z t))
      → SafeWith R (and_then (take_number is s) f)
  take_number-then-SafeWith R f [] n s q h l next = tt
  take_number-then-SafeWith R f (word w ∷ rest) n s q h l next = tt
  take_number-then-SafeWith R f (number z ∷ rest) n s q h l next =
      next z _ h.0 (record { book = q; fits = h.1; left = omega arith })

  -- The number that is read lies above the least `int`.
  pub scan_number-then-SafeWith :
      {C : Type 0} (R : Session B M → Type 0) (f : ℤ → Cmd (Session B M) C) (n : ℕ)
      (s : Session B M)
      → IsSafe n s
      → ((z : ℤ) (t : Session B M) → is_least z ≡ false → IsSafe n t → SafeWith R (f z t))
      → SafeWith R (and_then (scan_number s) f)
  scan_number-then-SafeWith R f n s i next =
      take_number-then-SafeWith R f s.input n s i.book i.fits i.left next
