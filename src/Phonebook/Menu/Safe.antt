-- ===== src/Phonebook/Menu/Safe.antt =====
-- The menu has no undefined behaviour if its operations have none and keep an invariant.
use home_work.Base.{ℕ, zero, suc, ◌<◌, List, length, arith, ◌≡◌, false}
use native.Mathlib.Nat.{le_refl}
use home_work.Base.Int.{ℤ}
use home_work.Console.{Item, Session, Cmd}
use home_work.Console.Safe.{
  SafeWith, and_then-SafeWith, choose-SafeWith, Fits, IsSafe, scan_number-SafeWith,
  scan_number-then-SafeWith, is_least,
}
use home_work.Phonebook.Defs.{Message, field_size, is_choice}
use home_work.Phonebook.Menu.{Operations, dispatch, main_loop, opened, run_menu}

abbrev pub Keeps : {B : Type 0} → (B → Type 0) → Cmd (Session B Message) (Unit {0}) → Type 0
Keeps {B} Q m =
    (n : ℕ) (s : Session B Message)
    → IsSafe Q field_size n s
    → SafeWith (IsSafe Q field_size n) (m s)

pub record AreSafe {B : Type 0} (Q : B → Type 0) (ops : Operations B) : Type 0 where
  pub add : Keeps Q ops.add
  pub del : (index : ℤ) → is_least index ≡ false → Keeps Q (ops.del index)
  pub search : Keeps Q ops.search
  pub show : Keeps Q ops.show

module _ {B : Type 0} {Q : B → Type 0} {ops : Operations B} (safe : AreSafe Q ops) where
  abbrev Fine : ℕ → Session B Message → Type 0
  Fine = IsSafe Q field_size

  abbrev Holds : Session B Message → Type 0
  Holds s = Q s.book

  dispatch-Safe : (choice : ℤ) → Keeps Q (dispatch ops choice)
  unfolding dispatch
  dispatch-Safe choice n s i =
      choose-SafeWith (Fine n) (is_choice choice 1) _ _ s (safe.add n s i) (
        choose-SafeWith (Fine n) (is_choice choice 2) _ _ s
          (scan_number-then-SafeWith Q field_size (Fine n) _ n s i
            λ index t above j. safe.del index above n t j)
          (choose-SafeWith (Fine n) (is_choice choice 3) _ _ s (safe.search n s i) (
            choose-SafeWith (Fine n) (is_choice choice 4) _ _ s (safe.show n s i) (
              choose-SafeWith (Fine n) (is_choice choice 5) _ _ s
                (record { book = i.book; fits = i.fits; left = i.left })
                (record { book = i.book; fits = i.fits; left = i.left })))))

  main_loop-Safe :
      (fuel : ℕ) (s : Session B Message)
      → Q s.book
      → Fits field_size s.input
      → length s.input < fuel
      → SafeWith Holds (main_loop ops fuel s)
  unfolding main_loop
  main_loop-Safe zero s b f h = absurd (omega arith)
  main_loop-Safe (suc fuel) s b f h =
      and_then-SafeWith (λ t. Fine (length s.input) t × (length t.input < length s.input)) Holds _ _
        (scan_number-SafeWith Q field_size (length s.input) s
          (record { book = b; fits = f; left = le_refl _ }))
        λ choice t j.
          and_then-SafeWith (Fine (length t.input)) Holds _ _
            (dispatch-Safe choice (length t.input) t
              (record { book = j.0.book; fits = j.0.fits; left = le_refl _ }))
            λ _ u k.
              choose-SafeWith Holds (is_choice choice 5) _ _ u k.book
                (main_loop-Safe fuel u k.book k.fits (omega arith))

  pub run_menu-SafeWith :
      (b : B) (input : List Item)
      → Q b
      → Fits field_size input
      → SafeWith Holds (run_menu ops b input)
  unfolding run_menu
  run_menu-SafeWith b input q f =
      main_loop-Safe (suc (length input)) (opened b input) q f (omega arith)
