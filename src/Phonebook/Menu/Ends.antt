-- ===== src/Phonebook/Menu/Ends.antt =====
-- The menu needs no more rounds than the input has items, if no operation puts items back into the
-- input.
use home_work.Base.{ℕ, zero, suc, ◌<◌, List, length, arith}
use native.Mathlib.Nat.{le_refl}
use home_work.Base.Int.{ℤ}
use home_work.Console.{Item, Session, Cmd}
use home_work.Console.Ends.{
  EndsWith, Left, and_then-EndsWith, choose-EndsWith, scan_number-EndsWith,
}
use home_work.Phonebook.Defs.{Message, is_choice}
use home_work.Phonebook.Menu.{Operations, dispatch, main_loop, opened, run_menu}

abbrev pub Consumes : {B : Type 0} → Cmd (Session B Message) (Unit {0}) → Type 0
Consumes {B} m = (n : ℕ) (s : Session B Message) → Left n s → EndsWith (Left n) (m s)

pub record IsFinite {B : Type 0} (ops : Operations B) : Type 0 where
  pub add : Consumes ops.add
  pub del : (index : ℤ) → Consumes (ops.del index)
  pub search : Consumes ops.search
  pub show : Consumes ops.show

module _ {B : Type 0} {ops : Operations B} (fin : IsFinite ops) where
  dispatch-Consumes : (choice : ℤ) → Consumes (dispatch ops choice)
  unfolding dispatch
  dispatch-Consumes choice n t h =
      choose-EndsWith (Left n) (is_choice choice 1) _ _ t (fin.add n t h) (
        choose-EndsWith (Left n) (is_choice choice 2) _ _ t
          (and_then-EndsWith (λ s. length s.input < n) (Left n) _ _ (scan_number-EndsWith t n h)
            λ index s p. fin.del index n s (omega arith))
          (choose-EndsWith (Left n) (is_choice choice 3) _ _ t (fin.search n t h) (
            choose-EndsWith (Left n) (is_choice choice 4) _ _ t (fin.show n t h)
              (choose-EndsWith (Left n) (is_choice choice 5) _ _ t h h))))

  -- A fuel above the number of items is enough.
  main_loop-EndsWith :
      (fuel : ℕ) (t : Session B Message)
      → length t.input < fuel
      → EndsWith (λ s. Unit) (main_loop ops fuel t)
  unfolding main_loop
  main_loop-EndsWith zero t h = absurd (omega arith)
  main_loop-EndsWith (suc fuel) t h =
      and_then-EndsWith (λ s. length s.input < length t.input) (λ s. Unit) _ _
        (scan_number-EndsWith t (length t.input) (le_refl _))
        λ choice s p.
          and_then-EndsWith (Left (length s.input)) (λ s. Unit) _ _
            (dispatch-Consumes choice (length s.input) s (le_refl _))
            λ _ u q.
              choose-EndsWith (λ s. Unit) (is_choice choice 5) _ _ u tt
                (main_loop-EndsWith fuel u (omega arith))

  pub run_menu-EndsWith : (b : B) (input : List Item) → EndsWith (λ s. Unit) (run_menu ops b input)
  unfolding run_menu
  run_menu-EndsWith b input = main_loop-EndsWith (suc (length input)) (opened b input) (omega arith)
