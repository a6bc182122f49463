-- ===== src/Phonebook/Menu.antt =====
-- The menu loop of `main`, which the three phone books share, over the operations that it calls.
pub mod Sim
pub mod Ends
pub mod Safe
use home_work.Base.{ℕ, zero, suc, length, List, [], if◌then◌else◌}
use home_work.Base.Int.{ℤ}
use home_work.Console.{Item, Session, Run, Cmd, out_of_fuel, pure, ◌>>=◌, ◌>>◌, scan_number, print}
use home_work.Phonebook.Defs.{Message, bye, bad_choice, is_choice}

-- What the cases of the `switch` call; `del` gets the number that the user typed.
pub record Operations (B : Type 0) : Type 0 where
  pub add : Cmd (Session B Message) (Unit {0})
  pub del : ℤ → Cmd (Session B Message) (Unit {0})
  pub search : Cmd (Session B Message) (Unit {0})
  pub show : Cmd (Session B Message) (Unit {0})

-- The start of a run.
abbrev pub opened : {B : Type 0} → B → List Item → Session B Message
opened b input = record { book = b; input = input; output = [] }

module _ {B : Type 0} (ops : Operations B) where
  unfoldable pub dispatch : ℤ → Cmd (Session B Message) (Unit {0})
  dispatch choice =
      if is_choice choice 1
      then ops.add
      else if is_choice choice 2
      then (do index ← scan_number; ops.del index)
      else if is_choice choice 3
      then ops.search
      else if is_choice choice 4
      then ops.show
      else if is_choice choice 5
      then print bye
      else print bad_choice

  -- `do { ... } while (choice != 5);`
  pub main_loop : ℕ → Cmd (Session B Message) (Unit {0})
  unfolding dispatch
  main_loop zero s = out_of_fuel
  main_loop (suc fuel) s =
      (do
        choice ← scan_number
        dispatch choice
        let rest = main_loop fuel
        if is_choice choice 5 then pure tt else rest)
        s

  -- Every round that is followed reads a number, so the length of the input bounds the rounds.
  unfoldable pub run_menu : B → List Item → Run (Session B Message) (Unit {0})
  unfolding main_loop
  run_menu b input = main_loop (suc (length input)) (opened b input)
