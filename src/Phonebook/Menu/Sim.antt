-- ===== src/Phonebook/Menu/Sim.antt =====
-- If the operations over one kind of data do what those over another do, so does the whole menu.
use home_work.Base.{ℕ, zero, suc, Bool, true, false, if◌then◌else◌, List, refl, length}
use home_work.Base.Int.{ℤ}
use home_work.Console.{Item, Session, Cmd}
use home_work.Console.Sim.{
  Sim, both_done, both_out_of_fuel, and_then-Sim, Related, scan_number-Sim, print-Sim,
}
use home_work.Phonebook.Defs.{Message, bye, bad_choice, is_choice}
use home_work.Phonebook.Menu.{Operations, dispatch, main_loop, opened, run_menu}

-- Two commands that stop alike from related sessions.
abbrev pub Refines :
    {B C : Type 0}
    → (B → C → Type 0)
    → Cmd (Session B Message) (Unit {0})
    → Cmd (Session C Message) (Unit {0})
    → Type 0
Refines {B} {C} Q m n =
    (s : Session B Message) (t : Session C Message) → Related Q s t → Sim (Related Q) (m s) (n t)

pub record Simulates {B C : Type 0} (Q : B → C → Type 0) (ops : Operations B) (spec : Operations C)
    : Type 0 where
  pub add : Refines Q ops.add spec.add
  pub del : (index : ℤ) → Refines Q (ops.del index) (spec.del index)
  pub search : Refines Q ops.search spec.search
  pub show : Refines Q ops.show spec.show

module _ {B C : Type 0} {Q : B → C → Type 0} where
  choose-Sim :
      (b : Bool) (m n : Cmd (Session B Message) (Unit {0}))
      (k l : Cmd (Session C Message) (Unit {0})) {s : Session B Message} {t : Session C Message}
      → Sim (Related Q) (m s) (k t)
      → Sim (Related Q) (n s) (l t)
      → Sim (Related Q) ((if b then m else n) s) ((if b then k else l) t)
  choose-Sim true m n k l p q = p
  choose-Sim false m n k l p q = q

  module _ {ops : Operations B} {spec : Operations C} (sim : Simulates Q ops spec) where
    dispatch-Sim : (choice : ℤ) → Refines Q (dispatch ops choice) (dispatch spec choice)
    unfolding dispatch
    dispatch-Sim choice s t r = choose-Sim (is_choice choice 1) _ _ _ _ (sim.add s t r) (
        choose-Sim (is_choice choice 2) _ _ _ _
          (and_then-Sim (scan_number-Sim r) (λ s t q. q) λ index s t q. sim.del index s t q)
          (choose-Sim (is_choice choice 3) _ _ _ _ (sim.search s t r) (
            choose-Sim (is_choice choice 4) _ _ _ _ (sim.show s t r) (
              choose-Sim (is_choice choice 5) _ _ _ _ (print-Sim bye r) (print-Sim bad_choice r)))))

    main_loop-Sim : (fuel : ℕ) → Refines Q (main_loop ops fuel) (main_loop spec fuel)
    unfolding main_loop
    main_loop-Sim zero s t r = both_out_of_fuel
    main_loop-Sim (suc fuel) s t r =
        and_then-Sim (scan_number-Sim r) (λ s t q. q)
          λ choice s t r.
            and_then-Sim (dispatch-Sim choice s t r) (λ s t q. q)
              λ _ s t r.
                choose-Sim (is_choice choice 5) _ _ _ _ (both_done r) (main_loop-Sim fuel s t r)

    pub run_menu-Sim :
        (b : B) (c : C) (input : List Item)
        → Q b c
        → Sim (Related Q) (run_menu ops b input) (run_menu spec c input)
    unfolding run_menu
    run_menu-Sim b c input q =
        main_loop-Sim (suc (length input)) (opened b input) (opened c input)
          (record { book = q; input = refl; output = refl })
