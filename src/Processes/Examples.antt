-- ===== src/Processes/Examples.antt =====
-- A run of "10  work/task2.c" as the fourth process.
use home_work.Base.{List, [], ◌∷◌, some, ◌≡◌, refl, ℕ, Option, none}
use home_work.Posix.{Answer, start, Run, done, exited, blocked, fault, out_of_fuel, ask, exit}
use home_work.Posix.Ensures.{Ensures, Clean, Waits}
use home_work.Libc.{Bytes}
use home_work.Shell.{fork_into}
use home_work.Processes.{
  announcement, main, spawn, create_and_monitor_processes, create_and_check_process,
}
use home_work.Processes.Tree.{InTree, announced, main-InTree}

abbrev returns : ℕ → Answer
returns n = record { value = some n; payload = [] }

-- The first process is made and made to go on, it makes the third and waits, and goes on as the fourth.
abbrev as_fourth : List Answer
as_fourth = returns 0 ∷ returns 9 ∷ returns 9 ∷ returns 0 ∷ []

abbrev names_of : Run (Unit {0}) → Option (List Bytes)
names_of (exited n p) = some (announced p.log)
names_of (done a p) = none
names_of (blocked p) = none
names_of fault = none
names_of out_of_fuel = none

fourth_ends : names_of (main (start as_fourth)) ≡ some (announcement 4 ∷ announcement 1 ∷ [])
unfolding main spawn fork_into create_and_monitor_processes create_and_check_process ask exit
fourth_ends = refl

main-InTree_example : Ensures (λ _ p. ⊥) (Clean InTree) (Waits InTree) (main (start as_fourth))
main-InTree_example = main-InTree as_fourth
