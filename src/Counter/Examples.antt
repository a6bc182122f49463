-- ===== src/Counter/Examples.antt =====
-- A run of the two threads with a loop of one round.
use home_work.Base.{◌+◌, ◌*◌, ◌≤◌, ◌≡◌, refl, true, false, ◌&&◌, ◌||◌, none, some, ◌⊎◌, arith}
use home_work.Counter.{
  loop_bound, loaded, finished, System, lock, load, store, unlock, leave, first_moves, second_moves,
  print, init, Reach, start, later,
}
use home_work.Counter.Invariant.{critical}
use home_work.Counter.Progress.{Goes, Reach-one_inside, Reach-ends}

-- The first thread has taken the mutex and read the counter; the second has not moved.
abbrev taken : System
taken = record init { memory = record { counter = 0; held = true }; first = loaded 0 0 }

reach_taken : Reach loop_bound 2 taken
reach_taken = later (later start (first_moves (lock (omega arith) refl))) (first_moves load)

Reach-one_inside_example :
    ((critical taken.first && critical taken.second) ≡ false)
    × (taken.memory.held ≡ (critical taken.first || critical taken.second))
Reach-one_inside_example = Reach-one_inside reach_taken

-- The first thread makes its round, then the second, and `main` prints.
abbrev over : System
over = record {
  memory = record { counter = 2; held = false };
  first = finished;
  second = finished;
  printed = some 2;
}

first_round :
    Reach 1 5 (record init { memory = record { counter = 1; held = false }; first = finished })
first_round =
    later
      (later
        (later (later (later start (first_moves (lock (omega arith) refl))) (first_moves load))
          (first_moves store))
        (first_moves unlock))
      (first_moves (leave (omega arith)))

reach_over : Reach 1 11 over
reach_over =
    later
      (later
        (later
          (later
            (later (later first_round (second_moves (lock (omega arith) refl))) (second_moves load))
            (second_moves store))
          (second_moves unlock))
        (second_moves (leave (omega arith))))
      (print refl refl refl)

Reach-ends_example :
    (11 ≤ 8 * 1 + 3)
    × ((over.printed ≡ none) ⊎ (over.printed ≡ some (1 + 1)))
    × (Goes 1 over ⊎ (over.printed ≡ some (1 + 1)))
Reach-ends_example = Reach-ends reach_over
