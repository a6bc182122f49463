-- ===== src/Processes/Tree.antt =====
-- The tree of processes of "10  work/task2.c".
use home_work.Base.{
  ℕ, suc, ◌+◌, ◌<◌, ◌≤◌, ◌≡◌, refl, ap, List, [], ◌∷◌, length, arith, ◌==◌, Option, none, some,
  Bool, false, if◌then◌else◌, get_elem?,
}
use mathlib.Core.Path.{subst, sym}
use home_work.Libc.{Bytes}
use home_work.Posix.{
  Answer, start, Call, fork, wait, Event, did, got, sent, closed, shown, Process, Program, exit,
  show_text,
}
use home_work.Posix.Ensures.{start-Stage, Ensures, Stage, none_of, Clean, Waits, Triple, ◌then_do◌}
use home_work.Posix.Rules.{ask-Triple, pure-Triple, if-Triple, option-Triple, relax}
use home_work.Shell.{fork_into}
use home_work.Processes.{
  announcement, status_line, spawn, create_and_monitor_processes, create_and_check_process, main,
}

-- The announcements of the processes that a process descends from, its own first.
pub data IsDescent : List Bytes → Type 0 where
  first : IsDescent []
  one : IsDescent (announcement 1 ∷ [])
  two : IsDescent (announcement 2 ∷ [])
  three : IsDescent (announcement 3 ∷ announcement 1 ∷ [])
  four : IsDescent (announcement 4 ∷ announcement 1 ∷ [])
  five : IsDescent (announcement 5 ∷ announcement 2 ∷ [])

-- The name of a process has sixteen bytes, and its announcement a colon behind it.
abbrev pub is_colon : Option ℕ → Bool
is_colon none = false
is_colon (some c) = c == 58

abbrev pub is_announcement : Bytes → Bool
is_announcement line = is_colon (get_elem? line 16)

-- The announcements that are printed, the newest first.
abbrev pub announced : List Event → List Bytes
announced [] = []
announced (did c ∷ log) = announced log
announced (got message ∷ log) = announced log
announced (sent message ∷ log) = announced log
announced (closed fd ∷ log) = announced log
announced (shown line ∷ log) =
    let rest = announced log in if is_announcement line then line ∷ rest else rest

-- 1 for `fork`, and for `wait`.
abbrev pub is_fork : Call → ℕ
is_fork fork = 1
is_fork c = 0

abbrev pub is_wait : Call → ℕ
is_wait wait = 1
is_wait c = 0

abbrev pub count_calls : (Call → ℕ) → List Event → ℕ
count_calls f [] = 0
count_calls f (did c ∷ log) = f c + count_calls f log
count_calls f (got message ∷ log) = count_calls f log
count_calls f (sent message ∷ log) = count_calls f log
count_calls f (closed fd ∷ log) = count_calls f log
count_calls f (shown line ∷ log) = count_calls f log

-- The process is one of the tree; each of its forks was waited for or made it or an ancestor, except for one
-- at most.
pub record InTree (log : List Event) : Type 0 where
  pub descent : IsDescent (announced log)
  pub waited : count_calls is_wait log + length (announced log) ≤ count_calls is_fork log
  pub pending : count_calls is_fork log ≤ count_calls is_wait log + length (announced log) + 1

-- With `open_forks` forks neither waited for nor entered.
record At (path : List Bytes) (open_forks : ℕ) (log : List Event) : Type 0 where
  pub here : announced log ≡ path
  pub balance : count_calls is_fork log ≡ count_calls is_wait log + length path + open_forks

At-InTree :
    {path : List Bytes} {k : ℕ} {log : List Event}
    → IsDescent path
    → k ≤ 1
    → At path k log
    → InTree log
At-InTree {path = path} d le h = record {
  descent = subst IsDescent (sym h.here) d;
  waited = omega (arith, h.balance, ap length h.here);
  pending = omega (arith, h.balance, ap length h.here, le);
}

after_fork : {path : List Bytes} (log : List Event) → At path 0 log → At path 1 (did fork ∷ log)
after_fork log h = record { here = h.here; balance = omega (arith, h.balance) }

after_wait : {path : List Bytes} (log : List Event) → At path 1 log → At path 0 (did wait ∷ log)
after_wait log h = record { here = h.here; balance = omega (arith, h.balance) }

after_name :
    {path : List Bytes} (n : ℕ) (log : List Event)
    → At path 1 log
    → At (announcement n ∷ path) 0 (shown (announcement n) ∷ log)
after_name n log h = record {
  here = ap (λ xs. announcement n ∷ xs) h.here;
  balance = omega (arith, h.balance);
}

after_status :
    {path : List Bytes} (n : ℕ) (digits : Bytes) (log : List Event)
    → At path 0 log
    → At path 0 (shown (status_line n digits) ∷ log)
unfolding status_line
after_status n [] log h = record { here = h.here; balance = h.balance }
after_status n (d ∷ digits) log h = record { here = h.here; balance = h.balance }

-- Between the forks of the process with `path`.
abbrev Between : (path : List Bytes) (n : ℕ) → Process → Type 0
Between path n = Stage (At path 0) n []

exit-Triple :
    {n k : ℕ} {path : List Bytes} {P : Unit {0} → Process → Type 0} (status : ℕ)
    → IsDescent path
    → k ≤ 1
    → Triple InTree (Stage (At path k) n []) P (exit status)
unfolding exit
exit-Triple status d le = record { ends = λ p h. (h.open_ones, At-InTree d le h.logged) }

name-Triple :
    {n : ℕ} {path : List Bytes} (k : ℕ)
    → Triple InTree
        (Stage (At path 1) n [])
        (λ _. Between (announcement k ∷ path) n)
        (show_text (announcement k))
name-Triple k = record {
  ends = λ p h. record {
    open_ones = h.open_ones;
    logged = after_name k p.log h.logged;
    fuelled = h.fuelled;
  };
}

status-Triple :
    {n : ℕ} {path : List Bytes} (k : ℕ) (digits : Bytes)
    → Triple InTree (Between path n) (λ _. Between path n) (show_text (status_line k digits))
status-Triple k digits = record {
  ends = λ p h. record {
    open_ones = h.open_ones;
    logged = after_status k digits p.log h.logged;
    fuelled = h.fuelled;
  };
}

spawn-Triple :
    {path : List Bytes} (n : ℕ) {rounds : ℕ} {body : Program (Unit {0})}
    → IsDescent path
    → IsDescent (announcement n ∷ path)
    → Triple InTree
        (Between (announcement n ∷ path) rounds)
        (λ _. Between (announcement n ∷ path) rounds)
        body
    → Triple InTree (Between path rounds) (λ _. Between path rounds) (spawn n body)
unfolding spawn fork_into
spawn-Triple {path = path} n {rounds = rounds} d d' run =
    relax (λ l h. At-InTree d (omega arith) h)
      (ask-Triple (At path 1) (did fork) none_of after_fork)
    then_do λ a.
        option-Triple (λ _. Stage (At path 1) rounds []) a.value (exit-Triple 1 d (omega arith))
          λ pid.
            if-Triple (pid == 0)
              (name-Triple n then_do λ _. run then_do λ _. exit-Triple 0 d' (omega arith))
              (relax (λ l h. At-InTree d (omega arith) h)
                  (ask-Triple (At path 0) (did wait) none_of after_wait)
                then_do λ a. status-Triple n a.payload)

monitor-Triple :
    {n : ℕ}
    → Triple InTree
        (Between (announcement 1 ∷ []) n)
        (λ _. Between (announcement 1 ∷ []) n)
        create_and_monitor_processes
unfolding create_and_monitor_processes
monitor-Triple = spawn-Triple 3 one three (pure-Triple InTree λ p h. h) then_do λ _.
    spawn-Triple 4 one four (pure-Triple InTree λ p h. h)

check-Triple :
    {n : ℕ}
    → Triple InTree
        (Between (announcement 2 ∷ []) n)
        (λ _. Between (announcement 2 ∷ []) n)
        create_and_check_process
unfolding create_and_check_process
check-Triple = spawn-Triple 5 two five (pure-Triple InTree λ p h. h)

main-Triple : {n : ℕ} → Triple InTree (Between [] n) (λ _ p. ⊥) main
unfolding main
main-Triple = spawn-Triple 1 first one monitor-Triple then_do λ _.
    spawn-Triple 2 first two check-Triple then_do λ _. exit-Triple 0 first (omega arith)

-- Whatever the calls answer, a process of the run ends by an exit, or waits in a call, as the first process
-- or as one of the five others: the announcements ("Процесс N:") on its way are those of the processes it
-- descends from and its own, and no other; each `fork` on its way was waited for or entered, except for one
-- at most, which is the last or has failed.
pub main-InTree :
    (answers : List Answer)
    → Ensures (λ _ p. ⊥) (Clean InTree) (Waits InTree) (main (start answers))
main-InTree answers =
    let enough : length answers < suc (length answers) = omega arith in
    (main-Triple {n = suc (length answers)}).ends (start answers)
      (start-Stage (record { here = refl; balance = refl }) enough)
