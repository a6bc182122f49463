-- ===== src/Shell/Pipes.antt =====
-- The processes of a command with a pipe, of "12 work/task3.c".
use home_work.Base.{
  ℕ, ◌≡◌, refl, ap, ◌∙◌, List, [], ◌∷◌, length, ◌⊎◌, inl, inr, arith, suc, ◌<◌, ◌==◌, Option, none,
  some,
}
use home_work.Libc.{Bytes}
use home_work.Posix.{
  Answer, start, Call, pipe, piped, fork, wait, redirect_input, redirect_output, execute, Event,
  did, got, sent, closed, shown, Process, Program, Run, done, exited, blocked, fault, out_of_fuel,
  ◌>>◌, close, erase_one,
}
use home_work.Posix.Ensures.{start-Stage, Ensures, Stage, none_of, Clean, Waits, Triple, ◌then_do◌}
use home_work.Posix.Rules.{
  ask-Triple, pure-Triple, close-Triple, if-Triple, option-Triple, exit-Triple, relax,
}
use home_work.Posix.Pairs.{erase_pair}
use home_work.Shell.{
  exec, fork_into, first_child, second_child, await_both, start_second, open_pipe, execute_pipe,
  first_or_zero,
}

-- What a process has last asked for in the place of its input or its output.
pub data Wiring : Type 0 where
  unwired : Wiring
  input_from output_to : ℕ → Wiring

abbrev pub wired_by : Call → Wiring → Wiring
wired_by (redirect_input fd) before = input_from fd
wired_by (redirect_output fd) before = output_to fd
wired_by c before = before

abbrev pub wiring : List Event → Wiring
wiring [] = unwired
wiring (did c ∷ log) = wired_by c (wiring log)
wiring (got message ∷ log) = wiring log
wiring (sent message ∷ log) = wiring log
wiring (closed fd ∷ log) = wiring log
wiring (shown line ∷ log) = wiring log

abbrev made_by : Call → Option (ℕ × ℕ) → Option (ℕ × ℕ)
made_by (piped read_end write_end) before = some (read_end, write_end)
made_by c before = before

-- The ends of the pipe that was made last.
abbrev pub ends_of : List Event → Option (ℕ × ℕ)
ends_of [] = none
ends_of (did c ∷ log) = made_by c (ends_of log)
ends_of (got message ∷ log) = ends_of log
ends_of (sent message ∷ log) = ends_of log
ends_of (closed fd ∷ log) = ends_of log
ends_of (shown line ∷ log) = ends_of log

-- The output was asked to be the end for writing of the pipe, or the input the end for reading.
pub data Feeds (log : List Event) : Type 0 where
  feeds : (a b : ℕ) → ends_of log ≡ some (a, b) → wiring log ≡ output_to b → Feeds log

pub data Drains (log : List Event) : Type 0 where
  drains : (a b : ℕ) → ends_of log ≡ some (a, b) → wiring log ≡ input_from a → Drains log

module _ (args1 args2 : List Bytes) where
  -- The first program is started with its output in the pipe, the second with its input.
  abbrev pub StartsRight : Call → List Event → Type 0
  StartsRight (execute args) log = ((args ≡ args1) × Feeds log) ⊎ ((args ≡ args2) × Drains log)
  StartsRight c log = Unit {0}

  abbrev pub Connects : List Event → Type 0
  Connects [] = Unit {0}
  Connects (did c ∷ log) = StartsRight c log × Connects log
  Connects (got message ∷ log) = Connects log
  Connects (sent message ∷ log) = Connects log
  Connects (closed fd ∷ log) = Connects log
  Connects (shown line ∷ log) = Connects log

  -- The pipe with the ends `a` and `b` is made.
  record Piped (a b : ℕ) (log : List Event) : Type 0 where
    pub ends : ends_of log ≡ some (a, b)
    pub connects : Connects log

  record Wired (w : Wiring) (a b : ℕ) (log : List Event) : Type 0 where
    pub wired : wiring log ≡ w
    pub ends : ends_of log ≡ some (a, b)
    pub connects : Connects log

  abbrev Ends : (n : ℕ) → Unit {0} → Process → Type 0
  Ends n _ = Stage Connects n []

  exec-Triple :
      {n a b : ℕ} {w : Wiring} (args : List Bytes)
      → ((l : List Event) → Wired w a b l → StartsRight (execute args) l)
      → Triple Connects (Stage (Wired w a b) n []) (Ends n) (exec args)
  unfolding exec
  exec-Triple {n = n} args right =
      ask-Triple Connects (did (execute args)) none_of (λ l h. (right l h, h.connects)) then_do λ a.
      option-Triple (λ _. Stage Connects n []) a.value (exit-Triple 1) λ _. exit-Triple 0

  -- Both ends are closed, the one that was opened last first.
  close_ends-Triple :
      {n a b : ℕ} {G : List Event → Type 0} {P : Unit {0} → Process → Type 0}
      {k : Program (Unit {0})}
      → ((fd : ℕ) (l : List Event) → G l → G (closed fd ∷ l))
      → Triple Connects (Stage G n []) P k
      → Triple Connects (Stage G n (a ∷ b ∷ [])) P (close b >> (close a >> k))
  unfolding close
  close_ends-Triple {a = a} {b = b} keep next = record {
    ends = λ p h. next.ends _ (record {
      open_ones = ap (λ ds. erase_one a (erase_one b ds)) h.open_ones ∙ erase_pair b a;
      logged = keep a _ (keep b _ h.logged);
      fuelled = h.fuelled;
    });
  }

  first_child-Triple :
      {n a b : ℕ}
      → Triple Connects (Stage (Piped a b) n (a ∷ b ∷ [])) (Ends n) (first_child a b args1)
  unfolding first_child
  first_child-Triple {a = a} {b = b} =
      relax (λ l h. h.connects)
        (ask-Triple (Wired (output_to b) a b) (did (redirect_output b)) none_of
          λ l h. record { wired = refl; ends = h.ends; connects = (tt, h.connects) })
      then_do λ _.
          close-Triple Connects
            (λ l h. record { wired = h.wired; ends = h.ends; connects = h.connects })
          then_do λ _.
              close-Triple Connects
                (λ l h. record { wired = h.wired; ends = h.ends; connects = h.connects })
              then_do λ _. exec-Triple args1 λ l h. inl (refl, feeds a b h.ends h.wired)

  second_child-Triple :
      {n a b : ℕ}
      → Triple Connects (Stage (Piped a b) n (a ∷ b ∷ [])) (Ends n) (second_child a b args2)
  unfolding second_child
  second_child-Triple {a = a} {b = b} =
      relax (λ l h. h.connects)
        (ask-Triple (Wired (input_from a) a b) (did (redirect_input a)) none_of
          λ l h. record { wired = refl; ends = h.ends; connects = (tt, h.connects) })
      then_do λ _.
          close_ends-Triple
            (λ fd l h. record { wired = h.wired; ends = h.ends; connects = h.connects })
            (exec-Triple args2 λ l h. inr (refl, drains a b h.ends h.wired))

  await_both-Triple :
      {n a b : ℕ} → Triple Connects (Stage (Piped a b) n (a ∷ b ∷ [])) (Ends n) (await_both a b)
  unfolding await_both
  await_both-Triple =
      close-Triple Connects (λ l h. record { ends = h.ends; connects = h.connects }) then_do λ _.
      close-Triple Connects (λ l h. record { ends = h.ends; connects = h.connects }) then_do λ _.
      ask-Triple Connects (did wait) none_of (λ l h. (tt, h.connects)) then_do λ _.
      ask-Triple Connects (did wait) none_of (λ l h. (tt, h)) then_do λ _.
      pure-Triple Connects λ p h. h

  fork_into-Triple :
      {n a b : ℕ} {ds : List ℕ} {child failed parent : Program (Unit {0})}
      → Triple Connects (Stage (Piped a b) n ds) (Ends n) child
      → Triple Connects (Stage (Piped a b) n ds) (Ends n) failed
      → Triple Connects (Stage (Piped a b) n ds) (Ends n) parent
      → Triple Connects (Stage (Piped a b) n ds) (Ends n) (fork_into child failed parent)
  unfolding fork_into
  fork_into-Triple {n = n} {a = a} {b = b} {ds = ds} child failed parent =
      relax (λ l h. h.connects)
        (ask-Triple (Piped a b) (did fork) none_of
          λ l h. record { ends = h.ends; connects = (tt, h.connects) })
      then_do λ r.
          option-Triple (λ _. Stage (Piped a b) n ds) r.value failed
            λ pid. if-Triple (pid == 0) child parent

  start_second-Triple :
      {n a b : ℕ}
      → Triple Connects (Stage (Piped a b) n (a ∷ b ∷ [])) (Ends n) (start_second a b args2)
  unfolding start_second
  start_second-Triple = fork_into-Triple second_child-Triple await_both-Triple await_both-Triple

  open_pipe-Triple :
      {n : ℕ}
      → Triple Connects
          (Stage Connects n [])
          (λ ends. Stage (Piped (ends.0) (ends.1)) n (ends.0 ∷ ends.1 ∷ []))
          open_pipe
  unfolding open_pipe
  open_pipe-Triple {n = n} = ask-Triple Connects (did pipe) none_of (λ l h. (tt, h)) then_do λ a.
      option-Triple (λ _. Stage Connects n []) a.value (exit-Triple 1)
        λ r. record {
          ends = λ p h. record {
            open_ones = ap (λ ds. r ∷ first_or_zero a.payload ∷ ds) h.open_ones;
            logged = record { ends = refl; connects = (tt, h.logged) };
            fuelled = h.fuelled;
          };
        }

  execute_pipe-Triple :
      {n : ℕ} → Triple Connects (Stage Connects n []) (Ends n) (execute_pipe args1 args2)
  unfolding execute_pipe
  execute_pipe-Triple = open_pipe-Triple then_do λ ends.
      fork_into-Triple first_child-Triple start_second-Triple start_second-Triple

pub ended :
    (Good : List Event → Type 0) (n : ℕ) (r : Run (Unit {0}))
    → Ensures (λ _. Stage Good n []) (Clean Good) (Waits Good) r
    → Ensures (λ _ p. Clean Good p) (Clean Good) (Waits Good) r
ended Good m (done a p) h = (h.open_ones, h.logged)
ended Good m (exited n p) h = h
ended Good m (blocked p) h = h
ended Good m fault h = h
ended Good m out_of_fuel h = h

-- In the shell and in each child that it forks, whatever the calls answer, failed forks included: both ends
-- of the pipe are closed when a program is started and when the shell goes on; the first command is started
-- behind a `dup2` of the end for writing to its output, the second behind one of the end for reading to its
-- input, and no other program is started.
pub execute_pipe-Ensures :
    (args1 args2 : List Bytes) (answers : List Answer)
    → Ensures
        (λ _ p. Clean (Connects args1 args2) p)
        (Clean (Connects args1 args2))
        (Waits (Connects args1 args2))
        (execute_pipe args1 args2 (start answers))
execute_pipe-Ensures args1 args2 answers =
    let enough : length answers < suc (length answers) = omega arith in
    ended (Connects args1 args2) (suc (length answers)) (execute_pipe args1 args2 (start answers))
      ((execute_pipe-Triple args1 args2).ends (start answers) (start-Stage tt enough))
