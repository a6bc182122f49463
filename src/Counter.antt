-- ===== src/Counter.antt =====
-- "11 work/task2.c": two threads that add to one counter under a mutex, a shared access at a time. `main`
-- joins both and prints the counter.
pub mod Invariant
mod Progress
mod Examples
use home_work.Base.{ℕ, suc, ◌+◌, ◌≤◌, ◌<◌, ◌≡◌, Bool, true, false, Option, none, some}

pub record Memory : Type 0 where
  pub counter : ℕ
  pub held : Bool  -- the mutex

-- Where a thread stands in `incrementCounter`, with its `i` and what it has read of the counter.
pub data Pc : Type 0 where
  head locked stored : (i : ℕ) → Pc
  loaded : (i value : ℕ) → Pc
  finished : Pc

-- The bound of the loop.
abbrev pub loop_bound : ℕ
loop_bound = 100000

-- One step of one thread; `counter++` reads and writes.
pub data Move (rounds : ℕ) (m : Memory) : Pc → Memory → Pc → Type 0 where
  lock :
      {i : ℕ}
      → i < rounds
      → m.held ≡ false
      → Move rounds m (head i) (record m { held = true }) (locked i)
  load : {i : ℕ} → Move rounds m (locked i) m (loaded i m.counter)
  store :
      {i value : ℕ} → Move rounds m (loaded i value) (record m { counter = value + 1 }) (stored i)
  unlock : {i : ℕ} → Move rounds m (stored i) (record m { held = false }) (head (suc i))
  leave : {i : ℕ} → rounds ≤ i → Move rounds m (head i) m finished

-- `main` prints once both threads are joined.
pub record System : Type 0 where
  pub memory : Memory
  pub first : Pc
  pub second : Pc
  pub printed : Option ℕ

pub data Step (rounds : ℕ) (s : System) : System → Type 0 where
  first_moves :
      {m : Memory} {p : Pc}
      → Move rounds s.memory s.first m p
      → Step rounds s (record s { memory = m; first = p })
  second_moves :
      {m : Memory} {p : Pc}
      → Move rounds s.memory s.second m p
      → Step rounds s (record s { memory = m; second = p })
  print :
      s.first ≡ finished
      → s.second ≡ finished
      → s.printed ≡ none
      → Step rounds s (record s { printed = some s.memory.counter })

abbrev pub init : System
init = record {
  memory = record { counter = 0; held = false };
  first = head 0;
  second = head 0;
  printed = none;
}

-- What is reached in `steps` steps.
pub data Reach (rounds : ℕ) : ℕ → System → Type 0 where
  start : Reach rounds 0 init
  later :
      {steps : ℕ} {s t : System}
      → Reach rounds steps s
      → Step rounds s t
      → Reach rounds (suc steps) t
