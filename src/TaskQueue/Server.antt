-- ===== src/TaskQueue/Server.antt =====
-- `main` of "16 work/socket work 2/consProdServer.c". `atoi` and `sprintf` are parameters. Of what is
-- printed, the numbers of the tasks received are kept.
pub mod Doubles
use home_work.Base.{
  ℕ, zero, suc, ◌+◌, ◌*◌, ◌-◌, ◌^◌, ◌%◌, Bool, ltb, if◌then◌else◌, length, List, [], ◌∷◌, ◌++◌,
  Option, none, some,
}
use home_work.Base.Int.{ℤ, pos, negsuc}
use home_work.Libc.{Bytes}
use home_work.Posix.{
  any_at, stream, socket, bind, listen, accept, did, sent, Program, done, fault, out_of_rounds,
  pure, ◌>>=◌, ◌>>◌, ask, open_with, receive, close, check, open_or_give_up, show_text,
}
use home_work.Sockets.{overlay}
use home_work.TaskQueue.{Task, TaskQueue, init_queue, load, enqueue, dequeue, free_task}

-- `read` is `atoi`, of what stands in memory from an address on, and `write` what `sprintf(..., "%d", ...)`
-- writes. `behind n` stands behind the 256 bytes of `buffer`, and `granted n` tells whether `malloc` gives a
-- block, when `n` tasks have been made.
pub record Environment : Type 0 where
  pub read : Bytes → ℤ
  pub write : ℤ → Bytes
  pub behind : ℕ → Bytes
  pub granted : ℕ → Bool

-- The `int` with the bits of a word of 32 bits.
unfoldable pub signed : ℕ → ℤ
signed word = if ltb word (2 ^ 31) then pos word else negsuc (2 ^ 32 - 1 - word)

-- `task->task_data * 2`, which wraps around in 32 bits, as the usual compilers have it.
unfoldable pub doubled : ℤ → ℤ
unfolding signed
doubled (pos n) = signed (2 * n % 2 ^ 32)
doubled (negsuc n) = signed ((2 ^ 32 - (2 * n + 2) % 2 ^ 32) % 2 ^ 32)

-- The queue, and the 256 bytes of `buffer`.
abbrev pub Variables : Type 0
Variables = TaskQueue × Bytes

-- What is done with a task that was taken from the queue; `sprintf` writes a NUL behind the result.
unfoldable pub process_task : Environment → (a : ℕ) → Task → Variables → Program Variables
unfolding ask close free_task overlay
process_task system a task (queue, buffer) = do
  ask (sent (system.write (doubled task.task_data)))
  close task.client_sock
  pure (free_task queue a, overlay (system.write (doubled task.task_data) ++ (0 ∷ [])) buffer)

-- The first task of the queue; an access to a task that is not there is a fault.
unfoldable pub take_task : Environment → Variables → Program Variables
unfolding dequeue load process_task
take_task system (queue, buffer) p = elim (dequeue queue) [
  | none ↦ fault
  | some (none, queue') ↦ done (queue', buffer) p
  | some (some a, queue') ↦ elim (load queue'.heap a) [
    | none ↦ fault
    | some task ↦ process_task system a task (queue', buffer) p
  ]
]

-- `atoi(buffer)`
abbrev pub task_data_of : Environment → Variables → ℤ
task_data_of system (queue, buffer) = system.read (buffer ++ system.behind (length queue.heap))

-- The task of a client, whose number stands at the beginning of `buffer`.
unfoldable pub serve_task : Environment → (client : ℕ) → Variables → Program Variables
unfolding enqueue take_task
serve_task system client (queue, buffer) = do
  show_text (system.write (task_data_of system (queue, buffer)))
  λ p.
      elim (enqueue (system.granted (length queue.heap)) queue client
        (task_data_of system (queue, buffer))) [
          | none ↦ fault
          | some queue' ↦ take_task system (queue', buffer) p
        ]

-- The buffer after `recv`; one that fails changes nothing.
unfoldable pub filled : Option Bytes → Bytes → Bytes
unfolding overlay
filled none buffer = buffer
filled (some message) buffer = overlay message buffer

-- A round of the `while`.
unfoldable pub serve_client : Environment → (server : ℕ) → Variables → Program Variables
unfolding open_with receive serve_task filled
serve_client system server (queue, buffer) = do
  client ← open_with accept
  λ p. elim client [
    | none ↦ done (queue, buffer) p
    | some client ↦
        (do received ← receive 256; serve_task system client (queue, filled received buffer)) p
  ]

unfoldable pub serve : Environment → (rounds server : ℕ) → Variables → Program (Unit {0})
unfolding serve_client
serve system zero server variables = out_of_rounds
serve system (suc rounds) server variables = do
  variables' ← serve_client system server variables
  serve system rounds server variables'

-- `buffer` is what the stack holds there.
unfoldable pub main : Environment → (rounds : ℕ) (buffer : Bytes) → Program (Unit {0})
unfolding open_or_give_up check ask serve
main system rounds buffer = do
  server_sock ← open_or_give_up [] (socket stream)
  check (server_sock ∷ []) (did (bind (any_at 8080)))
  ask (did (listen 5))
  serve system rounds server_sock (init_queue [], buffer)
