-- ===== src/TaskQueue/Examples.antt =====
-- The queue with two tasks.
use home_work.Libc.{Bytes}
use home_work.Posix.{
  Answer, start, Run, blocked, exited, done, fault, out_of_fuel, ask, open_with, receive, check,
  open_or_give_up, close, succeeds,
}
use home_work.Posix.Ensures.{Ensures}
use home_work.Sockets.{overlay}
use home_work.Sockets.Messages.{sent_messages}
use home_work.TaskQueue.Server.{
  Environment, main, serve, serve_client, serve_task, take_task, process_task, filled, doubled,
  signed,
}
use home_work.TaskQueue.Server.Doubles.{Doubles}
use home_work.Base.{ℕ, ◌+◌, ◌-◌, ◌≡◌, refl, List, [], ◌∷◌, ◌++◌, Option, none, some, arith, true}
use home_work.Base.Int.{ℤ, pos, negsuc}
use home_work.TaskQueue.{TaskQueue, init_queue, load, link_task, enqueue, dequeue, free_task}
use home_work.TaskQueue.Refines.{
  Job, one, more, Represents, is_linked, enqueue-Represents, dequeue-Represents,
}

abbrev first : Job
first = (5, pos 10)

abbrev second : Job
second = (6, pos 20)

abbrev two_tasks : TaskQueue
two_tasks = record {
  head = some 0;
  tail = some 1;
  heap =
      some (record { client_sock = 5; task_data = pos 10; next = some 1 })
      ∷ some (record { client_sock = 6; task_data = pos 20; next = none })
      ∷ [];
}

abbrev enqueue_both : Option TaskQueue
enqueue_both = elim (enqueue true (init_queue []) 5 (pos 10)) [
  | none ↦ none
  | some q ↦ enqueue true q 6 (pos 20)
]

both_enqueued : enqueue_both ≡ some two_tasks
unfolding enqueue link_task load
both_enqueued = refl

two_tasks-Represents : Represents two_tasks (first ∷ second ∷ [])
unfolding load
two_tasks-Represents = is_linked (more (omega arith) refl (one refl))

enqueue-Represents_example :
    (queue' : TaskQueue) × (enqueue true two_tasks 7 (pos 30) ≡ some queue')
    × Represents queue' ((first ∷ second ∷ []) ++ ((7, pos 30) ∷ []))
enqueue-Represents_example =
    enqueue-Represents two_tasks (first ∷ second ∷ []) 7 (pos 30) two_tasks-Represents

dequeue-Represents_example :
    (a : ℕ) × (queue' : TaskQueue) × (next : Option ℕ) × (dequeue two_tasks ≡ some (some a, queue'))
    × (load queue'.heap a ≡ some (record { client_sock = 5; task_data = pos 10; next = next }))
    × Represents (free_task queue' a) (second ∷ [])
dequeue-Represents_example = dequeue-Represents two_tasks first (second ∷ []) two_tasks-Represents

-- One digit.
abbrev digits : Environment
digits = record { read = read_digit; write = write_digit; behind = λ n. []; granted = λ n. true }
  where
    read_digit : Bytes → ℤ
    read_digit [] = pos 0
    read_digit (c ∷ text) = pos (c - 48)

    write_digit : ℤ → Bytes
    write_digit (pos n) = (48 + n) ∷ []
    write_digit (negsuc n) = 45 ∷ (49 + n) ∷ []

abbrev returns : ℕ → Answer
returns n = record { value = some n; payload = [] }

-- A socket, its address, and a client, 5, that sends "3".
abbrev one_client : List Answer
one_client =
    returns 3
    ∷ returns 0
    ∷ returns 0
    ∷ returns 5
    ∷ record { value = some 1; payload = 51 ∷ [] }
    ∷ returns 1
    ∷ []

abbrev sent_by : Run (Unit {0}) → Option (List Bytes)
sent_by (blocked p) = some (sent_messages p.log)
sent_by (exited n p) = none
sent_by (done a p) = none
sent_by fault = none
sent_by out_of_fuel = none

six_for_three : sent_by (main digits 7 [] (start one_client)) ≡ some ((54 ∷ []) ∷ [])
unfolding main serve serve_client serve_task take_task process_task filled enqueue link_task dequeue
    load doubled signed free_task ask open_with receive check open_or_give_up close overlay succeeds
six_for_three = refl
