-- ===== src/TaskQueue.antt =====
-- The queue of "16 work/socket work 2/consProdServer.c": a linked list on a heap, with a pointer to its
-- first and to its last task. An address is an index of the heap and stands for a block, not for a place:
-- every `malloc` that succeeds gives a new one, and `free` empties its cell. The code compares addresses
-- with NULL only. An access to a cell that is not there or is freed is `none`.
pub mod Refines
pub mod Server
mod Examples
use home_work.Base.{
  ℕ, ◌+◌, List, [], ◌∷◌, ◌++◌, Option, none, some, length, get_elem?, set, Bool, if◌then◌else◌,
}
use home_work.Base.Int.{ℤ}

pub record Task : Type 0 where
  pub client_sock : ℕ
  pub task_data : ℤ
  pub next : Option ℕ

pub record TaskQueue : Type 0 where
  pub head : Option ℕ
  pub tail : Option ℕ
  pub heap : List (Option Task)

-- The heap is that of the queue's tasks; `init_queue` keeps it.
abbrev pub init_queue : List (Option Task) → TaskQueue
init_queue heap = record { head = none; tail = none; heap = heap }

unfoldable pub load : List (Option Task) → ℕ → Option Task
load heap a = elim (get_elem? heap a) [ none ↦ none | some cell ↦ cell ]

abbrev pub new_task : ℕ → ℤ → Task
new_task client_sock task_data = record {
  client_sock = client_sock;
  task_data = task_data;
  next = none;
}

-- `queue->tail->next = new_task; queue->tail = new_task;` and the first task of an empty queue.
unfoldable pub link_task : TaskQueue → ℕ → ℤ → Option TaskQueue
unfolding load
link_task queue client_sock task_data =
    let heap = queue.heap ++ (some (new_task client_sock task_data) ∷ []) in
    let new = length queue.heap in
    elim queue.tail [
      | none ↦ some (record { head = some new; tail = some new; heap = heap })
      | some tail ↦ elim (load heap tail) [
        | none ↦ none
        | some last ↦ some (record {
          head = queue.head;
          tail = some new;
          heap = set heap tail (some (record last { next = some new }));
        })
      ]
    ]

-- `granted` tells whether `malloc` gives a block; its result is written to without a look at it.
unfoldable pub enqueue : (granted : Bool) → TaskQueue → ℕ → ℤ → Option TaskQueue
unfolding link_task
enqueue granted queue client_sock task_data =
    if granted then link_task queue client_sock task_data else none

abbrev pub tail_after : (head tail : Option ℕ) → Option ℕ
tail_after none tail = none
tail_after (some a) tail = tail

-- The address of the first task, or `none` for `NULL`, and the queue without it; the caller frees it.
unfoldable pub dequeue : TaskQueue → Option (Option ℕ × TaskQueue)
unfolding load
dequeue queue = elim queue.head [
  | none ↦ some (none, queue)
  | some a ↦ elim (load queue.heap a) [
    | none ↦ none
    | some task ↦ some (
      some a,
      record { head = task.next; tail = tail_after task.next queue.tail; heap = queue.heap },
    )
  ]
]

-- `free(task)`
unfoldable pub free_task : TaskQueue → ℕ → TaskQueue
free_task queue a = record queue { heap = set queue.heap a none }
