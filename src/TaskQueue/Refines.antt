-- ===== src/TaskQueue/Refines.antt =====
-- The linked queue of "16 work/socket work 2/consProdServer.c" as a list of tasks.
use home_work.Base.{
  ℕ, zero, suc, ◌+◌, ◌<◌, ◌≤◌, ◌≡◌, ◌≢◌, refl, sym, ap, ◌∙◌, List, [], ◌∷◌, ◌++◌, Option, none,
  some, length, set, arith, length-append, get_elem?-set_ne, true,
}
use home_work.Base.Int.{ℤ}
use home_work.TaskQueue.{
  Task, TaskQueue, init_queue, load, new_task, link_task, enqueue, dequeue, free_task,
}

-- A task as its sender's socket and its number.
abbrev pub Job : Type 0
Job = ℕ × ℤ

abbrev job_task : Job → Option ℕ → Task
job_task job next = record { client_sock = job.0; task_data = job.1; next = next }

-- The tasks from address `a` to address `t`, at rising addresses.
pub data Linked (heap : List (Option Task)) : ℕ → ℕ → List Job → Type 0 where
  one : {a : ℕ} {job : Job} → load heap a ≡ some (job_task job none) → Linked heap a a (job ∷ [])
  more :
      {a b t : ℕ} {job : Job} {jobs : List Job}
      → a < b
      → load heap a ≡ some (job_task job (some b))
      → Linked heap b t jobs
      → Linked heap a t (job ∷ jobs)

pub data Represents : TaskQueue → List Job → Type 0 where
  is_empty : {heap : List (Option Task)} → Represents (init_queue heap) []
  is_linked :
      {heap : List (Option Task)} {a t : ℕ} {jobs : List Job}
      → Linked heap a t jobs
      → Represents (record { head = some a; tail = some t; heap = heap }) jobs

load-bound :
    (heap : List (Option Task)) (a : ℕ) {task : Task} → load heap a ≡ some task → a < length heap
unfolding load
load-bound [] a h = absurd (cc h)
load-bound (cell ∷ heap) zero h = omega arith
load-bound (cell ∷ heap) (suc a) h = omega (arith, load-bound heap a h)

load-append :
    (heap rest : List (Option Task)) (a : ℕ) → a < length heap → load (heap ++ rest) a ≡ load heap a
unfolding load
load-append [] rest a h = absurd (omega arith)
load-append (cell ∷ heap) rest zero h = refl
load-append (cell ∷ heap) rest (suc a) h = load-append heap rest a (omega arith)

load-last :
    (heap : List (Option Task)) (task : Task)
    → load (heap ++ (some task ∷ [])) (length heap) ≡ some task
unfolding load
load-last [] task = refl
load-last (cell ∷ heap) task = load-last heap task

load-set_self :
    (heap : List (Option Task)) (a : ℕ) (cell : Option Task)
    → a < length heap
    → load (set heap a cell) a ≡ cell
unfolding load
load-set_self [] a cell h = absurd (omega arith)
load-set_self (c ∷ heap) zero cell h = refl
load-set_self (c ∷ heap) (suc a) cell h = load-set_self heap a cell (omega arith)

load-set_ne :
    (heap : List (Option Task)) (a b : ℕ) (cell : Option Task)
    → a ≢ b
    → load (set heap a cell) b ≡ load heap b
unfolding load
load-set_ne heap a b cell h = rw (load, get_elem?-set_ne heap {i = a} {j = b} cell h) refl

first_le_last :
    {heap : List (Option Task)} {a t : ℕ} {jobs : List Job} → Linked heap a t jobs → a ≤ t
first_le_last (one e) = omega arith
first_le_last (more lt e rest) = omega (arith, first_le_last rest)

last_task :
    {heap : List (Option Task)} {a t : ℕ} {jobs : List Job}
    → Linked heap a t jobs
    → (job : Job) × (load heap t ≡ some (job_task job none))
last_task (one {job = job} e) = (job, e)
last_task (more lt e rest) = last_task rest

-- Another heap with a task behind the last.
relinked :
    {heap heap' : List (Option Task)} {a t n : ℕ} {jobs : List Job} (job : Job)
    → ((x : ℕ) → x < t → load heap' x ≡ load heap x)
    → ((last : Job)
        → load heap t ≡ some (job_task last none)
        → load heap' t ≡ some (job_task last (some n)))
    → load heap' n ≡ some (job_task job none)
    → t < n
    → Linked heap a t jobs
    → Linked heap' a n (jobs ++ (job ∷ []))
relinked job below at_last at_new lt (one {job = last} e) = more lt (at_last last e) (one at_new)
relinked job below at_last at_new lt (more {a = a} less e rest) =
    more less (below a (omega (arith, first_le_last rest)) ∙ e)
      (relinked job below at_last at_new lt rest)

-- The heap changes only in front of the tasks.
kept :
    {heap heap' : List (Option Task)} {a t : ℕ} {jobs : List Job}
    → ((x : ℕ) → a ≤ x → load heap' x ≡ load heap x)
    → Linked heap a t jobs
    → Linked heap' a t jobs
kept same (one {a = a} e) = one (same a (omega arith) ∙ e)
kept same (more {a = a} lt e rest) =
    more lt (same a (omega arith) ∙ e) (kept (λ x h. same x (omega arith)) rest)

abbrev link_to : ℕ → Option Task → Option Task
link_to n none = none
link_to n (some task) = some (record task { next = some n })

length-last :
    (heap : List (Option Task)) (cell : Option Task)
    → length (heap ++ (cell ∷ [])) ≡ length heap + 1
length-last heap cell = length-append heap (cell ∷ [])

-- On a queue of `jobs`, when `malloc` gives a block, `enqueue` accesses no freed task and leaves the queue
-- of `jobs` with the new task at its end.
pub enqueue-Represents :
    (queue : TaskQueue) (jobs : List Job) (client_sock : ℕ) (task_data : ℤ)
    → Represents queue jobs
    → (queue' : TaskQueue) × (enqueue true queue client_sock task_data ≡ some queue')
      × Represents queue' (jobs ++ ((client_sock, task_data) ∷ []))
unfolding enqueue link_task
enqueue-Represents _ _ s d (is_empty {heap = heap}) =
    (_, refl, is_linked (one (load-last heap (new_task s d))))
enqueue-Represents _ _ s d (is_linked {heap = heap} {a = a} {t = t} {jobs = jobs} h) =
    let (last, e) = last_task h in
    let heap' : List (Option Task) = heap ++ (some (new_task s d) ∷ []) in
    let inside : t < length heap = load-bound heap t e in
    let e' : load heap' t ≡ some (job_task last none) = load-append heap _ t inside ∙ e in
    let cell : Option Task = some (job_task last (some (length heap))) in
    let bound : t < length heap' = omega (arith, inside, length-last heap (some (new_task s d))) in
    (
      record { head = some a; tail = some (length heap); heap = set heap' t cell },
      rw (e', link_task) refl,
      is_linked (
          relinked (s, d)
            (λ x lt.
              load-set_ne heap' t x cell (λ q. omega arith) ∙ load-append heap _ x (omega arith))
            (λ last' e''.
              load-set_self heap' t cell bound ∙ ap (link_to (length heap)) (sym e ∙ e''))
            (load-set_ne heap' t (length heap) cell (λ q. omega arith)
              ∙ load-last heap (new_task s d))
            inside h),
    )

-- On a queue of a job and `jobs`, `dequeue` gives the address of the job's task, and after `free` of that
-- address the queue is that of `jobs`.
pub dequeue-Represents :
    (queue : TaskQueue) (job : Job) (jobs : List Job)
    → Represents queue (job ∷ jobs)
    → (a : ℕ) × (queue' : TaskQueue) × (next : Option ℕ) × (dequeue queue ≡ some (some a, queue'))
      × (load queue'.heap a ≡ some (record { client_sock = job.0; task_data = job.1; next = next }))
      × Represents (free_task queue' a) jobs
unfolding dequeue free_task
dequeue-Represents _ job _ (is_linked {heap = heap} (one {a = a} e)) =
    (a, init_queue heap, none, rw (dequeue, e) refl, e, is_empty)
dequeue-Represents _ job jobs (is_linked {heap = heap} {t = t} (more {a = a} {b = b} lt e rest)) = (
  a,
  record { head = some b; tail = some t; heap = heap },
  some b,
  rw (dequeue, e) refl,
  e,
  is_linked (kept (λ x h. load-set_ne heap a x none (λ q. omega arith)) rest),
)
