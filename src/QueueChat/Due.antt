-- ===== src/QueueChat/Due.antt =====
-- The queues that the messages received by the server of "13 work/task2" are for, and the queues it has
-- opened.
use home_work.Base.{◌≡◌, List, [], ◌∷◌, ◌++◌, if◌then◌else◌, ltb, length}
use home_work.Libc.{Bytes}
use home_work.Posix.{Call, open_queue, recv, Event, did, got, sent, closed, shown}
use home_work.Sockets.{overlay}
use home_work.QueueChat.{is_join, queue_of, name_of}

-- The queues of the clients, when the message `msg` has been handled.
abbrev pub table_after : (clients : List Bytes) (msg : Bytes) → List Bytes
table_after clients msg =
    if is_join msg
    then (if ltb (length clients) 10 then clients ++ (queue_of (name_of msg) ∷ []) else clients)
    else clients

-- The queues a message is for, in order: a client that joins is in the table, and is
-- served once more with the list of the names; the eleventh is served nothing.
abbrev pub routes : (clients : List Bytes) (msg : Bytes) → List Bytes
routes clients msg =
    if is_join msg
    then (if ltb (length clients) 10
        then (clients ++ (queue_of (name_of msg) ∷ [])) ++ (queue_of (name_of msg) ∷ [])
        else [])
    else clients

-- The elements of the first list, the last of them in front.
abbrev pub onto : List Bytes → List Bytes → List Bytes
onto [] ys = ys
onto (x ∷ xs) ys = onto xs (x ∷ ys)

abbrev opening : Call → List Bytes → List Bytes
opening (open_queue q) qs = q ∷ qs
opening c qs = qs

-- The queues that a log opens, the newest first.
abbrev pub opened_queues : List Event → List Bytes
opened_queues [] = []
opened_queues (did c ∷ log) = opening c (opened_queues log)
opened_queues (got message ∷ log) = opened_queues log
opened_queues (sent message ∷ log) = opened_queues log
opened_queues (closed fd ∷ log) = opened_queues log
opened_queues (shown text ∷ log) = opened_queues log

-- A server that goes to wait for the next message has left nothing to open.
abbrev pub WaitsWith : Call → List Bytes → Type 0
WaitsWith (recv size) left = left ≡ []
WaitsWith c left = Unit {0}

abbrev pub Settled : List Event → List Bytes → Type 0
Settled [] left = Unit {0}
Settled (did c ∷ log) left = WaitsWith c left
Settled (got message ∷ log) left = Unit {0}
Settled (sent message ∷ log) left = Unit {0}
Settled (closed fd ∷ log) left = Unit {0}
Settled (shown text ∷ log) left = Unit {0}

module _ (stack : List Event → Bytes) where
  -- The table that the messages of a log make.
  abbrev pub table : List Event → List Bytes
  table [] = []
  table (did c ∷ log) = table log
  table (got message ∷ log) = table_after (table log) (overlay message (stack log))
  table (sent message ∷ log) = table log
  table (closed fd ∷ log) = table log
  table (shown text ∷ log) = table log

  -- The queues that the messages of a log are for, the newest first.
  abbrev pub due_queues : List Event → List Bytes
  due_queues [] = []
  due_queues (did c ∷ log) = due_queues log
  due_queues (got message ∷ log) =
      onto (routes (table log) (overlay message (stack log))) (due_queues log)
  due_queues (sent message ∷ log) = due_queues log
  due_queues (closed fd ∷ log) = due_queues log
  due_queues (shown text ∷ log) = due_queues log

  -- The queues `left` have still to be opened, and the table is `clients`.
  pub record Pending (clients left : List Bytes) (log : List Event) : Type 0 where
    pub in_order : due_queues log ≡ onto left (opened_queues log)
    pub table_is : table log ≡ clients
    pub settled : Settled log left

  -- What is opened is the front of what is due, and all of it when the server waits for a message.
  abbrev pub Routed : List Event → Type 0
  Routed log =
      (left : List Bytes) × (due_queues log ≡ onto left (opened_queues log)) × Settled log left

  pub pending :
      (clients left : List Bytes) (log : List Event) → Pending clients left log → Routed log
  pending clients left log h = (left, h.in_order, h.settled)
