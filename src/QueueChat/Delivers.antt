-- ===== src/QueueChat/Delivers.antt =====
-- Runs of the server of "13 work/task2" in which no call fails.
use home_work.Base.{
  ℕ, ◌<◌, ◌≡◌, refl, ap, List, [], ◌∷◌, ◌++◌, some, true, ltb, length, take, lt→ltb, sym,
}
use home_work.Libc.{Bytes}
use home_work.Posix.{
  Answer, open_queue, Event, did, sent, closed, shown, done, ask, open_with, succeeds, close,
}
use home_work.Posix.Rules.{erase_one_head}
use home_work.QueueChat.{
  is_join, queue_of, name_of, message_of, join_text, joined_text, newline, broadcast_message,
  send_names, send_user_list_to_client, add_client, welcome, handle,
}

-- A client's queue, and the descriptor that it opens as.
abbrev pub Opened : Type 0
Opened = Bytes × ℕ

abbrev pub queues : List Opened → List Bytes
queues [] = []
queues (c ∷ clients) = c.0 ∷ queues clients

queues-snoc :
    (clients : List Opened) (c : Opened)
    → queues (clients ++ (c ∷ [])) ≡ queues clients ++ (c.0 ∷ [])
queues-snoc [] c = refl
queues-snoc (x ∷ clients) c = ap (◌∷◌ (x.0)) (queues-snoc clients c)

abbrev pub returns : ℕ → Answer
returns n = record { value = some n; payload = [] }

-- Each queue is opened, and takes the message.
abbrev pub deliveries : List Opened → List Answer → List Answer
deliveries [] rest = rest
deliveries (c ∷ clients) rest = returns (c.1) ∷ returns 0 ∷ deliveries clients rest

-- Each queue is opened, sent the message and closed.
abbrev pub delivered : List Opened → (msg : Bytes) → List Event → List Event
delivered [] msg log = log
delivered (c ∷ clients) msg log =
    delivered clients msg (closed (c.1) ∷ sent (take 288 msg) ∷ did (open_queue (c.0)) ∷ log)

abbrev pub successes : List Bytes → List Answer → List Answer
successes [] rest = rest
successes (q ∷ clients) rest = returns 0 ∷ successes clients rest

-- A "/join" for each of the queues.
abbrev pub listed : List Bytes → List Event → List Event
listed [] log = log
listed (q ∷ clients) log = listed clients (sent (message_of join_text q) ∷ log)

broadcast_message-delivered :
    (clients : List Opened) (msg : Bytes) (rest : List Answer) (ds : List ℕ) (log : List Event)
    → broadcast_message
        (queues clients)
        msg
        (record { answers = deliveries clients rest; descriptors = ds; log = log })
      ≡ done tt (record { answers = rest; descriptors = ds; log = delivered clients msg log })
unfolding broadcast_message open_with succeeds ask close
broadcast_message-delivered [] msg rest ds log = refl
broadcast_message-delivered (c ∷ clients) msg rest ds log = rw (erase_one_head (c.1) ds) (
    broadcast_message-delivered clients msg rest ds
      (closed (c.1) ∷ sent (take 288 msg) ∷ did (open_queue (c.0)) ∷ log))

named :
    (clients : List Opened) (names : List Bytes) (msg : Bytes) (rest : List Answer) (ds : List ℕ)
    (log : List Event)
    → queues clients ≡ names
    → broadcast_message names msg
        (record { answers = deliveries clients rest; descriptors = ds; log = log })
      ≡ done tt (record { answers = rest; descriptors = ds; log = delivered clients msg log })
named clients names msg rest ds log e =
    rw (sym e) (broadcast_message-delivered clients msg rest ds log)

send_names-listed :
    (clients : List Bytes) (rest : List Answer) (ds : List ℕ) (log : List Event)
    → send_names clients (record { answers = successes clients rest; descriptors = ds; log = log })
      ≡ done tt (record { answers = rest; descriptors = ds; log = listed clients log })
unfolding send_names succeeds ask
send_names-listed [] rest ds log = refl
send_names-listed (q ∷ clients) rest ds log =
    send_names-listed clients rest ds (sent (message_of join_text q) ∷ log)

send_user_list-listed :
    (queue : Bytes) (fd : ℕ) (clients : List Bytes) (rest : List Answer) (ds : List ℕ)
    (log : List Event)
    → send_user_list_to_client queue clients
        (record { answers = returns fd ∷ successes clients rest; descriptors = ds; log = log })
      ≡ done tt (record {
        answers = rest;
        descriptors = ds;
        log = closed fd ∷ listed clients (did (open_queue queue) ∷ log);
      })
unfolding send_user_list_to_client open_with ask close
send_user_list-listed queue fd clients rest ds log =
    rw (send_names-listed clients rest (fd ∷ ds) (did (open_queue queue) ∷ log))
      (rw (erase_one_head fd ds) refl)

-- What the server says of a client that has joined.
abbrev pub announcement : (msg : Bytes) → Event
announcement msg = shown (take 255 (name_of msg ++ joined_text) ++ newline)

welcome-delivers :
    (clients : List Opened) (fd again : ℕ) (msg : Bytes) (rest : List Answer) (ds : List ℕ)
    (log : List Event)
    → length (queues clients) < 10
    → let queue = queue_of (name_of msg) in
      let joined = clients ++ ((queue, fd) ∷ []) in
      welcome (queues clients) msg (record {
        answers = deliveries joined (returns again ∷ successes (queues joined) rest);
        descriptors = ds;
        log = log;
      })
      ≡ done (queues joined) (record {
        answers = rest;
        descriptors = ds;
        log =
            announcement msg
            ∷ closed again
            ∷ listed (queues joined) (did (open_queue queue) ∷ delivered joined msg log);
      })
unfolding welcome add_client
welcome-delivers clients fd again msg rest ds log h =
    let queue = queue_of (name_of msg) in
    let joined : List Opened = clients ++ ((queue, fd) ∷ []) in
    let room : ltb (length (queues clients)) 10 ≡ true = lt→ltb _ _ h in
    let names : List Bytes = queues clients ++ (queue ∷ []) in
    let snoc : queues joined ≡ names = queues-snoc clients (queue, fd) in
    let later = returns again ∷ successes names rest in
    let each = named joined names msg later ds log snoc in
    let list = send_user_list-listed queue again names rest ds (delivered joined msg log) in
    rw (room, snoc) (rw each (rw list refl))

-- When no call fails and fewer than ten clients have joined, the message "/join" of a new client is sent to
-- every client's queue, the new one's included; then the new client is sent a "/join" with the queue's name of
-- each of them, in the order in which they joined, and every queue that was opened is closed.
pub handle-join :
    (clients : List Opened) (fd again : ℕ) (msg : Bytes) (rest : List Answer) (ds : List ℕ)
    (log : List Event)
    → is_join msg ≡ true
    → length (queues clients) < 10
    → let queue = queue_of (name_of msg) in
      let joined = clients ++ ((queue, fd) ∷ []) in
      handle (queues clients) msg (record {
        answers = deliveries joined (returns again ∷ successes (queues joined) rest);
        descriptors = ds;
        log = log;
      })
      ≡ done (queues joined) (record {
        answers = rest;
        descriptors = ds;
        log =
            announcement msg
            ∷ closed again
            ∷ listed (queues joined) (did (open_queue queue) ∷ delivered joined msg log);
      })
unfolding handle
handle-join clients fd again msg rest ds log join h =
    let room : ltb (length (queues clients)) 10 ≡ true = lt→ltb _ _ h in
    rw (join, room) (welcome-delivers clients fd again msg rest ds log h)
