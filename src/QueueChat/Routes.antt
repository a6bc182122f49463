-- ===== src/QueueChat/Routes.antt =====
-- The queues that the server of "13 work/task2" opens, against the messages it has received.
use home_work.Base.{
  ℕ, zero, suc, ◌<◌, refl, ap, List, [], ◌∷◌, ◌++◌, none, some, ltb, length, take, drop, append-nil,
  Bool-cases, inl, inr,
}
use mathlib.Core.Path.{subst}
use home_work.Libc.{Bytes}
use home_work.Posix.{
  Answer, start, Event, Program, ◌>>=◌, create_queue, recv, did, receive, open_or_give_up, give_up,
  close_all, exit,
}
use home_work.Posix.Ensures.{start-Stage, Ensures, one_of, Clean, Waits, ◌then_do◌}
use home_work.Posix.Rules.{pure-Triple, option-Triple, opened_too, no_rounds-Triple}
use home_work.Sockets.{overlay}
use home_work.QueueChat.{
  is_join, name_of, text_of, chat_queue, newline, full_text, started_text, broadcast_message, relay,
  handle, serve_chat, server_main,
}
use home_work.QueueChat.Due.{Routed, pending, table_after, routes}
use home_work.QueueChat.Steps.{
  welcome-Triple, Served, Does, plain-Triple, open-Triple, print-Triple, broadcast_message-Triple,
}

module _ (stack : List Event → Bytes) where
  broadcast_all-Triple :
      {n : ℕ} {ds : List ℕ} (clients : List Bytes) (msg : Bytes)
      → Does stack
          (Served stack n ds clients clients)
          (λ _. Served stack n ds clients [])
          (broadcast_message clients msg)
  broadcast_all-Triple {n = n} {ds = ds} clients msg =
      subst
        (λ left.
          Does stack (Served stack n ds clients left) (λ _. Served stack n ds clients [])
            (broadcast_message clients msg))
        (append-nil clients) (broadcast_message-Triple stack clients [] msg)

  relay-Triple :
      {n : ℕ} {ds : List ℕ} (clients : List Bytes) (msg : Bytes)
      → Does stack
          (Served stack n ds clients clients)
          (λ c. Served stack n ds c [])
          (relay clients msg)
  unfolding relay
  relay-Triple {n = n} {ds = ds} clients msg =
      print-Triple stack (name_of msg ++ (58 ∷ 32 ∷ []) ++ text_of msg ++ newline) then_do λ _.
      broadcast_all-Triple clients msg then_do λ _. pure-Triple (Routed stack) λ p h. h

  handle-Triple :
      {n : ℕ} {ds : List ℕ} (clients : List Bytes) (msg : Bytes)
      → Does stack
          (Served stack n ds (table_after clients msg) (routes clients msg))
          (λ c. Served stack n ds c [])
          (handle clients msg)
  unfolding handle
  handle-Triple {n = n} {ds = ds} clients msg = elim (Bool-cases (is_join msg)) [
    | inl join ↦ elim (Bool-cases (ltb (length clients) 10)) [
      | inl room ↦ rw join (rw room (welcome-Triple stack clients msg room))
      | inr full ↦ rw join (
          rw full (
            print-Triple stack (full_text ++ newline) then_do λ _.
            pure-Triple (Routed stack) λ p h. h))
    ]
    | inr other ↦ rw other (relay-Triple clients msg)
  ]

  -- What the server receives is due at once.
  receive-Triple :
      {n : ℕ} {ds : List ℕ} (clients : List Bytes)
      → Does stack
          (Served stack (suc n) ds clients [])
          (λ o. elim o [
            | none ↦ Served stack n ds clients []
            | some message ↦ λ p.
                let msg = overlay message (stack (drop 1 p.log)) in
                Served stack n ds (table_after clients msg) (routes clients msg) p
          ])
          (receive 288)
  unfolding receive
  receive-Triple {n = n} {ds = ds} clients =
      plain-Triple stack (did (recv 288)) one_of
        (λ l h. record { in_order = h.in_order; table_is = h.table_is; settled = refl })
      then_do λ a.
          option-Triple (λ _. Served stack n ds clients []) a.value (record { ends = λ p h. h })
            λ m. record {
              ends = λ p h.
                  let msg = overlay (take 288 a.payload) (stack p.log) in
                  record {
                    open_ones = h.open_ones;
                    logged = record {
                      in_order = rw (h.logged.table_is) (rw (h.logged.in_order) refl);
                      table_is = ap (λ c. table_after c msg) h.logged.table_is;
                      settled = tt;
                    };
                    fuelled = h.fuelled;
                  };
            }

  served :
      (n mq : ℕ) (clients : List Bytes) (msg : Bytes) {rest : List Bytes → Program (Unit {0})}
      → ((c : List Bytes) → Does stack (Served stack n (mq ∷ []) c []) (λ _ p. ⊥) (rest c))
      → Does stack
          (Served stack n (mq ∷ []) (table_after clients msg) (routes clients msg))
          (λ _ p. ⊥)
          (handle clients msg >>= rest)
  served n mq clients msg goes_on = handle-Triple clients msg then_do λ c. goes_on c

  serve_chat-Triple :
      (n mq : ℕ) (clients : List Bytes)
      → Does stack (Served stack n (mq ∷ []) clients []) (λ _ p. ⊥) (serve_chat n stack clients)
  unfolding serve_chat
  serve_chat-Triple zero mq clients = no_rounds-Triple
  serve_chat-Triple (suc n) mq clients = receive-Triple clients then_do λ o.
      option-Triple
        (λ x. elim x [
          | none ↦ Served stack n (mq ∷ []) clients []
          | some message ↦ λ p.
              let msg = overlay message (stack (drop 1 p.log)) in
              Served stack n (mq ∷ []) (table_after clients msg) (routes clients msg) p
        ])
        o (serve_chat-Triple n mq clients)
        λ message. record {
          ends = λ p h.
              (served n mq clients (overlay message (stack (drop 1 p.log)))
                  λ clients'. serve_chat-Triple n mq clients').ends
                p h;
        }

  -- The server's own queue is the first it opens, and no other descriptor is open when that fails.
  create_queue-Triple :
      {n : ℕ} {clients left : List Bytes} (queue : Bytes)
      → Does stack
          (Served stack n [] clients left)
          (λ fd. Served stack n (fd ∷ []) clients left)
          (open_or_give_up [] (create_queue queue))
  unfolding open_or_give_up give_up close_all exit
  create_queue-Triple {n = n} {clients = clients} {left = left} queue =
      open-Triple stack (create_queue queue)
        (λ l h. record { in_order = h.in_order; table_is = h.table_is; settled = tt })
      then_do λ o.
          option-Triple (λ x. Served stack n (opened_too x []) clients left) o
            (record { ends = λ p h. (h.open_ones, pending stack clients left p.log h.logged) })
            λ fd. record { ends = λ p h. h }

  server_main-Triple :
      (n : ℕ) → Does stack (Served stack n [] [] []) (λ _ p. ⊥) (server_main n stack)
  unfolding server_main
  server_main-Triple n = create_queue-Triple chat_queue then_do λ mq.
      print-Triple stack (started_text ++ newline) then_do λ _. serve_chat-Triple n mq []

-- Whatever the calls answer, when the server of the chat waits for its next message it has opened the clients'
-- queues that the messages it has received are for, in order and no others, and when it waits or leaves
-- elsewhere a front part of them: a message is for the queues of all clients; a client that joins while fewer
-- than ten have joined is added to them, and its own queue is opened once more; another that joins is for none.
-- The server never writes behind its table, leaves, unless a signal ends it, only by an exit with every
-- descriptor closed, and a bound on its rounds above the number of answers is enough.
pub server_main-Ensures :
    (n : ℕ) (stack : List Event → Bytes) (answers : List Answer)
    → length answers < n
    → Ensures
        (λ _ p. ⊥)
        (Clean (Routed stack))
        (Waits (Routed stack))
        (server_main n stack (start answers))
server_main-Ensures n stack answers h =
    (server_main-Triple stack n).ends (start answers)
      (start-Stage (record { in_order = refl; table_is = refl; settled = tt }) h)
