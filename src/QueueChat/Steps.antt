-- ===== src/QueueChat/Steps.antt =====
-- What each step of the server of "13 work/task2" leaves due.
use home_work.Base.{ℕ, ◌≡◌, ap, List, [], ◌∷◌, ◌++◌, true, ltb, length, take}
use home_work.Libc.{Bytes}
use home_work.Posix.{
  Call, open_queue, Event, did, sent, Process, Program, ask, open_with, succeeds, close, show_text,
}
use home_work.Posix.Ensures.{Stage, Spends, none_of, Triple, ◌then_do◌}
use home_work.Posix.Rules.{
  ask-Triple, pure-Triple, close-Triple, option-Triple, show_text-Triple, opened_too, relax,
}
use home_work.QueueChat.{
  message_of, join_text, queue_of, name_of, joined_text, newline, broadcast_message, send_names,
  send_user_list_to_client, add_client, welcome,
}
use home_work.QueueChat.Due.{Pending, Routed, pending}

module _ (stack : List Event → Bytes) where
  abbrev pub Served : (n : ℕ) (ds : List ℕ) (clients left : List Bytes) → Process → Type 0
  Served n ds clients left = Stage (Pending stack clients left) n ds

  abbrev pub Does : {A : Type 0} → (Process → Type 0) → (A → Process → Type 0) → Program A → Type 0
  Does = Triple (Routed stack)

  -- A call that opens no queue.
  pub plain-Triple :
      {n m : ℕ} {ds : List ℕ} {clients left : List Bytes} (e : Event)
      → Spends n m
      → ((l : List Event) → Pending stack clients left l → Pending stack clients left (e ∷ l))
      → Does (Served n ds clients left) (λ _. Served m ds clients left) (ask e)
  plain-Triple {clients = clients} {left = left} e s logs =
      relax (pending stack clients left) (ask-Triple (Pending stack clients left) e s logs)

  pub send-Triple :
      {n : ℕ} {ds : List ℕ} {clients left : List Bytes} (message : Bytes)
      → Does (Served n ds clients left) (λ _. Served n ds clients left) (succeeds (sent message))
  unfolding succeeds
  send-Triple message =
      plain-Triple (sent message) none_of
        (λ l h. record { in_order = h.in_order; table_is = h.table_is; settled = tt })
      then_do λ a. pure-Triple (Routed stack) λ p h. h

  pub close_queue-Triple :
      {n fd : ℕ} {ds : List ℕ} {clients left : List Bytes}
      → Does (Served n (fd ∷ ds) clients left) (λ _. Served n ds clients left) (close fd)
  close_queue-Triple =
      close-Triple (Routed stack)
        λ l h. record { in_order = h.in_order; table_is = h.table_is; settled = tt }

  pub open-Triple :
      {n : ℕ} {ds : List ℕ} {clients left left' : List Bytes} (c : Call)
      → ((l : List Event) → Pending stack clients left l → Pending stack clients left' (did c ∷ l))
      → Does
          (Served n ds clients left)
          (λ o. Served n (opened_too o ds) clients left')
          (open_with c)
  unfolding open_with
  open-Triple {n = n} {ds = ds} {clients = clients} {left' = left'} c logs =
      relax (pending stack clients left')
        (ask-Triple (Pending stack clients left') (did c) none_of logs)
      then_do λ a.
          option-Triple (λ _. Served n ds clients left') a.value (record { ends = λ p h. h })
            λ fd. record {
              ends = λ p h. record {
                open_ones = ap (◌∷◌ fd) h.open_ones;
                logged = h.logged;
                fuelled = h.fuelled;
              };
            }

  pub open_queue-Triple :
      {n : ℕ} {ds : List ℕ} {clients left : List Bytes} (queue : Bytes)
      → Does
          (Served n ds clients (queue ∷ left))
          (λ o. Served n (opened_too o ds) clients left)
          (open_with (open_queue queue))
  open_queue-Triple queue =
      open-Triple (open_queue queue)
        λ l h. record { in_order = h.in_order; table_is = h.table_is; settled = tt }

  pub print-Triple :
      {n : ℕ} {ds : List ℕ} {clients left : List Bytes} (text : Bytes)
      → Does (Served n ds clients left) (λ _. Served n ds clients left) (show_text text)
  print-Triple text =
      show_text-Triple (Routed stack) text
        λ l h. record { in_order = h.in_order; table_is = h.table_is; settled = tt }

  -- The first of the queues that are due are `clients`, and they are opened.
  pub broadcast_message-Triple :
      {n : ℕ} {ds : List ℕ} {known : List Bytes} (clients left : List Bytes) (msg : Bytes)
      → Does
          (Served n ds known (clients ++ left))
          (λ _. Served n ds known left)
          (broadcast_message clients msg)
  unfolding broadcast_message
  broadcast_message-Triple [] left msg = pure-Triple (Routed stack) λ p h. h
  broadcast_message-Triple {n = n} {ds = ds} {known = known} (queue ∷ clients) left msg =
      open_queue-Triple queue then_do λ o.
      option-Triple (λ x. Served n (opened_too x ds) known (clients ++ left)) o
        (broadcast_message-Triple clients left msg)
        λ fd. send-Triple (take 288 msg) then_do λ _.
          close_queue-Triple then_do λ _. broadcast_message-Triple clients left msg

  send_names-Triple :
      {n : ℕ} {ds : List ℕ} {known left : List Bytes} (clients : List Bytes)
      → Does (Served n ds known left) (λ _. Served n ds known left) (send_names clients)
  unfolding send_names
  send_names-Triple [] = pure-Triple (Routed stack) λ p h. h
  send_names-Triple (queue ∷ clients) =
      send-Triple (message_of join_text queue) then_do λ _. send_names-Triple clients

  pub send_user_list_to_client-Triple :
      {n : ℕ} {ds : List ℕ} {known left : List Bytes} (queue : Bytes) (clients : List Bytes)
      → Does
          (Served n ds known (queue ∷ left))
          (λ _. Served n ds known left)
          (send_user_list_to_client queue clients)
  unfolding send_user_list_to_client
  send_user_list_to_client-Triple {n = n} {ds = ds} {known = known} {left = left} queue clients =
      open_queue-Triple queue then_do λ o.
      option-Triple (λ x. Served n (opened_too x ds) known left) o
        (pure-Triple (Routed stack) λ p h. h)
        λ fd. send_names-Triple clients then_do λ _. close_queue-Triple

  -- A write behind the table ends the run, so that a client is added where there is room.
  add_client-Triple :
      {n : ℕ} {ds : List ℕ} (queue : Bytes) (clients : List Bytes)
      → ltb (length clients) 10 ≡ true
      → let joined = clients ++ (queue ∷ []) in
        Does
          (Served n ds joined (joined ++ (queue ∷ [])))
          (λ c. Served n ds c (c ++ (queue ∷ [])))
          (add_client queue clients)
  unfolding add_client
  add_client-Triple queue clients room = record { ends = λ p h. rw room h }

  pub welcome-Triple :
      {n : ℕ} {ds : List ℕ} (clients : List Bytes) (msg : Bytes)
      → ltb (length clients) 10 ≡ true
      → let joined = clients ++ (queue_of (name_of msg) ∷ []) in
        Does
          (Served n ds joined (joined ++ (queue_of (name_of msg) ∷ [])))
          (λ c. Served n ds c [])
          (welcome clients msg)
  unfolding welcome
  welcome-Triple clients msg room =
      let queue = queue_of (name_of msg) in
      add_client-Triple queue clients room then_do λ joined.
      broadcast_message-Triple joined (queue ∷ []) msg then_do λ _.
      send_user_list_to_client-Triple queue joined then_do λ _.
      print-Triple (take 255 (name_of msg ++ joined_text) ++ newline) then_do λ _.
      pure-Triple (Routed stack) λ p h. h
