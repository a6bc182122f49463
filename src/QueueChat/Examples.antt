-- ===== src/QueueChat/Examples.antt =====
-- Runs of the programs of "13 work/task2".
use home_work.Base.{◌≡◌, refl, List, [], ◌∷◌, none, some, arith}
use home_work.Libc.{Bytes, strn_eq}
use home_work.Text.{until_nul}
use home_work.Posix.{Answer, Event, start, open_queue, did, closed, done}
use home_work.Posix.Ensures.{Ensures, Clean, Waits}
use home_work.QueueChat.{join_text, message_of, handle, server_main, queue_of}
use home_work.QueueChat.Due.{Routed}
use home_work.QueueChat.Routes.{server_main-Ensures}
use home_work.QueueChat.Delivers.{
  Opened, returns, deliveries, delivered, successes, listed, announcement, queues, handle-join,
}
use home_work.QueueChat.Client.{receive_messages}
use home_work.QueueChat.Client.Shows.{Shown, receive_messages-Ensures}

-- "ann" and "bob", and "hi"
abbrev ann : Bytes
ann = 97 ∷ 110 ∷ 110 ∷ []

abbrev bob : Bytes
bob = 98 ∷ 111 ∷ 98 ∷ []

abbrev hi : Bytes
hi = 104 ∷ 105 ∷ []

abbrev carries : Bytes → Answer
carries message = record { value = some 288; payload = message }

abbrev fails : Answer
fails = record { value = none; payload = [] }

-- Ann joins, and the second opening of her queue fails; then she writes, and the reply to her is waited for.
abbrev ann_talks : List Answer
ann_talks =
    returns 3
    ∷ carries (message_of join_text ann)
    ∷ returns 4
    ∷ returns 0
    ∷ fails
    ∷ carries (message_of hi ann)
    ∷ returns 4
    ∷ []

abbrev no_bytes : List Event → Bytes
no_bytes log = []

server_main-Ensures_example :
    Ensures
      (λ _ p. ⊥)
      (Clean (Routed no_bytes))
      (Waits (Routed no_bytes))
      (server_main 8 no_bytes (start ann_talks))
server_main-Ensures_example = server_main-Ensures 8 no_bytes ann_talks (omega arith)

-- Ann has joined, and the message says that Bob joins.
abbrev bob_joins : Bytes
bob_joins = message_of join_text bob

abbrev with_ann : List Opened
with_ann = (queue_of ann, 4) ∷ []

abbrev with_both : List Opened
with_both = (queue_of ann, 4) ∷ (queue_of bob, 5) ∷ []

handle-join_example :
    handle (queues with_ann) bob_joins (record {
      answers = deliveries with_both (returns 6 ∷ successes (queues with_both) []);
      descriptors = 3 ∷ [];
      log = [];
    })
    ≡ done (queues with_both) (record {
      answers = [];
      descriptors = 3 ∷ [];
      log =
          announcement bob_joins
          ∷ closed 6
          ∷ listed
              (queues with_both)
              (did (open_queue (queue_of bob)) ∷ delivered with_both bob_joins []);
    })
unfolding strn_eq until_nul message_of
handle-join_example = handle-join with_ann 5 6 bob_joins [] (3 ∷ []) [] refl (omega arith)

-- Bob reads that Ann joins and writes, and not what he writes.
abbrev bob_reads : List Answer
bob_reads =
    carries (message_of join_text ann)
    ∷ carries (message_of hi bob)
    ∷ fails
    ∷ carries (message_of hi ann)
    ∷ []

receive_messages-Ensures_example :
    Ensures
      (λ _ p. ⊥)
      (Clean (Shown bob []))
      (Waits (Shown bob []))
      (receive_messages 5 bob [] (start bob_reads))
receive_messages-Ensures_example = receive_messages-Ensures 5 bob [] bob_reads (omega arith)
