-- ===== src/Sockets/Runs.antt =====
-- Runs of the programs of "16 work/socket work 2" and "16 work/socket work 3" on concrete answers.
use home_work.Base.{◌≡◌, refl, List, [], ◌∷◌, ◌++◌, some, arith}
use home_work.Libc.{Bytes}
use home_work.Posix.{
  Answer, start, ask, open_with, succeeds, receive, close, close_all, exit, give_up, check,
  open_or_give_up,
}
use home_work.Posix.Ensures.{Ensures, Stage, Clean, Waits}
use home_work.Text.{until_nul}
use home_work.Sockets.{overlay}
use home_work.Sockets.Broadcast
use home_work.Sockets.Multicast
use home_work.Sockets.Multiplex
use home_work.Sockets.Pool
use home_work.Sockets.Pool.Echoes.{Echoed, event_loop-Ensures}
use home_work.Sockets.Threads
use home_work.Sockets.Broadcast.{broadcast_message}
use home_work.Sockets.Broadcast.Sends.{SendsOnly, IsSilent}
use home_work.Sockets.Clients.{OnlyListens, broadcasts-Ensures}
use home_work.Sockets.Multiplex.Closes.{multiplex-Ensures}
use home_work.Sockets.Threads.Echoes.{Echoes, thread-Echoes}
use home_work.Posix.{blocked, done, did, got, recv}
use home_work.Sockets.UdpInet.{serve}
use home_work.Sockets.TcpInet.{serve_client}
use home_work.Sockets.UdpInet.Serves.{exchanges, exchanged}
use home_work.Sockets.TcpInet.Serves.{whole, end_of_stream}
use home_work.Sockets.Exchanges.{both_exchanges}
use home_work.Sockets.Examples.{ok, refused, message, sent_by}

-- A socket, its option, two datagrams with a pause, and a failed third one.
abbrev broadcasts : List Answer
broadcasts = ok 3 ∷ ok 0 ∷ ok 20 ∷ ok 0 ∷ ok 20 ∷ ok 0 ∷ refused ∷ []

-- A socket, two calls that set it up, and two datagrams.
abbrev heard : List Answer
heard = ok 3 ∷ ok 0 ∷ ok 0 ∷ message (97 ∷ 98 ∷ 99 ∷ []) ∷ message (100 ∷ []) ∷ refused ∷ []

-- Two sockets, of which the stream socket, 3, is ready with a client, and then both fail.
abbrev selected : List Answer
selected =
    ok 3 ∷ ok 0 ∷ ok 0 ∷ ok 4 ∷ ok 0 ∷ message (3 ∷ []) ∷ ok 5 ∷ message (97 ∷ []) ∷ refused ∷ []

-- A server, 3, with epoll, 4; a client, 5, connects, sends "abc" and leaves.
abbrev pooled : List Answer
pooled =
    ok 3
    ∷ ok 0
    ∷ ok 0
    ∷ ok 4
    ∷ ok 0
    ∷ message (3 ∷ [])
    ∷ ok 5
    ∷ ok 0
    ∷ message (5 ∷ [])
    ∷ message (97 ∷ 98 ∷ 99 ∷ [])
    ∷ ok 3
    ∷ message (5 ∷ [])
    ∷ message []
    ∷ refused
    ∷ []

pool_echoes : sent_by (Pool.server_main 15 (start pooled)) ≡ some ((97 ∷ 98 ∷ 99 ∷ []) ∷ [])
unfolding Pool.server_main Pool.event_loop Pool.handle_events Pool.admit Pool.echo ask open_with
    succeeds receive close close_all exit give_up check open_or_give_up
pool_echoes = refl

multicast_sends :
    sent_by (Multicast.server_main (start (ok 3 ∷ ok 20 ∷ [])))
    ≡ some (Multicast.multicast_message ∷ [])
unfolding Multicast.server_main ask open_with succeeds receive close close_all exit give_up check
    open_or_give_up
multicast_sends = refl

multiplex-Ensures_example :
    Ensures
      (λ _ p. ⊥)
      (Clean IsSilent)
      (Waits IsSilent)
      (Multiplex.server_main (λ log. []) 10 (start selected))
multiplex-Ensures_example = multiplex-Ensures (λ log. []) 10 selected (omega arith)

-- "d" after "abc" is taken for "dbc".
stale : until_nul (overlay (100 ∷ []) (97 ∷ 98 ∷ 99 ∷ 0 ∷ [])) ≡ 100 ∷ 98 ∷ 99 ∷ []
unfolding until_nul overlay
stale = refl

abbrev two_messages : List Bytes
two_messages = (97 ∷ 98 ∷ []) ∷ [] ∷ []

-- The server, 3, admits client 5, whose "abc" it sends back, and whose end it sees.
abbrev polled : List Answer
polled =
    message (3 ∷ [])
    ∷ ok 5
    ∷ ok 0
    ∷ message (5 ∷ [])
    ∷ message (97 ∷ 98 ∷ 99 ∷ [])
    ∷ ok 3
    ∷ message (5 ∷ [])
    ∷ message []
    ∷ refused
    ∷ []

event_loop-Ensures_example :
    Ensures
      (λ _ p. Echoed p.log)
      (Clean Echoed)
      (Waits Echoed)
      (Pool.event_loop 15 3 (record { answers = polled; descriptors = 4 ∷ 3 ∷ []; log = [] }))
event_loop-Ensures_example = event_loop-Ensures 15 3 polled (4 ∷ 3 ∷ []) (omega arith)

broadcasts-Ensures_example :
    Ensures
      (λ _ p. ⊥)
      (Clean (SendsOnly broadcast_message))
      (Waits (SendsOnly broadcast_message))
      (Broadcast.server_main 8 (start broadcasts))
    × OnlyListens (Broadcast.client_main 8 []) broadcasts
    × OnlyListens (Multicast.client_main 8 []) broadcasts
broadcasts-Ensures_example = broadcasts-Ensures 8 [] broadcasts (omega arith)

both_exchanges_example :
    (serve 3 3 (record { answers = exchanges two_messages; descriptors = 3 ∷ []; log = [] })
      ≡ blocked (record {
        answers = [];
        descriptors = 3 ∷ [];
        log = did (recv 1023) ∷ exchanged two_messages [];
      }))
    × (serve_client 3 (record {
      answers = exchanges (whole (97, 98 ∷ []) ∷ []) ++ (end_of_stream ∷ []);
      descriptors = 3 ∷ [];
      log = [];
    })
        ≡ done tt (record {
          answers = [];
          descriptors = 3 ∷ [];
          log = got [] ∷ did (recv 1023) ∷ exchanged (whole (97, 98 ∷ []) ∷ []) [];
        }))
both_exchanges_example =
    both_exchanges 3 3 two_messages ((97, 98 ∷ []) ∷ []) (3 ∷ []) [] (omega arith) (omega arith)

abbrev stale_buffer : Bytes
stale_buffer = 97 ∷ 98 ∷ 99 ∷ 0 ∷ []

thread-Echoes_example :
    Ensures
      (λ _. Stage (Echoes stale_buffer) 4 [])
      (Clean (Echoes stale_buffer))
      (Waits (Echoes stale_buffer))
      (Threads.handle_client 4 5 stale_buffer (record {
        answers = message (97 ∷ []) ∷ ok 1 ∷ refused ∷ [];
        descriptors = 5 ∷ [];
        log = [];
      }))
thread-Echoes_example =
    thread-Echoes 4 5 stale_buffer (message (97 ∷ []) ∷ ok 1 ∷ refused ∷ []) (omega arith)
