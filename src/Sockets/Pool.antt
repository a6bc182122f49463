-- ===== src/Sockets/Pool.antt =====
-- "16 work/socket work 2/poolServer.c": an echo server that waits for its clients with epoll. The payload
-- of the answer to `epoll_wait` is the list of the descriptors with an event, of which ten are taken.
pub mod Echoes
use home_work.Base.{ℕ, zero, suc, List, [], ◌∷◌, none, some, if◌then◌else◌, take, ◌==◌}
use home_work.Posix.{
  any_at, stream, socket, bind, listen, watch, accept, epoll_create, epoll_wait, did, sent, done,
  out_of_rounds, Program, ◌>>=◌, ◌>>◌, pure, ask, open_with, use_descriptor, succeeds, receive,
  close, close_all, exit, give_up, check, open_or_give_up,
}
use home_work.Sockets.{overlay, is_empty}
use home_work.Text.{until_nul}

-- `none` and the empty message end the client.
unfoldable pub echo : (client : ℕ) → Program (Unit {0})
unfolding ask open_with succeeds receive close close_all exit give_up check open_or_give_up
    until_nul overlay
echo client = do
  use_descriptor client
  received ← receive 1024
  λ p. elim received [
    | none ↦ close client p
    | some message ↦
        (if is_empty message
            then close client
            else (do use_descriptor client; succeeds (sent message); pure tt))
          p
  ]

-- A failed `accept` goes on to the next event.
unfoldable pub admit : Program (Unit {0})
unfolding ask open_with succeeds receive close close_all exit give_up check open_or_give_up
    until_nul overlay
admit = do
  accepted ← open_with accept
  λ p. elim accepted [
    | none ↦ done tt p
    | some client ↦ (do ok ← succeeds (did (watch client)); if ok then pure tt else close client) p
  ]

unfoldable pub handle_events : (server : ℕ) (ready : List ℕ) → Program (Unit {0})
unfolding ask open_with succeeds receive close close_all exit give_up check open_or_give_up
    until_nul overlay echo admit
handle_events server [] = pure tt
handle_events server (fd ∷ ready) = do
  if fd == server then admit else echo fd
  handle_events server ready

unfoldable pub event_loop : (rounds server : ℕ) → Program (Unit {0})
unfolding ask open_with succeeds receive close close_all exit give_up check open_or_give_up
    until_nul overlay handle_events
event_loop zero server = out_of_rounds
event_loop (suc rounds) server = do
  events ← ask (did epoll_wait)
  λ p. elim events.value [
    | none ↦ done tt p
    | some count ↦ (do handle_events server (take 10 events.payload); event_loop rounds server) p
  ]

-- 4096 is SOMAXCONN.
unfoldable pub server_main : (rounds : ℕ) → Program (Unit {0})
unfolding ask open_with succeeds receive close close_all exit give_up check open_or_give_up
    until_nul overlay event_loop
server_main rounds = do
  server ← open_or_give_up [] (socket stream)
  check (server ∷ []) (did (bind (any_at 5050)))
  check (server ∷ []) (did (listen 4096))
  epoll ← open_or_give_up (server ∷ []) epoll_create
  check (server ∷ epoll ∷ []) (did (watch server))
  event_loop rounds server
  close server
  close epoll
  exit 0
