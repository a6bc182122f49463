-- ===== src/Sockets/Threads.antt =====
-- "16 work/socket work 2/multithreadServer.c", a server with a thread for each client, and client.c.
pub mod Echoes
use home_work.Base.{
  ℕ, zero, suc, List, [], ◌∷◌, Option, none, some, Bool, true, false, if◌then◌else◌, leb, length,
  take, ◌==◌, not,
}
use home_work.Libc.{Bytes}
use home_work.Posix.{
  Answer, Address, any_at, inet, stream, datagram, Call, socket, bind, connect, listen, recv, watch,
  accept, set_broadcast, join_group, select, epoll_create, epoll_wait, sleep, read_line,
  thread_create, Event, did, got, sent, shown, Process, Run, done, out_of_rounds, fault, Program,
  ◌>>=◌, ◌>>◌, pure, ask, open_with, succeeds, receive, close, close_all, show_text, exit, give_up,
  check, open_or_give_up,
}
use home_work.Sockets.{overlay, is_empty}
use home_work.Text.{until_nul}

-- `buffer` is the memory from the buffer on, the bytes behind its 1024 included: no read ends with a NUL, and a
-- text runs up to the first one. A failed `send` is ignored.
unfoldable pub handle_client : (rounds client : ℕ) (buffer : Bytes) → Program (Unit {0})
unfolding ask open_with succeeds receive close close_all exit give_up check open_or_give_up
    until_nul overlay
handle_client zero client buffer = out_of_rounds
handle_client (suc rounds) client buffer = do
  received ← receive 1024
  λ p. elim received [
    | none ↦ close client p
    | some message ↦
        (if is_empty message then close client else do
          show_text (until_nul (overlay message buffer))
          succeeds (sent (until_nul (overlay message buffer)))
          handle_client rounds client (overlay message buffer))
          p
  ]

-- The descriptor of a started thread is its own to close.
unfoldable pub accept_loop : (rounds : ℕ) → Program (Unit {0})
unfolding ask open_with succeeds receive close close_all exit give_up check open_or_give_up
    until_nul overlay
accept_loop zero = out_of_rounds
accept_loop (suc rounds) = do
  accepted ← open_with accept
  λ p. elim accepted [
    | none ↦ accept_loop rounds p
    | some client ↦
        (do
          ok ← succeeds (did thread_create)
          if ok then accept_loop rounds else (close client >> accept_loop rounds))
          p
  ]

unfoldable pub server_main : (rounds : ℕ) → Program (Unit {0})
unfolding ask open_with succeeds receive close close_all exit give_up check open_or_give_up
    until_nul overlay
server_main rounds = do
  server ← open_or_give_up [] (socket stream)
  check (server ∷ []) (did (bind (any_at 8080)))
  check (server ∷ []) (did (listen 10))
  accept_loop rounds
  close server
  exit 0

-- `fgets(message, 1024, stdin)`, whose result is not looked at: the newline stays.
unfoldable pub read_message : (message : Bytes) → Program Bytes
unfolding ask open_with succeeds receive close close_all exit give_up check open_or_give_up
    until_nul overlay
read_message message = do
  a ← ask (did read_line)
  pure (elim a.value [ none ↦ message | some n ↦ until_nul (take 1023 a.payload) ])

-- `if (bytes_received > 0)`
unfoldable pub show_reply : Option Bytes → Program (Unit {0})
unfolding until_nul
show_reply none = pure tt
show_reply (some reply) = if is_empty reply then pure tt else show_text (until_nul reply)

-- The loop of client.c: neither a failed `send` nor the end of the stream stops it.
unfoldable pub talk : (rounds : ℕ) (message : Bytes) → Program (Unit {0})
unfolding ask open_with succeeds receive close close_all exit give_up check open_or_give_up
    until_nul overlay read_message show_reply
talk zero message = out_of_rounds
talk (suc rounds) message = do
  line ← read_message message
  succeeds (sent line)
  received ← receive 1024
  show_reply received
  talk rounds line

-- A failed `connect` exits with the socket open.
unfoldable pub client_main : (rounds : ℕ) (message : Bytes) → Program (Unit {0})
unfolding ask open_with succeeds receive close close_all exit give_up check open_or_give_up
    until_nul overlay talk
client_main rounds message = do
  sock ← open_or_give_up [] (socket stream)
  ok ← succeeds (did (connect (inet 127 0 0 1 8080)))
  if ok then pure tt else exit 1
  talk rounds message
  close sock
  exit 0
