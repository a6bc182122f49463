-- ===== src/Sockets/Broadcast.antt =====
-- "16 work/socket work 3/broadcast_server.c" and broadcast_client.c.
pub mod Sends
use home_work.Base.{
  ℕ, zero, suc, List, [], ◌∷◌, Option, none, some, Bool, true, false, if◌then◌else◌, leb, length,
  take, ◌==◌, not,
}
use home_work.Libc.{Bytes}
use home_work.Posix.{
  Answer, Address, any_at, inet, stream, datagram, Call, socket, bind, connect, listen, recv, watch,
  accept, set_broadcast, join_group, select, epoll_create, epoll_wait, sleep, read_line,
  thread_create, Event, did, got, sent, shown, Process, Run, done, out_of_rounds, fault, Program,
  ◌>>=◌, ◌>>◌, pure, ask, open_with, succeeds, receive, close, close_all, show_text, exit, give_up,
  check, open_or_give_up,
}
use home_work.Sockets.{overlay, is_empty}
use home_work.Text.{until_nul}

-- "BROADCAST MESSAGE!!!"
abbrev pub broadcast_message : Bytes
broadcast_message =
    66 ∷ 82 ∷ 79 ∷ 65 ∷ 68 ∷ 67 ∷ 65 ∷ 83 ∷ 84 ∷ 32 ∷ 77 ∷ 69 ∷ 83 ∷ 83 ∷ 65 ∷ 71 ∷ 69 ∷ 33 ∷ 33
    ∷ 33 ∷ []

unfoldable pub send_loop : (rounds sock : ℕ) → Program (Unit {0})
unfolding ask open_with succeeds receive close close_all exit give_up check open_or_give_up
    until_nul overlay
send_loop zero sock = out_of_rounds
send_loop (suc rounds) sock = do
  check (sock ∷ []) (sent broadcast_message)
  show_text broadcast_message
  ask (did sleep)
  send_loop rounds sock

unfoldable pub server_main : (rounds : ℕ) → Program (Unit {0})
unfolding ask open_with succeeds receive close close_all exit give_up check open_or_give_up
    until_nul overlay
server_main rounds = do
  sock ← open_or_give_up [] (socket datagram)
  check (sock ∷ []) (did set_broadcast)
  send_loop rounds sock
  close sock
  exit 0

-- `buffer` is the content of the buffer, which no read ends with a NUL.
unfoldable pub listen_loop : (rounds sock : ℕ) (buffer : Bytes) → Program (Unit {0})
unfolding ask open_with succeeds receive close close_all exit give_up check open_or_give_up
    until_nul overlay
listen_loop zero sock buffer = out_of_rounds
listen_loop (suc rounds) sock buffer = do
  received ← receive 1024
  λ p. elim received [
    | none ↦ give_up (sock ∷ []) p
    | some message ↦
        (do
          show_text (until_nul (overlay message buffer))
          listen_loop rounds sock (overlay message buffer))
          p
  ]

unfoldable pub client_main : (rounds : ℕ) (buffer : Bytes) → Program (Unit {0})
unfolding ask open_with succeeds receive close close_all exit give_up check open_or_give_up
    until_nul overlay
client_main rounds buffer = do
  sock ← open_or_give_up [] (socket datagram)
  check (sock ∷ []) (did (bind (any_at 9090)))
  listen_loop rounds sock buffer
  close sock
  exit 0
