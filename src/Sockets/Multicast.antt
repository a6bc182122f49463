-- ===== src/Sockets/Multicast.antt =====
-- "16 work/socket work 3/multicast_server.c" and multicast_client.c.
pub mod Listens
use home_work.Base.{
  ℕ, zero, suc, List, [], ◌∷◌, Option, none, some, Bool, true, false, if◌then◌else◌, leb, length,
  take, ◌==◌, not,
}
use home_work.Libc.{Bytes}
use home_work.Posix.{
  Answer, Address, any_at, inet, stream, datagram, Call, socket, bind, connect, listen, recv, watch,
  accept, set_broadcast, join_group, select, epoll_create, epoll_wait, sleep, read_line,
  thread_create, Event, did, got, sent, shown, Process, Run, done, out_of_rounds, fault, Program,
  ◌>>=◌, ◌>>◌, pure, ask, open_with, succeeds, receive, close, close_all, show_text, exit, give_up,
  check, open_or_give_up,
}
use home_work.Sockets.{overlay, is_empty}
use home_work.Text.{until_nul}
use home_work.Sockets.Broadcast.{listen_loop}

-- "Multicast message!!!"
abbrev pub multicast_message : Bytes
multicast_message =
    77 ∷ 117 ∷ 108 ∷ 116 ∷ 105 ∷ 99 ∷ 97 ∷ 115 ∷ 116 ∷ 32 ∷ 109 ∷ 101 ∷ 115 ∷ 115 ∷ 97 ∷ 103 ∷ 101
    ∷ 33 ∷ 33 ∷ 33 ∷ []

-- A failed `sendto` exits with the socket open.
unfoldable pub server_main : Program (Unit {0})
unfolding ask open_with succeeds receive close close_all exit give_up check open_or_give_up
    until_nul overlay
server_main = do
  sock ← open_or_give_up [] (socket datagram)
  ok ← succeeds (sent multicast_message)
  if ok then close sock >> exit 0 else exit 1

-- The loop is the text of broadcast_client.c.
unfoldable pub client_main : (rounds : ℕ) (buffer : Bytes) → Program (Unit {0})
unfolding ask open_with succeeds receive close close_all exit give_up check open_or_give_up
    until_nul overlay listen_loop
client_main rounds buffer = do
  sock ← open_or_give_up [] (socket datagram)
  check (sock ∷ []) (did (bind (any_at 8080)))
  check (sock ∷ []) (did join_group)
  listen_loop rounds sock buffer
  close sock
  exit 0
