-- ===== src/Sockets/UdpLocal.antt =====
-- "16 work/socket work 1/udp_local": the same over AF_LOCAL. The loops are the text of udp_inet.
pub mod Answers
pub mod Client
use home_work.Base.{
  ℕ, zero, suc, List, [], ◌∷◌, Option, none, some, Bool, true, false, if◌then◌else◌, leb, length,
  take, ◌==◌, not,
}
use home_work.Libc.{Bytes}
use home_work.Posix.{
  Address, any_at, inet, local_path, Transport, stream, datagram, Call, socket, bind, connect,
  unlink, listen, recv, accept, getsockname, getpeername, select, sleep, read_line, Event, did, got,
  sent, shown, Process, Run, done, out_of_rounds, fault, Program, ◌>>=◌, ◌>>◌, pure, ask, open_with,
  succeeds, receive, close, close_all, show_text, exit, give_up, check, open_or_give_up,
}
use home_work.Sockets.{print_address, reverse_message, type_line}
use home_work.Text.{until_nul}
use home_work.Sockets.UdpInet.{serve, talk}

abbrev pub print_socket_address : Program (Unit {0})
print_socket_address = print_address getsockname

-- "/tmp/udp_local_socket"
abbrev pub socket_path : Address
socket_path = local_path (
    47 ∷ 116 ∷ 109 ∷ 112 ∷ 47 ∷ 117 ∷ 100 ∷ 112 ∷ 95 ∷ 108 ∷ 111 ∷ 99 ∷ 97 ∷ 108 ∷ 95 ∷ 115 ∷ 111
    ∷ 99 ∷ 107 ∷ 101 ∷ 116 ∷ [])

-- "/tmp/udp_local_client_socket"
abbrev pub client_socket_path : Address
client_socket_path = local_path (
    47 ∷ 116 ∷ 109 ∷ 112 ∷ 47 ∷ 117 ∷ 100 ∷ 112 ∷ 95 ∷ 108 ∷ 111 ∷ 99 ∷ 97 ∷ 108 ∷ 95 ∷ 99 ∷ 108
    ∷ 105 ∷ 101 ∷ 110 ∷ 116 ∷ 95 ∷ 115 ∷ 111 ∷ 99 ∷ 107 ∷ 101 ∷ 116 ∷ [])

unfoldable pub server_main : (rounds : ℕ) → Program (Unit {0})
unfolding ask open_with succeeds receive close close_all exit give_up check open_or_give_up
    until_nul print_address reverse_message type_line serve
server_main rounds = do
  server ← open_or_give_up [] (socket datagram)
  check (server ∷ []) (did (bind socket_path))
  print_socket_address
  serve rounds server
  close server
  ask (did (unlink socket_path))
  exit 0

unfoldable pub client_main : (rounds : ℕ) (buffer : Bytes) → Program (Unit {0})
unfolding ask open_with succeeds receive close close_all exit give_up check open_or_give_up
    until_nul print_address reverse_message type_line talk
client_main rounds buffer = do
  client ← open_or_give_up [] (socket datagram)
  check (client ∷ []) (did (bind client_socket_path))
  print_socket_address
  talk rounds client buffer
  close client
  ask (did (unlink client_socket_path))
  exit 0
