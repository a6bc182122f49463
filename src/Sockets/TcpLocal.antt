-- ===== src/Sockets/TcpLocal.antt =====
-- "16 work/socket work 1/tcp_local": a server that sends every message of one client back reversed, and
-- its client.
pub mod Answers
pub mod Client
use home_work.Base.{
  ℕ, zero, suc, List, [], ◌∷◌, Option, none, some, Bool, true, false, if◌then◌else◌, leb, length,
  take, ◌==◌, not,
}
use home_work.Libc.{Bytes}
use home_work.Posix.{
  Address, any_at, inet, local_path, Transport, stream, datagram, Call, socket, bind, connect,
  unlink, listen, recv, accept, getsockname, getpeername, select, sleep, read_line, Event, did, got,
  sent, shown, Process, Run, done, out_of_rounds, fault, Program, ◌>>=◌, ◌>>◌, pure, ask, open_with,
  succeeds, receive, close, close_all, show_text, exit, give_up, check, open_or_give_up,
}
use home_work.Sockets.{is_empty, print_address, reverse_message, type_line}
use home_work.Text.{until_nul}

abbrev pub print_socket_info : Program (Unit {0})
print_socket_info = print_address getsockname

abbrev pub print_peer_info : Program (Unit {0})
print_peer_info = print_address getpeername

-- "/tmp/tcp_local_socket10"
abbrev pub socket_path : Address
socket_path = local_path (
    47 ∷ 116 ∷ 109 ∷ 112 ∷ 47 ∷ 116 ∷ 99 ∷ 112 ∷ 95 ∷ 108 ∷ 111 ∷ 99 ∷ 97 ∷ 108 ∷ 95 ∷ 115 ∷ 111
    ∷ 99 ∷ 107 ∷ 101 ∷ 116 ∷ 49 ∷ 48 ∷ [])

unfoldable pub serve : (rounds server client : ℕ) → Program (Unit {0})
unfolding ask open_with succeeds receive close close_all exit give_up check open_or_give_up
    until_nul print_address reverse_message type_line
serve zero server client = out_of_rounds
serve (suc rounds) server client = do
  received ← receive 1023
  λ p. elim received [
    | none ↦ give_up (client ∷ server ∷ []) p
    | some message ↦
        (if is_empty message then pure tt else do
          reply ← reverse_message message
          check (client ∷ server ∷ []) (sent reply)
          serve rounds server client)
          p
  ]

unfoldable pub server_main : (rounds : ℕ) → Program (Unit {0})
unfolding ask open_with succeeds receive close close_all exit give_up check open_or_give_up
    until_nul print_address reverse_message type_line
server_main rounds = do
  server ← open_or_give_up [] (socket stream)
  check (server ∷ []) (did (bind socket_path))
  print_socket_info
  check (server ∷ []) (did (listen 3))
  client ← open_or_give_up (server ∷ []) accept
  serve rounds server client
  close client
  close server
  ask (did (unlink socket_path))
  exit 0

-- `buffer` is the string in the client's buffer.
unfoldable pub talk : (rounds client : ℕ) (buffer : Bytes) → Program (Unit {0})
unfolding ask open_with succeeds receive close close_all exit give_up check open_or_give_up
    until_nul print_address reverse_message type_line
talk zero client buffer = out_of_rounds
talk (suc rounds) client buffer = do
  line ← type_line buffer
  check (client ∷ []) (sent line)
  received ← receive 1023
  λ p. elim received [
    | none ↦ give_up (client ∷ []) p
    | some message ↦ (do show_text (until_nul message); talk rounds client (until_nul message)) p
  ]

unfoldable pub client_main : (rounds : ℕ) (buffer : Bytes) → Program (Unit {0})
unfolding ask open_with succeeds receive close close_all exit give_up check open_or_give_up
    until_nul print_address reverse_message type_line
client_main rounds buffer = do
  client ← open_or_give_up [] (socket stream)
  check (client ∷ []) (did (connect socket_path))
  print_peer_info
  talk rounds client buffer
  close client
  exit 0
