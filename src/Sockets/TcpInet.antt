-- ===== src/Sockets/TcpInet.antt =====
-- "16 work/socket work 1/tcp_inet": a server that sends every message back reversed, and its client.
-- The loops take a bound on their rounds; each round makes a call that takes an answer.
pub mod Answers
pub mod Client
pub mod Serves
use home_work.Base.{
  ℕ, zero, suc, List, [], ◌∷◌, Option, none, some, Bool, true, false, if◌then◌else◌, leb, length,
  take, ◌==◌, not,
}
use home_work.Libc.{Bytes}
use home_work.Posix.{
  Address, any_at, inet, local_path, Transport, stream, datagram, Call, socket, bind, connect,
  unlink, listen, recv, accept, getsockname, getpeername, select, sleep, read_line, Event, did, got,
  sent, shown, Process, Run, done, out_of_rounds, fault, Program, ◌>>=◌, ◌>>◌, pure, ask, open_with,
  succeeds, receive, close, close_all, show_text, exit, give_up, check, open_or_give_up,
}
use home_work.Sockets.{is_empty, print_address, reverse_message, type_line}
use home_work.Text.{until_nul}

abbrev pub print_socket_address : Program (Unit {0})
print_socket_address = print_address getsockname

-- The inner loop of `main`: the messages of one client.
unfoldable pub serve_client : (rounds : ℕ) → Program (Unit {0})
unfolding ask open_with succeeds receive close close_all exit give_up check open_or_give_up
    until_nul print_address reverse_message type_line
serve_client zero = out_of_rounds
serve_client (suc rounds) = do
  received ← receive 1023
  λ p. elim received [
    | none ↦ done tt p
    | some message ↦
        (if is_empty message then pure tt else do
          reply ← reverse_message message
          ok ← succeeds (sent reply)
          if ok then serve_client rounds else pure tt)
          p
  ]

unfoldable pub accept_loop : (rounds server : ℕ) → Program (Unit {0})
unfolding ask open_with succeeds receive close close_all exit give_up check open_or_give_up
    until_nul print_address reverse_message type_line
accept_loop zero server = out_of_rounds
accept_loop (suc rounds) server = do
  client ← open_or_give_up (server ∷ []) accept
  serve_client rounds
  close client
  accept_loop rounds server

unfoldable pub server_main : (rounds : ℕ) → Program (Unit {0})
unfolding ask open_with succeeds receive close close_all exit give_up check open_or_give_up
    until_nul print_address reverse_message type_line
server_main rounds = do
  server ← open_or_give_up [] (socket stream)
  check (server ∷ []) (did (bind (any_at 12345)))
  print_socket_address
  check (server ∷ []) (did (listen 5))
  accept_loop rounds server
  close server
  exit 0

-- `buffer` is the string in the client's buffer.
unfoldable pub talk : (rounds : ℕ) (buffer : Bytes) → Program (Unit {0})
unfolding ask open_with succeeds receive close close_all exit give_up check open_or_give_up
    until_nul print_address reverse_message type_line
talk zero buffer = out_of_rounds
talk (suc rounds) buffer = do
  line ← type_line buffer
  ok ← succeeds (sent line)
  if not ok then pure tt else do
    received ← receive 1023
    λ p. elim received [
      | none ↦ done tt p
      | some message ↦
          (if is_empty message
              then pure tt
              else do show_text (until_nul message); talk rounds (until_nul message))
            p
    ]

unfoldable pub client_main : (rounds : ℕ) (buffer : Bytes) → Program (Unit {0})
unfolding ask open_with succeeds receive close close_all exit give_up check open_or_give_up
    until_nul print_address reverse_message type_line
client_main rounds buffer = do
  client ← open_or_give_up [] (socket stream)
  check (client ∷ []) (did (connect (inet 127 0 0 1 12345)))
  print_socket_address
  talk rounds buffer
  close client
  exit 0
