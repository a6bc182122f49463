-- ===== src/Sockets/UdpInet.antt =====
-- "16 work/socket work 1/udp_inet": a server that sends every datagram back reversed, and its client.
pub mod Answers
pub mod Client
pub mod Serves
use home_work.Base.{
  ℕ, zero, suc, List, [], ◌∷◌, Option, none, some, Bool, true, false, if◌then◌else◌, leb, length,
  take, ◌==◌, not,
}
use home_work.Libc.{Bytes}
use home_work.Posix.{
  Address, any_at, inet, local_path, Transport, stream, datagram, Call, socket, bind, connect,
  unlink, listen, recv, accept, getsockname, getpeername, select, sleep, read_line, Event, did, got,
  sent, shown, Process, Run, done, out_of_rounds, fault, Program, ◌>>=◌, ◌>>◌, pure, ask, open_with,
  succeeds, receive, close, close_all, show_text, exit, give_up, check, open_or_give_up,
}
use home_work.Sockets.{print_address, reverse_message, type_line}
use home_work.Text.{until_nul}

abbrev pub print_socket_address : Program (Unit {0})
print_socket_address = print_address getsockname

-- `none` is a failed `recvfrom`.
unfoldable pub serve : (rounds server : ℕ) → Program (Unit {0})
unfolding ask open_with succeeds receive close close_all exit give_up check open_or_give_up
    until_nul print_address reverse_message type_line
serve zero server = out_of_rounds
serve (suc rounds) server = do
  received ← receive 1023
  λ p. elim received [
    | none ↦ give_up (server ∷ []) p
    | some message ↦
        (do reply ← reverse_message message; check (server ∷ []) (sent reply); serve rounds server)
          p
  ]

unfoldable pub server_main : (rounds : ℕ) → Program (Unit {0})
unfolding ask open_with succeeds receive close close_all exit give_up check open_or_give_up
    until_nul print_address reverse_message type_line
server_main rounds = do
  server ← open_or_give_up [] (socket datagram)
  check (server ∷ []) (did (bind (any_at 12345)))
  print_socket_address
  serve rounds server
  close server
  exit 0

-- `buffer` is the string in the client's buffer.
unfoldable pub talk : (rounds client : ℕ) (buffer : Bytes) → Program (Unit {0})
unfolding ask open_with succeeds receive close close_all exit give_up check open_or_give_up
    until_nul print_address reverse_message type_line
talk zero client buffer = out_of_rounds
talk (suc rounds) client buffer = do
  line ← type_line buffer
  check (client ∷ []) (sent line)
  received ← receive 1023
  λ p. elim received [
    | none ↦ give_up (client ∷ []) p
    | some message ↦ (do show_text (until_nul message); talk rounds client (until_nul message)) p
  ]

unfoldable pub client_main : (rounds : ℕ) (buffer : Bytes) → Program (Unit {0})
unfolding ask open_with succeeds receive close close_all exit give_up check open_or_give_up
    until_nul print_address reverse_message type_line
client_main rounds buffer = do
  client ← open_or_give_up [] (socket datagram)
  check (client ∷ []) (did (bind (any_at 12346)))
  print_socket_address
  talk rounds client buffer
  close client
  exit 0
