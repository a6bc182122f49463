-- ===== src/Sockets/Raw.antt =====
-- "16 work/socket work 4/rawServer.c": the datagram server of the raw clients, which also prints where a
-- message came from.
pub mod Answers
use home_work.Base.{
  ℕ, zero, suc, List, [], ◌∷◌, Option, none, some, Bool, true, false, if◌then◌else◌, leb, length,
  take, ◌==◌, not,
}
use home_work.Libc.{Bytes}
use home_work.Posix.{
  Address, any_at, inet, local_path, Transport, stream, datagram, Call, socket, bind, connect,
  unlink, listen, recv, accept, getsockname, getpeername, select, sleep, read_line, Event, did, got,
  sent, shown, Process, Run, done, out_of_rounds, fault, Program, ◌>>=◌, ◌>>◌, pure, ask, open_with,
  succeeds, receive, close, close_all, show_text, exit, give_up, check, open_or_give_up,
}
use home_work.Sockets.{print_address, reverse_buffer, type_line}
use home_work.Text.{until_nul}

abbrev pub print_socket_address : Program (Unit {0})
print_socket_address = print_address getsockname

-- `source` gives the text of the sender's address, by the number of rounds left.
unfoldable pub serve : (source : ℕ → Bytes) (rounds server : ℕ) → Program (Unit {0})
unfolding ask open_with succeeds receive close close_all exit give_up check open_or_give_up
    until_nul print_address reverse_buffer type_line
serve source zero server = out_of_rounds
serve source (suc rounds) server = do
  received ← receive 1023
  λ p. elim received [
    | none ↦ give_up (server ∷ []) p
    | some message ↦
        (do
          show_text (until_nul message)
          show_text (source rounds)
          reply ← reverse_buffer (until_nul message)
          check (server ∷ []) (sent reply)
          serve source rounds server)
          p
  ]

unfoldable pub server_main : (source : ℕ → Bytes) (rounds : ℕ) → Program (Unit {0})
unfolding ask open_with succeeds receive close close_all exit give_up check open_or_give_up
    until_nul print_address reverse_buffer type_line
server_main source rounds = do
  server ← open_or_give_up [] (socket datagram)
  check (server ∷ []) (did (bind (any_at 12342)))
  print_socket_address
  serve source rounds server
  close server
  exit 0
