-- ===== src/Sockets.antt =====
-- What the socket programs of "16 work" share. Messages with a fixed text and `perror` are left out.
mod Examples
mod Runs
pub mod Lines
pub mod Clients
pub mod Servers
pub mod Exchanges
pub mod Messages
pub mod Broadcast
pub mod Multicast
pub mod Multiplex
pub mod Pool
pub mod Threads
pub mod TcpInet
pub mod TcpLocal
pub mod UdpInet
pub mod UdpLocal
pub mod Raw
use home_work.Base.{
  ◌++◌, drop, ℕ, zero, suc, List, [], ◌∷◌, Option, none, some, Bool, true, false, if◌then◌else◌,
  leb, length, take, ◌==◌, not,
}
use home_work.Libc.{Bytes}
use home_work.Posix.{
  Address, any_at, inet, local_path, Transport, stream, datagram, Call, socket, bind, connect,
  unlink, listen, recv, accept, getsockname, getpeername, select, sleep, read_line, Event, did, got,
  sent, shown, Process, Run, done, out_of_rounds, fault, Program, ◌>>=◌, ◌>>◌, pure, ask, open_with,
  succeeds, receive, close, close_all, show_text, exit, give_up, check, open_or_give_up,
}
use home_work.Text.{reverse_string, until_nul}

-- `print_socket_address`, `print_socket_info` and `print_peer_info`: the address is the call's answer.
unfoldable pub print_address : Call → Program (Unit {0})
unfolding ask
print_address c = do
  a ← ask (did c)
  λ p. elim a.value [ none ↦ done tt p | some n ↦ show_text a.payload p ]

-- `reverse_string(buffer)`, where an access out of range ends the run.
unfoldable pub reverse_buffer : Bytes → Program Bytes
unfolding reverse_string
reverse_buffer buffer p = elim (reverse_string buffer) [ none ↦ fault | some b ↦ done b p ]

-- `buffer[recv_len] = 0; printf(..., buffer); reverse_string(buffer);`
unfoldable pub reverse_message : Bytes → Program Bytes
unfolding until_nul reverse_buffer
reverse_message message = do show_text (until_nul message); reverse_buffer (until_nul message)

-- The bytes in front of the first newline.
unfoldable pub cut_line : Bytes → Bytes
cut_line [] = []
cut_line (c ∷ cs) = if c == 10 then [] else c ∷ cut_line cs

-- `fgets(buffer, 1024, stdin); buffer[strcspn(buffer, "\n")] = 0;`: at the end of the input the buffer
-- keeps the string it has.
unfoldable pub type_line : (buffer : Bytes) → Program Bytes
unfolding ask cut_line until_nul
type_line buffer = do
  a ← ask (did read_line)
  pure (cut_line (elim a.value [ none ↦ buffer | some n ↦ until_nul (take 1023 a.payload) ]))

-- `recv_len == 0`
abbrev pub is_empty : Bytes → Bool
is_empty [] = true
is_empty (b ∷ message) = false

-- A read of `message` into the front of the buffer; what was behind it stays.
unfoldable pub overlay : (message buffer : Bytes) → Bytes
overlay message buffer = message ++ drop (length message) buffer
