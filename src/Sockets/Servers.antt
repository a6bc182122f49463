-- ===== src/Sockets/Servers.antt =====
-- What the echo servers of "16 work/socket work 1" and the server of "16 work/socket work 4" have in common.
use home_work.Base.{ℕ, ◌<◌, List, length}
use home_work.Libc.{Bytes}
use home_work.Posix.{Answer, start, Program, Event}
use home_work.Posix.Ensures.{Ensures, Clean, Waits}
use home_work.Sockets.Messages.{Answered, datagram_reply, stream_reply}
use home_work.Sockets.TcpLocal.Answers.{tcp_local-Ensures}
use home_work.Sockets.UdpInet.Answers.{udp_inet-Ensures}
use home_work.Sockets.UdpLocal.Answers.{udp_local-Ensures}
use home_work.Sockets.Raw.Answers.{raw_server-Ensures}
use home_work.Sockets.TcpLocal
use home_work.Sockets.UdpInet
use home_work.Sockets.UdpLocal
use home_work.Sockets.Raw

-- What is sent is what `Good` says, and the end is an exit with everything closed, or a wait.
abbrev pub Serves : (List Event → Type 0) → Program (Unit {0}) → List Answer → Type 0
Serves Good server answers = Ensures (λ _ p. ⊥) (Clean Good) (Waits Good) (server (start answers))

-- Whatever the calls answer, the local stream server sends, in order, the reversed string of every non-empty
-- message it has received, and the two datagram servers and the server of the raw clients that of every
-- datagram; each leaves only by an exit with its sockets closed, or waits in a call, and a bound on its
-- rounds above the number of answers is enough.
pub servers-Serves :
    (source : ℕ → Bytes) (n : ℕ) (answers : List Answer)
    → length answers < n
    → Serves (Answered stream_reply) (TcpLocal.server_main n) answers
      × Serves (Answered datagram_reply) (UdpInet.server_main n) answers
      × Serves (Answered datagram_reply) (UdpLocal.server_main n) answers
      × Serves (Answered datagram_reply) (Raw.server_main source n) answers
servers-Serves source n answers h = (
  tcp_local-Ensures n answers h,
  udp_inet-Ensures n answers h,
  udp_local-Ensures n answers h,
  raw_server-Ensures source n answers h,
)
