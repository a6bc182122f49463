-- ===== src/Sockets/Clients.antt =====
-- What the clients of "16 work/socket work 1" have in common, and the listeners of "16 work/socket work 3".
use home_work.Base.{ℕ, ◌<◌, List, length}
use home_work.Libc.{Bytes}
use home_work.Posix.{Answer, start, Program}
use home_work.Posix.Ensures.{Ensures, Clean, Waits}
use home_work.Sockets.Lines.{SendsLines}
use home_work.Sockets.Broadcast.Sends.{
  SendsOnly, IsSilent, broadcast_client-Ensures, broadcast_server-Ensures,
}
use home_work.Sockets.Broadcast.{broadcast_message}
use home_work.Sockets.Multicast.Listens.{multicast_client-Ensures}
use home_work.Sockets.TcpInet.Client.{tcp_inet_client-Ensures}
use home_work.Sockets.TcpLocal.Client.{tcp_local_client-Ensures}
use home_work.Sockets.UdpInet.Client.{udp_inet_client-Ensures}
use home_work.Sockets.UdpLocal.Client.{udp_local_client-Ensures}
use home_work.Sockets.TcpInet
use home_work.Sockets.TcpLocal
use home_work.Sockets.UdpInet
use home_work.Sockets.UdpLocal
use home_work.Sockets.Broadcast
use home_work.Sockets.Multicast

-- Each message that is sent is a line, and the end is an exit with everything closed, or a wait.
abbrev pub TalksInLines : Program (Unit {0}) → List Answer → Type 0
TalksInLines client answers =
    Ensures (λ _ p. ⊥) (Clean SendsLines) (Waits SendsLines) (client (start answers))

-- Nothing is sent, and the end is an exit with everything closed, or a wait.
abbrev pub OnlyListens : Program (Unit {0}) → List Answer → Type 0
OnlyListens client answers =
    Ensures (λ _ p. ⊥) (Clean IsSilent) (Waits IsSilent) (client (start answers))

-- Whatever the calls answer, no message that one of the four clients sends has a newline in it; each leaves
-- only by an exit with its socket closed, or waits in a call, and a bound on its rounds above the number of
-- answers is enough.
pub clients-TalksInLines :
    (n : ℕ) (buffer : Bytes) (answers : List Answer)
    → length answers < n
    → TalksInLines (TcpInet.client_main n buffer) answers
      × TalksInLines (TcpLocal.client_main n buffer) answers
      × TalksInLines (UdpInet.client_main n buffer) answers
      × TalksInLines (UdpLocal.client_main n buffer) answers
clients-TalksInLines n buffer answers h = (
  tcp_inet_client-Ensures n buffer answers h,
  tcp_local_client-Ensures n buffer answers h,
  udp_inet_client-Ensures n buffer answers h,
  udp_local_client-Ensures n buffer answers h,
)

-- Whatever the calls answer, every datagram that the broadcast server sends is its message, and the broadcast
-- client and the multicast client send nothing; each leaves only by an exit with its socket closed, or
-- waits in a call, and a bound on its rounds above the number of answers is enough.
pub broadcasts-Ensures :
    (n : ℕ) (buffer : Bytes) (answers : List Answer)
    → length answers < n
    → Ensures
        (λ _ p. ⊥)
        (Clean (SendsOnly broadcast_message))
        (Waits (SendsOnly broadcast_message))
        (Broadcast.server_main n (start answers))
      × OnlyListens (Broadcast.client_main n buffer) answers
      × OnlyListens (Multicast.client_main n buffer) answers
broadcasts-Ensures n buffer answers h = (
  broadcast_server-Ensures n answers h,
  broadcast_client-Ensures n buffer answers h,
  multicast_client-Ensures n buffer answers h,
)
