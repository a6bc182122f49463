-- ===== src/Sockets/UdpLocal/Client.antt =====
-- The messages and the descriptors of the client of "16 work/socket work 1/udp_local".
use home_work.Base.{ℕ, ◌<◌, refl, List, [], length}
use home_work.Libc.{Bytes}
use home_work.Posix.{Answer, start, datagram, socket, bind, getsockname, unlink, did}
use home_work.Posix.Ensures.{start-Stage, Ensures, Stage, none_of, Triple, Clean, Waits, ◌then_do◌}
use home_work.Posix.Rules.{
  ask-Triple, close-Triple, check-Triple, open_or_give_up-Triple, exit-Triple,
}
use home_work.Sockets.Messages.{print_address-Triple}
use home_work.Sockets.Lines.{SendsLines, SendsLines-quiet}
use home_work.Sockets.UdpInet.Client.{talk-Triple}
use home_work.Sockets.UdpLocal.{client_socket_path, client_main}

client_main-Triple :
    (n : ℕ) (buffer : Bytes)
    → Triple SendsLines (Stage SendsLines n []) (λ _ p. ⊥) (client_main n buffer)
unfolding client_main
client_main-Triple n buffer =
    let q = SendsLines-quiet in
    open_or_give_up-Triple q (socket datagram) none_of then_do λ client.
    check-Triple q (did (bind client_socket_path)) none_of (λ l h. h) then_do λ _.
    print_address-Triple q (λ _ l h. h) getsockname then_do λ _.
    talk-Triple n client buffer then_do λ _. close-Triple SendsLines (λ l h. h) then_do λ _.
    ask-Triple SendsLines (did (unlink client_socket_path)) none_of (λ l h. h) then_do λ _.
    exit-Triple 0

-- Whatever the calls answer, no message that the client sends has a newline in it; the client leaves only
-- by an exit with its socket closed, or waits in a call, and a bound on its rounds above the number of
-- answers is enough.
pub udp_local_client-Ensures :
    (n : ℕ) (buffer : Bytes) (answers : List Answer)
    → length answers < n
    → Ensures
        (λ _ p. ⊥)
        (Clean SendsLines)
        (Waits SendsLines)
        (client_main n buffer (start answers))
udp_local_client-Ensures n buffer answers h =
    (client_main-Triple n buffer).ends (start answers) (start-Stage refl h)
