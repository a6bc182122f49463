-- ===== src/Sockets/UdpLocal/Answers.antt =====
-- The replies and the descriptors of the server of "16 work/socket work 1/udp_local".
use home_work.Base.{ℕ, ◌<◌, refl, List, [], length}
use home_work.Posix.{Answer, start, datagram, socket, bind, getsockname, unlink, did}
use home_work.Posix.Ensures.{start-Stage, Ensures, Stage, none_of, Triple, Clean, Waits, ◌then_do◌}
use home_work.Posix.Rules.{
  ask-Triple, close-Triple, check-Triple, open_or_give_up-Triple, exit-Triple,
}
use home_work.Sockets.Messages.{Answered, quiet, print_address-Triple, datagram_reply}
use home_work.Sockets.UdpInet.Answers.{serve-Triple}
use home_work.Sockets.UdpLocal.{socket_path, server_main}

server_main-Triple :
    (n : ℕ)
    → Triple
        (Answered datagram_reply)
        (Stage (Answered datagram_reply) n [])
        (λ _ p. ⊥)
        (server_main n)
unfolding server_main
server_main-Triple n =
    let q = quiet datagram_reply in
    open_or_give_up-Triple q (socket datagram) none_of then_do λ server.
    check-Triple q (did (bind socket_path)) none_of (λ l h. h) then_do λ _.
    print_address-Triple q (λ _ l h. h) getsockname then_do λ _. serve-Triple n server then_do λ _.
    close-Triple (Answered datagram_reply) (λ l h. h) then_do λ _.
    ask-Triple (Answered datagram_reply) (did (unlink socket_path)) none_of (λ l h. h) then_do λ _.
    exit-Triple 0

-- Whatever the calls answer, the server sends, in order, the reversed string of every datagram it has
-- received; it leaves only by an exit with its socket closed, or waits in a call, and a bound on its
-- rounds above the number of answers is enough.
pub udp_local-Ensures :
    (n : ℕ) (answers : List Answer)
    → length answers < n
    → Ensures
        (λ _ p. ⊥)
        (Clean (Answered datagram_reply))
        (Waits (Answered datagram_reply))
        (server_main n (start answers))
udp_local-Ensures n answers h = (server_main-Triple n).ends (start answers) (start-Stage refl h)
