-- ===== src/Sockets/UdpInet/Answers.antt =====
-- The replies and the descriptors of the server of "16 work/socket work 1/udp_inet".
use home_work.Base.{ℕ, zero, suc, ◌<◌, refl, List, [], ◌∷◌, length}
use home_work.Posix.{Answer, start, any_at, datagram, socket, bind, getsockname, did, sent}
use home_work.Posix.Ensures.{
  start-Stage, Ensures, Stage, none_of, one_of, Triple, Clean, Waits, ◌then_do◌,
}
use home_work.Posix.Rules.{
  close-Triple, option-Triple, give_up-Triple, check-Triple, open_or_give_up-Triple, Received,
  receive-Triple, weaken, no_rounds-Triple, exit-Triple,
}
use home_work.Sockets.Messages.{
  Answered, Owes, owes, quiet, reverse_message-Triple, print_address-Triple, datagram_reply,
}
use home_work.Sockets.UdpInet.{serve, server_main}

pub serve-Triple :
    (n server : ℕ)
    → Triple
        (Answered datagram_reply)
        (Stage (Answered datagram_reply) n (server ∷ []))
        (λ _. Stage (Answered datagram_reply) n (server ∷ []))
        (serve n server)
unfolding serve
serve-Triple zero server = no_rounds-Triple
serve-Triple (suc n) server =
    receive-Triple (quiet datagram_reply) (Owes datagram_reply) (owes datagram_reply) 1023 one_of
    then_do λ received.
        option-Triple (Received (Answered datagram_reply) (Owes datagram_reply) n (server ∷ []))
          received (give_up-Triple (quiet datagram_reply) (server ∷ []))
          λ message. reverse_message-Triple datagram_reply message refl then_do λ reply.
            check-Triple (quiet datagram_reply) (sent reply) none_of (λ l h. h) then_do λ _.
            weaken (serve-Triple n server)

pub server_main-Triple :
    (n : ℕ)
    → Triple
        (Answered datagram_reply)
        (Stage (Answered datagram_reply) n [])
        (λ _ p. ⊥)
        (server_main n)
unfolding server_main
server_main-Triple n =
    let q = quiet datagram_reply in
    open_or_give_up-Triple q (socket datagram) none_of then_do λ server.
    check-Triple q (did (bind (any_at 12345))) none_of (λ l h. h) then_do λ _.
    print_address-Triple q (λ _ l h. h) getsockname then_do λ _. serve-Triple n server then_do λ _.
    close-Triple (Answered datagram_reply) (λ l h. h) then_do λ _. exit-Triple 0

-- Whatever the calls answer, the server sends, in order, the reversed string of every datagram it has
-- received; it leaves only by an exit with its socket closed, or waits in a call, and a bound on its
-- rounds above the number of answers is enough.
pub udp_inet-Ensures :
    (n : ℕ) (answers : List Answer)
    → length answers < n
    → Ensures
        (λ _ p. ⊥)
        (Clean (Answered datagram_reply))
        (Waits (Answered datagram_reply))
        (server_main n (start answers))
udp_inet-Ensures n answers h = (server_main-Triple n).ends (start answers) (start-Stage refl h)
