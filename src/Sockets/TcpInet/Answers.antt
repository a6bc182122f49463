-- ===== src/Sockets/TcpInet/Answers.antt =====
-- The replies and the descriptors of the server of "16 work/socket work 1/tcp_inet".
use home_work.Base.{ℕ, zero, suc, ◌<◌, refl, List, [], ◌∷◌, length}
use home_work.Posix.{
  Answer, start, any_at, stream, socket, bind, listen, accept, getsockname, did, sent,
}
use home_work.Posix.Ensures.{
  start-Stage, Ensures, Stage, none_of, one_of, Triple, Clean, Waits, ◌then_do◌,
}
use home_work.Posix.Rules.{
  pure-Triple, close-Triple, if-Triple, option-Triple, succeeds-Triple, check-Triple,
  open_or_give_up-Triple, Received, receive-Triple, weaken, no_rounds-Triple, exit-Triple,
}
use home_work.Sockets.Messages.{
  Answered, Owes, owes, quiet, reverse_message-Triple, print_address-Triple, stream_reply,
}
use home_work.Sockets.TcpLocal.Answers.{serve_message, stream_reply-cons}
use home_work.Sockets.TcpInet.{serve_client, accept_loop, server_main}

serve_client-Triple :
    (n : ℕ) (ds : List ℕ)
    → Triple
        (Answered stream_reply)
        (Stage (Answered stream_reply) n ds)
        (λ _. Stage (Answered stream_reply) n ds)
        (serve_client n)
unfolding serve_client
serve_client-Triple zero ds = no_rounds-Triple
serve_client-Triple (suc n) ds =
    let q = quiet stream_reply in
    receive-Triple q (Owes stream_reply) (owes stream_reply) 1023 one_of then_do λ received.
    option-Triple (Received (Answered stream_reply) (Owes stream_reply) n ds) received
      (weaken (pure-Triple (Answered stream_reply) λ p h. h))
      λ message.
        serve_message message (weaken (pure-Triple (Answered stream_reply) λ p h. h)) λ full.
          reverse_message-Triple stream_reply message (stream_reply-cons message full)
          then_do λ reply. succeeds-Triple q (sent reply) none_of (λ l h. h) then_do λ ok. weaken (
              if-Triple ok (serve_client-Triple n ds)
                (pure-Triple (Answered stream_reply) λ p h. h))

accept_loop-Triple :
    (n server : ℕ)
    → Triple
        (Answered stream_reply)
        (Stage (Answered stream_reply) n (server ∷ []))
        (λ _. Stage (Answered stream_reply) n (server ∷ []))
        (accept_loop n server)
unfolding accept_loop
accept_loop-Triple zero server = no_rounds-Triple
accept_loop-Triple (suc n) server =
    let q = quiet stream_reply in
    open_or_give_up-Triple q accept one_of then_do λ client.
    serve_client-Triple n (client ∷ server ∷ []) then_do λ _.
    close-Triple (Answered stream_reply) (λ l h. h) then_do λ _.
    weaken (accept_loop-Triple n server)

server_main-Triple :
    (n : ℕ)
    → Triple (Answered stream_reply) (Stage (Answered stream_reply) n []) (λ _ p. ⊥) (server_main n)
unfolding server_main
server_main-Triple n =
    let q = quiet stream_reply in
    open_or_give_up-Triple q (socket stream) none_of then_do λ server.
    check-Triple q (did (bind (any_at 12345))) none_of (λ l h. h) then_do λ _.
    print_address-Triple q (λ _ l h. h) getsockname then_do λ _.
    check-Triple q (did (listen 5)) none_of (λ l h. h) then_do λ _.
    accept_loop-Triple n server then_do λ _.
    close-Triple (Answered stream_reply) (λ l h. h) then_do λ _. exit-Triple 0

-- Whatever the calls answer, the server sends, in order, the reversed string of every non-empty message it
-- has received from its clients; it leaves only by an exit with every socket closed, or waits in a call, and
-- a bound on the rounds of each loop above the number of answers is enough.
pub tcp_inet-Ensures :
    (n : ℕ) (answers : List Answer)
    → length answers < n
    → Ensures
        (λ _ p. ⊥)
        (Clean (Answered stream_reply))
        (Waits (Answered stream_reply))
        (server_main n (start answers))
tcp_inet-Ensures n answers h = (server_main-Triple n).ends (start answers) (start-Stage refl h)
