-- ===== src/Sockets/Raw/Answers.antt =====
-- The replies and the descriptors of "16 work/socket work 4/rawServer.c".
use home_work.Base.{ℕ, zero, suc, ◌<◌, refl, List, [], ◌∷◌, length}
use home_work.Libc.{Bytes}
use home_work.Posix.{Answer, start, any_at, datagram, socket, bind, getsockname, did, sent}
use home_work.Posix.Ensures.{
  start-Stage, Ensures, Stage, none_of, one_of, Triple, Clean, Waits, ◌then_do◌,
}
use home_work.Posix.Rules.{
  show_text-Triple, close-Triple, option-Triple, give_up-Triple, check-Triple,
  open_or_give_up-Triple, Received, receive-Triple, weaken, no_rounds-Triple, exit-Triple,
}
use home_work.Text.{until_nul}
use home_work.Sockets.Messages.{
  Answered, Owes, owes, quiet, reverse_buffer-Triple, print_address-Triple, datagram_reply,
}
use home_work.Sockets.Raw.{serve, server_main}

serve-Triple :
    (source : ℕ → Bytes) (n server : ℕ)
    → Triple
        (Answered datagram_reply)
        (Stage (Answered datagram_reply) n (server ∷ []))
        (λ _. Stage (Answered datagram_reply) n (server ∷ []))
        (serve source n server)
unfolding serve
serve-Triple source zero server = no_rounds-Triple
serve-Triple source (suc n) server =
    let q = quiet datagram_reply in
    receive-Triple q (Owes datagram_reply) (owes datagram_reply) 1023 one_of then_do λ received.
    option-Triple (Received (Answered datagram_reply) (Owes datagram_reply) n (server ∷ []))
      received (give_up-Triple q (server ∷ []))
      λ message.
        show_text-Triple (Answered datagram_reply) (until_nul message) (λ l h. h) then_do λ _.
        show_text-Triple (Answered datagram_reply) (source n) (λ l h. h) then_do λ _.
        reverse_buffer-Triple datagram_reply message refl then_do λ reply.
        check-Triple q (sent reply) none_of (λ l h. h) then_do λ _.
        weaken (serve-Triple source n server)

server_main-Triple :
    (source : ℕ → Bytes) (n : ℕ)
    → Triple
        (Answered datagram_reply)
        (Stage (Answered datagram_reply) n [])
        (λ _ p. ⊥)
        (server_main source n)
unfolding server_main
server_main-Triple source n =
    let q = quiet datagram_reply in
    open_or_give_up-Triple q (socket datagram) none_of then_do λ server.
    check-Triple q (did (bind (any_at 12342))) none_of (λ l h. h) then_do λ _.
    print_address-Triple q (λ _ l h. h) getsockname then_do λ _.
    serve-Triple source n server then_do λ _.
    close-Triple (Answered datagram_reply) (λ l h. h) then_do λ _. exit-Triple 0

-- Whatever the calls answer, the server sends, in order, the reversed string of every datagram it has
-- received; it leaves only by an exit with its socket closed, or waits in a call, and a bound on its
-- rounds above the number of answers is enough.
pub raw_server-Ensures :
    (source : ℕ → Bytes) (n : ℕ) (answers : List Answer)
    → length answers < n
    → Ensures
        (λ _ p. ⊥)
        (Clean (Answered datagram_reply))
        (Waits (Answered datagram_reply))
        (server_main source n (start answers))
raw_server-Ensures source n answers h =
    (server_main-Triple source n).ends (start answers) (start-Stage refl h)
