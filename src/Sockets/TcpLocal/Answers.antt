-- ===== src/Sockets/TcpLocal/Answers.antt =====
-- The replies and the descriptors of the server of "16 work/socket work 1/tcp_local".
use home_work.Base.{ℕ, zero, suc, ◌<◌, ◌≡◌, ◌≢◌, refl, List, [], ◌∷◌, if◌then◌else◌, length}
use home_work.Libc.{Bytes}
use home_work.Posix.{
  Answer, start, stream, socket, bind, listen, accept, getsockname, unlink, did, sent, Process,
  Program,
}
use home_work.Posix.Ensures.{
  start-Stage, Ensures, Stage, none_of, one_of, Triple, Clean, Waits, ◌then_do◌,
}
use home_work.Posix.Rules.{
  ask-Triple, pure-Triple, close-Triple, option-Triple, give_up-Triple, check-Triple,
  open_or_give_up-Triple, Received, receive-Triple, weaken, no_rounds-Triple, exit-Triple,
}
use home_work.Sockets.{is_empty}
use home_work.Sockets.Messages.{
  mirrored, Answered, Owes, owes, quiet, reverse_message-Triple, print_address-Triple, stream_reply,
}
use home_work.Sockets.TcpLocal.{socket_path, serve, server_main}

pub serve_message :
    {n : ℕ} {ds : List ℕ} {C : Type 0} {P : C → Process → Type 0} {stop go : Program C}
    (message : Bytes)
    → Triple (Answered stream_reply) (Stage (Answered stream_reply) n ds) P stop
    → (message ≢ [] → Triple (Answered stream_reply) (Stage (Owes stream_reply message) n ds) P go)
    → Triple
        (Answered stream_reply)
        (Stage (Owes stream_reply message) n ds)
        P
        (if is_empty message then stop else go)
serve_message [] stops goes = record { ends = λ p h. stops.ends p (stop_owing h) }
  where
    stop_owing :
        {n : ℕ} {ds : List ℕ} {p : Process}
        → Stage (Owes stream_reply []) n ds p
        → Stage (Answered stream_reply) n ds p
    stop_owing h = record { open_ones = h.open_ones; logged = h.logged; fuelled = h.fuelled }
serve_message (b ∷ bs) stops goes = goes (λ e. absurd (cc e))

pub stream_reply-cons :
    (message : Bytes) → message ≢ [] → stream_reply message ≡ mirrored message ∷ []
stream_reply-cons [] h = absurd (h refl)
stream_reply-cons (b ∷ bs) h = refl

serve-Triple :
    (n server client : ℕ)
    → Triple
        (Answered stream_reply)
        (Stage (Answered stream_reply) n (client ∷ server ∷ []))
        (λ _. Stage (Answered stream_reply) n (client ∷ server ∷ []))
        (serve n server client)
unfolding serve
serve-Triple zero server client = no_rounds-Triple
serve-Triple (suc n) server client =
    let q = quiet stream_reply in
    receive-Triple q (Owes stream_reply) (owes stream_reply) 1023 one_of then_do λ received.
    option-Triple (Received (Answered stream_reply) (Owes stream_reply) n (client ∷ server ∷ []))
      received (give_up-Triple q (client ∷ server ∷ []))
      λ message.
        serve_message message (weaken (pure-Triple (Answered stream_reply) λ p h. h)) λ full.
          reverse_message-Triple stream_reply message (stream_reply-cons message full)
          then_do λ reply. check-Triple q (sent reply) none_of (λ l h. h) then_do λ _.
              weaken (serve-Triple n server client)

server_main-Triple :
    (n : ℕ)
    → Triple (Answered stream_reply) (Stage (Answered stream_reply) n []) (λ _ p. ⊥) (server_main n)
unfolding server_main
server_main-Triple n =
    let q = quiet stream_reply in
    open_or_give_up-Triple q (socket stream) none_of then_do λ server.
    check-Triple q (did (bind socket_path)) none_of (λ l h. h) then_do λ _.
    print_address-Triple q (λ _ l h. h) getsockname then_do λ _.
    check-Triple q (did (listen 3)) none_of (λ l h. h) then_do λ _.
    open_or_give_up-Triple q accept none_of then_do λ client.
    serve-Triple n server client then_do λ _.
    close-Triple (Answered stream_reply) (λ l h. h) then_do λ _.
    close-Triple (Answered stream_reply) (λ l h. h) then_do λ _.
    ask-Triple (Answered stream_reply) (did (unlink socket_path)) none_of (λ l h. h) then_do λ _.
    exit-Triple 0

-- Whatever the calls answer, the server sends, in order, the reversed string of every non-empty message it
-- has received; it leaves only by an exit with both sockets closed, or waits in a call, and a bound on its
-- rounds above the number of answers is enough.
pub tcp_local-Ensures :
    (n : ℕ) (answers : List Answer)
    → length answers < n
    → Ensures
        (λ _ p. ⊥)
        (Clean (Answered stream_reply))
        (Waits (Answered stream_reply))
        (server_main n (start answers))
tcp_local-Ensures n answers h = (server_main-Triple n).ends (start answers) (start-Stage refl h)
