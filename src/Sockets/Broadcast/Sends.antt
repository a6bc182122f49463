-- ===== src/Sockets/Broadcast/Sends.antt =====
-- The messages and the descriptors of broadcast_server.c and broadcast_client.c ("16 work/socket work 3").
use home_work.Base.{ℕ, zero, suc, ◌<◌, ◌≡◌, refl, ap, List, [], ◌∷◌, length}
use home_work.Libc.{Bytes}
use home_work.Posix.{
  Answer, start, any_at, datagram, socket, bind, sleep, set_broadcast, Event, did, sent,
}
use home_work.Posix.Ensures.{
  Ensures, Stage, start-Stage, none_of, one_of, IsQuiet, quiet_did, quiet_closed, Triple, Clean,
  Waits, ◌then_do◌,
}
use home_work.Posix.Rules.{
  ask-Triple, show_text-Triple, close-Triple, option-Triple, give_up-Triple, check-Triple,
  open_or_give_up-Triple, Received, receive-Triple, weaken, no_rounds-Triple, exit-Triple,
}
use home_work.Text.{until_nul}
use home_work.Sockets.{overlay}
use home_work.Sockets.Messages.{sent_messages}
use home_work.Sockets.Broadcast.{
  broadcast_message, send_loop, server_main, listen_loop, client_main,
}

abbrev pub copies : ℕ → Bytes → List Bytes
copies zero message = []
copies (suc n) message = message ∷ copies n message

-- Every message sent is `message`.
abbrev pub SendsOnly : Bytes → List Event → Type 0
SendsOnly message log = sent_messages log ≡ copies (length (sent_messages log)) message

-- No message is sent.
abbrev pub IsSilent : List Event → Type 0
IsSilent log = sent_messages log ≡ []

pub SendsOnly-quiet :
    (message : Bytes) (e : Event) (log : List Event)
    → IsQuiet e
    → SendsOnly message log
    → SendsOnly message (e ∷ log)
SendsOnly-quiet message _ log quiet_did h = h
SendsOnly-quiet message _ log quiet_closed h = h

pub IsSilent-quiet : (e : Event) (log : List Event) → IsQuiet e → IsSilent log → IsSilent (e ∷ log)
IsSilent-quiet _ log quiet_did h = h
IsSilent-quiet _ log quiet_closed h = h

send_loop-Triple :
    (n sock : ℕ)
    → Triple
        (SendsOnly broadcast_message)
        (Stage (SendsOnly broadcast_message) n (sock ∷ []))
        (λ _. Stage (SendsOnly broadcast_message) n (sock ∷ []))
        (send_loop n sock)
unfolding send_loop
send_loop-Triple zero sock = no_rounds-Triple
send_loop-Triple (suc n) sock =
    check-Triple (SendsOnly-quiet broadcast_message) (sent broadcast_message) one_of
      (λ l h. ap (◌∷◌ broadcast_message) h)
    then_do λ _.
        show_text-Triple (SendsOnly broadcast_message) broadcast_message (λ l h. h) then_do λ _.
        ask-Triple (SendsOnly broadcast_message) (did sleep) none_of (λ l h. h) then_do λ _.
        weaken (send_loop-Triple n sock)

server_main-Triple :
    (n : ℕ)
    → Triple
        (SendsOnly broadcast_message)
        (Stage (SendsOnly broadcast_message) n [])
        (λ _ p. ⊥)
        (server_main n)
unfolding server_main
server_main-Triple n =
    let q = SendsOnly-quiet broadcast_message in
    open_or_give_up-Triple q (socket datagram) none_of then_do λ sock.
    check-Triple q (did set_broadcast) none_of (λ l h. h) then_do λ _.
    send_loop-Triple n sock then_do λ _.
    close-Triple (SendsOnly broadcast_message) (λ l h. h) then_do λ _. exit-Triple 0

-- Whatever the calls answer, every datagram that the broadcast server sends is its message; it leaves only
-- by an exit with its socket closed, or waits in a call, and a bound on its rounds above the number of
-- answers is enough.
pub broadcast_server-Ensures :
    (n : ℕ) (answers : List Answer)
    → length answers < n
    → Ensures
        (λ _ p. ⊥)
        (Clean (SendsOnly broadcast_message))
        (Waits (SendsOnly broadcast_message))
        (server_main n (start answers))
broadcast_server-Ensures n answers h =
    (server_main-Triple n).ends (start answers) (start-Stage refl h)

pub listen_loop-Triple :
    (n sock : ℕ) (buffer : Bytes)
    → Triple IsSilent
        (Stage IsSilent n (sock ∷ []))
        (λ _. Stage IsSilent n (sock ∷ []))
        (listen_loop n sock buffer)
unfolding listen_loop
listen_loop-Triple zero sock buffer = no_rounds-Triple
listen_loop-Triple (suc n) sock buffer =
    receive-Triple IsSilent-quiet (λ _. IsSilent) (λ _ l h. h) 1024 one_of then_do λ received.
    option-Triple (Received IsSilent (λ _. IsSilent) n (sock ∷ [])) received
      (give_up-Triple IsSilent-quiet (sock ∷ []))
      λ message.
        show_text-Triple IsSilent (until_nul (overlay message buffer)) (λ l h. h) then_do λ _.
        weaken (listen_loop-Triple n sock (overlay message buffer))

client_main-Triple :
    (n : ℕ) (buffer : Bytes)
    → Triple IsSilent (Stage IsSilent n []) (λ _ p. ⊥) (client_main n buffer)
unfolding client_main
client_main-Triple n buffer =
    open_or_give_up-Triple IsSilent-quiet (socket datagram) none_of then_do λ sock.
    check-Triple IsSilent-quiet (did (bind (any_at 9090))) none_of (λ l h. h) then_do λ _.
    listen_loop-Triple n sock buffer then_do λ _.
    close-Triple IsSilent (λ l h. h) then_do λ _. exit-Triple 0

-- Whatever the calls answer, the broadcast client sends nothing; it leaves only by an exit with its socket
-- closed, or waits in a call, and a bound on its rounds above the number of answers is enough.
pub broadcast_client-Ensures :
    (n : ℕ) (buffer : Bytes) (answers : List Answer)
    → length answers < n
    → Ensures (λ _ p. ⊥) (Clean IsSilent) (Waits IsSilent) (client_main n buffer (start answers))
broadcast_client-Ensures n buffer answers h =
    (client_main-Triple n buffer).ends (start answers) (start-Stage refl h)
