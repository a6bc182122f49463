-- ===== src/Sockets/UdpInet/Client.antt =====
-- The messages and the descriptors of the client of "16 work/socket work 1/udp_inet".
use home_work.Base.{ℕ, zero, suc, ◌<◌, refl, List, [], ◌∷◌, length}
use home_work.Libc.{Bytes}
use home_work.Posix.{Answer, start, any_at, datagram, socket, bind, getsockname, did, sent}
use home_work.Posix.Ensures.{start-Stage, Ensures, Stage, none_of, Triple, Clean, Waits, ◌then_do◌}
use home_work.Posix.Rules.{
  show_text-Triple, close-Triple, option-Triple, give_up-Triple, check-Triple,
  open_or_give_up-Triple, Received, receive-Triple, weaken, no_rounds-Triple, exit-Triple,
}
use home_work.Text.{until_nul}
use home_work.Sockets.Messages.{print_address-Triple}
use home_work.Sockets.Lines.{SendsLines, SendsLines-quiet, type_line-Triple}
use home_work.Sockets.UdpInet.{talk, client_main}

pub talk-Triple :
    (n client : ℕ) (buffer : Bytes)
    → Triple SendsLines
        (Stage SendsLines n (client ∷ []))
        (λ _. Stage SendsLines n (client ∷ []))
        (talk n client buffer)
unfolding talk
talk-Triple zero client buffer = no_rounds-Triple
talk-Triple (suc n) client buffer =
    let q = SendsLines-quiet in
    type_line-Triple buffer then_do λ line.
    check-Triple q (sent line) none_of (λ l h. h) then_do λ _.
    receive-Triple q (λ _. SendsLines) (λ _ l h. h) 1023 none_of then_do λ received.
    option-Triple (Received SendsLines (λ _. SendsLines) n (client ∷ [])) received
      (give_up-Triple q (client ∷ []))
      λ message. show_text-Triple SendsLines (until_nul message) (λ l h. h) then_do λ _.
        weaken (talk-Triple n client (until_nul message))

client_main-Triple :
    (n : ℕ) (buffer : Bytes)
    → Triple SendsLines (Stage SendsLines n []) (λ _ p. ⊥) (client_main n buffer)
unfolding client_main
client_main-Triple n buffer =
    let q = SendsLines-quiet in
    open_or_give_up-Triple q (socket datagram) none_of then_do λ client.
    check-Triple q (did (bind (any_at 12346))) none_of (λ l h. h) then_do λ _.
    print_address-Triple q (λ _ l h. h) getsockname then_do λ _.
    talk-Triple n client buffer then_do λ _.
    close-Triple SendsLines (λ l h. h) then_do λ _. exit-Triple 0

-- Whatever the calls answer, no message that the client sends has a newline in it; the client leaves only
-- by an exit with its socket closed, or waits in a call, and a bound on its rounds above the number of
-- answers is enough.
pub udp_inet_client-Ensures :
    (n : ℕ) (buffer : Bytes) (answers : List Answer)
    → length answers < n
    → Ensures
        (λ _ p. ⊥)
        (Clean SendsLines)
        (Waits SendsLines)
        (client_main n buffer (start answers))
udp_inet_client-Ensures n buffer answers h =
    (client_main-Triple n buffer).ends (start answers) (start-Stage refl h)
