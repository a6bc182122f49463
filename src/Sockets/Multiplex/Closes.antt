-- ===== src/Sockets/Multiplex/Closes.antt =====
-- The descriptors of "16 work/socket work 2/multiplexServer.c".
use home_work.Base.{ℕ, zero, suc, ◌<◌, refl, List, [], ◌∷◌, Option, none, some, length}
use home_work.Libc.{Bytes}
use home_work.Posix.{
  Answer, start, any_at, stream, datagram, socket, bind, listen, accept, select, did, Event,
  Process, show_text, Program,
}
use home_work.Posix.Ensures.{
  Ensures, Stage, start-Stage, none_of, one_of, Triple, Clean, Waits, ◌then_do◌,
}
use home_work.Posix.Rules.{
  ask-Triple, pure-Triple, show_text-Triple, close-Triple, if-Triple, option-Triple, check-Triple,
  open_or_give_up-Triple, Received, receive-Triple, weaken, no_rounds-Triple, exit-Triple,
}
use home_work.Posix.Pairs.{
  close_pair-Triple, give_up_pair-Triple, check_pair-Triple, open_pair-Triple,
}
use home_work.Sockets.Broadcast.Sends.{IsSilent, IsSilent-quiet}
use home_work.Sockets.Multiplex.{
  is_set, buffer_text, serve_stream, serve_datagram, select_loop, server_main,
}

IsSilent-Received :
    {n : ℕ} {ds : List ℕ} (o : Option Bytes)
    → (p : Process) → Received IsSilent (λ _. IsSilent) n ds o p
    → Stage IsSilent n ds p
IsSilent-Received none p h = h
IsSilent-Received (some message) p h = h

from_Received :
    {n : ℕ} {ds : List ℕ} {C : Type 0} {P : C → Process → Type 0} {m : Program C} (o : Option Bytes)
    → Triple IsSilent (Stage IsSilent n ds) P m
    → Triple IsSilent (Received IsSilent (λ _. IsSilent) n ds o) P m
from_Received o t = record { ends = λ p h. t.ends p (IsSilent-Received o p h) }

module _ (behind : List Event → Bytes) where
  show_buffer-Triple :
      {n : ℕ} {ds : List ℕ} (received : Option Bytes)
      → Triple IsSilent
          (Stage IsSilent n ds)
          (λ _. Stage IsSilent n ds)
          (λ p. show_text (buffer_text received (behind p.log)) p)
  show_buffer-Triple received = record {
    ends = λ p h.
        (show_text-Triple IsSilent (buffer_text received (behind p.log)) (λ l h. h)).ends p h;
  }

  serve_stream-Triple :
      (n tcp udp : ℕ)
      → Triple IsSilent
          (Stage IsSilent n (udp ∷ tcp ∷ []))
          (λ _. Stage IsSilent n (udp ∷ tcp ∷ []))
          (serve_stream behind tcp udp)
  unfolding serve_stream
  serve_stream-Triple n tcp udp = open_pair-Triple IsSilent-quiet accept none_of then_do λ new.
      receive-Triple IsSilent-quiet (λ _. IsSilent) (λ _ l h. h) 1024 none_of then_do λ received.
      from_Received received (show_buffer-Triple received) then_do λ _.
      close-Triple IsSilent (λ l h. h)

  serve_datagram-Triple :
      (n tcp udp : ℕ)
      → Triple IsSilent
          (Stage IsSilent n (udp ∷ tcp ∷ []))
          (λ _. Stage IsSilent n (udp ∷ tcp ∷ []))
          (serve_datagram behind tcp udp)
  unfolding serve_datagram
  serve_datagram-Triple n tcp udp =
      receive-Triple IsSilent-quiet (λ _. IsSilent) (λ _ l h. h) 1024 none_of then_do λ received.
      option-Triple (Received IsSilent (λ _. IsSilent) n (udp ∷ tcp ∷ [])) received
        (give_up_pair-Triple IsSilent-quiet) λ message. show_buffer-Triple (some message)

  select_loop-Triple :
      (n tcp udp : ℕ)
      → Triple IsSilent
          (Stage IsSilent n (udp ∷ tcp ∷ []))
          (λ _. Stage IsSilent n (udp ∷ tcp ∷ []))
          (select_loop behind n tcp udp)
  unfolding select_loop
  select_loop-Triple zero tcp udp = no_rounds-Triple
  select_loop-Triple (suc n) tcp udp =
      ask-Triple IsSilent (did select) one_of (λ l h. h) then_do λ ready.
      option-Triple (λ _. Stage IsSilent n (udp ∷ tcp ∷ [])) ready.value
        (give_up_pair-Triple IsSilent-quiet)
        λ activity.
          if-Triple (is_set tcp ready.payload) (serve_stream-Triple n tcp udp)
            (pure-Triple IsSilent λ p h. h)
          then_do λ _.
              if-Triple (is_set udp ready.payload) (serve_datagram-Triple n tcp udp)
                (pure-Triple IsSilent λ p h. h)
              then_do λ _. weaken (select_loop-Triple n tcp udp)

  server_main-Triple :
      (n : ℕ) → Triple IsSilent (Stage IsSilent n []) (λ _ p. ⊥) (server_main behind n)
  unfolding server_main
  server_main-Triple n =
      open_or_give_up-Triple IsSilent-quiet (socket stream) none_of then_do λ tcp.
      check-Triple IsSilent-quiet (did (bind (any_at 3030))) none_of (λ l h. h) then_do λ _.
      check-Triple IsSilent-quiet (did (listen 5)) none_of (λ l h. h) then_do λ _.
      open_or_give_up-Triple IsSilent-quiet (socket datagram) none_of then_do λ udp.
      check_pair-Triple IsSilent-quiet (did (bind (any_at 2020))) none_of (λ l h. h) then_do λ _.
      select_loop-Triple n tcp udp then_do λ _. close_pair-Triple IsSilent-quiet (exit-Triple 0)

-- Whatever the calls answer, whichever sockets are ready and whatever stands behind the buffer, the server
-- of a stream and a datagram socket sends nothing; it leaves only by an exit with both sockets and the
-- socket of its client closed, or waits in a call, and a bound on its rounds above the number of answers is
-- enough.
pub multiplex-Ensures :
    (behind : List Event → Bytes) (n : ℕ) (answers : List Answer)
    → length answers < n
    → Ensures (λ _ p. ⊥) (Clean IsSilent) (Waits IsSilent) (server_main behind n (start answers))
multiplex-Ensures behind n answers h =
    (server_main-Triple behind n).ends (start answers) (start-Stage refl h)
