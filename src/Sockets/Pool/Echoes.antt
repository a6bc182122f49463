-- ===== src/Sockets/Pool/Echoes.antt =====
-- The replies of "16 work/socket work 2/poolServer.c".
use home_work.Base.{
  ℕ, zero, suc, ◌<◌, ◌≡◌, sym, ap, ◌∙◌, refl, List, [], ◌∷◌, length, take, ◌==◌, arith,
  if◌then◌else◌,
}
use home_work.Libc.{Bytes}
use home_work.Posix.{
  Answer, Call, using, recv, accept, watch, epoll_wait, did, got, sent, closed, shown, Event,
  Process, Program, pure, use_descriptor, receive, succeeds, close, ◌>>◌,
}
use home_work.Posix.Ensures.{
  Ensures, Stage, none_of, one_of, IsQuiet, quiet_did, quiet_closed, Triple, Clean, Waits,
  ◌then_do◌,
}
use home_work.Posix.Rules.{
  ask-Triple, pure-Triple, if-Triple, option-Triple, succeeds-Triple, open_with-Triple, opened_too,
  Received, relax,
}
use home_work.Sockets.{is_empty}
use home_work.Sockets.Pool.{echo, admit, handle_events, event_loop}

abbrev used_by : Call → ℕ → ℕ
used_by (using fd) before = fd
used_by c before = before

-- The descriptor that was told last.
abbrev pub last_used : List Event → ℕ
last_used [] = 0
last_used (did c ∷ log) = used_by c (last_used log)
last_used (got message ∷ log) = last_used log
last_used (sent message ∷ log) = last_used log
last_used (closed fd ∷ log) = last_used log
last_used (shown text ∷ log) = last_used log

-- The messages that were sent, each with its descriptor, the newest first.
abbrev pub replies : List Event → List (ℕ × Bytes)
replies [] = []
replies (did c ∷ log) = replies log
replies (got message ∷ log) = replies log
replies (sent message ∷ log) = (last_used log, message) ∷ replies log
replies (closed fd ∷ log) = replies log
replies (shown text ∷ log) = replies log

-- The messages that were received and are not empty, each with its descriptor, the newest first.
abbrev pub requests : List Event → List (ℕ × Bytes)
requests [] = []
requests (did c ∷ log) = requests log
requests (got [] ∷ log) = requests log
requests (got (b ∷ message) ∷ log) = (last_used log, b ∷ message) ∷ requests log
requests (sent message ∷ log) = requests log
requests (closed fd ∷ log) = requests log
requests (shown text ∷ log) = requests log

-- Each request has had its reply, on the descriptor that it came from.
abbrev pub Echoed : List Event → Type 0
Echoed log = replies log ≡ requests log

quiet : (e : Event) (log : List Event) → IsQuiet e → Echoed log → Echoed (e ∷ log)
quiet _ log quiet_did h = h
quiet _ log quiet_closed h = h

-- The descriptor `fd` is in use.
abbrev On : ℕ → List Event → Type 0
On fd log = Echoed log × (last_used log ≡ fd)

-- The message received last has still to be sent back on `fd`; the empty one has not.
abbrev Owes : ℕ → Bytes → List Event → Type 0
Owes fd [] log = Echoed log
Owes fd (b ∷ message) log = (fd, b ∷ message) ∷ replies log ≡ requests log

owes :
    (fd : ℕ) (message : Bytes) (log : List Event) → On fd log → Owes fd message (got message ∷ log)
owes fd [] log h = h.0
owes fd (b ∷ message) log h =
    ap (λ x. (fd, b ∷ message) ∷ x) h.0 ∙ ap (λ x. (x, b ∷ message) ∷ requests log) (sym h.1)

-- Whatever is open.
abbrev Running : (List Event → Type 0) → ℕ → Process → Type 0
Running G n p = G p.log × (length p.answers < n)

staged : {G : List Event → Type 0} {n : ℕ} (p : Process) → Running G n p → Stage G n p.descriptors p
staged p h = record { open_ones = refl; logged = h.0; fuelled = h.1 }

from_any :
    {A : Type 0} {G : List Event → Type 0} {n : ℕ} {P : A → Process → Type 0} {k : Program A}
    → ((ds : List ℕ) → Triple Echoed (Stage G n ds) P k)
    → Triple Echoed (Running G n) P k
from_any t = record { ends = λ p h. (t p.descriptors).ends p (staged p h) }

abbrev Goes : {A : Type 0} → ℕ → List ℕ → Program A → Type 0
Goes n ds = Triple Echoed (Stage Echoed n ds) (λ _. Running Echoed n)

nothing-Goes : {n : ℕ} {ds : List ℕ} → Goes n ds (pure tt)
nothing-Goes = pure-Triple Echoed λ p h. (h.logged, h.fuelled)

close-Goes : {n : ℕ} {ds : List ℕ} (fd : ℕ) → Goes n ds (close fd)
unfolding close
close-Goes fd = record { ends = λ p h. (h.logged, h.fuelled) }

use-Triple :
    {n : ℕ} {ds : List ℕ} {G : List Event → Type 0} (fd : ℕ)
    → ((l : List Event) → G l → G (did (using fd) ∷ l))
    → Triple Echoed
        (Stage G n ds)
        (λ _. Stage (λ l. G l × (last_used l ≡ fd)) n ds)
        (use_descriptor fd)
use-Triple fd keep = record {
  ends = λ p h. record {
    open_ones = h.open_ones;
    logged = (keep p.log h.logged, refl);
    fuelled = h.fuelled;
  };
}

hear-Triple :
    {n : ℕ} {ds : List ℕ} (fd : ℕ)
    → Triple Echoed (Stage (On fd) n ds) (Received (On fd) (Owes fd) n ds) (receive 1024)
unfolding receive
hear-Triple {n = n} {ds = ds} fd =
    relax (λ l h. h.0) (ask-Triple (On fd) (did (recv 1024)) none_of λ l h. h) then_do λ a.
    option-Triple (λ _. Stage (On fd) n ds) a.value (record { ends = λ p h. h })
      λ k. record {
        ends = λ p h. record {
          open_ones = h.open_ones;
          logged = owes fd (take 1024 a.payload) p.log h.logged;
          fuelled = h.fuelled;
        };
      }

reply-Triple :
    {n : ℕ} {ds : List ℕ} (client : ℕ) (message : Bytes)
    → Triple Echoed
        (Stage (Owes client message) n ds)
        (λ _. Running Echoed n)
        (if is_empty message
          then close client
          else (use_descriptor client >> (succeeds (sent message) >> pure tt)))
unfolding close
reply-Triple client [] = record { ends = λ p h. (h.logged, h.fuelled) }
reply-Triple client (b ∷ message) = use-Triple client (λ l h. h) then_do λ _.
    succeeds-Triple quiet (sent (b ∷ message)) none_of
      (λ l h. ap (λ x. (x, b ∷ message) ∷ replies l) h.1 ∙ h.0)
    then_do λ _. pure-Triple Echoed λ p h. (h.logged, h.fuelled)

shut-Goes :
    {n : ℕ} {ds : List ℕ} (client fd : ℕ)
    → Triple Echoed (Stage (On client) n ds) (λ _. Running Echoed n) (close fd)
unfolding close
shut-Goes client fd = record { ends = λ p h. (h.logged.0, h.fuelled) }

echo-Goes : {n : ℕ} {ds : List ℕ} (client : ℕ) → Goes n ds (echo client)
unfolding echo
echo-Goes {n = n} {ds = ds} client = use-Triple client (λ l h. h) then_do λ _.
    hear-Triple client then_do λ received.
    option-Triple (Received (On client) (Owes client) n ds) received (shut-Goes client client)
      λ message. reply-Triple client message

admit-Goes : {n : ℕ} {ds : List ℕ} → Goes n ds admit
unfolding admit
admit-Goes {n = n} {ds = ds} = open_with-Triple quiet accept none_of then_do λ accepted.
    option-Triple (λ o. Stage Echoed n (opened_too o ds)) accepted nothing-Goes
      λ client. succeeds-Triple quiet (did (watch client)) none_of (λ l h. h) then_do λ ok.
        if-Triple ok nothing-Goes (close-Goes client)

handle_events-Triple :
    {n : ℕ} (server : ℕ) (ready : List ℕ)
    → Triple Echoed (Running Echoed n) (λ _. Running Echoed n) (handle_events server ready)
unfolding handle_events
handle_events-Triple server [] = pure-Triple Echoed λ p h. h
handle_events-Triple server (fd ∷ ready) =
    from_any (λ ds. if-Triple (fd == server) admit-Goes (echo-Goes fd)) then_do λ _.
    handle_events-Triple server ready

event_loop-Triple :
    (n server : ℕ) → Triple Echoed (Running Echoed n) (λ _ p. Echoed p.log) (event_loop n server)
unfolding event_loop
event_loop-Triple zero server = record { ends = λ p h. absurd (omega (arith, h.1)) }
event_loop-Triple (suc n) server = from_any (λ ds.
    ask-Triple Echoed (did epoll_wait) one_of (λ l h. h) then_do λ events.
    option-Triple (λ _. Stage Echoed n ds) events.value (record { ends = λ p h. h.logged })
      λ count.
        let round = handle_events-Triple server (take 10 events.payload) then_do λ _.
        event_loop-Triple n server in
        record { ends = λ p h. round.ends p (h.logged, h.fuelled) })

-- Whatever the calls answer, failed calls included, and whichever descriptors have an event: the loop of the
-- server with epoll sends every message that it receives back as it is, on the descriptor that it came from
-- and in order, but for the empty one, which is the end of a client; it returns, exits or waits in a call, and
-- a bound on its rounds above the number of answers is enough.
pub event_loop-Ensures :
    (n server : ℕ) (answers : List Answer) (descriptors : List ℕ)
    → length answers < n
    → Ensures
        (λ _ p. Echoed p.log)
        (Clean Echoed)
        (Waits Echoed)
        (event_loop n server (record { answers = answers; descriptors = descriptors; log = [] }))
event_loop-Ensures n server answers ds h = (event_loop-Triple n server).ends _ (refl, h)
