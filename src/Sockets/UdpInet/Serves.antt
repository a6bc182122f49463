-- ===== src/Sockets/UdpInet/Serves.antt =====
-- Runs of the server of "16 work/socket work 1/udp_inet" in which no call fails.
use home_work.Base.{
  ℕ, zero, suc, ◌<◌, ◌≡◌, refl, ap, reverse, List, [], ◌∷◌, none, some, length, take, arith,
}
use home_work.Libc.{Bytes}
use home_work.Posix.{
  Answer, Event, did, got, sent, shown, recv, Process, Run, blocked, done, fault, ask, succeeds,
  receive, check,
}
use home_work.Text.{until_nul}
use home_work.Text.Reverse.{reverse_string-reverse}
use home_work.Sockets.{reverse_message, reverse_buffer}
use home_work.Sockets.Messages.{mirrored}
use home_work.Sockets.UdpInet.{serve}

-- Each message is received, and its reply is sent.
abbrev pub exchanges : List Bytes → List Answer
exchanges [] = []
exchanges (message ∷ messages) =
    record { value = some (length message); payload = message }
    ∷ record { value = some (length message); payload = [] }
    ∷ exchanges messages

-- The events of the exchanges, the newest first.
abbrev pub exchanged : List Bytes → List Event → List Event
exchanged [] log = log
exchanged (message ∷ messages) log = exchanged messages (
    sent (mirrored (take 1023 message))
    ∷ shown (until_nul (take 1023 message))
    ∷ got (take 1023 message)
    ∷ did (recv 1023)
    ∷ log)

pub reverse_buffer-done : (b : Bytes) (p : Process) → reverse_buffer b p ≡ done (reverse b) p
unfolding reverse_buffer
reverse_buffer-done b p =
    ap (λ o. elim o as (λ _. Run Bytes) [ none ↦ fault | some c ↦ done c p ])
      (reverse_string-reverse b)

-- When no call fails, the datagram server receives the messages one by one, each cut to 1,023 bytes, prints
-- it, sends its string reversed, and waits for the next.
pub serve-exchanges :
    (rounds server : ℕ) (messages : List Bytes) (ds : List ℕ) (log : List Event)
    → length messages < rounds
    → serve rounds server (record { answers = exchanges messages; descriptors = ds; log = log })
      ≡ blocked (record {
        answers = [];
        descriptors = ds;
        log = did (recv 1023) ∷ exchanged messages log;
      })
unfolding serve receive ask succeeds check reverse_message
serve-exchanges zero server messages ds log h = absurd (omega arith)
serve-exchanges (suc rounds) server [] ds log h = refl
serve-exchanges (suc rounds) server (message ∷ messages) ds log h =
    rw (reverse_buffer-done (until_nul (take 1023 message))) (
      serve-exchanges rounds server messages ds
        (sent (mirrored (take 1023 message))
          ∷ shown (until_nul (take 1023 message))
          ∷ got (take 1023 message)
          ∷ did (recv 1023)
          ∷ log)
        (omega arith))
