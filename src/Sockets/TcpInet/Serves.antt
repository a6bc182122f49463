-- ===== src/Sockets/TcpInet/Serves.antt =====
-- Runs of the server of "16 work/socket work 1/tcp_inet" in which no call fails.
use home_work.Base.{
  ℕ, zero, suc, ◌<◌, ◌≡◌, refl, List, [], ◌∷◌, ◌++◌, map, some, length, take, arith,
}
use home_work.Libc.{Bytes}
use home_work.Posix.{
  Answer, Event, did, got, sent, shown, recv, done, ask, succeeds, receive, check,
}
use home_work.Text.{until_nul}
use home_work.Sockets.{reverse_message}
use home_work.Sockets.Messages.{mirrored}
use home_work.Sockets.UdpInet.Serves.{exchanges, exchanged, reverse_buffer-done}
use home_work.Sockets.TcpInet.{serve_client}

-- A message of at least one byte.
abbrev pub whole : ℕ × Bytes → Bytes
whole message = message.0 ∷ message.1

-- The end of the stream.
abbrev pub end_of_stream : Answer
end_of_stream = record { value = some 0; payload = [] }

-- When no call fails and no message is empty, the stream server receives the messages of a client one by one,
-- each cut to 1,023 bytes, prints it, sends its string reversed, and returns at the end of the stream.
pub serve_client-exchanges :
    (rounds : ℕ) (messages : List (ℕ × Bytes)) (ds : List ℕ) (log : List Event)
    → length messages < rounds
    → serve_client rounds (record {
      answers = exchanges (map whole messages) ++ (end_of_stream ∷ []);
      descriptors = ds;
      log = log;
    })
      ≡ done tt (record {
        answers = [];
        descriptors = ds;
        log = got [] ∷ did (recv 1023) ∷ exchanged (map whole messages) log;
      })
unfolding serve_client receive ask succeeds check reverse_message
serve_client-exchanges zero messages ds log h = absurd (omega arith)
serve_client-exchanges (suc rounds) [] ds log h = refl
serve_client-exchanges (suc rounds) (message ∷ messages) ds log h =
    let cut : Bytes = take 1023 (whole message) in
    rw (reverse_buffer-done (until_nul cut)) (
      serve_client-exchanges rounds messages ds
        (sent (mirrored cut) ∷ shown (until_nul cut) ∷ got cut ∷ did (recv 1023) ∷ log)
        (omega arith))
