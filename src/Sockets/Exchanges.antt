-- ===== src/Sockets/Exchanges.antt =====
-- The echo servers of "16 work/socket work 1" when no call fails.
use home_work.Base.{ℕ, ◌<◌, ◌≡◌, List, [], ◌∷◌, ◌++◌, map, length}
use home_work.Libc.{Bytes}
use home_work.Posix.{Event, recv, did, got, blocked, done}
use home_work.Sockets.UdpInet.{serve}
use home_work.Sockets.TcpInet.{serve_client}
use home_work.Sockets.UdpInet.Serves.{exchanges, exchanged, serve-exchanges}
use home_work.Sockets.TcpInet.Serves.{whole, end_of_stream, serve_client-exchanges}

-- When no call fails and the bound on the rounds is above the number of messages: the datagram server
-- receives the messages one by one, each cut to 1,023 bytes, prints it, sends its string reversed, and waits
-- for the next; the stream server does so with the messages of a client, none of them empty, and returns at
-- the end of the stream.
pub both_exchanges :
    (rounds server : ℕ) (datagrams : List Bytes) (messages : List (ℕ × Bytes)) (ds : List ℕ)
    (log : List Event)
    → length datagrams < rounds
    → length messages < rounds
    → (serve rounds server (record { answers = exchanges datagrams; descriptors = ds; log = log })
        ≡ blocked (record {
          answers = [];
          descriptors = ds;
          log = did (recv 1023) ∷ exchanged datagrams log;
        }))
      × (serve_client rounds (record {
        answers = exchanges (map whole messages) ++ (end_of_stream ∷ []);
        descriptors = ds;
        log = log;
      })
          ≡ done tt (record {
            answers = [];
            descriptors = ds;
            log = got [] ∷ did (recv 1023) ∷ exchanged (map whole messages) log;
          }))
both_exchanges rounds server datagrams messages ds log h h' = (
  serve-exchanges rounds server datagrams ds log h,
  serve_client-exchanges rounds messages ds log h',
)
