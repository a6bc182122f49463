-- ===== src/Sockets/Multiplex.antt =====
-- "16 work/socket work 2/multiplexServer.c": one process that waits on a stream and a datagram socket.
-- The payload of the answer to `select` is the set of the descriptors that are ready.
pub mod Closes
use home_work.Base.{
  ℕ, zero, suc, List, [], ◌∷◌, Option, none, some, Bool, true, false, if◌then◌else◌, leb, length,
  take, ◌==◌, not, ◌++◌, replicate,
}
use home_work.Libc.{Bytes}
use home_work.Posix.{
  Answer, Address, any_at, inet, stream, datagram, Call, socket, bind, connect, listen, recv, watch,
  accept, set_broadcast, join_group, select, epoll_create, epoll_wait, sleep, read_line,
  thread_create, Event, did, got, sent, shown, Process, Run, done, out_of_rounds, fault, Program,
  ◌>>=◌, ◌>>◌, pure, ask, open_with, succeeds, receive, close, close_all, show_text, exit, give_up,
  check, open_or_give_up,
}
use home_work.Sockets.{overlay, is_empty}
use home_work.Text.{until_nul}

-- `FD_ISSET`
abbrev pub is_set : ℕ → List ℕ → Bool
is_set fd [] = false
is_set fd (x ∷ set) = if x == fd then true else is_set fd set

-- The string at the buffer, which is cleared before each read, with the bytes behind it in memory: a message of
-- 1024 bytes without a NUL runs on into them.
unfoldable pub buffer_text : (received : Option Bytes) (behind : Bytes) → Bytes
unfolding until_nul overlay
buffer_text none behind = until_nul (replicate 1024 0 ++ behind)
buffer_text (some message) behind = until_nul (overlay message (replicate 1024 0) ++ behind)

-- `behind log` stands behind the buffer in memory after what the log tells.
module _ (behind : List Event → Bytes) where
  -- A failed `read` leaves the buffer as it was cleared.
  unfoldable pub serve_stream : (tcp udp : ℕ) → Program (Unit {0})
  unfolding ask open_with succeeds receive close close_all exit give_up check open_or_give_up
      until_nul overlay buffer_text
  serve_stream tcp udp = do
    new ← open_or_give_up (tcp ∷ udp ∷ []) accept
    received ← receive 1024
    λ p. show_text (buffer_text received (behind p.log)) p
    close new

  unfoldable pub serve_datagram : (tcp udp : ℕ) → Program (Unit {0})
  unfolding ask open_with succeeds receive close close_all exit give_up check open_or_give_up
      until_nul overlay buffer_text
  serve_datagram tcp udp = do
    received ← receive 1024
    λ p. elim received [
      | none ↦ give_up (tcp ∷ udp ∷ []) p
      | some message ↦ show_text (buffer_text (some message) (behind p.log)) p
    ]

  unfoldable pub select_loop : (rounds tcp udp : ℕ) → Program (Unit {0})
  unfolding ask open_with succeeds receive close close_all exit give_up check open_or_give_up
      until_nul overlay buffer_text serve_stream serve_datagram
  select_loop zero tcp udp = out_of_rounds
  select_loop (suc rounds) tcp udp = do
    ready ← ask (did select)
    λ p. elim ready.value [
      | none ↦ give_up (tcp ∷ udp ∷ []) p
      | some activity ↦
          (do
            if is_set tcp ready.payload then serve_stream tcp udp else pure tt
            if is_set udp ready.payload then serve_datagram tcp udp else pure tt
            select_loop rounds tcp udp)
            p
    ]

  unfoldable pub server_main : (rounds : ℕ) → Program (Unit {0})
  unfolding ask open_with succeeds receive close close_all exit give_up check open_or_give_up
      until_nul overlay select_loop
  server_main rounds = do
    tcp ← open_or_give_up [] (socket stream)
    check (tcp ∷ []) (did (bind (any_at 3030)))
    check (tcp ∷ []) (did (listen 5))
    udp ← open_or_give_up (tcp ∷ []) (socket datagram)
    check (tcp ∷ udp ∷ []) (did (bind (any_at 2020)))
    select_loop rounds tcp udp
    close tcp
    close udp
    exit 0
