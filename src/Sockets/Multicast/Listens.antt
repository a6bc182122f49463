-- ===== src/Sockets/Multicast/Listens.antt =====
-- The messages and the descriptors of "16 work/socket work 3/multicast_client.c".
use home_work.Base.{ℕ, ◌<◌, refl, List, [], length}
use home_work.Libc.{Bytes}
use home_work.Posix.{Answer, start, any_at, datagram, socket, bind, join_group, did}
use home_work.Posix.Ensures.{Ensures, Stage, start-Stage, none_of, Triple, Clean, Waits, ◌then_do◌}
use home_work.Posix.Rules.{close-Triple, check-Triple, open_or_give_up-Triple, exit-Triple}
use home_work.Sockets.Broadcast.Sends.{IsSilent, IsSilent-quiet, listen_loop-Triple}
use home_work.Sockets.Multicast.{client_main}

client_main-Triple :
    (n : ℕ) (buffer : Bytes)
    → Triple IsSilent (Stage IsSilent n []) (λ _ p. ⊥) (client_main n buffer)
unfolding client_main
client_main-Triple n buffer =
    open_or_give_up-Triple IsSilent-quiet (socket datagram) none_of then_do λ sock.
    check-Triple IsSilent-quiet (did (bind (any_at 8080))) none_of (λ l h. h) then_do λ _.
    check-Triple IsSilent-quiet (did join_group) none_of (λ l h. h) then_do λ _.
    listen_loop-Triple n sock buffer then_do λ _.
    close-Triple IsSilent (λ l h. h) then_do λ _. exit-Triple 0

-- Whatever the calls answer, the multicast client sends nothing; it leaves only by an exit with its socket
-- closed, or waits in a call, and a bound on its rounds above the number of answers is enough.
pub multicast_client-Ensures :
    (n : ℕ) (buffer : Bytes) (answers : List Answer)
    → length answers < n
    → Ensures (λ _ p. ⊥) (Clean IsSilent) (Waits IsSilent) (client_main n buffer (start answers))
multicast_client-Ensures n buffer answers h =
    (client_main-Triple n buffer).ends (start answers) (start-Stage refl h)
