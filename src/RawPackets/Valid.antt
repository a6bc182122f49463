-- ===== src/RawPackets/Valid.antt =====
-- The packets of rawClient.c, rawClient2.c and rawClient3.c, as their receiver checks them.
use home_work.Base.{
  ℕ, suc, ◌+◌, ◌*◌, ◌%◌, ◌<◌, ◌≡◌, refl, List, [], ◌∷◌, ◌++◌, some, Bool, true, arith, ◌==◌, ◌&&◌,
  length, take, drop,
}
use mathlib.Core.Path.{subst, sym}
use home_work.Libc.{Bytes, str_eq}
use home_work.Checksum.{sum_words, fold_loop, checksum_loop}
use home_work.Posix.{
  Answer, start, socket, raw, packet, set_header_included, hardware_address, interface_index,
  allocate, Event, did, got, sent, closed, shown, Process, Program, done,
}
use home_work.Posix.Ensures.{
  start-Stage, Ensures, Stage, none_of, IsQuiet, quiet_did, quiet_closed, Clean, Waits, Triple,
  ◌then_do◌,
}
use home_work.Posix.Rules.{
  ask-Triple, close-Triple, option-Triple, check-Triple, open_or_give_up-Triple, give_up-Triple,
  exit-Triple, Received, receive-Triple, show_text-Triple,
}
use home_work.Text.{until_nul}
use home_work.RawPackets.{ip_bytes, pseudogram, packet_of}
use home_work.RawPackets.Programs.{
  mac_of, sum_of, ip2, udp2, ip3, udp3, frame_of, read_mac, loopback_main, frame_main, first_text,
  first_packet, first_main,
}

-- A number of two bytes in the order of the network, at an offset.
abbrev pub number_at : (offset : ℕ) → Bytes → ℕ
number_at offset bytes = elim (drop offset bytes) [
  | [] ↦ 0
  | a ∷ rest ↦ elim rest [ [] ↦ a * 256 | b ∷ rest' ↦ a * 256 + b ]
]

-- The sum of the words in the order of the network.
unfoldable pub network_sum : Bytes → ℕ
network_sum [] = 0
network_sum (a ∷ []) = a * 256
network_sum (a ∷ b ∷ bytes) = a * 256 + b + network_sum bytes

-- An IP packet without options around one UDP datagram: both lengths are right, and both sums come to 0 in the
-- arithmetic of 16 bits with an end-around carry.
unfoldable pub is_datagram : Bytes → Bool
unfolding network_sum
is_datagram bytes =
    (number_at 0 bytes == 17664)
    && (number_at 2 bytes == length bytes)
    && (number_at 8 bytes % 256 == 17)
    && (network_sum (take 20 bytes) % 65535 == 0)
    && (number_at 24 bytes + 20 == length bytes)
    && (network_sum
            (take 8 (drop 12 bytes) ++ (0 ∷ 17 ∷ []) ++ take 2 (drop 24 bytes) ++ drop 20 bytes)
          % 65535
        == 0)

-- An Ethernet frame to the server around such a packet.
abbrev pub is_frame : Bytes → Bool
is_frame bytes =
    (number_at 0 bytes == 41175)
    && (number_at 2 bytes == 26720)
    && (number_at 4 bytes == 23474)
    && (number_at 12 bytes == 2048)
    && is_datagram (drop 14 bytes)

known :
    (bytes : Bytes) (sum : ℕ)
    → checksum_loop bytes ≡ some sum
    → (p : Process) → sum_of bytes p ≡ done sum p
unfolding sum_of
known bytes sum e p = rw (sum_of, e) refl

module _ (test : Bytes → Bool) where
  -- Everything that is sent passes the test.
  abbrev pub Sends : List Event → Type 0
  Sends [] = Unit {0}
  Sends (did c ∷ log) = Sends log
  Sends (got message ∷ log) = Sends log
  Sends (sent message ∷ log) = (test message ≡ true) × Sends log
  Sends (closed fd ∷ log) = Sends log
  Sends (shown line ∷ log) = Sends log

  Sends-quiet : (e : Event) (log : List Event) → IsQuiet e → Sends log → Sends (e ∷ log)
  Sends-quiet _ log quiet_did h = h
  Sends-quiet _ log quiet_closed h = h

  -- The result of the checksum is known.
  sum_of-Triple :
      {n : ℕ} {ds : List ℕ} (sum : ℕ) (bytes : Bytes)
      → checksum_loop bytes ≡ some sum
      → Triple Sends (Stage Sends n ds) (λ c p. (c ≡ sum) × Stage Sends n ds p) (sum_of bytes)
  sum_of-Triple {n = n} {ds = ds} sum bytes e = record {
    ends = λ p h.
        subst (Ensures (λ c q. (c ≡ sum) × Stage Sends n ds q) (Clean Sends) (Waits Sends))
          (sym (known bytes sum e p)) (refl, h);
  }

  given :
      {C : Type 0} {pre : Process → Type 0} {P : C → Process → Type 0} {m : Program C} {E : Type 0}
      → (E → Triple Sends pre P m)
      → Triple Sends (λ p. E × pre p) P m
  given t = record { ends = λ p h. (t (h.0)).ends p (h.1) }

ip2_sum : checksum_loop (ip_bytes ip2) ≡ some 36841
unfolding checksum_loop sum_words fold_loop
ip2_sum = refl

udp2_sum : checksum_loop (pseudogram ip2 udp2) ≡ some 44282
unfolding checksum_loop sum_words fold_loop
udp2_sum = refl

ip3_sum : checksum_loop (ip_bytes ip3) ≡ some 15651
unfolding checksum_loop sum_words fold_loop
ip3_sum = refl

udp3_sum : checksum_loop (pseudogram ip3 udp3) ≡ some 23925
unfolding checksum_loop sum_words fold_loop
udp3_sum = refl

packet2-is_datagram :
    (c d : ℕ) → c ≡ 36841 → d ≡ 44282 → is_datagram (packet_of ip2 udp2 c d) ≡ true
unfolding is_datagram network_sum
packet2-is_datagram c d e e' = rw (e, e') refl

packet3-is_datagram :
    (c d : ℕ) → c ≡ 15651 → d ≡ 23925 → is_datagram (packet_of ip3 udp3 c d) ≡ true
unfolding is_datagram network_sum
packet3-is_datagram c d e e' = rw (e, e') refl

-- An address of six bytes.
abbrev IsMac : Bytes → Type 0
IsMac mac = (payload : Bytes) × (mac ≡ mac_of payload)

frame-is_frame :
    (mac : Bytes) (c d : ℕ) → IsMac mac → c ≡ 15651 → d ≡ 23925 → is_frame (frame_of mac c d) ≡ true
frame-is_frame mac c d (payload, m) e e' = rw m (packet3-is_datagram c d e e')

loopback_main-Triple :
    (n : ℕ) → Triple (Sends is_datagram) (Stage (Sends is_datagram) n []) (λ _ p. ⊥) loopback_main
unfolding loopback_main
loopback_main-Triple n =
    let q = Sends-quiet is_datagram in
    open_or_give_up-Triple q (socket raw) none_of then_do λ s.
    check-Triple q (did set_header_included) none_of (λ l h. h) then_do λ _.
    sum_of-Triple is_datagram 36841 (ip_bytes ip2) ip2_sum then_do λ c. given is_datagram λ e.
      check-Triple q (did (allocate 33)) none_of (λ l h. h) then_do λ _.
      sum_of-Triple is_datagram 44282 (pseudogram ip2 udp2) udp2_sum then_do λ d.
      given is_datagram λ e'.
        check-Triple q (sent (packet_of ip2 udp2 c d)) none_of
          (λ l h. (packet2-is_datagram c d e e', h))
        then_do λ _. close-Triple (Sends is_datagram) (λ l h. h) then_do λ _. exit-Triple 0

read_mac-Triple :
    {n : ℕ} (s : ℕ)
    → Triple
        (Sends is_frame)
        (Stage (Sends is_frame) n (s ∷ []))
        (λ mac p. IsMac mac × Stage (Sends is_frame) n (s ∷ []) p)
        (read_mac s)
unfolding read_mac
read_mac-Triple {n = n} s =
    ask-Triple (Sends is_frame) (did hardware_address) none_of (λ l h. h) then_do λ a.
    option-Triple (λ _. Stage (Sends is_frame) n (s ∷ [])) a.value
      (give_up-Triple (Sends-quiet is_frame) (s ∷ []))
      λ _. record { ends = λ p h. ((a.payload, refl), h) }

frame_main-Triple :
    (n : ℕ) → Triple (Sends is_frame) (Stage (Sends is_frame) n []) (λ _ p. ⊥) frame_main
unfolding frame_main
frame_main-Triple n =
    let q = Sends-quiet is_frame in
    open_or_give_up-Triple q (socket packet) none_of then_do λ s. read_mac-Triple s then_do λ mac.
    given is_frame λ m. check-Triple q (did interface_index) none_of (λ l h. h) then_do λ _.
    sum_of-Triple is_frame 15651 (ip_bytes ip3) ip3_sum then_do λ c. given is_frame λ e.
      check-Triple q (did (allocate 33)) none_of (λ l h. h) then_do λ _.
      sum_of-Triple is_frame 23925 (pseudogram ip3 udp3) udp3_sum then_do λ d. given is_frame λ e'.
        check-Triple q (sent (frame_of mac c d)) none_of (λ l h. (frame-is_frame mac c d m e e', h))
        then_do λ _. close-Triple (Sends is_frame) (λ l h. h) then_do λ _. exit-Triple 0

-- A datagram from port 12346 to port 12341 of the length in its header, with the text of rawClient.c.
unfoldable pub is_headed : Bytes → Bool
unfolding str_eq
is_headed bytes =
    (number_at 0 bytes == 12346)
    && (number_at 2 bytes == 12341)
    && (number_at 4 bytes == length bytes)
    && str_eq (drop 8 bytes) first_text

first_packet-is_headed : (behind : Bytes) → is_headed (first_packet behind) ≡ true
unfolding is_headed first_packet str_eq
first_packet-is_headed behind = refl

first_main-Triple :
    {n : ℕ} (behind : Bytes)
    → Triple (Sends is_headed) (Stage (Sends is_headed) n []) (λ _ p. ⊥) (first_main behind)
unfolding first_main
first_main-Triple {n = n} behind =
    let q = Sends-quiet is_headed in
    open_or_give_up-Triple q (socket raw) none_of then_do λ s.
    check-Triple q (sent (first_packet behind)) none_of (λ l h. (first_packet-is_headed behind, h))
    then_do λ _. receive-Triple q (λ _. Sends is_headed) (λ _ l h. h) 15 none_of then_do λ received.
        option-Triple (Received (Sends is_headed) (λ _. Sends is_headed) n (s ∷ [])) received
          (give_up-Triple q (s ∷ []))
          λ message. show_text-Triple (Sends is_headed) (until_nul message) (λ l h. h) then_do λ _.
            close-Triple (Sends is_headed) (λ l h. h) then_do λ _. exit-Triple 0

-- Whatever the calls answer, what rawClient2.c sends is an IP packet around a UDP datagram, and what
-- rawClient3.c sends is a frame to the server around one, in which both lengths and both checksums are right
-- for the receiver; what rawClient.c sends is a UDP datagram with the right length, ports and text, whatever
-- is in the memory behind its header. Each leaves only by an exit with its socket closed, or waits in a
-- call, and the loop of `checksum` ends.
pub raw_clients-Ensures :
    (behind : Bytes) (answers : List Answer)
    → Ensures
        (λ _ p. ⊥)
        (Clean (Sends is_datagram))
        (Waits (Sends is_datagram))
        (loopback_main (start answers))
      × Ensures
          (λ _ p. ⊥)
          (Clean (Sends is_frame))
          (Waits (Sends is_frame))
          (frame_main (start answers))
      × Ensures
          (λ _ p. ⊥)
          (Clean (Sends is_headed))
          (Waits (Sends is_headed))
          (first_main behind (start answers))
raw_clients-Ensures behind answers =
    let enough : length answers < suc (length answers) = omega arith in
    (
      (loopback_main-Triple (suc (length answers))).ends (start answers) (start-Stage tt enough),
      (frame_main-Triple (suc (length answers))).ends (start answers) (start-Stage tt enough),
      (first_main-Triple behind).ends (start answers) (start-Stage tt enough),
    )
