-- ===== src/RawPackets/Programs.antt =====
-- `main` of rawClient.c, of rawClient2.c and of rawClient3.c.
use home_work.Base.{ℕ, zero, suc, ◌+◌, [], ◌∷◌, ◌++◌, none, some, length}
use home_work.Libc.{Bytes}
use home_work.Checksum.{checksum_loop, checksum_twice}
use home_work.Posix.{
  socket, raw, packet, set_header_included, hardware_address, interface_index, allocate, did, sent,
  Program, done, out_of_fuel, ◌>>=◌, ◌>>◌, ask, close, exit, check, give_up, open_or_give_up,
  receive, show_text,
}
use home_work.Text.{until_nul}
use home_work.RawPackets.{
  IpHeader, UdpHeader, ip_header, udp_header, ip_bytes, pseudogram, packet_of, text, htons,
  udp_bytes,
}

-- `checksum(...)`
unfoldable pub sum_of : Bytes → Program ℕ
unfolding checksum_loop
sum_of bytes p = elim (checksum_loop bytes) [ none ↦ out_of_fuel | some sum ↦ done sum p ]

abbrev pub loopback : Bytes
loopback = 127 ∷ 0 ∷ 0 ∷ 1 ∷ []

abbrev pub ip2 : IpHeader
ip2 = ip_header 255 loopback loopback

abbrev pub udp2 : UdpHeader
udp2 = udp_header 12346 12342

-- rawClient2.c
unfoldable pub loopback_main : Program (Unit {0})
unfolding open_or_give_up check sum_of close exit
loopback_main = do
  client_socket ← open_or_give_up [] (socket raw)
  check (client_socket ∷ []) (did set_header_included)
  ip_check ← sum_of (ip_bytes ip2)
  check (client_socket ∷ []) (did (allocate (12 + 8 + length text)))
  udp_check ← sum_of (pseudogram ip2 udp2)
  check (client_socket ∷ []) (sent (packet_of ip2 udp2 ip_check udp_check))
  close client_socket
  exit 0

-- CLIENT_IP and SERVER_IP of rawClient3.c
abbrev pub client_ip : Bytes
client_ip = 192 ∷ 168 ∷ 1 ∷ 2 ∷ []

abbrev pub server_ip : Bytes
server_ip = 192 ∷ 168 ∷ 1 ∷ 3 ∷ []

-- SERVER_MAC
abbrev pub server_mac : Bytes
server_mac = 160 ∷ 215 ∷ 104 ∷ 96 ∷ 91 ∷ 178 ∷ []

abbrev pub ip3 : IpHeader
ip3 = ip_header 64 client_ip server_ip

abbrev pub udp3 : UdpHeader
udp3 = udp_header 12342 12342

-- `eth_header` with the packet behind it; ETH_P_IP is 0x0800.
abbrev pub frame_of : (src_mac : Bytes) (ip_check udp_check : ℕ) → Bytes
frame_of src_mac ip_check udp_check =
    server_mac ++ src_mac ++ (8 ∷ 0 ∷ []) ++ packet_of ip3 udp3 ip_check udp_check

-- A byte of `ifr`, which was cleared before the call.
unfoldable pub byte_at : ℕ → Bytes → ℕ
byte_at n [] = 0
byte_at zero (b ∷ bytes) = b
byte_at (suc n) (b ∷ bytes) = byte_at n bytes

-- `memcpy(src_mac, ifr.ifr_hwaddr.sa_data, 6)`
abbrev pub mac_of : (sa_data : Bytes) → Bytes
mac_of sa_data =
    byte_at 0 sa_data
    ∷ byte_at 1 sa_data
    ∷ byte_at 2 sa_data
    ∷ byte_at 3 sa_data
    ∷ byte_at 4 sa_data
    ∷ byte_at 5 sa_data
    ∷ []

-- The address that the call delivers.
unfoldable pub read_mac : (sockfd : ℕ) → Program Bytes
unfolding ask give_up
read_mac sockfd = do
  a ← ask (did hardware_address)
  λ p. elim a.value [ none ↦ give_up (sockfd ∷ []) p | some n ↦ done (mac_of a.payload) p ]

-- rawClient3.c
unfoldable pub frame_main : Program (Unit {0})
unfolding open_or_give_up check sum_of read_mac close exit
frame_main = do
  sockfd ← open_or_give_up [] (socket packet)
  src_mac ← read_mac sockfd
  check (sockfd ∷ []) (did interface_index)
  ip_check ← sum_of (ip_bytes ip3)
  check (sockfd ∷ []) (did (allocate (12 + 8 + length text)))
  udp_check ← sum_of (pseudogram ip3 udp3)
  check (sockfd ∷ []) (sent (frame_of src_mac ip_check udp_check))
  close sockfd
  exit 0

-- "privet serverak", the contents of the buffer of rawClient.c.
abbrev pub first_text : Bytes
first_text =
    112 ∷ 114 ∷ 105 ∷ 118 ∷ 101 ∷ 116 ∷ 32 ∷ 115 ∷ 101 ∷ 114 ∷ 118 ∷ 101 ∷ 114 ∷ 97 ∷ 107 ∷ []

abbrev pub udp1 : UdpHeader
udp1 = record {
  source = htons 12346;
  dest = htons 12341;
  len = htons (8 + length first_text);
  check = 0;
}

-- The checksum is taken of the header and of what the stack holds behind it, `behind`, and not of the text.
unfoldable pub first_packet : (behind : Bytes) → Bytes
unfolding checksum_twice
first_packet behind =
    udp_bytes (record udp1 { check = checksum_twice (udp_bytes udp1 ++ behind) }) ++ first_text

-- rawClient.c
unfoldable pub first_main : (behind : Bytes) → Program (Unit {0})
unfolding open_or_give_up check receive close exit give_up first_packet until_nul
first_main behind = do
  client_socket ← open_or_give_up [] (socket raw)
  check (client_socket ∷ []) (sent (first_packet behind))
  received ← receive (length first_text)
  λ p. elim received [
    | none ↦ give_up (client_socket ∷ []) p
    | some message ↦ (do show_text (until_nul message); close client_socket; exit 0) p
  ]
