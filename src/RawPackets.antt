-- ===== src/RawPackets.antt =====
-- The packets that rawClient.c, rawClient2.c and rawClient3.c of "16 work/socket work 4" build byte by byte and
-- send, on a little-endian memory.
pub mod Programs
pub mod Valid
mod Examples
use home_work.Base.{
  ℕ, zero, suc, ◌+◌, ◌*◌, ◌/◌, ◌%◌, List, [], ◌∷◌, ◌++◌, Option, none, some, length,
}
use home_work.Libc.{Bytes}

-- `htons`
abbrev pub htons : ℕ → ℕ
htons n = n % 256 * 256 + n / 256 % 256

-- A `uint16_t` in memory.
abbrev pub word : ℕ → Bytes
word n = n % 256 ∷ n / 256 % 256 ∷ []

-- `struct iphdr`; an address is its four bytes, as `inet_addr` puts them into memory.
pub record IpHeader : Type 0 where
  pub version : ℕ
  pub ihl : ℕ
  pub tos : ℕ
  pub tot_len : ℕ
  pub id : ℕ
  pub frag_off : ℕ
  pub ttl : ℕ
  pub protocol : ℕ
  pub check : ℕ
  pub saddr : Bytes
  pub daddr : Bytes

-- `struct udphdr`
pub record UdpHeader : Type 0 where
  pub source : ℕ
  pub dest : ℕ
  pub len : ℕ
  pub check : ℕ

pub record PseudoHeader : Type 0 where
  pub src_addr : Bytes
  pub dst_addr : Bytes
  pub zero_byte : ℕ
  pub protocol : ℕ
  pub udp_length : ℕ

abbrev pub ip_bytes : IpHeader → Bytes
ip_bytes h =
    (h.version * 16 + h.ihl) ∷ h.tos ∷ word h.tot_len
    ++ word h.id
    ++ word h.frag_off
    ++ (h.ttl ∷ h.protocol ∷ [])
    ++ word h.check
    ++ h.saddr
    ++ h.daddr

abbrev pub udp_bytes : UdpHeader → Bytes
udp_bytes h = word h.source ++ word h.dest ++ word h.len ++ word h.check

abbrev pub pseudo_bytes : PseudoHeader → Bytes
pseudo_bytes h = h.src_addr ++ h.dst_addr ++ (h.zero_byte ∷ h.protocol ∷ []) ++ word h.udp_length

-- "privet servak"
abbrev pub text : Bytes
text = 112 ∷ 114 ∷ 105 ∷ 118 ∷ 101 ∷ 116 ∷ 32 ∷ 115 ∷ 101 ∷ 114 ∷ 118 ∷ 97 ∷ 107 ∷ []

-- The headers before their checksums are known.
abbrev pub ip_header : (ttl : ℕ) (saddr daddr : Bytes) → IpHeader
ip_header ttl saddr daddr = record {
  version = 4;
  ihl = 5;
  tos = 0;
  tot_len = htons (20 + 8 + length text);
  id = htons 54321;
  frag_off = 0;
  ttl = ttl;
  protocol = 17;
  check = 0;
  saddr = saddr;
  daddr = daddr;
}

abbrev pub udp_header : (source dest : ℕ) → UdpHeader
udp_header source dest = record {
  source = htons source;
  dest = htons dest;
  len = htons (8 + length text);
  check = 0;
}

abbrev pub pseudo_header : IpHeader → UdpHeader → PseudoHeader
pseudo_header ip udp = record {
  src_addr = ip.saddr;
  dst_addr = ip.daddr;
  zero_byte = 0;
  protocol = 17;
  udp_length = udp.len;
}

-- What the checksum of the datagram is taken of.
abbrev pub pseudogram : IpHeader → UdpHeader → Bytes
pseudogram ip udp = pseudo_bytes (pseudo_header ip udp) ++ udp_bytes udp ++ text

-- The packet, with both checksums in their places.
abbrev pub packet_of : (ip : IpHeader) (udp : UdpHeader) (ip_check udp_check : ℕ) → Bytes
packet_of ip udp ip_check udp_check =
    ip_bytes (record ip { check = ip_check })
    ++ udp_bytes (record udp { check = udp_check })
    ++ text
