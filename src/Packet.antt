-- ===== src/Packet.antt =====
-- Packet parsing: crates/net_flow_engine/src/lib.rs (parse_ipv4_header, parse_tcp_header,
-- parse_five_tuple_internal). A buffer is the list of its bytes. The addresses are read by
-- `from_ne_bytes`; the model reads them for a little-endian machine.
pub mod Bounds
use net_policy.Common.{
  ℕ, suc, ◌+◌, ◌*◌, ◌/◌, ◌%◌, Bool, true, false, ◌||◌, Option, none, some, List, [], ◌∷◌, ltb, ◌==◌,
  if◌then◌else◌, Text, length, drop, byte_at, nat_eq,
}

abbrev pub ipv4_hdr_min_len : ℕ
ipv4_hdr_min_len = 20

abbrev pub tcp_hdr_min_len : ℕ
tcp_hdr_min_len = 20

abbrev pub udp_hdr_len : ℕ
udp_hdr_len = 8

abbrev pub ipproto_icmp : ℕ
ipproto_icmp = 1

abbrev pub ipproto_tcp : ℕ
ipproto_tcp = 6

abbrev pub ipproto_udp : ℕ
ipproto_udp = 17

pub record Ipv4Header : Type 0 where
  pub header_len : ℕ
  pub protocol : ℕ
  pub saddr : ℕ
  pub daddr : ℕ
  pub tot_len : ℕ

pub record TcpHeader : Type 0 where
  pub header_len : ℕ
  pub source : ℕ
  pub dest : ℕ
  pub seq : ℕ
  pub syn : Bool
  pub fin : Bool
  pub rst : Bool

-- `u16::from_be_bytes`, `u32::from_be_bytes` and `u32::from_ne_bytes` at an offset.
abbrev u16_be : Text → ℕ → ℕ
u16_be b i = byte_at b i * 256 + byte_at b (i + 1)

abbrev u32_be : Text → ℕ → ℕ
u32_be b i =
    byte_at b i * 16777216 + byte_at b (i + 1) * 65536 + byte_at b (i + 2) * 256 + byte_at b (i + 3)

abbrev u32_ne : Text → ℕ → ℕ
u32_ne b i =
    byte_at b (i + 3) * 16777216 + byte_at b (i + 2) * 65536 + byte_at b (i + 1) * 256 + byte_at b i

-- `flags & (1 << k) != 0` for the bit of value `unit`.
abbrev bit_set : ℕ → ℕ → Bool
bit_set flags unit = (flags / unit) % 2 == 1

unfoldable pub parse_ipv4_header : Text → Option Ipv4Header
parse_ipv4_header bytes =
    if ltb (length bytes) ipv4_hdr_min_len
    then none
    else let header_len = (byte_at bytes 0 % 16) * 4 in
      if ltb header_len ipv4_hdr_min_len || ltb (length bytes) header_len
      then none
      else some (record {
        header_len = header_len;
        protocol = byte_at bytes 9;
        saddr = u32_ne bytes 12;
        daddr = u32_ne bytes 16;
        tot_len = u16_be bytes 2;
      })

unfoldable pub parse_tcp_header : Text → Option TcpHeader
parse_tcp_header bytes =
    if ltb (length bytes) tcp_hdr_min_len
    then none
    else let header_len = (byte_at bytes 12 / 16) * 4 in
      if ltb header_len tcp_hdr_min_len || ltb (length bytes) header_len
      then none
      else let flags = byte_at bytes 13 in
        some (record {
          header_len = header_len;
          source = u16_be bytes 0;
          dest = u16_be bytes 2;
          seq = u32_be bytes 4;
          syn = bit_set flags 2;
          fin = bit_set flags 1;
          rst = bit_set flags 4;
        })

pub record FiveTupleResult : Type 0 where
  pub proto : ℕ
  pub tot_len : ℕ
  pub ip_header_len : ℕ
  pub src_port : ℕ
  pub dst_port : ℕ
  pub src_addr : ℕ
  pub dst_addr : ℕ
  pub recognized : Bool

-- `FiveTupleResult::default()`.
abbrev pub unrecognized : FiveTupleResult
unrecognized = record {
  proto = 0;
  tot_len = 0;
  ip_header_len = 0;
  src_port = 0;
  dst_port = 0;
  src_addr = 0;
  dst_addr = 0;
  recognized = false;
}

-- The ports that follow the IPv4 header, by protocol; `none` where the packet is rejected.
unfoldable pub parse_ports : ℕ → Text → Option (ℕ × ℕ)
parse_ports protocol payload =
    if protocol == ipproto_tcp
    then elim (parse_tcp_header payload) [ none ↦ none | some tcp ↦ some (tcp.source, tcp.dest) ]
    else if protocol == ipproto_udp
    then if ltb (length payload) udp_hdr_len
      then none
      else some (u16_be payload 0, u16_be payload 2)
    else if protocol == ipproto_icmp
    then some (0, 0)
    else none

unfoldable pub parse_five_tuple : Text → FiveTupleResult
unfolding parse_ports
parse_five_tuple bytes = elim (parse_ipv4_header bytes) [
  | none ↦ unrecognized
  | some ip ↦ elim (parse_ports ip.protocol (drop ip.header_len bytes)) [
    | none ↦ unrecognized
    | some (src_port, dst_port) ↦ record {
      proto = ip.protocol;
      tot_len = ip.tot_len;
      ip_header_len = ip.header_len;
      src_port = src_port;
      dst_port = dst_port;
      src_addr = ip.saddr;
      dst_addr = ip.daddr;
      recognized = true;
    }
  ]
]
