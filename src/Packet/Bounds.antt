-- ===== src/Packet/Bounds.antt =====
-- The packet parsers of crates/net_flow_engine/src/lib.rs: lengths, protocols and the
-- fields of a packet.
use net_policy.Packet.{
  Ipv4Header, TcpHeader, parse_ipv4_header, parse_tcp_header, parse_five_tuple, parse_ports,
  FiveTupleResult, ipproto_tcp, ipproto_udp, ipproto_icmp,
}
use net_policy.Common.{
  byte_at, ◌*◌, ℕ, ◌+◌, ◌/◌, ◌%◌, ◌≤◌, ◌≡◌, ◌⊎◌, true, some, ◌∷◌, Text, length, drop, length-drop,
  arith, Option-cases, inl, inr,
}

-- The header length that the IPv4 parser reports lies in the buffer.
pub parse_ipv4_header_bounds :
    (bytes : Text) (ip : Ipv4Header)
    → parse_ipv4_header bytes ≡ some ip
    → (20 ≤ ip.header_len) × (ip.header_len ≤ length bytes)
unfolding parse_ipv4_header
parse_ipv4_header_bounds bytes ip h = ground arith

-- The length of a TCP header, as its data offset states it.
abbrev pub data_offset : Text → ℕ
data_offset segment = byte_at segment 12 / 16 * 4

pub parse_tcp_header_bounds :
    (bytes : Text) (tcp : TcpHeader)
    → parse_tcp_header bytes ≡ some tcp
    → (20 ≤ tcp.header_len) × (tcp.header_len ≤ length bytes)
unfolding parse_tcp_header
parse_tcp_header_bounds bytes tcp h = ground arith

header_len-offset :
    (bytes : Text) (tcp : TcpHeader)
    → parse_tcp_header bytes ≡ some tcp
    → tcp.header_len ≡ data_offset bytes
unfolding parse_tcp_header
header_len-offset bytes tcp h = ground arith

-- What the three transport layers need of the buffer behind the IPv4 header.
abbrev pub TransportFits : FiveTupleResult → Text → Type 0
TransportFits r bytes =
    ((r.proto ≡ ipproto_tcp)
      × (20 ≤ data_offset (drop r.ip_header_len bytes))
      × (r.ip_header_len + data_offset (drop r.ip_header_len bytes) ≤ length bytes))
    ⊎ (((r.proto ≡ ipproto_udp) × (r.ip_header_len + 8 ≤ length bytes))
        ⊎ ((r.proto ≡ ipproto_icmp) × (r.src_port ≡ 0) × (r.dst_port ≡ 0)))

parse_ports_sound :
    (protocol : ℕ) (payload : Text) (p : ℕ × ℕ)
    → parse_ports protocol payload ≡ some p
    → ((protocol ≡ ipproto_tcp)
        × (20 ≤ data_offset payload)
        × (data_offset payload ≤ length payload))
      ⊎ (((protocol ≡ ipproto_udp) × (8 ≤ length payload))
          ⊎ ((protocol ≡ ipproto_icmp) × (p.0 ≡ 0) × (p.1 ≡ 0)))
unfolding parse_ports
parse_ports_sound protocol payload p h = elim (Option-cases (parse_tcp_header payload)) [
  | inl e ↦ ground arith
  | inr (tcp, e) ↦
      ground (arith, header_len-offset payload tcp e, parse_tcp_header_bounds payload tcp e)
]

-- A recognized packet is TCP, UDP or ICMP, and its headers lie in the buffer: the IPv4 header with its
-- options, the TCP header as far as its data offset says, which is 20 bytes at least, and the eight
-- bytes of a UDP header.
pub parse_five_tuple_sound :
    (bytes : Text)
    → (parse_five_tuple bytes).recognized ≡ true
    → (20 ≤ (parse_five_tuple bytes).ip_header_len)
      × ((parse_five_tuple bytes).ip_header_len ≤ length bytes)
      × TransportFits (parse_five_tuple bytes) bytes
unfolding parse_five_tuple
parse_five_tuple_sound bytes h = elim (Option-cases (parse_ipv4_header bytes)) [
  | inl e ↦ ground arith
  | inr (ip, e) ↦ elim (Option-cases (parse_ports ip.protocol (drop ip.header_len bytes))) [
    | inl e' ↦ ground arith
    | inr (p, e') ↦ ground (
      arith,
      parse_ipv4_header_bounds bytes ip e,
      parse_ports_sound ip.protocol (drop ip.header_len bytes) p e',
      length-drop ip.header_len bytes,
    )
  ]
]

-- The bytes of a TCP segment over IPv4 without options; fields the parser does not read are zero.
abbrev pub tcp_packet : (src dst sport dport seq flags : ℕ) → Text → Text
tcp_packet src dst sport dport seq flags payload =
    69
    ∷ 0
    ∷ ((40 + length payload) / 256)
    ∷ ((40 + length payload) % 256)
    ∷ 0
    ∷ 0
    ∷ 0
    ∷ 0
    ∷ 64
    ∷ 6
    ∷ 0
    ∷ 0
    ∷ (src % 256)
    ∷ (src / 256 % 256)
    ∷ (src / 65536 % 256)
    ∷ (src / 16777216)
    ∷ (dst % 256)
    ∷ (dst / 256 % 256)
    ∷ (dst / 65536 % 256)
    ∷ (dst / 16777216)
    ∷ (sport / 256)
    ∷ (sport % 256)
    ∷ (dport / 256)
    ∷ (dport % 256)
    ∷ (seq / 16777216)
    ∷ (seq / 65536 % 256)
    ∷ (seq / 256 % 256)
    ∷ (seq % 256)
    ∷ 0
    ∷ 0
    ∷ 0
    ∷ 0
    ∷ 80
    ∷ flags
    ∷ 0
    ∷ 0
    ∷ 0
    ∷ 0
    ∷ 0
    ∷ 0
    ∷ payload

-- The parser reads back the addresses, the ports and the total length of such a packet.
pub parse_five_tuple-tcp_packet :
    (src dst sport dport seq flags : ℕ) (payload : Text)
    → parse_five_tuple (tcp_packet src dst sport dport seq flags payload) ≡ record {
      proto = 6;
      tot_len = 40 + length payload;
      ip_header_len = 20;
      src_port = sport;
      dst_port = dport;
      src_addr = src;
      dst_addr = dst;
      recognized = true;
    }
unfolding parse_five_tuple parse_ports parse_ipv4_header parse_tcp_header
parse_five_tuple-tcp_packet src dst sport dport seq flags payload = ground arith
