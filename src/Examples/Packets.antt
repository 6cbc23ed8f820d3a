-- ===== src/Examples/Packets.antt =====
-- Packets and flows, on concrete bytes.
use net_policy.Common.{ℕ, Bool, true, false, [], ◌∷◌, refl, ◌≤◌, nat_eq, text_eq, length, Unique}
use net_policy.Packet.{parse_ipv4_header, parse_tcp_header, parse_ports, parse_five_tuple}
use net_policy.Flow
use net_policy.Flow.{
  id_beq, segment_of, parse_segment, advance, on_tracked, seed_peer, start_flow, on_unknown,
  on_segment, on_packet_internal, kind_number, shared, on_packet, id_eq,
}
use net_policy.Flow.{
  Segment, ConnectionId, new_connection, closed, tracked_data, duplicate, evict_stale,
}
use net_policy.Flow.Pairing.{run_packets, run_packets-new, IsPaired}
use net_policy.Flow.Lifecycle.{IsSyn}
use net_policy.Packet.{TcpHeader}
use net_policy.Packet.Bounds.{parse_five_tuple_sound, TransportFits}
use net_policy.Examples.{syn_packet, data_packet, flow_id, reply_id}

-- A segment of a direction with a sequence number and flags.
abbrev segment : ConnectionId → ConnectionId → TcpHeader → Segment
segment id peer_id tcp = record {
  id = id;
  peer_id = peer_id;
  tcp = tcp;
  ip_header_len = 20;
  payload_offset = 40;
  total_len = 40;
}

abbrev header : ℕ → Bool → Bool → TcpHeader
header seq syn fin = record {
  source = 100;
  dest = 80;
  seq = seq;
  header_len = 20;
  syn = syn;
  fin = fin;
  rst = false;
}

abbrev syn_segment : ℕ → Segment
syn_segment seq = segment flow_id reply_id (header seq true false)

abbrev syn_segment-IsSyn : (seq : ℕ) → IsSyn (syn_segment seq)
syn_segment-IsSyn seq = record { syn = refl; fin = refl; rst = refl }

parse_five_tuple_sound_example :
    (20 ≤ (parse_five_tuple syn_packet).ip_header_len)
    × ((parse_five_tuple syn_packet).ip_header_len ≤ length syn_packet)
    × TransportFits (parse_five_tuple syn_packet) syn_packet
unfolding parse_ipv4_header parse_tcp_header parse_ports parse_five_tuple
parse_five_tuple_sound_example = parse_five_tuple_sound syn_packet refl

run_packets-new_example :
    let e = run_packets Flow.new ((syn_packet, 0) ∷ ((data_packet, 1) ∷ [])) in
    Unique e.tcbs × IsPaired e.tcbs
run_packets-new_example = run_packets-new ((syn_packet, 0) ∷ ((data_packet, 1) ∷ []))
