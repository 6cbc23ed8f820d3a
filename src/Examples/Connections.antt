-- ===== src/Examples/Connections.antt =====
-- The table of connections, the reset and the notifications, on concrete data.
use net_policy.Common.{
  Text, ℕ, false, some, [], ◌∷◌, refl, ◌≡◌, ◌↔◌, byte_at, arith, nat_eq, text_eq, length, ◌<◌,
}
use net_policy.Common.Maps.{lookup, contains_key}
use net_policy.Flow
use net_policy.Flow.{
  id_beq, segment_of, parse_segment, advance, on_tracked, seed_peer, start_flow, on_unknown,
  on_segment, on_packet_internal, kind_number, shared, on_packet, id_eq,
}
use net_policy.Common.{◌-◌}
use net_policy.Flow.{SharedDecision, evict_stale, stale_connection_timeout, ignore}
use net_policy.Flow.Evict.{listed}
use net_policy.Http.{Header, done}
use net_policy.Conn.{MicrosegConns, MicrosegEntry, evict_stale_conns}
use net_policy.Conn.Reaper.{evict_stale_conns_lem}
use net_policy.Rst.{rst_tcp_link}
use net_policy.Rst.Payload.{rst_tcp_link_lem}
use net_policy.Examples.{http, data_packet, flow_id, reply_id}

-- A decision of a kind about the flow.
abbrev decision : ℕ → SharedDecision
decision kind = record ignore {
  kind = kind;
  conn_id = flow_id;
  peer_conn_id = reply_id;
  payload_offset = 40;
}

abbrev entry : MicrosegEntry http
entry = record { conn = 112 ∷ []; last_seen = 3 }

abbrev conns : MicrosegConns http
conns = (flow_id, entry) ∷ []

abbrev seen : Header
seen = record { method = []; path = 65 ∷ []; host = []; parse_state = done }

evict_stale_conns_lem_example :
    (lookup flow_id (evict_stale_conns http Flow.new conns 10 10 8).1 ≡ some entry) ↔ (
      (lookup flow_id conns ≡ some entry)
      × (10 - entry.last_seen < 8)
      × (listed flow_id (evict_stale Flow.new 10 stale_connection_timeout).1 ≡ false))
unfolding contains_key lookup
evict_stale_conns_lem_example =
    evict_stale_conns_lem http Flow.new conns 10 10 8 flow_id entry (refl, tt)

rst_tcp_link_lem_example :
    (out : Text) × (rst_tcp_link data_packet ≡ some out)
    × (length out ≡ length data_packet)
    × (byte_at out 40 ≡ 0)
rst_tcp_link_lem_example =
    rst_tcp_link_lem data_packet 40
      (record {
        version = refl;
        protocol = refl;
        header = omega arith;
        checksum = omega arith;
        total = omega arith;
      })
      (omega arith) (omega arith)
