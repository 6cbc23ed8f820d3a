-- ===== src/Flow.antt =====
-- The TCP flow table of crates/net_flow_engine/src/lib.rs (FlowEngine), and what its C++ callers
-- see of it through the bridge. A time is a number of
-- nanoseconds of the monotonic clock.
pub mod Pairing
pub mod Lifecycle
pub mod Evict
use net_policy.Common.{
  ℕ, ◌+◌, ◌-◌, ◌*◌, ◌%◌, ◌^◌, Bool, true, false, ◌&&◌, ◌||◌, not, Option, none, some, List, map,
  ltb, leb, nat_beq, ◌==◌, KeyEq, if◌then◌else◌, Text, length, drop, Map, arith, ◌≡◌, ◌↔◌, nat_eq,
}
use net_policy.Common.Maps.{lookup, contains_key, insert, erase, retain}
use net_policy.Packet.{Ipv4Header, TcpHeader, ipproto_tcp, parse_ipv4_header, parse_tcp_header}

pub record ConnectionId : Type 0 where
  pub local_ip : ℕ
  pub foreign_ip : ℕ
  pub local_port : ℕ
  pub foreign_port : ℕ

unfoldable pub id_beq : ConnectionId → ConnectionId → Bool
id_beq a b =
    nat_beq a.local_ip b.local_ip
    && (nat_beq a.foreign_ip b.foreign_ip
        && (nat_beq a.local_port b.local_port && nat_beq a.foreign_port b.foreign_port))

pub id_beq_iff : (a b : ConnectionId) → (id_beq a b ≡ true) ↔ (a ≡ b)
unfolding id_beq
id_beq_iff a b = ground arith

instance abbrev pub id_eq : KeyEq ConnectionId
id_eq = record { same = id_beq; same_iff = id_beq_iff }

pub record FlowState : Type 0 where
  pub seq : ℕ
  pub server_side : Bool
  pub last_seen : ℕ

pub data PacketKind : Type 0 where
  new_connection closed tracked_data duplicate unknown_data : PacketKind

pub record PacketDecision : Type 0 where
  pub kind : PacketKind
  pub conn_id : ConnectionId
  pub peer_conn_id : ConnectionId
  pub peer_is_new : Bool
  pub ip_header_len : ℕ
  pub payload_offset : ℕ
  pub syn : Bool

abbrev pub Tcbs : Type 0
Tcbs = Map ConnectionId FlowState

pub record FlowEngine : Type 0 where
  pub tcbs : Tcbs

unfoldable pub new : FlowEngine
new = record { tcbs = List.[] }

-- The two directions of a flow, and the offsets, of one parsed segment.
pub record Segment : Type 0 where
  pub id : ConnectionId
  pub peer_id : ConnectionId
  pub tcp : TcpHeader
  pub ip_header_len : ℕ
  pub payload_offset : ℕ
  pub total_len : ℕ

unfoldable pub segment_of : Text → Ipv4Header → TcpHeader → Segment
segment_of bytes ip tcp = record {
  id = record {
    local_ip = ip.saddr;
    foreign_ip = ip.daddr;
    local_port = tcp.source;
    foreign_port = tcp.dest;
  };
  peer_id = record {
    local_ip = ip.daddr;
    foreign_ip = ip.saddr;
    local_port = tcp.dest;
    foreign_port = tcp.source;
  };
  tcp = tcp;
  ip_header_len = ip.header_len;
  payload_offset = ip.header_len + tcp.header_len;
  total_len = length bytes;
}

-- The two early `?` returns and the protocol test.
unfoldable pub parse_segment : Text → Option Segment
unfolding segment_of
parse_segment bytes = elim (parse_ipv4_header bytes) [
  | none ↦ none
  | some ip ↦
      if ip.protocol == ipproto_tcp
      then elim (parse_tcp_header (drop ip.header_len bytes)) [
        | none ↦ none
        | some tcp ↦ some (segment_of bytes ip tcp)
      ]
      else none
]

abbrev decide_as : PacketKind → Segment → Bool → ℕ → ℕ → Bool → PacketDecision
decide_as kind s peer_is_new ip_header_len payload_offset syn = record {
  kind = kind;
  conn_id = s.id;
  peer_conn_id = s.peer_id;
  peer_is_new = peer_is_new;
  ip_header_len = ip_header_len;
  payload_offset = payload_offset;
  syn = syn;
}

abbrev u32_mod : ℕ
u32_mod = 2 ^ 32

-- The entry after a segment that is not behind it.
unfoldable pub advance : Segment → FlowState → ℕ → FlowState
advance s state now = record state {
  seq = (s.tcp.seq + (s.total_len - s.payload_offset) % u32_mod) % u32_mod;
  last_seen = now;
}

-- A packet on a flow that the table holds.
unfoldable pub on_tracked : Tcbs → Segment → FlowState → ℕ → Tcbs × Option PacketDecision
on_tracked tcbs s state now =
    if s.tcp.fin || s.tcp.rst
    then (erase s.peer_id (erase s.id tcbs), some (decide_as closed s false 0 0 s.tcp.syn))
    else if ltb s.tcp.seq state.seq
    then (tcbs, some (decide_as duplicate s false s.ip_header_len s.payload_offset s.tcp.syn))
    else (
      insert s.id (advance s state now) tcbs,
      some (decide_as tracked_data s false s.ip_header_len s.payload_offset s.tcp.syn),
    )

-- The peer's entry, unless the table has one.
unfoldable pub seed_peer : ConnectionId → FlowState → Tcbs → Tcbs
seed_peer peer_id state tcbs = if contains_key peer_id tcbs then tcbs else insert peer_id state tcbs

abbrev syn_state : Segment → ℕ → FlowState
syn_state s now = record { seq = (s.tcp.seq + 1) % u32_mod; server_side = true; last_seen = now }

abbrev peer_state : ℕ → FlowState
peer_state now = record { seq = 0; server_side = false; last_seen = now }

-- A SYN on an unknown flow: both directions get an entry.
unfoldable pub start_flow : Tcbs → Segment → ℕ → Tcbs × Option PacketDecision
start_flow tcbs s now =
    let seeded = insert s.id (syn_state s now) tcbs in
    (
      seed_peer s.peer_id (peer_state now) seeded,
      some (decide_as new_connection s (not (contains_key s.peer_id seeded)) 0 0 true),
    )

-- A packet on a flow that the table does not hold.
unfoldable pub on_unknown : Tcbs → Segment → ℕ → Tcbs × Option PacketDecision
on_unknown tcbs s now =
    if s.tcp.rst
    then (tcbs, none)
    else if s.tcp.syn
    then start_flow tcbs s now
    else (tcbs, some (decide_as unknown_data s false s.ip_header_len s.payload_offset s.tcp.syn))

unfoldable pub on_segment : Tcbs → Segment → ℕ → Tcbs × Option PacketDecision
on_segment tcbs s now = elim (lookup s.id tcbs) [
  | none ↦ on_unknown tcbs s now
  | some state ↦ on_tracked tcbs s state now
]

unfoldable pub on_packet_internal : FlowEngine → Text → ℕ → FlowEngine × Option PacketDecision
on_packet_internal e bytes now = elim (parse_segment bytes) [
  | none ↦ (e, none)
  | some s ↦ let (tcbs, d) = on_segment e.tcbs s now in (record { tcbs = tcbs }, d)
]

unfoldable pub live_connection_count : FlowEngine → ℕ
live_connection_count e = length e.tcbs

-- `Duration::from_secs(300)`, in nanoseconds.
abbrev pub stale_connection_timeout : ℕ
stale_connection_timeout = 300 * 1000000000

-- `now.duration_since(last_seen)` saturates at zero.
abbrev is_stale : ℕ → ℕ → ConnectionId → FlowState → Bool
is_stale now timeout id state = leb timeout (now - state.last_seen)

erase_all : List ConnectionId → Tcbs → Tcbs
erase_all List.[] tcbs = tcbs
erase_all (List.◌∷◌ id ids) tcbs = erase_all ids (erase id tcbs)

unfoldable pub evict_stale : FlowEngine → ℕ → ℕ → FlowEngine × List ConnectionId
unfolding erase_all
evict_stale e now timeout =
    let stale : List ConnectionId = map (λ entry. entry.0) (retain (is_stale now timeout) e.tcbs) in
    (record { tcbs = erase_all stale e.tcbs }, stale)

-- The decision as the bridge passes it, its kind a number: 0 Ignore, 1 NewConnection, 2 Closed,
-- 3 Data, 4 Duplicate, 5 UnknownData.
pub record SharedDecision : Type 0 where
  pub kind : ℕ
  pub conn_id : ConnectionId
  pub peer_conn_id : ConnectionId
  pub peer_is_new : Bool
  pub ip_header_len : ℕ
  pub payload_offset : ℕ
  pub syn : Bool

abbrev zero_id : ConnectionId
zero_id = record { local_ip = 0; foreign_ip = 0; local_port = 0; foreign_port = 0 }

-- `PacketDecision::default()`, which is kind 0.
abbrev pub ignore : SharedDecision
ignore = record {
  kind = 0;
  conn_id = zero_id;
  peer_conn_id = zero_id;
  peer_is_new = false;
  ip_header_len = 0;
  payload_offset = 0;
  syn = false;
}

unfoldable pub kind_number : PacketKind → ℕ
kind_number new_connection = 1
kind_number closed = 2
kind_number tracked_data = 3
kind_number duplicate = 4
kind_number unknown_data = 5

unfoldable pub shared : Option PacketDecision → SharedDecision
shared none = ignore
shared (some d) = record {
  kind = kind_number d.kind;
  conn_id = d.conn_id;
  peer_conn_id = d.peer_conn_id;
  peer_is_new = d.peer_is_new;
  ip_header_len = d.ip_header_len;
  payload_offset = d.payload_offset;
  syn = d.syn;
}

unfoldable pub on_packet : FlowEngine → Text → ℕ → FlowEngine × SharedDecision
on_packet e pkg now = let (e', d) = on_packet_internal e pkg now in (e', shared d)
