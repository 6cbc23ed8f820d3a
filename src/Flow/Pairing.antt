-- ===== src/Flow/Pairing.antt =====
-- The two directions of a flow in the table of crates/net_flow_engine/src/lib.rs
-- (on_packet_internal).
use net_policy.Common.Maps.{
  lookup, contains_key, insert, erase, contains_key-insert, contains_key-erase, lookup→contains_key,
  insert-Unique, erase-Unique,
}
use net_policy.Common.{
  List, [], ◌∷◌, refl, ℕ, ◌+◌, ◌≤◌, ◌≡◌, inl, inr, true, some, Text, length, drop, length-drop,
  Unique, arith, Option-cases, Bool-cases, sym, subst,
}
use net_policy.Packet.{Ipv4Header, TcpHeader, parse_ipv4_header, parse_tcp_header}
use net_policy.Packet.Bounds.{parse_ipv4_header_bounds, parse_tcp_header_bounds}
use net_policy.Flow.{
  ConnectionId, FlowState, Tcbs, FlowEngine, new, Segment, segment_of, parse_segment, on_tracked,
  on_unknown, start_flow, seed_peer, syn_state, peer_state, advance, on_segment, on_packet_internal,
  id_eq, id_beq, id_beq_iff,
}

-- The reverse direction.
abbrev pub flip : ConnectionId → ConnectionId
flip c = record {
  local_ip = c.foreign_ip;
  foreign_ip = c.local_ip;
  local_port = c.foreign_port;
  foreign_port = c.local_port;
}

-- What `parse_segment` guarantees of its result.
pub record IsParsed (bytes : Text) (s : Segment) : Type 0 where
  pub peer : s.peer_id ≡ flip s.id
  pub total : s.total_len ≡ length bytes
  pub header_first : s.ip_header_len + 20 ≤ s.payload_offset
  pub in_buffer : s.payload_offset ≤ s.total_len

segment_of-IsParsed :
    (bytes : Text) (ip : Ipv4Header) (tcp : TcpHeader)
    → parse_ipv4_header bytes ≡ some ip
    → parse_tcp_header (drop ip.header_len bytes) ≡ some tcp
    → IsParsed bytes (segment_of bytes ip tcp)
unfolding segment_of
segment_of-IsParsed bytes ip tcp h k = ground (
  arith,
  parse_ipv4_header_bounds bytes ip h,
  parse_tcp_header_bounds (drop ip.header_len bytes) tcp k,
  length-drop ip.header_len bytes,
)

-- The payload of a parsed segment begins inside the buffer, so `bytes.len() - payload_offset` does
-- not underflow, and the peer is the reverse direction.
pub parse_segment-IsParsed :
    (bytes : Text) (s : Segment) → parse_segment bytes ≡ some s → IsParsed bytes s
unfolding parse_segment
parse_segment-IsParsed bytes s h = elim (Option-cases (parse_ipv4_header bytes)) [
  | inl e ↦ absurd (ground arith)
  | inr (ip, e) ↦ elim (Option-cases (parse_tcp_header (drop ip.header_len bytes))) [
    | inl e' ↦ absurd (ground arith)
    | inr (tcp, e') ↦ ground (arith, segment_of-IsParsed bytes ip tcp e e')
  ]
]

-- The two directions of a flow are tracked together.
abbrev pub IsPaired : Tcbs → Type 0
IsPaired m = (c : ConnectionId) → contains_key c m ≡ contains_key (flip c) m

id_beq-flip : (a b : ConnectionId) → id_beq (flip a) (flip b) ≡ id_beq a b
unfolding id_beq
id_beq-flip a b = ground arith

erase_both-IsPaired :
    (k : ConnectionId) (m : Tcbs) → IsPaired m → IsPaired (erase (flip k) (erase k m))
erase_both-IsPaired k m p c = ground (
  arith,
  contains_key-erase (flip k) c (erase k m),
  contains_key-erase k c m,
  contains_key-erase (flip k) (flip c) (erase k m),
  contains_key-erase k (flip c) m,
  id_beq-flip k c,
  id_beq-flip k (flip c),
  p c,
)

insert_held-IsPaired :
    (k : ConnectionId) (v : FlowState) (m : Tcbs)
    → contains_key k m ≡ true
    → IsPaired m
    → IsPaired (insert k v m)
insert_held-IsPaired k v m h p c = ground (
  arith,
  contains_key-insert k c v m,
  contains_key-insert k (flip c) v m,
  id_beq_iff k c,
  id_beq_iff k (flip c),
  p c,
  p k,
)

insert_both-IsPaired :
    (k : ConnectionId) (v w : FlowState) (m : Tcbs)
    → IsPaired m
    → IsPaired (insert (flip k) w (insert k v m))
insert_both-IsPaired k v w m p c = ground (
  arith,
  contains_key-insert (flip k) c w (insert k v m),
  contains_key-insert k c v m,
  contains_key-insert (flip k) (flip c) w (insert k v m),
  contains_key-insert k (flip c) v m,
  id_beq-flip k c,
  id_beq-flip k (flip c),
  p c,
)

insert_seen-IsPaired :
    (k : ConnectionId) (v : FlowState) (m : Tcbs)
    → contains_key (flip k) (insert k v m) ≡ true
    → IsPaired m
    → IsPaired (insert k v m)
insert_seen-IsPaired k v m h p c = ground (
  arith,
  contains_key-insert k (flip k) v m,
  contains_key-insert k c v m,
  contains_key-insert k (flip c) v m,
  id_beq_iff k c,
  id_beq_iff k (flip c),
  id_beq_iff k (flip k),
  p c,
  p k,
)

seed_peer-IsPaired :
    (k : ConnectionId) (v w : FlowState) (m : Tcbs)
    → IsPaired m
    → IsPaired (seed_peer (flip k) w (insert k v m))
unfolding seed_peer
seed_peer-IsPaired k v w m p = elim (Bool-cases (contains_key (flip k) (insert k v m))) [
  | inl h ↦ rw h (insert_seen-IsPaired k v m h p)
  | inr h ↦ rw h (insert_both-IsPaired k v w m p)
]

start_flow-IsPaired :
    (m : Tcbs) (s : Segment) (now : ℕ)
    → s.peer_id ≡ flip s.id
    → IsPaired m
    → IsPaired (start_flow m s now).0
unfolding start_flow
start_flow-IsPaired m s now e p =
    subst (λ q. IsPaired (seed_peer q (peer_state now) (insert s.id (syn_state s now) m))) (sym e)
      (seed_peer-IsPaired s.id (syn_state s now) (peer_state now) m p)

on_unknown-IsPaired :
    (m : Tcbs) (s : Segment) (now : ℕ)
    → s.peer_id ≡ flip s.id
    → IsPaired m
    → IsPaired (on_unknown m s now).0
unfolding on_unknown
on_unknown-IsPaired m s now e p c = ground (arith, start_flow-IsPaired m s now e p c, p c)

on_tracked-IsPaired :
    (m : Tcbs) (s : Segment) (state : FlowState) (now : ℕ)
    → s.peer_id ≡ flip s.id
    → contains_key s.id m ≡ true
    → IsPaired m
    → IsPaired (on_tracked m s state now).0
unfolding on_tracked
on_tracked-IsPaired m s state now e h p c = ground (
  arith,
  subst (λ q. IsPaired (erase q (erase s.id m))) (sym e) (erase_both-IsPaired s.id m p) c,
  insert_held-IsPaired s.id (advance s state now) m h p c,
  p c,
)

on_segment-IsPaired :
    (m : Tcbs) (s : Segment) (now : ℕ)
    → s.peer_id ≡ flip s.id
    → IsPaired m
    → IsPaired (on_segment m s now).0
unfolding on_segment
on_segment-IsPaired m s now e p = elim (Option-cases (lookup s.id m)) [
  | inl h ↦ rw (h, on_segment) (on_unknown-IsPaired m s now e p)
  | inr (state, h) ↦
      rw (h, on_segment) (on_tracked-IsPaired m s state now e (lookup→contains_key s.id m h) p)
]

-- A packet keeps the two directions of every flow together.
pub on_packet-IsPaired :
    (e : FlowEngine) (bytes : Text) (now : ℕ)
    → IsPaired e.tcbs
    → IsPaired (on_packet_internal e bytes now).0.tcbs
unfolding on_packet_internal
on_packet-IsPaired e bytes now p = elim (Option-cases (parse_segment bytes)) [
  | inl h ↦ rw (h, on_packet_internal) p
  | inr (s, h) ↦
      rw (h, on_packet_internal)
        (on_segment-IsPaired e.tcbs s now (parse_segment-IsParsed bytes s h).peer p)
]

-- A packet keeps the keys of the table unique.
on_segment-Unique : (m : Tcbs) (s : Segment) (now : ℕ) → Unique m → Unique (on_segment m s now).0
unfolding on_segment on_tracked on_unknown start_flow seed_peer
on_segment-Unique m s now u = elim (Option-cases (lookup s.id m)) [
  | inl h ↦ ground (
    arith,
    insert-Unique s.id (syn_state s now) m u,
    insert-Unique s.peer_id (peer_state now) (insert s.id (syn_state s now) m),
  )
  | inr (state, h) ↦ ground (
    arith,
    erase-Unique s.id m u,
    erase-Unique s.peer_id (erase s.id m),
    insert-Unique s.id (advance s state now) m u,
  )
]

pub on_packet-Unique :
    (e : FlowEngine) (bytes : Text) (now : ℕ)
    → Unique e.tcbs
    → Unique (on_packet_internal e bytes now).0.tcbs
unfolding on_packet_internal
on_packet-Unique e bytes now u = elim (Option-cases (parse_segment bytes)) [
  | inl h ↦ rw (h, on_packet_internal) u
  | inr (s, h) ↦ rw (h, on_packet_internal) (on_segment-Unique e.tcbs s now u)
]

-- The engine after a sequence of packets, each with its arrival time.
pub run_packets : FlowEngine → List (Text × ℕ) → FlowEngine
run_packets e [] = e
run_packets e ((bytes, now) ∷ rest) = run_packets (on_packet_internal e bytes now).0 rest

run_packets-IsPaired :
    (e : FlowEngine) (ps : List (Text × ℕ))
    → Unique e.tcbs
    → IsPaired e.tcbs
    → Unique (run_packets e ps).tcbs × IsPaired (run_packets e ps).tcbs
unfolding run_packets
run_packets-IsPaired e [] u p = (u, p)
run_packets-IsPaired e ((bytes, now) ∷ rest) u p =
    run_packets-IsPaired (on_packet_internal e bytes now).0 rest (on_packet-Unique e bytes now u)
      (on_packet-IsPaired e bytes now p)

-- After any sequence of packets from an empty engine no direction has two entries, and a direction
-- has an entry exactly when its reverse has one.
pub run_packets-new :
    (ps : List (Text × ℕ)) → Unique (run_packets new ps).tcbs × IsPaired (run_packets new ps).tcbs
unfolding new contains_key
run_packets-new ps = run_packets-IsPaired new ps tt (λ c. refl)
