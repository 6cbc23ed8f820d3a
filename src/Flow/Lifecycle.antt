-- ===== src/Flow/Lifecycle.antt =====
-- The life of a flow in the table of crates/net_flow_engine/src/lib.rs
-- (on_packet_internal): opening, later packets, closing.
use net_policy.Common.Maps.{lookup, contains_key, insert, erase, lookup-insert, lookup-erase}
use net_policy.Common.{
  refl, ℕ, ◌+◌, ◌≤◌, ◌<◌, ◌^◌, ◌≡◌, ◌≢◌, inl, inr, true, false, Option, none, some, Text, length,
  arith, Option-cases, sym, subst, lt→ltb,
}
use net_policy.Flow.{
  FlowState, PacketKind, closed, tracked_data, duplicate, PacketDecision, Tcbs, FlowEngine, Segment,
  parse_segment, on_tracked, on_unknown, start_flow, seed_peer, syn_state, peer_state, on_segment,
  on_packet_internal, id_eq, id_beq_iff,
}
use net_policy.Flow.Pairing.{parse_segment-IsParsed}

-- The kind of a decision; `none` where the engine ignores the packet.
abbrev pub kind_of : Option PacketDecision → Option PacketKind
kind_of none = none
kind_of (some d) = some d.kind

-- A segment that opens a flow.
pub record IsSyn (s : Segment) : Type 0 where
  pub syn : s.tcp.syn ≡ true
  pub fin : s.tcp.fin ≡ false
  pub rst : s.tcp.rst ≡ false

lookup-start_flow :
    (m : Tcbs) (s : Segment) (now : ℕ) → lookup s.id (start_flow m s now).0 ≡ some (syn_state s now)
unfolding start_flow seed_peer contains_key
lookup-start_flow m s now = ground (
  arith,
  lookup-insert s.id s.id (syn_state s now) m,
  lookup-insert s.peer_id s.id (peer_state now) (insert s.id (syn_state s now) m),
  lookup-insert s.id s.peer_id (syn_state s now) m,
  id_beq_iff s.id s.id,
  id_beq_iff s.id s.peer_id,
  id_beq_iff s.peer_id s.id,
)

on_segment-open :
    (m : Tcbs) (s : Segment) (now : ℕ)
    → lookup s.id m ≡ none
    → IsSyn s
    → (on_segment m s now).0 ≡ (start_flow m s now).0
unfolding on_segment on_unknown
on_segment-open m s now h y = ground arith

on_segment-tracked :
    (m : Tcbs) (s : Segment) (state : FlowState) (now : ℕ)
    → lookup s.id m ≡ some state
    → on_segment m s now ≡ on_tracked m s state now
unfolding on_segment
on_segment-tracked m s state now h = rw (h, on_segment)

-- A segment on a tracked flow with a sequence number behind the tracked one changes nothing.
on_tracked-behind :
    (m : Tcbs) (s : Segment) (state : FlowState) (now : ℕ)
    → s.tcp.fin ≡ false
    → s.tcp.rst ≡ false
    → s.tcp.seq < state.seq
    → (on_tracked m s state now).0 ≡ m × kind_of (on_tracked m s state now).1 ≡ some duplicate
unfolding on_tracked
on_tracked-behind m s state now f r lt = rw (f, r, lt→ltb _ _ lt) (refl, refl)

on_tracked-ahead :
    (m : Tcbs) (s : Segment) (state : FlowState) (now : ℕ)
    → s.tcp.fin ≡ false
    → s.tcp.rst ≡ false
    → state.seq ≤ s.tcp.seq
    → kind_of (on_tracked m s state now).1 ≡ some tracked_data
unfolding on_tracked
on_tracked-ahead m s state now f r le = ground arith

lookup-start_flow_peer :
    (m : Tcbs) (s : Segment) (now : ℕ)
    → lookup s.peer_id m ≡ none
    → s.peer_id ≢ s.id
    → lookup s.peer_id (start_flow m s now).0 ≡ some (peer_state now)
unfolding start_flow seed_peer contains_key
lookup-start_flow_peer m s now h ne = ground (
  arith,
  lookup-insert s.peer_id s.peer_id (peer_state now) (insert s.id (syn_state s now) m),
  lookup-insert s.id s.peer_id (syn_state s now) m,
  id_beq_iff s.peer_id s.peer_id,
  id_beq_iff s.id s.peer_id,
)

-- A retransmitted SYN is a duplicate that leaves the table alone, whatever its peer has sent,
-- unless its sequence number is the largest.
pub syn_retransmit :
    (m : Tcbs) (s : Segment) (now later : ℕ)
    → lookup s.id m ≡ none
    → IsSyn s
    → s.tcp.seq + 1 < 2 ^ 32
    → let opened = (on_segment m s now).0 in
      ((on_segment opened s later).0 ≡ opened)
      × (kind_of (on_segment opened s later).1 ≡ some duplicate)
syn_retransmit m s now later h y lt =
    rw
      (
        on_segment-open m s now h y,
        on_segment-tracked (start_flow m s now).0 s (syn_state s now) later
            (lookup-start_flow m s now),
      )
      (on_tracked-behind (start_flow m s now).0 s (syn_state s now) later y.fin y.rst (omega arith))

-- A SYN with the largest sequence number is taken for new data when it is retransmitted: the
-- number that the table expects has wrapped to zero.
pub syn_retransmit_wrapped :
    (m : Tcbs) (s : Segment) (now later : ℕ)
    → lookup s.id m ≡ none
    → IsSyn s
    → s.tcp.seq + 1 ≡ 2 ^ 32
    → kind_of (on_segment (on_segment m s now).0 s later).1 ≡ some tracked_data
syn_retransmit_wrapped m s now later h y e =
    rw
      (
        on_segment-open m s now h y,
        on_segment-tracked (start_flow m s now).0 s (syn_state s now) later
            (lookup-start_flow m s now),
      )
      (on_tracked-ahead (start_flow m s now).0 s (syn_state s now) later y.fin y.rst (omega arith))

-- The answer to a SYN is tracked data: the SYN gave the reverse direction an entry too.
pub syn_ack :
    (m : Tcbs) (s r : Segment) (now later : ℕ)
    → lookup s.id m ≡ none
    → lookup s.peer_id m ≡ none
    → IsSyn s
    → r.id ≡ s.peer_id
    → s.peer_id ≢ s.id
    → r.tcp.fin ≡ false
    → r.tcp.rst ≡ false
    → kind_of (on_segment (on_segment m s now).0 r later).1 ≡ some tracked_data
syn_ack m s r now later h k y e ne f t =
    rw
      (
        on_segment-open m s now h y,
        on_segment-tracked (start_flow m s now).0 r (peer_state now) later (
            subst (λ q. lookup q (start_flow m s now).0 ≡ some (peer_state now)) (sym e)
              (lookup-start_flow_peer m s now k ne)),
      )
      (on_tracked-ahead (start_flow m s now).0 r (peer_state now) later f t (omega arith))

-- After a packet that closes, neither direction has an entry.
pub close_forgets :
    (m : Tcbs) (s : Segment) (now : ℕ)
    → kind_of (on_segment m s now).1 ≡ some closed
    → (lookup s.id (on_segment m s now).0 ≡ none) × (lookup s.peer_id (on_segment m s now).0 ≡ none)
unfolding on_segment on_tracked on_unknown start_flow
close_forgets m s now h = ground (
  arith,
  lookup-erase s.peer_id s.id (erase s.id m),
  lookup-erase s.id s.id m,
  lookup-erase s.peer_id s.peer_id (erase s.id m),
  id_beq_iff s.id s.id,
  id_beq_iff s.peer_id s.peer_id,
)

-- What the C++ side relies on when it cuts the payload out of the packet.
abbrev pub PayloadFits : Option PacketDecision → ℕ → Type 0
PayloadFits none len = Unit
PayloadFits (some d) len = d.payload_offset ≤ len

on_segment-PayloadFits :
    (m : Tcbs) (s : Segment) (now : ℕ)
    → s.payload_offset ≤ s.total_len
    → PayloadFits (on_segment m s now).1 s.total_len
unfolding on_segment on_tracked on_unknown start_flow
on_segment-PayloadFits m s now h = ground arith

-- Every decision's payload offset lies in the packet.
pub on_packet-PayloadFits :
    (e : FlowEngine) (bytes : Text) (now : ℕ)
    → PayloadFits (on_packet_internal e bytes now).1 (length bytes)
unfolding on_packet_internal
on_packet-PayloadFits e bytes now = elim (Option-cases (parse_segment bytes)) [
  | inl h ↦ rw (h, on_packet_internal) tt
  | inr (s, h) ↦
      let parsed = parse_segment-IsParsed bytes s h in
      rw (h, on_packet_internal)
        (subst (λ n. PayloadFits (on_segment e.tcbs s now).1 n) parsed.total
          (on_segment-PayloadFits e.tcbs s now parsed.in_buffer))
]
