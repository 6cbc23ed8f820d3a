-- ===== src/Conn.antt =====
-- net/connection_manager.h (ConnectionManager): the packet intake over the flow engine, and the
-- table of the connections whose HTTP requests are parsed for microsegmentation. The clock that an
-- operation reads is its argument `now`.
pub mod Entries
pub mod Reaper
use net_policy.Common.Maps.{lookup, insert, erase, retain, contains_key}
use net_policy.Common.{
  ℕ, ◌-◌, Bool, true, false, ◌&&◌, ◌||◌, not, Option, none, some, List, [], ◌∷◌, leb, ◌==◌, nat_eq,
  if◌then◌else◌, Text, drop, Map,
}
use net_policy.Packet.{FiveTupleResult, parse_five_tuple, ipproto_tcp}
use net_policy.Flow.{
  ConnectionId, FlowEngine, SharedDecision, ignore, on_packet, evict_stale,
  stale_connection_timeout, id_eq,
}
use net_policy.Flow
use net_policy.Http.{ParseState, continue, done, error, Header, HttpConnection}

pub record ReceiveResult : Type 0 where
  pub tuple : FiveTupleResult
  pub decision : SharedDecision
  pub is_tcp : Bool

-- `receive`: the five-tuple always, the flow engine for TCP where the caller asks for it.
unfoldable pub receive : FlowEngine → Text → Bool → ℕ → FlowEngine × ReceiveResult
receive engine pkg track_tcp now =
    let tuple = parse_five_tuple pkg in
    let is_tcp = tuple.recognized && tuple.proto == ipproto_tcp in
    if is_tcp && track_tcp
    then (
      (on_packet engine pkg now).0,
      record { tuple = tuple; decision = (on_packet engine pkg now).1; is_tcp = is_tcp },
    )
    else (engine, record { tuple = tuple; decision = ignore; is_tcp = is_tcp })

abbrev is_done : ParseState → Bool
is_done continue = false
is_done done = true
is_done error = false

module _ (http : HttpConnection) where
  open http use {Connection, connection, get_rule_key, on_data}

  pub record MicrosegEntry : Type 0 where
    pub conn : Connection
    pub last_seen : ℕ

  abbrev pub MicrosegConns : Type 0
  MicrosegConns = Map ConnectionId MicrosegEntry

  unfoldable pub microseg_tracked : MicrosegConns → SharedDecision → Bool
  microseg_tracked m d = contains_key d.conn_id m

  unfoldable pub microseg_rule_key : MicrosegConns → SharedDecision → Option Text
  microseg_rule_key m d = elim (lookup d.conn_id m) [
    | none ↦ none
    | some entry ↦ some (get_rule_key entry.conn)
  ]

  unfoldable pub touch_microseg : MicrosegConns → ConnectionId → ℕ → MicrosegConns
  touch_microseg m id now = elim (lookup id m) [
    | none ↦ m
    | some entry ↦ insert id (record entry { last_seen = now }) m
  ]

  unfoldable pub microseg_touch : MicrosegConns → SharedDecision → ℕ → MicrosegConns
  microseg_touch m d now = if d.kind == 0 || d.kind == 4 then m else touch_microseg m d.conn_id now

  unfoldable pub microseg_track : MicrosegConns → SharedDecision → Text → ℕ → MicrosegConns
  microseg_track m d rule_key now =
      if contains_key d.conn_id m
      then m
      else insert d.conn_id (record { conn = connection rule_key; last_seen = now }) m

  -- The payload goes to the tracked connection; the header comes back once its parse is done.
  unfoldable pub feed : MicrosegConns → SharedDecision → Text → ℕ → MicrosegConns × Option Header
  feed m d pkg now = elim (lookup d.conn_id m) [
    | none ↦ (m, none)
    | some entry ↦
        let (conn, header) = on_data entry.conn (drop d.payload_offset pkg) in
        (
          insert d.conn_id (record { conn = conn; last_seen = now }) m,
          if is_done header.parse_state then some header else none,
        )
  ]

  unfoldable pub dispatch_microseg :
      MicrosegConns → SharedDecision → Text → Text → ℕ → MicrosegConns × Option Header
  dispatch_microseg m d pkg rule_key now =
      if d.kind == 1
      then (microseg_track m d rule_key now, none)
      else if d.kind == 5
      then feed (microseg_track m d rule_key now) d pkg now
      else if d.kind == 2
      then (erase d.peer_conn_id (erase d.conn_id m), none)
      else if d.kind == 3
      then feed m d pkg now
      else (m, none)

  unfoldable pub microseg_close : MicrosegConns → SharedDecision → Text → ℕ → MicrosegConns × Bool
  microseg_close m d pkg now =
      if not (d.kind == 2) then (m, false) else ((dispatch_microseg m d pkg [] now).0, true)

  erase_ids : List ConnectionId → MicrosegConns → MicrosegConns
  erase_ids [] m = m
  erase_ids (id ∷ ids) m = erase_ids ids (erase id m)

  abbrev is_fresh : ℕ → ℕ → ConnectionId → MicrosegEntry → Bool
  is_fresh now timeout id entry = not (leb timeout (now - entry.last_seen))

  -- `EvictStale(now, timeout)`: the engine sweeps by its own clock and timeout.
  unfoldable pub evict_stale_conns :
      FlowEngine → MicrosegConns → ℕ → ℕ → ℕ → FlowEngine × MicrosegConns
  unfolding erase_ids
  evict_stale_conns engine m engine_now now timeout =
      let (engine', stale) = evict_stale engine engine_now stale_connection_timeout in
      (engine', retain (is_fresh now timeout) (erase_ids stale m))
