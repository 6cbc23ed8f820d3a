-- ===== src/Conn/Entries.antt =====
-- The entries of the table of net/connection_manager.h under each of its operations.
use net_policy.Common.Maps.{
  lookup, erase, contains_key, lookup-insert, lookup-erase, insert-Unique, erase-Unique,
}
use net_policy.Common.{
  ℕ, ◌≡◌, ◌≢◌, ◌⊎◌, inl, inr, refl, true, ◌&&◌, ◌||◌, not, Option, none, some, [], Text, drop,
  Unique, ◌==◌, nat_eq, if◌then◌else◌, arith, Option-cases,
}
use net_policy.Flow.{ConnectionId, SharedDecision, id_eq, id_beq, id_beq_iff}
use net_policy.Http.{ParseState, continue, done, error, Header, HttpConnection}
use net_policy.Conn.{
  MicrosegConns, touch_microseg, microseg_touch, microseg_track, feed, dispatch_microseg,
  microseg_close, is_done,
}

is_done→done : (p : ParseState) → is_done p ≡ true → p ≡ done
is_done→done continue h = cc
is_done→done done h = refl
is_done→done error h = cc

module _ (http : HttpConnection) where
  open http use {
    Connection, connection, get_rule_key, on_data, get_rule_key-connection, get_rule_key-on_data,
  }

  -- The rule key of a direction's entry.
  pub rule_key_at : MicrosegConns http → ConnectionId → Option Text
  rule_key_at m id = elim (lookup id m) [
    | none ↦ none
    | some entry ↦ some (get_rule_key entry.conn)
  ]

  -- Tracking inserts an entry for the packet's own direction with the given rule key, unless the
  -- direction has one, and changes no other entry.
  pub rule_key_at-microseg_track :
      (m : MicrosegConns http) (d : SharedDecision) (key : Text) (now : ℕ) (id : ConnectionId)
      → rule_key_at (microseg_track http m d key now) id
        ≡ (if id_beq d.conn_id id && not (contains_key id m) then some key else rule_key_at m id)
  unfolding rule_key_at microseg_track contains_key
  rule_key_at-microseg_track m d key now id = ground (
    arith,
    lookup-insert d.conn_id id (record { conn = connection key; last_seen = now }) m,
    id_beq_iff d.conn_id id,
    get_rule_key-connection key,
  )

  rule_key_at-feed :
      (m : MicrosegConns http) (d : SharedDecision) (pkg : Text) (now : ℕ) (id : ConnectionId)
      → rule_key_at (feed http m d pkg now).0 id ≡ rule_key_at m id
  unfolding rule_key_at feed
  rule_key_at-feed m d pkg now id = elim (Option-cases (lookup d.conn_id m)) [
    | inl e ↦ rw (e, feed) refl
    | inr (entry, e) ↦ ground (
      arith,
      lookup-insert d.conn_id id
          (record { conn = (on_data entry.conn (drop d.payload_offset pkg)).0; last_seen = now }) m,
      id_beq_iff d.conn_id id,
      get_rule_key-on_data entry.conn (drop d.payload_offset pkg),
    )
  ]

  pub rule_key_at-touch :
      (m : MicrosegConns http) (d : SharedDecision) (now : ℕ) (id : ConnectionId)
      → rule_key_at (microseg_touch http m d now) id ≡ rule_key_at m id
  unfolding rule_key_at microseg_touch touch_microseg
  rule_key_at-touch m d now id = elim (Option-cases (lookup d.conn_id m)) [
    | inl e ↦ ground arith
    | inr (entry, e) ↦ ground (
      arith,
      lookup-insert d.conn_id id (record entry { last_seen = now }) m,
      id_beq_iff d.conn_id id,
    )
  ]

  -- Dispatching a packet that is not a close leaves every rule key in place; it binds the packet's
  -- own direction, if that has no entry, for kinds 1 and 5 only.
  pub rule_key_at-dispatch :
      (m : MicrosegConns http) (d : SharedDecision) (pkg key : Text) (now : ℕ) (id : ConnectionId)
      → d.kind ≢ 2
      → rule_key_at (dispatch_microseg http m d pkg key now).0 id ≡ (
          if (d.kind == 1 || d.kind == 5) && (id_beq d.conn_id id && not (contains_key id m))
          then some key
          else rule_key_at m id)
  unfolding dispatch_microseg
  rule_key_at-dispatch m d pkg key now id ne = ground (
    arith,
    rule_key_at-microseg_track m d key now id,
    rule_key_at-feed m d pkg now id,
    rule_key_at-feed (microseg_track http m d key now) d pkg now id,
  )

  -- A close erases the entries of both directions and no other, and reports that it ran; on every
  -- other kind it changes nothing.
  pub microseg_close_lem :
      (m : MicrosegConns http) (d : SharedDecision) (pkg : Text) (now : ℕ) (id : ConnectionId)
      → (rule_key_at (microseg_close http m d pkg now).0 id ≡ (
          if d.kind == 2 && (id_beq d.conn_id id || id_beq d.peer_conn_id id)
          then none
          else rule_key_at m id))
        × ((microseg_close http m d pkg now).1 ≡ (d.kind == 2))
  unfolding rule_key_at microseg_close dispatch_microseg
  microseg_close_lem m d pkg now id =
      ground
        (arith, lookup-erase d.peer_conn_id id (erase d.conn_id m), lookup-erase d.conn_id id m)

  feed-header :
      (m : MicrosegConns http) (d : SharedDecision) (pkg : Text) (now : ℕ) (h : Header)
      → (feed http m d pkg now).1 ≡ some h
      → h.parse_state ≡ done
  unfolding feed
  feed-header m d pkg now h e = elim (Option-cases (lookup d.conn_id m)) [
    | inl n ↦ absurd (ground arith)
    | inr (entry, n) ↦ is_done→done h.parse_state (ground arith)
  ]

  -- A header comes back only for a packet of kind 3 or 5 whose connection reports a finished parse.
  pub dispatch-header :
      (m : MicrosegConns http) (d : SharedDecision) (pkg key : Text) (now : ℕ) (h : Header)
      → (dispatch_microseg http m d pkg key now).1 ≡ some h
      → ((d.kind ≡ 3) ⊎ (d.kind ≡ 5)) × (h.parse_state ≡ done)
  unfolding dispatch_microseg
  dispatch-header m d pkg key now h e =
      ground (
        arith,
        feed-header m d pkg now h,
        feed-header (microseg_track http m d key now) d pkg now h,
      )

  -- Every operation keeps the keys of the table unique.
  pub microseg_track-Unique :
      (m : MicrosegConns http) (d : SharedDecision) (key : Text) (now : ℕ)
      → Unique m
      → Unique (microseg_track http m d key now)
  unfolding microseg_track
  microseg_track-Unique m d key now u =
      ground
        (arith, insert-Unique d.conn_id (record { conn = connection key; last_seen = now }) m u)

  feed-Unique :
      (m : MicrosegConns http) (d : SharedDecision) (pkg : Text) (now : ℕ)
      → Unique m
      → Unique (feed http m d pkg now).0
  unfolding feed
  feed-Unique m d pkg now u = elim (Option-cases (lookup d.conn_id m)) [
    | inl e ↦ rw (e, feed) u
    | inr (entry, e) ↦ rw (e, feed) (insert-Unique d.conn_id _ m u)
  ]

  pub dispatch-Unique :
      (m : MicrosegConns http) (d : SharedDecision) (pkg key : Text) (now : ℕ)
      → Unique m
      → Unique (dispatch_microseg http m d pkg key now).0
  unfolding dispatch_microseg
  dispatch-Unique m d pkg key now u = ground (
    arith,
    microseg_track-Unique m d key now u,
    feed-Unique m d pkg now u,
    feed-Unique (microseg_track http m d key now) d pkg now,
    erase-Unique d.conn_id m u,
    erase-Unique d.peer_conn_id (erase d.conn_id m),
  )

  pub microseg_touch-Unique :
      (m : MicrosegConns http) (s : SharedDecision) (now : ℕ)
      → Unique m
      → Unique (microseg_touch http m s now)
  unfolding microseg_touch touch_microseg
  microseg_touch-Unique m s now u = elim (Option-cases (lookup s.conn_id m)) [
    | inl e ↦ ground arith
    | inr (entry, e) ↦
        ground (arith, insert-Unique s.conn_id (record entry { last_seen = now }) m u)
  ]

  pub microseg_close-Unique :
      (m : MicrosegConns http) (s : SharedDecision) (pkg : Text) (now : ℕ)
      → Unique m
      → Unique (microseg_close http m s pkg now).0
  unfolding microseg_close
  microseg_close-Unique m s pkg now u = ground (arith, dispatch-Unique m s pkg [] now u)
