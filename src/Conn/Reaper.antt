-- ===== src/Conn/Reaper.antt =====
-- The reaper of the microsegmentation table (EvictStale).
use net_policy.Common.Maps.{
  lookup, erase, retain, lookup-erase, lookup-retain, keep_if, erase-Unique,
}
use net_policy.Common.{
  ℕ, ◌-◌, ◌<◌, ◌≡◌, ◌↔◌, refl, false, none, some, List, [], ◌∷◌, Unique, if◌then◌else◌, arith,
  Option-cases, inl, inr,
}
use net_policy.Flow.{ConnectionId, FlowEngine, evict_stale, stale_connection_timeout, id_eq}
use net_policy.Flow.Evict.{listed}
use net_policy.Http.{HttpConnection}
use net_policy.Conn.{MicrosegEntry, MicrosegConns, erase_ids, is_fresh, evict_stale_conns}

module _ (http : HttpConnection) where
  lookup-erase_ids :
      (ids : List ConnectionId) (c : ConnectionId) (m : MicrosegConns http)
      → lookup c (erase_ids http ids m) ≡ (if listed c ids then none else lookup c m)
  unfolding erase_ids listed
  lookup-erase_ids [] c m = refl
  lookup-erase_ids (i ∷ is) c m =
      ground (arith, lookup-erase_ids is c (erase i m), lookup-erase i c m)

  erase_ids-Unique :
      (ids : List ConnectionId) (m : MicrosegConns http) → Unique m → Unique (erase_ids http ids m)
  unfolding erase_ids
  erase_ids-Unique [] m u = u
  erase_ids-Unique (i ∷ is) m u = erase_ids-Unique is (erase i m) (erase-Unique i m u)

  -- After a sweep an entry is there, unchanged, exactly if it was there, was seen less than the
  -- timeout ago, and the flow engine did not evict its direction.
  pub evict_stale_conns_lem :
      (engine : FlowEngine) (m : MicrosegConns http) (engine_now now timeout : ℕ) (c : ConnectionId)
      (entry : MicrosegEntry http)
      → Unique m
      → (lookup c (evict_stale_conns http engine m engine_now now timeout).1 ≡ some entry) ↔ (
          (lookup c m ≡ some entry)
          × (now - entry.last_seen < timeout)
          × (listed c (evict_stale engine engine_now stale_connection_timeout).1 ≡ false))
  unfolding evict_stale_conns
  evict_stale_conns_lem engine m engine_now now timeout c entry u =
      elim (Option-cases (lookup c m)) [
        | inl e ↦ ground (arith, erased, kept)
        | inr (old, e) ↦ ground (arith, erased, kept)
      ]
    where
      stale : List ConnectionId
      stale = (evict_stale engine engine_now stale_connection_timeout).1

      erased : lookup c (erase_ids http stale m) ≡ (if listed c stale then none else lookup c m)
      erased = lookup-erase_ids stale c m

      kept :
          lookup c (retain (is_fresh http now timeout) (erase_ids http stale m))
          ≡ keep_if (is_fresh http now timeout c) (lookup c (erase_ids http stale m))
      kept =
          lookup-retain (is_fresh http now timeout) c (erase_ids http stale m)
            (erase_ids-Unique stale m u)
