-- ===== src/Flow/Evict.antt =====
-- The reaper of the flow table (evict_stale of crates/net_flow_engine/src/lib.rs).
use net_policy.Common.Maps.{lookup, erase, retain, lookup-erase, lookup-retain-none}
use net_policy.Common.{
  ℕ, ◌-◌, ◌≤◌, ◌<◌, ◌≡◌, ◌↔◌, refl, Bool, true, false, ◌||◌, Option, none, some, List, [], ◌∷◌, map,
  Unique, arith, Option-cases, inl, inr, if◌then◌else◌,
}
use net_policy.Flow.{
  ConnectionId, FlowState, Tcbs, FlowEngine, is_stale, erase_all, evict_stale, id_eq, id_beq,
  id_beq_iff,
}

-- Whether an id is in a list.
unfoldable pub listed : ConnectionId → List ConnectionId → Bool
listed c [] = false
listed c (i ∷ is) = id_beq i c || listed c is

-- The test, where a value was found.
abbrev true_if : (FlowState → Bool) → Option FlowState → Bool
true_if p none = false
true_if p (some v) = p v

lookup-erase_all :
    (ids : List ConnectionId) (c : ConnectionId) (m : Tcbs)
    → lookup c (erase_all ids m) ≡ (if listed c ids then none else lookup c m)
unfolding erase_all listed
lookup-erase_all [] c m = refl
lookup-erase_all (i ∷ is) c m =
    ground (arith, lookup-erase_all is c (erase i m), lookup-erase i c m)

keys : Tcbs → List ConnectionId
keys m = map (λ entry. entry.0) m

listed-retain :
    (p : ConnectionId → FlowState → Bool) (c : ConnectionId) (m : Tcbs)
    → Unique m
    → listed c (keys (retain p m)) ≡ true_if (p c) (lookup c m)
unfolding listed keys retain lookup
listed-retain p c [] u = refl
listed-retain p c ((i, w) ∷ m) u =
    ground (arith, listed-retain p c m u.1, id_beq_iff i c, lookup-retain-none p i m u.0)

-- The reaper keeps exactly the entries seen less than `timeout` ago, unchanged, and reports
-- exactly the ids of the others.
pub evict_stale_lem :
    (e : FlowEngine) (now timeout : ℕ) (c : ConnectionId)
    → Unique e.tcbs
    → ((st : FlowState)
        → (lookup c (evict_stale e now timeout).0.tcbs ≡ some st)
          ↔ ((lookup c e.tcbs ≡ some st) × (now - st.last_seen < timeout)))
      × ((listed c (evict_stale e now timeout).1 ≡ true)
          ↔ ((st : FlowState) × (lookup c e.tcbs ≡ some st) × (timeout ≤ now - st.last_seen)))
unfolding evict_stale keys
evict_stale_lem e now timeout c u = elim (Option-cases (lookup c e.tcbs)) [
  | inl h ↦ (λ st. ground (arith, found, kept), ground (arith, found))
  | inr (w, h) ↦ (
    λ st. ground (arith, found, kept),
    (λ k. (w, h, ground (arith, found)), λ r. ground (arith, found)),
  )
]
  where
    stale : List ConnectionId
    stale = keys (retain (is_stale now timeout) e.tcbs)

    found : listed c stale ≡ true_if (is_stale now timeout c) (lookup c e.tcbs)
    found = listed-retain (is_stale now timeout) c e.tcbs u

    kept : lookup c (erase_all stale e.tcbs) ≡ (if listed c stale then none else lookup c e.tcbs)
    kept = lookup-erase_all stale c e.tcbs
