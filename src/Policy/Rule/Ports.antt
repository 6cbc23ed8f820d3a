-- ===== src/Policy/Rule/Ports.antt =====
-- When a rule fires for a packet (RuleDetail::matches), against the protocols and port ranges.
use net_policy.Common.{
  ℕ, ◌≡◌, ◌↔◌, ◌≤◌, ◌⊎◌, inl, inr, Bool, true, ◌||◌, List, [], ◌∷◌, if◌then◌else◌, ◌&&◌, ◌==◌,
  nat_eq, Among, arith, refl, sym, subst,
}
use net_policy.Policy.{RulePort, RuleDetail}
use net_policy.Policy.Rule.{matches, match_ports, is_empty}
use net_policy.Packet.{ipproto_icmp}

-- A port entry covers a port: it is the entry for any port, or a range that holds it.
abbrev pub Covers : ℕ → RulePort → Type 0
Covers dst_port p = (p.end_port ≡ 0) ⊎ ((p.port ≤ dst_port) × (dst_port ≤ p.end_port))

abbrev pub SomeCovers : ℕ → List RulePort → Type 0
SomeCovers dst_port ps = (p : RulePort) × Among p ps × Covers dst_port p

match_ports_step :
    (dst_port : ℕ) (p : RulePort) (ps : List RulePort) (b : Bool)
    → match_ports dst_port (p ∷ ps) b ≡ true
    → Covers dst_port p ⊎ (match_ports dst_port ps b ≡ true)
unfolding match_ports
match_ports_step dst_port p ps b h = ground arith

match_ports_here :
    (dst_port : ℕ) (p : RulePort) (ps : List RulePort) (b : Bool)
    → Covers dst_port p
    → match_ports dst_port (p ∷ ps) b ≡ true
unfolding match_ports
match_ports_here dst_port p ps b c = ground arith

match_ports_sound :
    (dst_port : ℕ) (ps : List RulePort) (b : Bool)
    → match_ports dst_port ps b ≡ true
    → (b ≡ true) ⊎ SomeCovers dst_port ps
unfolding match_ports
match_ports_sound dst_port [] b h = inl h
match_ports_sound dst_port (p ∷ ps) b h = elim (match_ports_step dst_port p ps b h) [
  | inl c ↦ inr (p, inl refl, c)
  | inr r ↦ elim (match_ports_sound dst_port ps b r) [
    | inl e ↦ inl e
    | inr (q, m, c) ↦ inr (q, inr m, c)
  ]
]

match_ports_complete :
    (dst_port : ℕ) (ps : List RulePort) (b : Bool) (p : RulePort)
    → Among p ps
    → Covers dst_port p
    → match_ports dst_port ps b ≡ true
unfolding match_ports
match_ports_complete dst_port [] b p m c = elim m [ ]
match_ports_complete dst_port (q ∷ ps) b p (inl e) c =
    match_ports_here dst_port q ps b (subst (Covers dst_port) (sym e) c)
match_ports_complete dst_port (q ∷ ps) b p (inr m) c =
    ground (arith, match_ports_complete dst_port ps b p m c)

match_ports_start : (dst_port : ℕ) (ps : List RulePort) → match_ports dst_port ps true ≡ true
unfolding match_ports
match_ports_start dst_port [] = refl
match_ports_start dst_port (p ∷ ps) = ground (arith, match_ports_start dst_port ps)

-- The protocols for which a rule fires.
abbrev pub ProtoFits : RuleDetail → ℕ → Type 0
ProtoFits r proto = (proto ≡ ipproto_icmp) ⊎ ((r.proto ≡ 0) ⊎ (r.proto ≡ proto))

abbrev pub PortFits : RuleDetail → ℕ → ℕ → Type 0
PortFits r proto dst_port = (r.ports ≡ []) ⊎ ((proto ≡ ipproto_icmp) ⊎ SomeCovers dst_port r.ports)

matches-tests :
    (r : RuleDetail) (proto dst_port src_port : ℕ)
    → matches r proto dst_port src_port ≡ (
        (r.proto == 0 || (if proto == ipproto_icmp then r.proto else proto) == r.proto)
        && match_ports dst_port r.ports (is_empty r.ports || proto == ipproto_icmp))
unfolding matches
matches-tests r proto dst_port src_port = ground arith

port_test_sound :
    (dst_port proto : ℕ) (ps : List RulePort)
    → match_ports dst_port ps (is_empty ps || proto == ipproto_icmp) ≡ true
    → (ps ≡ []) ⊎ ((proto ≡ ipproto_icmp) ⊎ SomeCovers dst_port ps)
port_test_sound dst_port proto [] h = inl refl
port_test_sound dst_port proto (p ∷ ps) h =
    elim (match_ports_sound dst_port (p ∷ ps) (proto == ipproto_icmp) h) [
      | inl e ↦ inr (inl (ground arith))
      | inr c ↦ inr (inr c)
    ]

port_test_complete :
    (dst_port proto : ℕ) (ps : List RulePort)
    → (ps ≡ []) ⊎ ((proto ≡ ipproto_icmp) ⊎ SomeCovers dst_port ps)
    → match_ports dst_port ps (is_empty ps || proto == ipproto_icmp) ≡ true
port_test_complete dst_port proto [] h = match_ports_start dst_port []
port_test_complete dst_port proto (p ∷ ps) (inl e) = cc
port_test_complete dst_port proto (p ∷ ps) (inr (inl e)) =
    rw e (match_ports_start dst_port (p ∷ ps))
port_test_complete dst_port proto (p ∷ ps) (inr (inr (q, m, c))) =
    match_ports_complete dst_port (p ∷ ps) (proto == ipproto_icmp) q m c

-- A rule fires for a packet exactly when the packet is ICMP or the rule is for its protocol or for
-- any protocol, and the rule has no port entries, or the packet is ICMP, or some entry covers its
-- destination port. The source port plays no part.
pub matches_iff :
    (r : RuleDetail) (proto dst_port src_port : ℕ)
    → (matches r proto dst_port src_port ≡ true) ↔ (ProtoFits r proto × PortFits r proto dst_port)
matches_iff r proto dst_port src_port = (
  λ h. (
    ground (arith, matches-tests r proto dst_port src_port),
    port_test_sound dst_port proto r.ports
        (ground (arith, matches-tests r proto dst_port src_port)),
  ),
  λ f. ground (
    arith,
    matches-tests r proto dst_port src_port,
    port_test_complete dst_port proto r.ports f.1,
  ),
)
