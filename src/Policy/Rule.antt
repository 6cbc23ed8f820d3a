-- ===== src/Policy/Rule.antt =====
-- One rule: its key and its match (crates/net_policy_engine/src/lib.rs: parse_cidr,
-- ipv4_cidr_to_ip, create_rule_key, matches). The text forms of numbers and addresses are those
-- of the Rust standard library, which enter as parameters.
pub mod Ports
use net_policy.Common.{
  ℕ, suc, ◌+◌, ◌-◌, ◌*◌, ◌/◌, ◌%◌, ◌^◌, ◌≡◌, ◌↔◌, ◌≤◌, ◌<◌, ◌⊎◌, inl, inr, refl, Bool, true, false,
  ◌&&◌, ◌||◌, not, Option, none, some, List, [], ◌∷◌, ◌++◌, ltb, ◌==◌, nat_eq, if◌then◌else◌, Text,
  arith,
}
use net_policy.Policy.{FlowDir, ingress, egress, RulePort, RuleDetail, ℤ, pos, negsuc}
use net_policy.Packet.{ipproto_icmp}

-- `str::parse`, `to_string` and `Ipv4Addr` of the Rust standard library.
pub record StdText : Type 0 where
  pub parse_ipv4 : Text → Option ℕ
  pub print_ipv4 : ℕ → Text
  pub parse_i32 : Text → Option ℤ
  pub show_i32 : ℤ → Text

abbrev pub unwrap_or {ℓ} : {A : Type ℓ} → Option A → A → A
unwrap_or none d = d
unwrap_or (some a) d = a

-- The text before and after the first slash.
unfoldable pub split_slash : Text → Text × Option Text
split_slash [] = ([], none)
split_slash (c ∷ s) =
    let (before, after) = split_slash s in if c == b'/' then ([], some s) else (c ∷ before, after)

-- `wrapping_shl` reduces its shift, `(32 - mask) as u32`, modulo 32.
unfoldable pub shift_of : ℤ → ℕ
shift_of (pos m) = (32 - m % 32) % 32
shift_of (negsuc n) = suc n % 32

-- `ip & (!0u32).wrapping_shl(k)`: the low `k` bits are cleared.
unfoldable pub mask_ip : ℕ → ℤ → ℕ
mask_ip ip mask = ip / 2 ^ shift_of mask * 2 ^ shift_of mask

abbrev dash : Text
dash = b'-' ∷ []

abbrev slash : Text
slash = b'/' ∷ []

-- The side of the rule that is a CIDR, and the side that is one address.
abbrev pub cidr_side : FlowDir → Text → Text → Text
cidr_side ingress src dst = src
cidr_side egress src dst = dst

abbrev pub exact_side : FlowDir → Text → Text → Text
exact_side ingress src dst = dst
exact_side egress src dst = src

module _ (std : StdText) where
  open std use {parse_ipv4, print_ipv4, parse_i32, show_i32}

  unfoldable pub ipv4_cidr_to_ip : Text → ℤ → Text
  ipv4_cidr_to_ip ip mask = print_ipv4 (mask_ip (unwrap_or (parse_ipv4 ip) 0) mask)

  abbrev mask_of : Option Text → ℤ
  mask_of none = pos 32
  mask_of (some m) = unwrap_or (parse_i32 m) (pos 32)

  unfoldable pub parse_cidr : Text → Text × ℤ
  unfolding ipv4_cidr_to_ip
  parse_cidr cidr =
      let (ip_str, suffix) = split_slash cidr in
      (ipv4_cidr_to_ip ip_str (mask_of suffix), mask_of suffix)

  -- `{}-{}-` of the priority and the protocol, before the addresses of a key.
  abbrev pub key_prefix : ℤ → ℕ → Text
  key_prefix priority proto = show_i32 priority ++ (dash ++ (show_i32 (pos proto) ++ dash))

  -- The addresses of a key: the masked side and the exact side, in the order of the direction.
  abbrev pub key_suffix : FlowDir → Text → ℤ → Text → Text
  key_suffix ingress ip mask exact = ip ++ (slash ++ (show_i32 mask ++ (dash ++ exact)))
  key_suffix egress ip mask exact = exact ++ (dash ++ (ip ++ (slash ++ show_i32 mask)))

  unfoldable pub create_rule_key : RuleDetail → Text × ℤ
  create_rule_key r =
      let (ip, mask) = parse_cidr (cidr_side r.direction r.src_ip r.dst_ip) in
      (
        key_prefix r.priority r.proto
            ++ key_suffix r.direction ip mask (exact_side r.direction r.src_ip r.dst_ip),
        mask,
      )

-- The loop over the ports of a rule, from the value that `is_match` starts with.
unfoldable pub match_ports : ℕ → List RulePort → Bool → Bool
match_ports dst_port [] is_match = is_match
match_ports dst_port (p ∷ ps) is_match =
    let rest = match_ports dst_port ps is_match in
    if p.end_port == 0
    then true
    else if ltb p.end_port dst_port
    then rest
    else if ltb dst_port p.port
    then rest
    else true

abbrev is_empty {ℓ} : {A : Type ℓ} → List A → Bool
is_empty [] = true
is_empty (x ∷ xs) = false

unfoldable pub matches : RuleDetail → ℕ → ℕ → ℕ → Bool
unfolding match_ports
matches r proto dst_port src_port =
    let protocol = if proto == ipproto_icmp then r.proto else proto in
    if not (r.proto == 0 || protocol == r.proto)
    then false
    else if not (match_ports dst_port r.ports (is_empty r.ports || proto == ipproto_icmp))
    then false
    else if src_port == 53 || dst_port == 53
    then true
    else true
