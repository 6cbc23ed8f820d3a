-- ===== src/Policy/Engine/Reaching.antt =====
-- From adding a policy to finding it in RustPolicyEngine
-- (crates/net_policy_engine/src/lib.rs: add_policy_internal, match_five_tuple_internal).
use net_policy.Common.Maps.{lookup}
use net_policy.Common.{
  ℕ, ◌≡◌, ◌⊎◌, inl, inr, refl, sym, ap, subst, true, false, none, some, List, [], ◌∷◌, Text, Among,
  Among-append_left, Among-append_right, text_eq, text_beq_iff, text_beq, arith, Option-cases,
  Bool-cases,
}
use net_policy.Packet.{ipproto_icmp}
use net_policy.Policy.{FlowDir, RuleDetail, RulePort, ℤ, pos, negsuc}
use net_policy.Policy.Rule.{
  StdText, create_rule_key, parse_cidr, ipv4_cidr_to_ip, cidr_side, exact_side, key_suffix,
}
use net_policy.Policy.Rule.Ports.{Covers, matches_iff}
use net_policy.Policy.Tree.{RuleGroup, RuleChain}
use net_policy.Policy.Tree.Contents.{rule_at, merged}
use net_policy.Policy.Engine.{
  RustPolicyEngine, tree_of, set_tree, add_policy, add_mask_and_priority, match_five_tuple,
  create_rule_key_by_tuple, tuple_keys, priority_keys, mask_keys, pair_keys, insert_i32, lt_i32,
  is_mask,
}
use net_policy.Policy.Engine.Matching.{Stored, StoredUnder, match_five_tuple_complete}
use net_policy.Policy.Engine.Deleting.{engine_rule}
use net_policy.Policy.Engine.Adding.{engine_rule-add_policy, same_dir_refl}

lookup-Among : (k : Text) (g : RuleGroup) (r : RuleDetail) → lookup k g ≡ some r → Stored r g
unfolding lookup
lookup-Among k [] r h = cc
lookup-Among k ((j, q) ∷ g) r h = elim (Bool-cases (text_beq j k)) [
  | inl e ↦ (j, inl (ap (λ x. (j, x)) (ground arith)))
  | inr e ↦ let (i, m) = lookup-Among k g r (ground arith) in (i, inr m)
]

rule_at-StoredUnder :
    (chain : RuleChain) (key name : Text) (r : RuleDetail)
    → rule_at chain key name ≡ some r
    → StoredUnder key r chain
unfolding rule_at
rule_at-StoredUnder chain key name r h = elim (Option-cases (lookup key chain)) [
  | inl e ↦ absurd (no_rule name (ground arith))
  | inr (g, e) ↦ (g, e, lookup-Among name g r (ground arith))
]
  where
    no_rule : (n : Text) → lookup n [] ≡ some r → ⊥
    no_rule n h = unfold lookup in cc

lt_i32_eq : (x p : ℤ) → lt_i32 x p ≡ false → lt_i32 p x ≡ false → p ≡ x
unfolding lt_i32
lt_i32_eq (pos a) (pos b) h k = ground arith
lt_i32_eq (pos a) (negsuc b) h k = cc
lt_i32_eq (negsuc a) (pos b) h k = cc
lt_i32_eq (negsuc a) (negsuc b) h k = ground arith

inserted : (x : ℤ) (ps : List ℤ) → Among x (insert_i32 x ps)
unfolding insert_i32
inserted x [] = inl refl
inserted x (p ∷ ps) = elim (Bool-cases (lt_i32 x p)) [
  | inl e ↦ rw e (inl refl)
  | inr e ↦ elim (Bool-cases (lt_i32 p x)) [
    | inl f ↦ rw (e, f) (inr (inserted x ps))
    | inr f ↦ rw (e, f) (inl (lt_i32_eq x p e f))
  ]
]

module _ (std : StdText) (proto : ℕ) (cidr exact : Text) (dir : FlowDir) where
  -- The keys of one mask.
  abbrev keys_at : ℤ → ℤ → List Text
  keys_at p m = pair_keys std p proto (key_suffix std dir (ipv4_cidr_to_ip std cidr m) m exact)

  among_masks :
      (p m : ℤ) (masks : List ℤ) (k : Text)
      → Among m masks
      → Among k (keys_at p m)
      → Among k (mask_keys std p proto cidr exact dir masks)
  unfolding mask_keys
  among_masks p m [] k h a = elim h [ ]
  among_masks p m (n ∷ masks) k (inl e) a =
      Among-append_left k (keys_at p n) (mask_keys std p proto cidr exact dir masks)
        (subst (λ x. Among k (keys_at p x)) (sym e) a)
  among_masks p m (n ∷ masks) k (inr h) a =
      Among-append_right k (keys_at p n) (mask_keys std p proto cidr exact dir masks)
        (among_masks p m masks k h a)

  among_priorities :
      (p : ℤ) (ps masks : List ℤ) (k : Text)
      → Among p ps
      → Among k (mask_keys std p proto cidr exact dir masks)
      → Among k (tuple_keys std ps proto cidr exact dir masks)
  unfolding tuple_keys priority_keys
  among_priorities p [] masks k h a = elim h [ ]
  among_priorities p (q ∷ ps) masks k (inl e) a =
      Among-append_left k (priority_keys std q proto cidr exact dir masks)
        (tuple_keys std ps proto cidr exact dir masks)
        (inr (inr (subst (λ x. Among k (mask_keys std x proto cidr exact dir masks)) (sym e) a)))
  among_priorities p (q ∷ ps) masks k (inr h) a =
      Among-append_right k (priority_keys std q proto cidr exact dir masks)
        (tuple_keys std ps proto cidr exact dir masks) (among_priorities p ps masks k h a)

-- The packet's addresses are those of the rule: one under its mask, the other exactly.
pub record Concerns (std : StdText) (r : RuleDetail) (src_addr dst_addr : Text) : Type 0 where
  pub masked :
      ipv4_cidr_to_ip std (cidr_side r.direction src_addr dst_addr) (create_rule_key std r).1
      ≡ (parse_cidr std (cidr_side r.direction r.src_ip r.dst_ip)).0
  pub exact : exact_side r.direction src_addr dst_addr ≡ exact_side r.direction r.src_ip r.dst_ip

module _ (std : StdText) (e : RustPolicyEngine) (r : RuleDetail) (port : RulePort) (proto : ℕ)
    (src_addr dst_addr : Text) (concerns : Concerns std r src_addr dst_addr)
    (maskable : is_mask (create_rule_key std r).1 ≡ true)
    (of_proto : (r.proto ≡ proto) ⊎ (r.proto ≡ 0)) where
  rule_key : Text
  rule_key = (create_rule_key std r).0

  own_key : Among rule_key (
      keys_at std proto
        (cidr_side r.direction src_addr dst_addr)
        (exact_side r.direction src_addr dst_addr)
        r.direction
        r.priority
        (create_rule_key std r).1)
  unfolding rule_key create_rule_key
  own_key = elim of_proto [
    | inl p ↦ inl (cc (p, concerns.masked, concerns.exact))
    | inr p ↦ inr (inl (cc (p, concerns.masked, concerns.exact)))
  ]

  own_key_generated :
      Among rule_key
        (create_rule_key_by_tuple std (add_policy std e r port) proto src_addr dst_addr r.direction)
  unfolding create_rule_key_by_tuple add_policy add_mask_and_priority
  own_key_generated =
      among_priorities std proto (cidr_side r.direction src_addr dst_addr)
        (exact_side r.direction src_addr dst_addr) r.direction r.priority
        (add_policy std e r port).priority (add_policy std e r port).mask_cidr rule_key
        (inserted r.priority (set_tree e r.direction _).priority)
        (among_masks std proto (cidr_side r.direction src_addr dst_addr)
          (exact_side r.direction src_addr dst_addr) r.direction r.priority
          (create_rule_key std r).1 (add_policy std e r port).mask_cidr rule_key
          (rw maskable (inserted (create_rule_key std r).1 (set_tree e r.direction _).mask_cidr))
          own_key)

  -- Once a rule is added that its policy did not have, every packet that it is meant for finds a
  -- rule: the addresses are the rule's, its mask is between 1 and 32, the rule is for the packet's
  -- protocol or for any, and the new port entry covers the destination port or the packet is ICMP.
  pub add_policy-match :
      (dst_port src_port : ℕ)
      → engine_rule e r.direction (create_rule_key std r).0 r.policy_key ≡ none
      → (proto ≡ ipproto_icmp) ⊎ Covers dst_port port
      → (q : RuleDetail) × (match_five_tuple std
            (add_policy std e r port)
            proto
            dst_port
            src_port
            src_addr
            dst_addr
            r.direction
          ≡ some q)
  unfolding rule_key
  add_policy-match dst_port src_port fresh fits =
      match_five_tuple_complete std (add_policy std e r port) proto dst_port src_port src_addr
        dst_addr r.direction rule_key (record r { ports = port ∷ [] }) own_key_generated
        (rule_at-StoredUnder (tree_of (add_policy std e r port) r.direction).chain rule_key
          r.policy_key (record r { ports = port ∷ [] }) stored)
        ((matches_iff (record r { ports = port ∷ [] }) proto dst_port src_port).1 (
          elim of_proto [ inl p ↦ inr (inr p) | inr p ↦ inr (inl p) ],
          elim fits [ inl i ↦ inr (inl i) | inr c ↦ inr (inr (port, inl refl, c)) ],
        ))
    where
      stored :
          rule_at
            (tree_of (add_policy std e r port) r.direction).chain
            (create_rule_key std r).0
            r.policy_key
          ≡ some (record r { ports = port ∷ [] })
      stored =
          unfold engine_rule merged in
          ground (
            arith,
            engine_rule-add_policy std e r.direction (create_rule_key std r).0 r.policy_key r port,
            text_beq_iff (create_rule_key std r).0 (create_rule_key std r).0,
            text_beq_iff r.policy_key r.policy_key,
            same_dir_refl r.direction,
          )
