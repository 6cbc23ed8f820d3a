-- ===== src/Policy/Engine.antt =====
-- The policy engine (crates/net_policy_engine/src/lib.rs: RustPolicyEngine): one tree of rules for
-- each direction, and the ordered sets of masks and priorities that packets' keys are built from.
pub mod Matching
pub mod Priority
pub mod Adding
pub mod Reaching
pub mod Deleting
pub mod Reached
use net_policy.Common.{
  ℕ, ◌≤◌, Bool, true, false, ◌&&◌, Option, none, some, List, [], ◌∷◌, ◌++◌, length, leb, ltb, ◌==◌,
  nat_eq, if◌then◌else◌, Text, codes,
}
use net_policy.Policy.{FlowDir, ingress, egress, RulePort, RuleDetail, ℤ, pos, negsuc}
use net_policy.Policy.Rule.{
  StdText, create_rule_key, ipv4_cidr_to_ip, key_prefix, key_suffix, cidr_side, exact_side,
}
use net_policy.Policy.Tree.{
  PolicyTree, empty_tree, add_policy_to_chain, delete_policy_from_tree, match_rule_group,
}

unfoldable pub lt_i32 : ℤ → ℤ → Bool
lt_i32 (pos a) (pos b) = ltb a b
lt_i32 (pos a) (negsuc b) = false
lt_i32 (negsuc a) (pos b) = true
lt_i32 (negsuc a) (negsuc b) = ltb b a

-- `BTreeSet::insert`: ascending, without repetition.
unfoldable pub insert_i32 : ℤ → List ℤ → List ℤ
insert_i32 x [] = x ∷ []
insert_i32 x (y ∷ ys) =
    if lt_i32 x y then x ∷ (y ∷ ys) else if lt_i32 y x then y ∷ insert_i32 x ys else y ∷ ys

pub record RustPolicyEngine : Type 0 where
  pub input_tree : PolicyTree
  pub output_tree : PolicyTree
  pub mask_cidr : List ℤ
  pub priority : List ℤ

unfoldable pub new : RustPolicyEngine
unfolding empty_tree
new = record {
  input_tree = empty_tree;
  output_tree = empty_tree;
  mask_cidr = pos 32 ∷ [];
  priority = [];
}

unfoldable pub tree_of : RustPolicyEngine → FlowDir → PolicyTree
tree_of e ingress = e.input_tree
tree_of e egress = e.output_tree

-- The assignment through `tree_mut`.
unfoldable pub set_tree : RustPolicyEngine → FlowDir → PolicyTree → RustPolicyEngine
set_tree e ingress t = record e { input_tree = t }
set_tree e egress t = record e { output_tree = t }

-- `mask > 0 && mask <= 32`.
abbrev pub is_mask : ℤ → Bool
is_mask (pos m) = ltb 0 m && leb m 32
is_mask (negsuc n) = false

unfoldable pub add_mask_and_priority : RustPolicyEngine → ℤ → ℤ → RustPolicyEngine
unfolding insert_i32
add_mask_and_priority e priority mask = record e {
  mask_cidr = if is_mask mask then insert_i32 mask e.mask_cidr else e.mask_cidr;
  priority = insert_i32 priority e.priority;
}

unfoldable pub delete_policy : RustPolicyEngine → FlowDir → Text → RustPolicyEngine
delete_policy e dir name = set_tree e dir (delete_policy_from_tree (tree_of e dir) name)

unfoldable pub clear_cfg : RustPolicyEngine → RustPolicyEngine
unfolding new
clear_cfg e = new

-- The literal `0.0.0.0/32` around the exact address.
abbrev wildcard_suffix : FlowDir → Text → Text
wildcard_suffix ingress exact = codes "0.0.0.0/32-" ++ exact
wildcard_suffix egress exact = exact ++ codes "-0.0.0.0/32"

-- The loop over the keys: the first match is returned.
unfoldable pub first_match : PolicyTree → List Text → ℕ → ℕ → ℕ → Option RuleDetail
first_match t [] proto dst_port src_port = none
first_match t (key ∷ keys) proto dst_port src_port =
    let rest = first_match t keys proto dst_port src_port in
    elim (match_rule_group t.chain key proto dst_port src_port) [
      | some matched ↦ some matched
      | none ↦ rest
    ]

module _ (std : StdText) where
  unfoldable pub add_policy : RustPolicyEngine → RuleDetail → RulePort → RustPolicyEngine
  add_policy e policy port =
      add_mask_and_priority
        (set_tree e policy.direction
          (add_policy_to_chain std (tree_of e policy.direction) policy port))
        policy.priority (create_rule_key std policy).1

  -- The two keys of one CIDR, for the packet's protocol and for any protocol.
  abbrev pub pair_keys : ℤ → ℕ → Text → List Text
  pair_keys priority proto suffix =
      (key_prefix std priority proto ++ suffix) ∷ (key_prefix std priority 0 ++ suffix) ∷ []

  unfoldable pub mask_keys : ℤ → ℕ → Text → Text → FlowDir → List ℤ → List Text
  mask_keys priority proto cidr exact dir [] = []
  mask_keys priority proto cidr exact dir (mask ∷ masks) =
      pair_keys priority proto (key_suffix std dir (ipv4_cidr_to_ip std cidr mask) mask exact)
      ++ mask_keys priority proto cidr exact dir masks

  unfoldable pub priority_keys : ℤ → ℕ → Text → Text → FlowDir → List ℤ → List Text
  priority_keys priority proto cidr exact dir masks =
      pair_keys priority proto (wildcard_suffix dir exact)
      ++ mask_keys priority proto cidr exact dir masks

  unfoldable pub tuple_keys : List ℤ → ℕ → Text → Text → FlowDir → List ℤ → List Text
  tuple_keys [] proto cidr exact dir masks = []
  tuple_keys (p ∷ ps) proto cidr exact dir masks =
      priority_keys p proto cidr exact dir masks ++ tuple_keys ps proto cidr exact dir masks

  unfoldable pub create_rule_key_by_tuple : RustPolicyEngine → ℕ → Text → Text → FlowDir → List Text
  create_rule_key_by_tuple e proto src_addr dst_addr dir =
      tuple_keys e.priority proto (cidr_side dir src_addr dst_addr)
        (exact_side dir src_addr dst_addr) dir e.mask_cidr

  unfoldable pub match_five_tuple :
      RustPolicyEngine → ℕ → ℕ → ℕ → Text → Text → FlowDir → Option RuleDetail
  match_five_tuple e proto dst_port src_port src_addr dst_addr dir =
      let t = tree_of e dir in
      if length t.chain == 0
      then none
      else first_match t (create_rule_key_by_tuple e proto src_addr dst_addr dir) proto dst_port
          src_port
