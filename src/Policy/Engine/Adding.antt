-- ===== src/Policy/Engine/Adding.antt =====
-- The entry that add_policy_internal of RustPolicyEngine writes
-- (crates/net_policy_engine/src/lib.rs).
use net_policy.Common.{
  ◌≡◌, refl, true, ◌&&◌, some, [], ◌∷◌, ◌++◌, Text, if◌then◌else◌, ◌==◌, text_eq, text_beq_iff,
  arith,
}
use net_policy.Policy.{FlowDir, ingress, egress, RuleDetail, RulePort}
use net_policy.Policy.Rule.{StdText, create_rule_key}
use net_policy.Policy.Tree.{add_policy_to_chain}
use net_policy.Policy.Tree.Contents.{rule_at, merged, rule_at-add}
use net_policy.Policy.Engine.{RustPolicyEngine, tree_of, add_policy, add_mask_and_priority}
use net_policy.Policy.Engine.Deleting.{engine_rule, same_dir, tree_of-set_tree}

pub same_dir_refl : (d : FlowDir) → same_dir d d ≡ true
same_dir_refl ingress = refl
same_dir_refl egress = refl

tree_of-add_policy :
    (std : StdText) (e : RustPolicyEngine) (d : FlowDir) (r : RuleDetail) (p : RulePort)
    → tree_of (add_policy std e r p) d ≡ (
        if same_dir r.direction d
        then add_policy_to_chain std (tree_of e r.direction) r p
        else tree_of e d)
unfolding add_policy add_mask_and_priority tree_of
tree_of-add_policy std e ingress r p = tree_of-set_tree e r.direction ingress _
tree_of-add_policy std e egress r p = tree_of-set_tree e r.direction egress _

-- Adding a rule writes the entry of its direction, rule key and policy, and no other. A rule that
-- is there already keeps everything but its port list, which grows by the new port.
pub engine_rule-add_policy :
    (std : StdText) (e : RustPolicyEngine) (d : FlowDir) (key name : Text) (r : RuleDetail)
    (p : RulePort)
    → engine_rule (add_policy std e r p) d key name ≡ (
        if same_dir r.direction d && ((create_rule_key std r).0 == key && r.policy_key == name)
        then some (merged (engine_rule e r.direction (create_rule_key std r).0 r.policy_key) r p)
        else engine_rule e d key name)
unfolding engine_rule
engine_rule-add_policy std e d key name r p =
    rw (tree_of-add_policy std e d r p) (by_dir r.direction d)
  where
    by_dir :
        (dir d : FlowDir)
        → rule_at
            (if same_dir dir d
              then add_policy_to_chain std (tree_of e dir) r p
              else tree_of e d).chain
            key
            name
          ≡ (if same_dir dir d && ((create_rule_key std r).0 == key && r.policy_key == name)
              then some (
                  merged (rule_at (tree_of e dir).chain (create_rule_key std r).0 r.policy_key) r p)
              else rule_at (tree_of e d).chain key name)
    by_dir ingress ingress = unfold add_policy_to_chain in rule_at-add _ _ _ _ r p
    by_dir ingress egress = refl
    by_dir egress ingress = refl
    by_dir egress egress = unfold add_policy_to_chain in rule_at-add _ _ _ _ r p

-- So a second rule of a policy under the same key does not bring its own action.
pub add_policy_keeps_action :
    (std : StdText) (e : RustPolicyEngine) (r old : RuleDetail) (p : RulePort)
    → engine_rule e r.direction (create_rule_key std r).0 r.policy_key ≡ some old
    → (new : RuleDetail) × (engine_rule
          (add_policy std e r p)
          r.direction
          (create_rule_key std r).0
          r.policy_key
        ≡ some new)
      × (new.action ≡ old.action)
      × (new.ports ≡ old.ports ++ (p ∷ []))
unfolding merged
add_policy_keeps_action std e r old p h = (
  record old { ports = old.ports ++ (p ∷ []) },
  ground (
    arith,
    engine_rule-add_policy std e r.direction (create_rule_key std r).0 r.policy_key r p,
    text_beq_iff (create_rule_key std r).0 (create_rule_key std r).0,
    text_beq_iff r.policy_key r.policy_key,
    same_dir_refl r.direction,
  ),
  refl,
  refl,
)
