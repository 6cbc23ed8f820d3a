-- ===== src/Policy/Engine/Deleting.antt =====
-- Deleting a policy from the engine, and the index invariant of its two trees.
use net_policy.Common.{
  ◌≡◌, refl, Bool, true, false, ◌&&◌, Option, none, Text, if◌then◌else◌, ◌==◌, text_eq,
}
use net_policy.Policy.{FlowDir, ingress, egress, RuleDetail, RulePort}
use net_policy.Policy.Rule.{StdText}
use net_policy.Policy.Tree.{PolicyTree, add_policy_to_chain, delete_policy_from_tree}
use net_policy.Policy.Tree.Contents.{
  rule_at, IsIndexed, empty_tree-IsIndexed, add-IsIndexed, delete-IsIndexed, rule_at-delete,
}
use net_policy.Policy.Engine.{
  RustPolicyEngine, new, tree_of, set_tree, add_policy, delete_policy, add_mask_and_priority,
}

abbrev pub same_dir : FlowDir → FlowDir → Bool
same_dir ingress ingress = true
same_dir ingress egress = false
same_dir egress ingress = false
same_dir egress egress = true

pub tree_of-set_tree :
    (e : RustPolicyEngine) (dir d : FlowDir) (t : PolicyTree)
    → tree_of (set_tree e dir t) d ≡ (if same_dir dir d then t else tree_of e d)
unfolding tree_of set_tree
tree_of-set_tree e ingress ingress t = refl
tree_of-set_tree e ingress egress t = refl
tree_of-set_tree e egress ingress t = refl
tree_of-set_tree e egress egress t = refl

-- The rule that the engine holds in a direction for a rule key and a policy.
unfoldable pub engine_rule : RustPolicyEngine → FlowDir → Text → Text → Option RuleDetail
engine_rule e dir key name = rule_at (tree_of e dir).chain key name

-- Both trees have an index that covers their rules.
abbrev pub EngineIsIndexed : RustPolicyEngine → Type 0
EngineIsIndexed e = IsIndexed e.input_tree × IsIndexed e.output_tree

tree_of-IsIndexed :
    (e : RustPolicyEngine) (dir : FlowDir) → EngineIsIndexed e → IsIndexed (tree_of e dir)
unfolding tree_of
tree_of-IsIndexed e ingress i = i.0
tree_of-IsIndexed e egress i = i.1

set_tree-IsIndexed :
    (e : RustPolicyEngine) (dir : FlowDir) (t : PolicyTree)
    → EngineIsIndexed e
    → IsIndexed t
    → EngineIsIndexed (set_tree e dir t)
unfolding set_tree
set_tree-IsIndexed e ingress t i h = (h, i.1)
set_tree-IsIndexed e egress t i h = (i.0, h)

pub new-EngineIsIndexed : EngineIsIndexed new
unfolding new
new-EngineIsIndexed = (empty_tree-IsIndexed, empty_tree-IsIndexed)

pub add_policy-EngineIsIndexed :
    (std : StdText) (e : RustPolicyEngine) (r : RuleDetail) (p : RulePort)
    → EngineIsIndexed e
    → EngineIsIndexed (add_policy std e r p)
unfolding add_policy add_mask_and_priority
add_policy-EngineIsIndexed std e r p i =
    set_tree-IsIndexed e r.direction (add_policy_to_chain std (tree_of e r.direction) r p) i
      (add-IsIndexed std (tree_of e r.direction) r p (tree_of-IsIndexed e r.direction i))

pub delete_policy-EngineIsIndexed :
    (e : RustPolicyEngine) (dir : FlowDir) (name : Text)
    → EngineIsIndexed e
    → EngineIsIndexed (delete_policy e dir name)
unfolding delete_policy
delete_policy-EngineIsIndexed e dir name i =
    set_tree-IsIndexed e dir (delete_policy_from_tree (tree_of e dir) name) i
      (delete-IsIndexed (tree_of e dir) name (tree_of-IsIndexed e dir i))

-- Deleting a policy in a direction removes all its rules in that direction, and changes no rule of
-- another policy and none of the other direction.
pub engine_rule-delete_policy :
    (e : RustPolicyEngine) (dir d : FlowDir) (name key other : Text)
    → EngineIsIndexed e
    → engine_rule (delete_policy e dir name) d key other
      ≡ (if same_dir dir d && name == other then none else engine_rule e d key other)
unfolding engine_rule delete_policy
engine_rule-delete_policy e dir d name key other i =
    rw (tree_of-set_tree e dir d (delete_policy_from_tree (tree_of e dir) name)) (by_dir dir d)
  where
    by_dir :
        (dir d : FlowDir)
        → rule_at
            (if same_dir dir d
              then delete_policy_from_tree (tree_of e dir) name
              else tree_of e d).chain
            key
            other
          ≡ (if same_dir dir d && name == other
              then none
              else rule_at (tree_of e d).chain key other)
    by_dir ingress ingress =
        rule_at-delete (tree_of e ingress) name key other (tree_of-IsIndexed e ingress i)
    by_dir ingress egress = refl
    by_dir egress ingress = refl
    by_dir egress egress =
        rule_at-delete (tree_of e egress) name key other (tree_of-IsIndexed e egress i)
