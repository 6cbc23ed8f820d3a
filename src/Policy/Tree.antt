-- ===== src/Policy/Tree.antt =====
-- Groups, chains and trees of rules (crates/net_policy_engine/src/lib.rs: RuleGroup, RuleChain,
-- PolicyTree). A `HashMap` is an association list: its iteration order is that of the list.
pub mod Contents
use net_policy.Common.Maps.{lookup, insert, erase, contains_key}
use net_policy.Common.{
  ℕ, Bool, true, false, Option, none, some, List, [], ◌∷◌, ◌++◌, length, ◌==◌, nat_eq, text_eq,
  if◌then◌else◌, Text, Map,
}
use net_policy.Policy.{FlowDir, RulePort, RuleDetail, ℤ}
use net_policy.Policy.Rule.{StdText, create_rule_key, matches}

-- Rules by policy key.
abbrev pub RuleGroup : Type 0
RuleGroup = Map Text RuleDetail

-- Groups by rule key.
abbrev pub RuleChain : Type 0
RuleChain = Map Text RuleGroup

pub record PolicyTree : Type 0 where
  pub chain : RuleChain
  -- The rule keys of each policy.
  pub tree : Map Text (Map Text FlowDir)

unfoldable pub empty_tree : PolicyTree
empty_tree = record { chain = []; tree = [] }

unfoldable pub add_rule_detail : RuleGroup → RuleDetail → RulePort → RuleGroup
add_rule_detail rules rule port = elim (lookup rule.policy_key rules) [
  | none ↦ insert rule.policy_key (record rule { ports = port ∷ [] }) rules
  | some existing ↦
      insert rule.policy_key (record existing { ports = existing.ports ++ (port ∷ []) }) rules
]

-- `values().find(...)`.
unfoldable pub match_rule : RuleGroup → ℕ → ℕ → ℕ → Option RuleDetail
match_rule [] proto dst_port src_port = none
match_rule ((k, r) ∷ rules) proto dst_port src_port =
    if matches r proto dst_port src_port then some r else match_rule rules proto dst_port src_port

unfoldable pub match_rule_group : RuleChain → Text → ℕ → ℕ → ℕ → Option RuleDetail
match_rule_group chain key proto dst_port src_port = elim (lookup key chain) [
  | none ↦ none
  | some rules ↦ match_rule rules proto dst_port src_port
]

abbrev pub or_empty {ℓ} : {A : Type ℓ} → Option (List A) → List A
or_empty none = []
or_empty (some xs) = xs

-- `entry(key).or_insert_with(RuleGroup::new).add_rule_detail(...)`.
unfoldable pub add_rule_to_chain : RuleChain → Text → RuleDetail → RulePort → RuleChain
add_rule_to_chain chain key policy port =
    insert key (add_rule_detail (or_empty (lookup key chain)) policy port) chain

unfoldable pub delete_rule_from_chain : RuleChain → Text → Text → RuleChain
delete_rule_from_chain chain policy_name rule_key = elim (lookup rule_key chain) [
  | none ↦ chain
  | some rules ↦
      if length (erase policy_name rules) == 0
      then erase rule_key chain
      else insert rule_key (erase policy_name rules) chain
]

-- The loop of `delete_policy_from_tree` over the keys that the policy added.
unfoldable pub delete_rules : RuleChain → Text → Map Text FlowDir → RuleChain
delete_rules chain name [] = chain
delete_rules chain name ((key, dir) ∷ rest) =
    delete_rules (delete_rule_from_chain chain name key) name rest

unfoldable pub delete_policy_from_tree : PolicyTree → Text → PolicyTree
unfolding empty_tree
delete_policy_from_tree t name = elim (lookup name t.tree) [
  | none ↦ t
  | some rules ↦
      if length (erase name t.tree) == 0
      then empty_tree
      else record { chain = delete_rules t.chain name rules; tree = erase name t.tree }
]

module _ (std : StdText) where
  unfoldable pub add_policy_to_chain : PolicyTree → RuleDetail → RulePort → PolicyTree
  add_policy_to_chain t policy port =
      let (key, mask) = create_rule_key std policy in
      record {
        chain = add_rule_to_chain t.chain key policy port;
        tree =
            insert policy.policy_key
              (insert key policy.direction (or_empty (lookup policy.policy_key t.tree))) t.tree;
      }
