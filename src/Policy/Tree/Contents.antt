-- ===== src/Policy/Tree/Contents.antt =====
-- A tree of rules as a table: the rule of each rule key and policy. What adding and deleting a
-- policy do to it, and the index from policies to rule keys on which deletion relies.
use net_policy.Common.Maps.{
  lookup, insert, erase, contains_key, lookup-insert, lookup-erase, contains_key-insert,
}
use net_policy.Common.{
  ◌≡◌, ◌≢◌, inl, inr, refl, Bool, true, false, ◌&&◌, Option, none, some, [], ◌∷◌, ◌++◌, Text, Map,
  length, Option-cases, arith, if◌then◌else◌, ◌==◌, nat_eq, text_eq, text_beq_iff,
}
use net_policy.Policy.{FlowDir, RuleDetail, RulePort}
use net_policy.Policy.Rule.{StdText, create_rule_key}
use net_policy.Policy.Tree.{
  RuleGroup, RuleChain, PolicyTree, empty_tree, add_rule_detail, add_rule_to_chain,
  delete_rule_from_chain, delete_rules, delete_policy_from_tree, add_policy_to_chain, or_empty,
}

-- The rule of a policy under a rule key.
unfoldable pub rule_at : RuleChain → Text → Text → Option RuleDetail
rule_at chain key name = lookup name (or_empty (lookup key chain))

-- What the group holds for a policy after one of its rules is added.
unfoldable pub merged : Option RuleDetail → RuleDetail → RulePort → RuleDetail
merged none rule port = record rule { ports = port ∷ [] }
merged (some existing) rule port = record existing { ports = existing.ports ++ (port ∷ []) }

lookup-add_rule_detail :
    (g : RuleGroup) (rule : RuleDetail) (port : RulePort) (name : Text)
    → lookup name (add_rule_detail g rule port) ≡ (
        if rule.policy_key == name
        then some (merged (lookup rule.policy_key g) rule port)
        else lookup name g)
unfolding add_rule_detail merged
lookup-add_rule_detail g rule port name = elim (Option-cases (lookup rule.policy_key g)) [
  | inl e ↦
      rw (e, add_rule_detail)
        (lookup-insert rule.policy_key name (record rule { ports = port ∷ [] }) g)
  | inr (r, e) ↦
      rw (e, add_rule_detail)
        (lookup-insert rule.policy_key name (record r { ports = r.ports ++ (port ∷ []) }) g)
]

-- Adding writes the entry of the rule's key and policy, and no other.
pub rule_at-add :
    (chain : RuleChain) (key k name : Text) (rule : RuleDetail) (port : RulePort)
    → rule_at (add_rule_to_chain chain key rule port) k name ≡ (
        if key == k && rule.policy_key == name
        then some (merged (rule_at chain key rule.policy_key) rule port)
        else rule_at chain k name)
unfolding rule_at add_rule_to_chain
rule_at-add chain key k name rule port = ground (
  arith,
  lookup-insert key k (add_rule_detail (or_empty (lookup key chain)) rule port) chain,
  lookup-add_rule_detail (or_empty (lookup key chain)) rule port name,
  text_beq_iff key k,
)

lookup-nil : (name : Text) → lookup {V = RuleDetail} name [] ≡ none
unfolding lookup
lookup-nil name = refl

lookup-short : (name : Text) (g : RuleGroup) → (length g == 0) ≡ true → lookup name g ≡ none
unfolding lookup
lookup-short name [] h = refl
lookup-short name (e ∷ g) h = absurd (ground arith)

-- Deleting from one group clears one entry; an emptied group goes without changing any other.
rule_at-delete_rule :
    (chain : RuleChain) (name key k other : Text)
    → rule_at (delete_rule_from_chain chain name key) k other
      ≡ (if key == k && name == other then none else rule_at chain k other)
unfolding rule_at delete_rule_from_chain
rule_at-delete_rule chain name key k other = elim (Option-cases (lookup key chain)) [
  | inl e ↦ ground (arith, text_beq_iff key k, lookup-nil other)
  | inr (g, e) ↦ ground (
    arith,
    text_beq_iff key k,
    lookup-nil other,
    lookup-short other (erase name g),
    lookup-erase name other g,
    lookup-erase key k chain,
    lookup-insert key k (erase name g) chain,
  )
]

-- Deleting under several keys clears those entries of the policy.
rule_at-delete_rules :
    (ks : Map Text FlowDir) (chain : RuleChain) (name k other : Text)
    → rule_at (delete_rules chain name ks) k other
      ≡ (if contains_key k ks && name == other then none else rule_at chain k other)
unfolding delete_rules contains_key lookup
rule_at-delete_rules [] chain name k other = refl
rule_at-delete_rules ((key, dir) ∷ ks) chain name k other = ground (
  arith,
  rule_at-delete_rules ks (delete_rule_from_chain chain name key) name k other,
  rule_at-delete_rule chain name key k other,
)

-- Whether the tree's index lists a rule key for a policy.
unfoldable pub indexed : PolicyTree → Text → Text → Bool
indexed t name key = contains_key key (or_empty (lookup name t.tree))

-- The index covers every stored rule.
abbrev pub IsIndexed : PolicyTree → Type 0
IsIndexed t =
    (key name : Text) (r : RuleDetail)
    → rule_at t.chain key name ≡ some r
    → indexed t name key ≡ true

pub empty_tree-IsIndexed : IsIndexed empty_tree
unfolding empty_tree rule_at lookup
empty_tree-IsIndexed key name r h = cc

pub add-IsIndexed :
    (std : StdText) (t : PolicyTree) (rule : RuleDetail) (port : RulePort)
    → IsIndexed t
    → IsIndexed (add_policy_to_chain std t rule port)
unfolding add_policy_to_chain indexed
add-IsIndexed std t rule port i key name r h =
    let k : Text = (create_rule_key std rule).0 in
    ground (
      arith,
      rule_at-add t.chain k key name rule port,
      i key name r,
      lookup-insert rule.policy_key name
          (insert k rule.direction (or_empty (lookup rule.policy_key t.tree))) t.tree,
      contains_key-insert k key rule.direction (or_empty (lookup rule.policy_key t.tree)),
      text_beq_iff rule.policy_key name,
    )

rule_at_empty : (key name : Text) → rule_at [] key name ≡ none
unfolding rule_at lookup
rule_at_empty key name = refl

lookup_of_short :
    (name : Text) (t : Map Text (Map Text FlowDir)) → (length t == 0) ≡ true → lookup name t ≡ none
unfolding lookup
lookup_of_short name [] h = refl
lookup_of_short name (e ∷ t) h = absurd (ground arith)

not-indexed :
    (t : PolicyTree) (name key : Text) → lookup name t.tree ≡ none → indexed t name key ≡ false
unfolding indexed contains_key lookup
not-indexed t name key h = rw h

indexed-some :
    (t : PolicyTree) (name key : Text) (ks : Map Text FlowDir)
    → lookup name t.tree ≡ some ks
    → indexed t name key ≡ contains_key key ks
unfolding indexed
indexed-some t name key ks h = rw h

-- A stored rule of a policy that the index does not list contradicts the index.
absent :
    (t : PolicyTree) (key name : Text)
    → IsIndexed t
    → indexed t name key ≡ false
    → rule_at t.chain key name ≡ none
absent t key name i h = elim (Option-cases (rule_at t.chain key name)) [
  | inl e ↦ e
  | inr (r, e) ↦ absurd (cc (i key name r e, h))
]

-- Deleting a policy removes its rules under every key, and no other rule.
pub rule_at-delete :
    (t : PolicyTree) (name key other : Text)
    → IsIndexed t
    → rule_at (delete_policy_from_tree t name).chain key other
      ≡ (if name == other then none else rule_at t.chain key other)
unfolding delete_policy_from_tree
rule_at-delete t name key other i = elim (Option-cases (lookup name t.tree)) [
  | inl e ↦
      rw (e, delete_policy_from_tree)
        (ground (arith, text_beq_iff name other, absent t key name i (not-indexed t name key e)))
  | inr (ks, e) ↦
      rw (e, delete_policy_from_tree)
        (ground (
          arith,
          text_beq_iff name other,
          rule_at-delete_rules ks t.chain name key other,
          absent t key name i,
          absent t key other i,
          indexed-some t name key ks e,
          not-indexed t other key,
          lookup_of_short other (erase name t.tree),
          lookup-erase name other t.tree,
          rule_at_empty key other,
        ))
]

indexed-delete :
    (t : PolicyTree) (name other key : Text)
    → name ≢ other
    → indexed t other key ≡ true
    → indexed (delete_policy_from_tree t name) other key ≡ true
unfolding delete_policy_from_tree
indexed-delete t name other key ne h = elim (Option-cases (lookup name t.tree)) [
  | inl e ↦ rw (e, delete_policy_from_tree) h
  | inr (ks, e) ↦
      rw (e, delete_policy_from_tree)
        (unfold indexed in
          ground (
            arith,
            text_beq_iff name other,
            not-indexed t other key,
            lookup_of_short other (erase name t.tree),
            lookup-erase name other t.tree,
          ))
]

pub delete-IsIndexed :
    (t : PolicyTree) (name : Text) → IsIndexed t → IsIndexed (delete_policy_from_tree t name)
delete-IsIndexed t name i key other r h =
    indexed-delete t name other key
      (λ e. ground (arith, text_beq_iff name other, rule_at-delete t name key other i))
      (i key other r (ground (arith, rule_at-delete t name key other i)))
