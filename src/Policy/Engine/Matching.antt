-- ===== src/Policy/Engine/Matching.antt =====
-- The lookup in RustPolicyEngine (crates/net_policy_engine/src/lib.rs:
-- match_five_tuple_internal) against the rules that the trees store.
use net_policy.Common.Maps.{lookup}
use net_policy.Common.{
  ℕ, ◌≡◌, ◌⊎◌, inl, inr, refl, sym, ap, subst, true, false, Option, none, some, List, [], ◌∷◌, ◌++◌,
  Text, length, Among, Option-cases, Bool-cases, arith, text_eq, nat_eq, ◌==◌,
}
use net_policy.Policy.{FlowDir, RuleDetail, ℤ}
use net_policy.Policy.Rule.{StdText, matches}
use net_policy.Policy.Tree.{RuleGroup, RuleChain, PolicyTree, match_rule, match_rule_group}
use net_policy.Policy.Engine.{
  RustPolicyEngine, tree_of, first_match, match_five_tuple, create_rule_key_by_tuple, lt_i32,
}

abbrev pub or_else {ℓ} : {A : Type ℓ} → Option A → Option A → Option A
or_else none o = o
or_else (some a) o = some a

-- The rule is in the group.
abbrev pub Stored : RuleDetail → RuleGroup → Type 0
Stored r rules = (k : Text) × Among (k, r) rules

match_rule_sound :
    (rules : RuleGroup) (proto dst_port src_port : ℕ) (r : RuleDetail)
    → match_rule rules proto dst_port src_port ≡ some r
    → Stored r rules × (matches r proto dst_port src_port ≡ true)
unfolding match_rule
match_rule_sound [] proto dst_port src_port r h = cc
match_rule_sound ((k, q) ∷ rules) proto dst_port src_port r h =
    elim (Bool-cases (matches q proto dst_port src_port)) [
      | inl e ↦ ((k, inl (ground arith)), ground arith)
      | inr e ↦
          let ((j, m), f) = match_rule_sound rules proto dst_port src_port r (ground arith) in
          ((j, inr m), f)
    ]

match_rule_complete :
    (rules : RuleGroup) (proto dst_port src_port : ℕ) (r : RuleDetail)
    → Stored r rules
    → matches r proto dst_port src_port ≡ true
    → (q : RuleDetail) × (match_rule rules proto dst_port src_port ≡ some q)
unfolding match_rule
match_rule_complete [] proto dst_port src_port r (k, m) f = elim m [ ]
match_rule_complete ((k, q) ∷ rules) proto dst_port src_port r (j, inl e) f =
    (q, rw (subst (λ x. matches x proto dst_port src_port ≡ true) (sym (ap (λ t. t.1) e)) f))
match_rule_complete ((k, q) ∷ rules) proto dst_port src_port r (j, inr m) f =
    elim (Bool-cases (matches q proto dst_port src_port)) [
      | inl e ↦ (q, rw e)
      | inr e ↦ rw e (match_rule_complete rules proto dst_port src_port r (j, m) f)
    ]

-- A stored rule that fires is reached through its key.
abbrev pub StoredUnder : Text → RuleDetail → RuleChain → Type 0
StoredUnder key r chain = (rules : RuleGroup) × (lookup key chain ≡ some rules) × Stored r rules

group_sound :
    (chain : RuleChain) (key : Text) (proto dst_port src_port : ℕ) (r : RuleDetail)
    → match_rule_group chain key proto dst_port src_port ≡ some r
    → StoredUnder key r chain × (matches r proto dst_port src_port ≡ true)
unfolding match_rule_group
group_sound chain key proto dst_port src_port r h = elim (Option-cases (lookup key chain)) [
  | inl e ↦ absurd (ground arith)
  | inr (rules, e) ↦
      let (s, f) = match_rule_sound rules proto dst_port src_port r (ground arith) in
      ((rules, e, s), f)
]

group_complete :
    (chain : RuleChain) (key : Text) (proto dst_port src_port : ℕ) (r : RuleDetail)
    → StoredUnder key r chain
    → matches r proto dst_port src_port ≡ true
    → (q : RuleDetail) × (match_rule_group chain key proto dst_port src_port ≡ some q)
unfolding match_rule_group
group_complete chain key proto dst_port src_port r (rules, e, s) f =
    rw (e, match_rule_group) (match_rule_complete rules proto dst_port src_port r s f)

first_match_sound :
    (t : PolicyTree) (keys : List Text) (proto dst_port src_port : ℕ) (r : RuleDetail)
    → first_match t keys proto dst_port src_port ≡ some r
    → (key : Text) × Among key keys
      × StoredUnder key r t.chain
      × (matches r proto dst_port src_port ≡ true)
unfolding first_match
first_match_sound t [] proto dst_port src_port r h = absurd (ground arith)
first_match_sound t (key ∷ keys) proto dst_port src_port r h =
    elim (Option-cases (match_rule_group t.chain key proto dst_port src_port)) [
      | inl e ↦
          let (k, m, s, f) = first_match_sound t keys proto dst_port src_port r (ground arith) in
          (k, inr m, s, f)
      | inr (q, e) ↦
          let (s, f) = group_sound t.chain key proto dst_port src_port r (ground arith) in
          (key, inl refl, s, f)
    ]

pub first_match_complete :
    (t : PolicyTree) (keys : List Text) (proto dst_port src_port : ℕ) (key : Text) (r : RuleDetail)
    → Among key keys
    → StoredUnder key r t.chain
    → matches r proto dst_port src_port ≡ true
    → (q : RuleDetail) × (first_match t keys proto dst_port src_port ≡ some q)
unfolding first_match
first_match_complete t [] proto dst_port src_port key r m s f = elim m [ ]
first_match_complete t (k ∷ keys) proto dst_port src_port key r m s f =
    elim (Option-cases (match_rule_group t.chain k proto dst_port src_port)) [
      | inl e ↦
          rw (e, first_match)
            (first_match_complete t keys proto dst_port src_port key r (rest m e) s f)
      | inr (q, e) ↦ (q, rw (e, first_match))
    ]
  where
    rest :
        (k ≡ key) ⊎ Among key keys
        → match_rule_group t.chain k proto dst_port src_port ≡ none
        → Among key keys
    rest (inl p) e =
        let (q, g) =
          group_complete t.chain k proto dst_port src_port r
            (subst (λ x. StoredUnder x r t.chain) (sym p) s) f in
        absurd (ground arith)
    rest (inr l) e = l

StoredUnder-length :
    (key : Text) (r : RuleDetail) (chain : RuleChain)
    → StoredUnder key r chain
    → (length chain == 0) ≡ false
unfolding lookup
StoredUnder-length key r [] (rules, e, s) = cc
StoredUnder-length key r (g ∷ chain) s = ground arith

module _ (std : StdText) (e : RustPolicyEngine) where
  -- The packet's keys, in the order in which they are tried.
  abbrev keys_of : ℕ → Text → Text → FlowDir → List Text
  keys_of = create_rule_key_by_tuple std e

  -- What a lookup returns fires for the packet, and is stored in the direction's tree under one of
  -- the packet's keys.
  pub match_five_tuple_sound :
      (proto dst_port src_port : ℕ) (src_addr dst_addr : Text) (dir : FlowDir) (r : RuleDetail)
      → match_five_tuple std e proto dst_port src_port src_addr dst_addr dir ≡ some r
      → (key : Text) × Among key (create_rule_key_by_tuple std e proto src_addr dst_addr dir)
        × StoredUnder key r (tree_of e dir).chain
        × (matches r proto dst_port src_port ≡ true)
  unfolding match_five_tuple
  match_five_tuple_sound proto dst_port src_port src_addr dst_addr dir r h =
      first_match_sound (tree_of e dir) (keys_of proto src_addr dst_addr dir) proto dst_port
        src_port r (ground arith)

  -- If a rule that fires for the packet is stored under one of its keys, a lookup returns a rule.
  pub match_five_tuple_complete :
      (proto dst_port src_port : ℕ) (src_addr dst_addr : Text) (dir : FlowDir) (key : Text)
      (r : RuleDetail)
      → Among key (create_rule_key_by_tuple std e proto src_addr dst_addr dir)
      → StoredUnder key r (tree_of e dir).chain
      → matches r proto dst_port src_port ≡ true
      → (q : RuleDetail) × (match_five_tuple std e proto dst_port src_port src_addr dst_addr dir
          ≡ some q)
  unfolding match_five_tuple
  match_five_tuple_complete proto dst_port src_port src_addr dst_addr dir key r m s f =
      rw (StoredUnder-length key r (tree_of e dir).chain s) (
        first_match_complete (tree_of e dir) (keys_of proto src_addr dst_addr dir) proto dst_port
          src_port key r m s f)

pub first_match-append :
    (t : PolicyTree) (ks ls : List Text) (proto dst_port src_port : ℕ)
    → first_match t (ks ++ ls) proto dst_port src_port
      ≡ or_else
          (first_match t ks proto dst_port src_port)
          (first_match t ls proto dst_port src_port)
unfolding first_match
first_match-append t [] ls proto dst_port src_port = refl
first_match-append t (k ∷ ks) ls proto dst_port src_port =
    ground (arith, first_match-append t ks ls proto dst_port src_port)

-- Ascending, without repetition.
abbrev pub IsAscending : List ℤ → Type 0
IsAscending [] = Unit
IsAscending (p ∷ ps) = ((q : ℤ) → Among q ps → lt_i32 p q ≡ true) × IsAscending ps
