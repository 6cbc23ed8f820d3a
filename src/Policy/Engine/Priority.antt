-- ===== src/Policy/Engine/Priority.antt =====
-- The order of priorities in RustPolicyEngine (crates/net_policy_engine/src/lib.rs:
-- add_mask_and_priority, match_five_tuple_internal).
use net_policy.Common.{
  ℕ, ◌≡◌, ◌⊎◌, inl, inr, refl, sym, subst, true, false, Option, none, some, List, [], ◌∷◌, Text,
  Among, Option-cases, Bool-cases, arith,
}
use net_policy.Policy.{FlowDir, ingress, egress, RuleDetail, RulePort, ℤ, pos, negsuc}
use net_policy.Policy.Rule.{StdText, cidr_side, exact_side}
use net_policy.Policy.Tree.{PolicyTree}
use net_policy.Policy.Engine.{
  RustPolicyEngine, tree_of, set_tree, first_match, match_five_tuple, create_rule_key_by_tuple,
  tuple_keys, priority_keys, lt_i32, insert_i32, add_policy, delete_policy, add_mask_and_priority,
}
use net_policy.Policy.Engine.Matching.{IsAscending, first_match-append, or_else}

lt_i32_irrefl : (p : ℤ) → lt_i32 p p ≡ false
unfolding lt_i32
lt_i32_irrefl (pos a) = ground arith
lt_i32_irrefl (negsuc a) = ground arith

lt_i32_asym : (p q : ℤ) → lt_i32 p q ≡ true → lt_i32 q p ≡ false
unfolding lt_i32
lt_i32_asym (pos a) (pos b) h = ground arith
lt_i32_asym (pos a) (negsuc b) h = cc
lt_i32_asym (negsuc a) (pos b) h = refl
lt_i32_asym (negsuc a) (negsuc b) h = ground arith

lt_i32_trans : (p q r : ℤ) → lt_i32 p q ≡ true → lt_i32 q r ≡ true → lt_i32 p r ≡ true
unfolding lt_i32
lt_i32_trans (pos a) (pos b) (pos c) h k = ground arith
lt_i32_trans (pos a) (pos b) (negsuc c) h k = cc
lt_i32_trans (pos a) (negsuc b) r h k = cc
lt_i32_trans (negsuc a) q (pos c) h k = refl
lt_i32_trans (negsuc a) (pos b) (negsuc c) h k = cc
lt_i32_trans (negsuc a) (negsuc b) (negsuc c) h k = ground arith

-- The three cases of an insertion before a first element.
insert_i32-cases :
    (x p : ℤ) (ps : List ℤ)
    → ((lt_i32 x p ≡ true) × (insert_i32 x (p ∷ ps) ≡ x ∷ (p ∷ ps)))
      ⊎ (((lt_i32 p x ≡ true) × (insert_i32 x (p ∷ ps) ≡ p ∷ insert_i32 x ps))
          ⊎ (insert_i32 x (p ∷ ps) ≡ p ∷ ps))
unfolding insert_i32
insert_i32-cases x p ps = elim (Bool-cases (lt_i32 x p)) [
  | inl e ↦ inl (e, rw e)
  | inr e ↦ elim (Bool-cases (lt_i32 p x)) [
    | inl f ↦ inr (inl (f, rw (e, f)))
    | inr f ↦ inr (inr (rw (e, f)))
  ]
]

Among-insert_i32 : (x q : ℤ) (ps : List ℤ) → Among q (insert_i32 x ps) → (x ≡ q) ⊎ Among q ps
unfolding insert_i32
Among-insert_i32 x q [] m = m
Among-insert_i32 x q (p ∷ ps) m = elim (insert_i32-cases x p ps) [
  | inl (l, e) ↦ subst (Among q) e m
  | inr (inl (l, e)) ↦ below (subst (Among q) e m) (Among-insert_i32 x q ps)
  | inr (inr e) ↦ inr (subst (Among q) e m)
]
  where
    below :
        Among q (p ∷ insert_i32 x ps)
        → (Among q (insert_i32 x ps) → (x ≡ q) ⊎ Among q ps)
        → (x ≡ q) ⊎ Among q (p ∷ ps)
    below (inl e) ih = inr (inl e)
    below (inr m') ih = elim (ih m') [ inl e ↦ inl e | inr k ↦ inr (inr k) ]

insert_i32-IsAscending : (x : ℤ) (ps : List ℤ) → IsAscending ps → IsAscending (insert_i32 x ps)
unfolding insert_i32
insert_i32-IsAscending x [] a = (λ q m. elim m [ ], tt)
insert_i32-IsAscending x (p ∷ ps) a = elim (insert_i32-cases x p ps) [
  | inl (l, e) ↦ subst IsAscending (sym e) (first l, a)
  | inr (inl (l, e)) ↦
      subst IsAscending (sym e)
        (λ q m. later l q (Among-insert_i32 x q ps m), insert_i32-IsAscending x ps a.1)
  | inr (inr e) ↦ subst IsAscending (sym e) a
]
  where
    first : lt_i32 x p ≡ true → (q : ℤ) → Among q (p ∷ ps) → lt_i32 x q ≡ true
    first l q (inl e) = subst (λ y. lt_i32 x y ≡ true) e l
    first l q (inr m) = lt_i32_trans x p q l (a.0 q m)

    later : lt_i32 p x ≡ true → (q : ℤ) → (x ≡ q) ⊎ Among q ps → lt_i32 p q ≡ true
    later l q (inl e) = subst (λ y. lt_i32 p y ≡ true) e l
    later l q (inr m) = a.0 q m

-- The priorities are kept ascending by every operation.
abbrev pub IsOrdered : RustPolicyEngine → Type 0
IsOrdered e = IsAscending e.priority

set_tree-priority :
    (e : RustPolicyEngine) (dir : FlowDir) (t : PolicyTree)
    → (set_tree e dir t).priority ≡ e.priority
unfolding set_tree
set_tree-priority e ingress t = refl
set_tree-priority e egress t = refl

pub add_policy-IsOrdered :
    (std : StdText) (e : RustPolicyEngine) (r : RuleDetail) (p : RulePort)
    → IsOrdered e
    → IsOrdered (add_policy std e r p)
unfolding add_policy add_mask_and_priority
add_policy-IsOrdered std e r p o =
    insert_i32-IsAscending r.priority _
      (subst IsAscending (sym (set_tree-priority e r.direction _)) o)

pub delete_policy-IsOrdered :
    (e : RustPolicyEngine) (dir : FlowDir) (name : Text)
    → IsOrdered e
    → IsOrdered (delete_policy e dir name)
unfolding delete_policy
delete_policy-IsOrdered e dir name o = subst IsAscending (sym (set_tree-priority e dir _)) o

module _ (std : StdText) (t : PolicyTree) (proto dst_port src_port : ℕ) (cidr exact : Text)
    (dir : FlowDir) (masks : List ℤ) where
  -- The search among the keys of one priority, and of several.
  at_priority : ℤ → Option RuleDetail
  at_priority p =
      first_match t (priority_keys std p proto cidr exact dir masks) proto dst_port src_port

  at_priorities : List ℤ → Option RuleDetail
  at_priorities ps =
      first_match t (tuple_keys std ps proto cidr exact dir masks) proto dst_port src_port

  lowest :
      (ps : List ℤ) (r : RuleDetail)
      → IsAscending ps
      → at_priorities ps ≡ some r
      → (p : ℤ) × Among p ps
        × (at_priority p ≡ some r)
        × ((q : ℤ) → Among q ps → lt_i32 q p ≡ true → at_priority q ≡ none)
  unfolding at_priorities at_priority tuple_keys first_match
  lowest [] r a h = absurd (ground arith)
  lowest (p ∷ ps) r a h = elim (Option-cases (at_priority p)) [
    | inr (w, e) ↦ (p, inl refl, ground (arith, split), λ q m l. absurd (before q m l))
    | inl e ↦
        let (p', m', e', s) = lowest ps r a.1 (ground (arith, split)) in
        (p', inr m', e', λ q m l. smaller p' s q m l e)
  ]
    where
      split : at_priorities (p ∷ ps) ≡ or_else (at_priority p) (at_priorities ps)
      split =
          first_match-append t (priority_keys std p proto cidr exact dir masks)
            (tuple_keys std ps proto cidr exact dir masks) proto dst_port src_port

      before : (q : ℤ) → Among q (p ∷ ps) → lt_i32 q p ≡ true → ⊥
      before q (inl e) l = cc (subst (λ x. lt_i32 x p ≡ true) (sym e) l, lt_i32_irrefl p)
      before q (inr m) l = cc (lt_i32_asym q p l, a.0 q m)

      smaller :
          (p' : ℤ)
          → ((q : ℤ) → Among q ps → lt_i32 q p' ≡ true → at_priority q ≡ none)
          → (q : ℤ) → Among q (p ∷ ps)
          → lt_i32 q p' ≡ true
          → at_priority p ≡ none
          → at_priority q ≡ none
      smaller p' s q (inl e) l h' = subst (λ x. at_priority x ≡ none) e h'
      smaller p' s q (inr m) l h' = s q m l

-- Among the priorities of the engine, a lookup returns a rule found by the keys of one of them, and
-- no key of a smaller priority number finds a rule.
pub match_five_tuple-lowest :
    (std : StdText) (e : RustPolicyEngine) (proto dst_port src_port : ℕ) (src_addr dst_addr : Text)
    (dir : FlowDir) (r : RuleDetail)
    → IsOrdered e
    → match_five_tuple std e proto dst_port src_port src_addr dst_addr dir ≡ some r
    → let found : ℤ → Option RuleDetail = λ p.
      first_match
        (tree_of e dir)
        (priority_keys std p proto
          (cidr_side dir src_addr dst_addr)
          (exact_side dir src_addr dst_addr)
          dir
          e.mask_cidr)
        proto
        dst_port
        src_port in
      (p : ℤ) × Among p e.priority
      × (found p ≡ some r)
      × ((q : ℤ) → Among q e.priority → lt_i32 q p ≡ true → found q ≡ none)
unfolding match_five_tuple create_rule_key_by_tuple at_priority at_priorities
match_five_tuple-lowest std e proto dst_port src_port src_addr dst_addr dir r o h =
    lowest std (tree_of e dir) proto dst_port src_port (cidr_side dir src_addr dst_addr)
      (exact_side dir src_addr dst_addr) dir e.mask_cidr e.priority r o (ground arith)
