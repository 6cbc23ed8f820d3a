-- ===== src/Microseg/Verdicts.antt =====
-- The choice of a rule for a packet (MatchMicroPolicyRule of net-policy.cpp).
use net_policy.Common.{
  true, none, some, Text, ◌≡◌, ◌≢◌, ◌⊎◌, inl, inr, refl, arith, ◌==◌, nat_eq, Option-cases,
  Bool-cases,
}
use net_policy.Policy.{FlowDir, k_allow, k_default, RuleDetail}
use net_policy.Policy.Engine.{lt_i32}
use net_policy.Microseg.{
  Host, FiveTuple, reverse_tuple, MicroSegEngine, MicroMatch, opposite, match_net_policy_rule,
  match_reverse, match_micro_policy_rule, is_node_ip,
}

module _ (host : Host) where
  -- The outcome is the rule that the engine finds for the outcome's own tuple and direction.
  abbrev IsFound : MicroSegEngine → MicroMatch → RuleDetail → Type 0
  IsFound e m detail =
      (match_net_policy_rule host e m.tuple m.dir ≡ some detail)
      × (m.rule ≡ detail.action)
      × (m.rule_key ≡ detail.policy_key)

  -- The rule, tuple and direction of an outcome, of a packet whose own rule is `detail`: that rule
  -- itself, or a rule of the reverse direction with a smaller priority number.
  unfoldable pub Decides :
      MicroSegEngine → FiveTuple → FlowDir → RuleDetail → MicroMatch → RuleDetail → Type 0
  Decides e tuple dir detail m used =
      IsFound e m used
      × (((m.tuple ≡ tuple) × (m.dir ≡ dir) × (used ≡ detail))
          ⊎ ((detail.action ≢ k_allow)
              × (m.tuple ≡ reverse_tuple tuple)
              × (m.dir ≡ opposite dir)
              × (lt_i32 used.priority detail.priority ≡ true)))

  reverse-Decides :
      (e : MicroSegEngine) (tuple : FiveTuple) (dir : FlowDir) (detail : RuleDetail)
      → match_net_policy_rule host e tuple dir ≡ some detail
      → detail.action ≢ k_allow
      → (used : RuleDetail) × Decides e tuple dir detail
          (match_reverse host e tuple dir detail)
          used
  unfolding match_reverse Decides
  reverse-Decides e tuple dir detail h ne =
      elim (Option-cases (match_net_policy_rule host e (reverse_tuple tuple) (opposite dir))) [
        | inl n ↦ rw (n, match_reverse) (detail, ((h, refl, refl), inl (refl, refl, refl)))
        | inr (rev, n) ↦ elim (Bool-cases (lt_i32 rev.priority detail.priority)) [
          | inl l ↦ rw (n, l, match_reverse) (rev, ((n, refl, refl), inr (ne, refl, refl, l)))
          | inr l ↦ rw (n, l, match_reverse) (detail, ((h, refl, refl), inl (refl, refl, refl)))
        ]
      ]

  -- The outcome is kDefault, with the packet's tuple and direction as they are, if the engine finds
  -- no rule for the packet. If it finds one, then the outcome's action and key are those of the rule
  -- that the engine finds for the outcome's tuple and direction: the packet's own rule, or, where
  -- that does not allow, one for the reversed tuple in the opposite direction that has a smaller
  -- priority number.
  pub match_micro_policy_rule_sound :
      (e : MicroSegEngine) (tuple : FiveTuple) (dir : FlowDir) (key : Text)
      → let m = match_micro_policy_rule host e tuple dir key in
        ((match_net_policy_rule host e tuple dir ≡ none)
          × (m.rule ≡ k_default)
          × (m.tuple ≡ tuple)
          × (m.dir ≡ dir)
          × (m.rule_key ≡ key))
        ⊎ ((detail : RuleDetail) × (used : RuleDetail) × (match_net_policy_rule host e tuple dir
              ≡ some detail)
            × Decides e tuple dir detail m used)
  unfolding match_micro_policy_rule Decides
  match_micro_policy_rule_sound e tuple dir key =
      elim (Option-cases (match_net_policy_rule host e tuple dir)) [
        | inl n ↦ rw (n, match_micro_policy_rule) (inl (refl, refl, refl, refl, refl))
        | inr (detail, n) ↦ elim (Bool-cases (detail.action == k_allow)) [
          | inl a ↦
              rw (n, a, match_micro_policy_rule)
                (inr (detail, detail, refl, ((n, refl, refl), inl (refl, refl, refl))))
          | inr a ↦
              let (used, decides) = reverse-Decides e tuple dir detail n (ground arith) in
              rw (n, a, match_micro_policy_rule) (inr (detail, used, refl, decides))
        ]
      ]

  -- A packet from a node address has the outcome kDefault, whatever the rules are.
  node_ip_default :
      (e : MicroSegEngine) (tuple : FiveTuple) (dir : FlowDir) (key : Text)
      → is_node_ip e tuple.src_addr_u32 ≡ true
      → (match_micro_policy_rule host e tuple dir key).rule ≡ k_default
  unfolding match_micro_policy_rule match_net_policy_rule
  node_ip_default e tuple dir key h = ground arith
