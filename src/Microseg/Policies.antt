-- ===== src/Microseg/Policies.antt =====
-- Adding and deleting a policy of the microsegmentation engine (AddNewPolicy and
-- MicroSegEngine::DeletePolicy of net-policy.cpp).
use net_policy.Common.Maps.{lookup, lookup-erase}
use net_policy.Common.{true, ◌&&◌, none, ◌==◌, text_eq, Text, ◌≡◌, arith, if◌then◌else◌}
use net_policy.Policy.{FlowDir, ingress, egress, RuleDetail, RulePort, pos, negsuc}
use net_policy.Policy.Engine.{add_policy, delete_policy, lt_i32}
use net_policy.Policy.Engine.Deleting.{
  engine_rule, EngineIsIndexed, engine_rule-delete_policy, delete_policy-EngineIsIndexed,
}
use net_policy.Microseg.{
  Host, MicroSegEngine, HttpPolicy, delete_microseg_policy, delete_rule_policy, add_new_policy,
  add_policy_to_tree,
}

-- The HTTP rules of a direction.
abbrev pub http_policy : MicroSegEngine → FlowDir → HttpPolicy
http_policy e ingress = e.input_http_policy
http_policy e egress = e.output_http_policy

module _ (host : Host) where
  open host use {std, is_valid_utf8}

  -- Deleting a policy whose name is valid UTF-8 removes its rules and its HTTP rules in both
  -- directions, and leaves every other policy's as they are.
  pub delete_microseg_policy_lem :
      (e : MicroSegEngine) (name : Text) (d : FlowDir) (key other : Text)
      → EngineIsIndexed e.policy_rule
      → is_valid_utf8 name ≡ true
      → (engine_rule (delete_microseg_policy host e name).policy_rule d key other
          ≡ (if name == other then none else engine_rule e.policy_rule d key other))
        × (lookup other (http_policy (delete_microseg_policy host e name) d)
            ≡ (if name == other then none else lookup other (http_policy e d)))
  unfolding delete_microseg_policy delete_rule_policy
  delete_microseg_policy_lem e name ingress key other i v =
      let e' = delete_policy e.policy_rule ingress name in
      ground (
        arith,
        lookup-erase name other e.input_http_policy,
        engine_rule-delete_policy e' egress ingress name key other
            (delete_policy-EngineIsIndexed e.policy_rule ingress name i),
        engine_rule-delete_policy e.policy_rule ingress ingress name key other i,
      )
  delete_microseg_policy_lem e name egress key other i v =
      let e' = delete_policy e.policy_rule ingress name in
      ground (
        arith,
        lookup-erase name other e.output_http_policy,
        engine_rule-delete_policy e' egress egress name key other
            (delete_policy-EngineIsIndexed e.policy_rule ingress name i),
        engine_rule-delete_policy e.policy_rule ingress egress name key other i,
      )

  -- A new policy is refused, with −1 and no change, exactly if its priority is outside 1..128 or a
  -- text of it is not valid UTF-8; otherwise it is added to the rules alone, with 0.
  pub add_new_policy_lem :
      (e : MicroSegEngine) (r : RuleDetail) (p : RulePort)
      → let ok =
          (lt_i32 (pos 0) r.priority && lt_i32 r.priority (pos 129))
          && (is_valid_utf8 r.policy_key
              && (is_valid_utf8 r.src_ip
                  && (is_valid_utf8 r.dst_ip && is_valid_utf8 r.action_dsc))) in
        ((add_new_policy host e r p).1 ≡ (if ok then pos 0 else negsuc 0))
        × ((add_new_policy host e r p).0
            ≡ (if ok then record e { policy_rule = add_policy std e.policy_rule r p } else e))
  unfolding add_new_policy add_policy_to_tree
  add_new_policy_lem e r p = ground arith
