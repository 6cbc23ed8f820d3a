-- ===== src/Policy/Engine/Reached.antt =====
-- The engines that the operations of RustPolicyEngine make
-- (crates/net_policy_engine/src/lib.rs).
use net_policy.Common.{List, [], ◌∷◌, Text}
use net_policy.Policy.{FlowDir, RuleDetail, RulePort}
use net_policy.Policy.Rule.{StdText}
use net_policy.Policy.Engine.{RustPolicyEngine, new, add_policy, delete_policy, clear_cfg}
use net_policy.Policy.Engine.Priority.{IsOrdered, add_policy-IsOrdered, delete_policy-IsOrdered}
use net_policy.Policy.Engine.Deleting.{
  EngineIsIndexed, new-EngineIsIndexed, add_policy-EngineIsIndexed, delete_policy-EngineIsIndexed,
}

pub data PolicyStep : Type 0 where
  add : RuleDetail → RulePort → PolicyStep
  delete : FlowDir → Text → PolicyStep
  clear : PolicyStep

module _ (std : StdText) where
  policy_step : RustPolicyEngine → PolicyStep → RustPolicyEngine
  policy_step e (add r p) = add_policy std e r p
  policy_step e (delete dir name) = delete_policy e dir name
  policy_step e clear = clear_cfg e

  pub run_policies : RustPolicyEngine → List PolicyStep → RustPolicyEngine
  run_policies e [] = e
  run_policies e (step ∷ steps) = run_policies (policy_step e step) steps

  policy_step-kept :
      (e : RustPolicyEngine) (step : PolicyStep)
      → IsOrdered e × EngineIsIndexed e
      → IsOrdered (policy_step e step) × EngineIsIndexed (policy_step e step)
  unfolding policy_step clear_cfg
  policy_step-kept e (add r p) (o, i) =
      (add_policy-IsOrdered std e r p o, add_policy-EngineIsIndexed std e r p i)
  policy_step-kept e (delete dir name) (o, i) =
      (delete_policy-IsOrdered e dir name o, delete_policy-EngineIsIndexed e dir name i)
  policy_step-kept e clear k = (tt, new-EngineIsIndexed)

  run_policies-kept :
      (e : RustPolicyEngine) (steps : List PolicyStep)
      → IsOrdered e × EngineIsIndexed e
      → IsOrdered (run_policies e steps) × EngineIsIndexed (run_policies e steps)
  unfolding run_policies
  run_policies-kept e [] k = k
  run_policies-kept e (step ∷ steps) k =
      run_policies-kept (policy_step e step) steps (policy_step-kept e step k)

  -- After any sequence of additions, deletions and clearings from an empty engine the priorities
  -- ascend without repetition, and each tree's index lists every rule key that holds a rule of the
  -- policy.
  pub run_policies-new :
      (steps : List PolicyStep)
      → IsOrdered (run_policies new steps) × EngineIsIndexed (run_policies new steps)
  unfolding new
  run_policies-new steps = run_policies-kept new steps (tt, new-EngineIsIndexed)
