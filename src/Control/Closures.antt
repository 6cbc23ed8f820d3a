-- ===== src/Control/Closures.antt =====
-- The closures that the gRPC threads hand to the event loop: the GrpcDispatch functions of
-- net-policy.cpp that change the daemon. The dump functions only report.
use net_policy.Common.{
  ℕ, zero, suc, Bool, true, false, Option, some, List, [], ◌++◌, if◌then◌else◌, Text, codes,
}
use net_policy.Policy.{ℤ, pos, negsuc}
use net_policy.Microseg.{Host, MicroSegEngine, clear_config}
use net_policy.Config.{
  Json, Numbers, Outcome, returned, broken, thrown, undefined, Parsing, parse_node_cfg,
  delete_named_policy,
}
use net_policy.Config.Rules.{parse_net_policy, marked}
use net_policy.Control.{PolicyRuleSpec, Printer, policy_message, node_message}
use net_policy.Dispatch.{GrpcDispatchItem}
use net_policy.Nfq.{Kernel, System, NfQueData, init_nfqueue, delete_nfque_res}
use net_policy.Profile.{
  Status, status_ok, err_already_started, err_not_started, err_invalid_param, handle_heap_profile,
}

-- What the closures change: the engine, the pods' resources, the profiler, the log level, the writes
-- of the iptables rules, and the pods whose connections were marked again.
pub record ControlState : Type 0 where
  pub microseg : MicroSegEngine
  pub resources : NfQueData
  pub system : System
  pub profiling : Bool
  pub log_level : ℤ
  pub rule_writes : ℕ
  pub remarked : List ℕ

abbrev pub Closure : Type 0
Closure = ControlState → ControlState × Outcome ℤ

-- `result` is 1 before the closure runs, and stays so when it throws.
unfoldable pub result_of : Outcome ℤ → Outcome ℤ
result_of (returned status) = returned status
result_of broken = broken
result_of thrown = returned (pos 1)
result_of undefined = undefined

unfoldable pub has_thrown : Outcome ℤ → Bool
has_thrown thrown = true
has_thrown (returned status) = false
has_thrown broken = false
has_thrown undefined = false

-- The item that is pushed, and what the caller gets when its promise is set.
unfoldable pub item_of : Closure → GrpcDispatchItem ControlState
item_of closure = record { work = λ d. ((closure d).0, has_thrown (closure d).1) }

unfoldable pub dispatched : Closure → ControlState → ControlState × Outcome ℤ
dispatched closure d = ((closure d).0, result_of (closure d).1)

unfoldable pub reset_config : Closure
reset_config d = (record d { microseg = clear_config d.microseg }, returned (pos 0))

unfoldable pub set_log_level : ℤ → Closure
set_log_level level d = (record d { log_level = level }, returned (pos 0))

unfoldable pub pod_down : ℕ → Closure
pod_down pod d =
    let (resources, system) = delete_nfque_res d.resources d.system pod in
    (record d { resources = resources; system = system }, returned (pos 0))

-- The iptables rules are written for a pod that is up.
unfoldable pub pod_queued : ControlState → NfQueData × System × ℤ → ControlState × Outcome ℤ
pod_queued d (resources, system, pos zero) = (
  record d { resources = resources; system = system; rule_writes = suc d.rule_writes },
  returned (pos 0),
)
pod_queued d (resources, system, pos (suc n)) =
    (record d { resources = resources; system = system }, returned (pos (suc n)))
pod_queued d (resources, system, negsuc n) =
    (record d { resources = resources; system = system }, returned (negsuc n))

-- `set_ns` enters the pod's network namespace, or throws, which is caught.
unfoldable pub pod_up : Kernel → (ℕ → Bool) → ℕ → ℕ → ℕ → Closure
pod_up kernel set_ns epoll_fd pid pod d =
    if set_ns pid
    then pod_queued d (init_nfqueue kernel d.resources d.system epoll_fd pid pod)
    else (d, returned (negsuc 0))

unfoldable pub delete_policy_rule : Host → Text → Closure
delete_policy_rule host name d =
    (record d { microseg = delete_named_policy host name d.microseg }, returned (pos 0))

abbrev pub heap_request : Bool → Text
heap_request enable =
    codes "{\"enable\":\"" ++ ((if enable then codes "y" else codes "n") ++ codes "\"}")

unfoldable pub heap_status : Outcome Status → Outcome ℤ
heap_status (returned status_ok) = returned (pos 0)
heap_status (returned err_already_started) = returned (pos 1)
heap_status (returned err_not_started) = returned (pos 1)
heap_status (returned err_invalid_param) = returned (pos 1)
heap_status broken = broken
heap_status thrown = thrown
heap_status undefined = undefined

abbrev parsing_of : ControlState → Parsing
parsing_of d = record { engine = d.microseg; pods = [] }

module _ (json : Json) where
  unfoldable pub dump_heap_profile : Bool → Closure
  dump_heap_profile enable d =
      let (running, status) = handle_heap_profile json (heap_request enable) d.profiling in
      (record d { profiling = running }, heap_status status)

  module _ (printer : Printer json) (numbers : Numbers) where
    unfoldable pub update_node_config : Bool → List Text → Closure
    update_node_config is_delete node_ips d =
        let text = printer.print (node_message is_delete node_ips) in
        let (s, status) = parse_node_cfg json numbers (some text) (parsing_of d) in
        (record d { microseg = s.engine }, status)

    -- `sessions` tells for a pod whether it has a resource and a conntrack session.
    unfoldable pub add_policy_rule : Host → (ℕ → Option Bool) → Text → List PolicyRuleSpec → Closure
    add_policy_rule host sessions name rules d =
        let text = printer.print (policy_message name rules) in
        let read = parse_net_policy json numbers host (some text) (parsing_of d) in
        (
          record d {
            microseg = read.0.engine;
            remarked = d.remarked ++ marked json numbers host sessions read;
          },
          read.1,
        )
