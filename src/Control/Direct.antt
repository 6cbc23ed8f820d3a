-- ===== src/Control/Direct.antt =====
-- What a message of GrpcDispatchAddPolicyRule is to do, without a text in between: the daemon's part
-- of ParseNetPolicy of net-policy.cpp on the rules themselves.
use net_policy.Common.{ℕ, Bool, true, false, List, [], ◌∷◌, ◌==◌, nat_eq, if◌then◌else◌, Text}
use net_policy.Policy.{FlowDir, ingress, egress, RulePort, ℤ, pos, negsuc}
use net_policy.Packet.{ipproto_icmp, ipproto_tcp, ipproto_udp}
use net_policy.Microseg.{Host}
use net_policy.Config.{
  Json, Numbers, returned, Run, ◌>>=◌, ◌>>◌, ends, change, u16, add_new_http_policy,
  delete_named_policy,
}
use net_policy.Config.Ranges.{parse_ip_string}
use net_policy.Config.Members.{RuleHead, http_info, stop, insert_pod}
use net_policy.Config.Rules.{is_egress, is_ingress, rule_of, create_rules, end_rules}
use net_policy.Control.{
  HttpMatchRule, AddressEndpoint, PortRange, PolicyRuleSpec, c_str, saturated, policy_action_to_str,
}

unfoldable pub flow_dir : ℤ → FlowDir
flow_dir (pos n) = if n == 1 then ingress else egress
flow_dir (negsuc n) = egress

unfoldable pub proto_number : ℤ → ℕ
proto_number (pos n) =
    if n == 1
    then ipproto_tcp
    else if n == 2
    then ipproto_udp
    else if n == 3
    then ipproto_icmp
    else 0
proto_number (negsuc n) = 0

unfoldable pub rule_head : PolicyRuleSpec → RuleHead
rule_head rule = record {
  action_dsc = policy_action_to_str rule.action;
  direction = flow_dir rule.direction;
  proto = proto_number rule.protocol;
}

unfoldable pub rule_port : ℕ → PortRange → RulePort
rule_port proto p =
    let port = u16 (saturated (pos p.port)) in
    let end_port = u16 (saturated (pos p.end_port)) in
    record { end_port = if end_port == 0 then port else end_port; port = port; proto = proto }

unfoldable pub rule_ports : ℕ → List PortRange → List RulePort
rule_ports proto [] = []
rule_ports proto (p ∷ ports) = rule_port proto p ∷ rule_ports proto ports

unfoldable pub add_http_rules : RuleHead → Text → List HttpMatchRule → Run (Unit {0})
add_http_rules head key [] = stop
add_http_rules head key (h ∷ rules) = do
  change (
      add_new_http_policy head.direction key
        (http_info head (c_str h.host) (c_str h.method) (c_str h.path)))
  add_http_rules head key rules

module _ (json : Json) (numbers : Numbers) (host : Host) (as_double : ℕ → ℕ) where
  unfoldable pub note_pod : Bool → ℕ → Text → Run (Unit {0})
  note_pod false pod address = stop
  note_pod true pod address = insert_pod json pod address

  -- The addresses of the endpoints behind those at hand; the pods among them are noted.
  unfoldable pub add_endpoints : Bool → List AddressEndpoint → List Text → Run (List Text)
  add_endpoints records [] addresses = ends (returned addresses)
  add_endpoints records (ep ∷ eps) addresses = do
    more ← ends (parse_ip_string numbers (c_str ep.ip) addresses)
    note_pod records (as_double ep.pod_id) (c_str ep.ip)
    add_endpoints records eps more

  unfoldable pub add_rule : Text → PolicyRuleSpec → Run (Unit {0})
  add_rule key rule = do
    let head = rule_head rule
    add_http_rules head key rule.http_rules
    srcs ← add_endpoints (is_egress head.direction) rule.from_addresses []
    dsts ← add_endpoints (is_ingress head.direction) rule.to_addresses []
    change (
        create_rules host (rule_of key head (saturated rule.priority)) srcs dsts
          (rule_ports head.proto rule.ports))

  unfoldable pub add_rules : Text → List PolicyRuleSpec → Run (Unit {0})
  add_rules key [] = stop
  add_rules key (rule ∷ rules) = do add_rule key rule; add_rules key rules

  -- The policy of the name is replaced by one of these rules.
  unfoldable pub replace_rules : Text → List PolicyRuleSpec → Run ℤ
  replace_rules name rules = do
    change (delete_named_policy host (c_str name))
    λ s. end_rules json numbers host (add_rules (c_str name) rules s)
