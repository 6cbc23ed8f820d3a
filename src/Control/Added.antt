-- ===== src/Control/Added.antt =====
-- ParseNetPolicy of net-policy.cpp on a message of GrpcDispatchAddPolicyRule.
use net_policy.Common.{
  ℕ, suc, ◌≡◌, refl, ◌∙◌, true, Bool-cases, some, List, [], ◌∷◌, nat_eq, text_eq, text_beq, Text,
  codes, inl, inr, arith,
}
use net_policy.Policy.{ℤ, pos, negsuc}
use net_policy.Http.Http1.{to_low}
use net_policy.Microseg.{Host}
use net_policy.Config.{Json, Numbers, Parsing, Run, after, ◌>>=◌, or_else, change}
use net_policy.Config.Members.{RuleHead}
use net_policy.Config.Rules.{
  head_of, rule_of, create_rules, is_egress, is_ingress, optional_ports, optional_proto,
  parse_rule_http, parse_rule_body, parse_rule, parse_rules, replace_policy, parse_net_policy,
}
use net_policy.Control.{
  HttpMatchRule, PortRange, PolicyRuleSpec, string, array, c_str, saturated, find_member, IsArray,
  end, next, Printer, count, items_of, filled, address_endpoint_to_json, http_to_json, port_to_json,
  policy_action_to_str, flow_direction_to_str, l4_protocol_to_str, protocol_to_json, is_unspecified,
  rule_to_json, policy_message, viewed,
}
use net_policy.Control.Direct.{
  proto_number, rule_head, rule_ports, add_http_rules, add_endpoints, add_rule, add_rules,
  replace_rules,
}
use net_policy.Control.Arrays.{after_same, ports_read, http_read, endpoints_read}
use net_policy.Control.Fields.{
  action_kept, direction_read, proto_read, rule_action, rule_direction, rule_protocol, rule_http,
  rule_from, rule_to, rule_ports_member, rule_priority,
}

unspecified_number : (p : ℤ) → is_unspecified p ≡ true → proto_number p ≡ 0
unfolding proto_number
unspecified_number (pos n) e = ground arith
unspecified_number (negsuc n) e = cc

module _ (json : Json) (printer : Printer json) (numbers : Numbers) (host : Host) where
  open json use {Value, parse, get_object_item, get_array_size, get_array_item}
  open printer use {view}

  head_read :
      (rule : PolicyRuleSpec)
      → head_of
          (c_str (policy_action_to_str rule.action))
          (c_str (flow_direction_to_str rule.direction))
          (proto_number rule.protocol)
        ≡ rule_head rule
  unfolding rule_head
  head_read rule = rw (action_kept rule.action, direction_read rule.direction)

  http_member_read :
      (head : RuleHead) (key : Text) (rules : List HttpMatchRule) (s : Parsing)
      → parse_rule_http json numbers host key head (viewed json view (filled http_to_json rules)) s
        ≡ add_http_rules head key rules s
  unfolding parse_rule_http
  http_member_read head key [] s = unfold add_http_rules in refl
  http_member_read head key (h ∷ rules) s =
      rw (printer.array_size (items_of http_to_json (h ∷ rules)))
        (http_read json printer head key _ 0 (h ∷ rules) s (printer.array_items _))

  ports_member_read :
      (proto : ℕ) (ports : List PortRange)
      → optional_ports json numbers host proto (viewed json view (filled port_to_json ports))
        ≡ rule_ports proto ports
  ports_member_read proto [] = unfold rule_ports in refl
  ports_member_read proto (p ∷ ports) =
      rw (printer.array_size (items_of port_to_json (p ∷ ports)))
        (ports_read json printer proto _ 0 (p ∷ ports) [] (printer.array_items _))

  protocol_member_read :
      (p : ℤ) (rest : ℕ → Run (Unit {0})) (s : Parsing)
      → optional_proto json numbers host (viewed json view (protocol_to_json p)) rest s
        ≡ rest (proto_number p) s
  unfolding optional_proto or_else
  protocol_member_read p rest s = elim (Bool-cases (is_unspecified p)) [
    | inl e ↦ rw (e, unspecified_number p e)
    | inr e ↦ rw (e, printer.string_value (l4_protocol_to_str p), proto_read p)
  ]

  body_read :
      (key : Text) (rule : PolicyRuleSpec) (head : RuleHead) (s : Parsing)
      → parse_rule_body json numbers host key head (view (rule_to_json rule)) s
        ≡ (do
          srcs ←
              add_endpoints json numbers host printer.as_double
                (is_egress head.direction)
                rule.from_addresses
                []
          dsts ←
              add_endpoints json numbers host printer.as_double
                (is_ingress head.direction)
                rule.to_addresses
                []
          change (
              create_rules host
                (rule_of key head (saturated rule.priority))
                srcs
                dsts
                (rule_ports head.proto rule.ports)))
            s
  unfolding parse_rule_body or_else ◌>>=◌
  body_read key rule head s =
      rw
        (
          rule_from json printer rule,
          printer.array_size (items_of address_endpoint_to_json rule.from_addresses),
          endpoints_read json printer numbers host (is_egress head.direction) _ 0
              rule.from_addresses [] s (printer.array_items _),
        )
        (after_same _ _ _ λ srcs s'.
          rw
            (
              rule_priority json printer rule,
              rule_to json printer rule,
              printer.array_size (items_of address_endpoint_to_json rule.to_addresses),
              endpoints_read json printer numbers host (is_ingress head.direction) _ 0
                  rule.to_addresses [] s' (printer.array_items _),
            )
            (after_same _ _ _ λ dsts s''. rw (
              rule_ports_member json printer rule,
              ports_member_read head.proto rule.ports,
              printer.number_value rule.priority,
            )))

  rule_read :
      (key : Text) (rule : PolicyRuleSpec) (s : Parsing)
      → parse_rule json numbers host key (view (rule_to_json rule)) s
        ≡ add_rule json numbers host printer.as_double key rule s
  unfolding parse_rule add_rule or_else ◌>>=◌
  rule_read key rule s =
      rw
        (
          rule_action json printer rule,
          printer.string_value (policy_action_to_str rule.action),
          rule_direction json printer rule,
          printer.string_value (flow_direction_to_str rule.direction),
          rule_protocol json printer rule,
        )
        (protocol_member_read rule.protocol _ s
          ∙ rw
              (
                head_read rule,
                rule_http json printer rule,
                http_member_read (rule_head rule) key rule.http_rules s,
              )
              (after_same (add_http_rules (rule_head rule) key rule.http_rules s) _ _
                λ x s'. body_read key rule (rule_head rule) s'))

  rules_read :
      (key : Text) (v : Value) (i : ℕ) (rules : List PolicyRuleSpec) (s : Parsing)
      → IsArray json view v i (items_of rule_to_json rules)
      → parse_rules json numbers host key v (count (items_of rule_to_json rules)) i s
        ≡ add_rules json numbers host printer.as_double key rules s
  unfolding parse_rules add_rules count or_else ◌>>=◌
  rules_read key v i [] s end = refl
  rules_read key v i (rule ∷ rules) s (next e rest) =
      rw (e, rule_read key rule s)
        (after_same (add_rule json numbers host printer.as_double key rule s) _ _
          λ x s'. rules_read key v (suc i) rules s' rest)

  message_name :
      (name : Text) (rules : List PolicyRuleSpec)
      → get_object_item (view (policy_message name rules)) (codes "policy_name")
        ≡ some (view (string name))
  unfolding policy_message find_member to_low text_beq
  message_name name rules = printer.object_member _ (codes "policy_name")

  message_rules :
      (name : Text) (rules : List PolicyRuleSpec)
      → get_object_item (view (policy_message name rules)) (codes "rules")
        ≡ some (view (array (items_of rule_to_json rules)))
  unfolding policy_message find_member to_low text_beq
  message_rules name rules = printer.object_member _ (codes "rules")

  -- What GrpcDispatchAddPolicyRule prints, ParseNetPolicy reads back: for a message whose printed text
  -- parses, the call does to the engine and the pods, and returns, what the rules themselves say, in
  -- their order and with their directions, protocols, addresses, ports, HTTP rules and pods; texts end
  -- at a zero byte, ports and priority stop at the ends of an int, and a pod's number goes through a
  -- double.
  pub parse_net_policy-policy_message :
      (name : Text) (rules : List PolicyRuleSpec) (s : Parsing)
      → parse (printer.print (policy_message name rules)) ≡ some (view (policy_message name rules))
      → parse_net_policy json numbers host (some (printer.print (policy_message name rules))) s
        ≡ replace_rules json numbers host printer.as_double name rules s
  unfolding parse_net_policy replace_policy replace_rules or_else ◌>>=◌ after change
  parse_net_policy-policy_message name rules s printed = rw (
    printed,
    message_name name rules,
    printer.string_value name,
    message_rules name rules,
    printer.array_size (items_of rule_to_json rules),
    rules_read (c_str name) _ 0 rules _ (printer.array_items _),
  )
