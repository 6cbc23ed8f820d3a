-- ===== src/Config/Rules.antt =====
-- The rules of a policy message: ParseNetPolicy of net-policy.cpp.
use net_policy.Common.{
  ℕ, zero, suc, Bool, true, false, Option, none, some, List, [], ◌∷◌, nat_eq, text_eq, Text, codes,
}
use net_policy.Policy.{FlowDir, ingress, egress, RulePort, RuleDetail, ℤ, pos, negsuc}
use net_policy.Microseg.{Host, MicroSegEngine, add_new_policy}
use net_policy.Config.{
  Json, Numbers, Outcome, returned, broken, thrown, undefined, Parsing, Run, ◌>>=◌, ◌>>◌, ends,
  or_else, change, net_proto_convert, convert_rule_action, direction_of, delete_named_policy,
  update_mark,
}
use net_policy.Config.Members.{
  RuleHead, stop, text_member, parse_http, parse_addresses, parse_rule_ports,
}

abbrev pub head_of : Text → Text → ℕ → RuleHead
head_of action dir proto = record {
  action_dsc = action;
  direction = direction_of dir;
  proto = proto;
}

abbrev pub rule_of : Text → RuleHead → ℤ → RuleDetail
rule_of key head priority = record {
  proto = head.proto;
  priority = priority;
  addr_type = pos 0;
  direction = head.direction;
  action = convert_rule_action head.action_dsc;
  action_dsc = head.action_dsc;
  policy_key = key;
  src_ip = [];
  dst_ip = [];
  ports = [];
}

abbrev pub is_egress : FlowDir → Bool
is_egress ingress = false
is_egress egress = true

abbrev pub is_ingress : FlowDir → Bool
is_ingress ingress = true
is_ingress egress = false

-- A rule without ports is added once, with `RULE_PORT{}`.
abbrev pub ports_or_any : List RulePort → List RulePort
ports_or_any [] = record { end_port = 0; port = 0; proto = 0 } ∷ []
ports_or_any (port ∷ ports) = port ∷ ports

module _ (host : Host) where
  -- The loop over the ports; a refusal is only logged.
  unfoldable pub add_ports : RuleDetail → List RulePort → MicroSegEngine → MicroSegEngine
  add_ports rule [] e = e
  add_ports rule (port ∷ ports) e = add_ports rule ports (add_new_policy host e rule port).0

  unfoldable pub add_destinations :
      RuleDetail → List Text → List RulePort → MicroSegEngine → MicroSegEngine
  add_destinations rule [] ports e = e
  add_destinations rule (dst ∷ dsts) ports e =
      add_destinations rule dsts ports
        (add_ports (record rule { dst_ip = dst }) (ports_or_any ports) e)

  unfoldable pub create_rules :
      RuleDetail → List Text → List Text → List RulePort → MicroSegEngine → MicroSegEngine
  create_rules rule [] dsts ports e = e
  create_rules rule (src ∷ srcs) dsts ports e =
      create_rules rule srcs dsts ports
        (add_destinations (record rule { src_ip = src }) dsts ports e)

module _ (json : Json) (numbers : Numbers) (host : Host) where
  open json use {Value, get_object_item, get_array_size, get_array_item, valuestring}
  open json use {valueint}

  abbrev pub optional_ports : ℕ → Option Value → List RulePort
  optional_ports proto none = []
  optional_ports proto (some ports) = parse_rule_ports json proto ports (get_array_size ports) 0 []

  -- From `from_addresses` on.
  unfoldable pub parse_rule_body : Text → RuleHead → Value → Run (Unit {0})
  parse_rule_body key head array =
      or_else (get_object_item array (codes "from_addresses")) (ends broken) λ from. do
        srcs ←
            parse_addresses json numbers (is_egress head.direction) from (get_array_size from) 0 []
        let ports = optional_ports head.proto (get_object_item array (codes "ports"))
        or_else (get_object_item array (codes "priority")) (ends broken) λ priority.
            or_else (get_object_item array (codes "to_addresses")) (ends broken) λ to. do
              dsts ←
                  parse_addresses json numbers (is_ingress head.direction) to (get_array_size to) 0
                    []
              change (create_rules host (rule_of key head (valueint priority)) srcs dsts ports)

  unfoldable pub parse_rule_http : Text → RuleHead → Option Value → Run (Unit {0})
  parse_rule_http key head none = stop
  parse_rule_http key head (some httparr) =
      parse_http json head key httparr (get_array_size httparr) 0

  unfoldable pub optional_proto : Option Value → (ℕ → Run (Unit {0})) → Run (Unit {0})
  optional_proto none rest = rest 0
  optional_proto (some item) rest =
      text_member json (valuestring item) λ value. rest (net_proto_convert value)

  unfoldable pub parse_rule : Text → Value → Run (Unit {0})
  parse_rule key array =
      or_else (get_object_item array (codes "action")) (ends broken) λ action_item.
        text_member json (valuestring action_item) λ action.
          or_else (get_object_item array (codes "direction")) (ends broken) λ dir_item.
            text_member json (valuestring dir_item) λ dir.
              optional_proto (get_object_item array (codes "protocol")) λ proto. do
                let head = head_of action dir proto
                parse_rule_http key head (get_object_item array (codes "http"))
                parse_rule_body key head array

  unfoldable pub parse_rules : Text → Value → ℕ → ℕ → Run (Unit {0})
  parse_rules key rules zero i = stop
  parse_rules key rules (suc left) i =
      or_else (get_array_item rules i) stop
        λ array. do parse_rule key array; parse_rules key rules left (suc i)

  -- A `break` out of the rules leaves what was read; the message still counts as read.
  abbrev pub end_rules : Parsing × Outcome (Unit {0}) → Parsing × Outcome ℤ
  end_rules (s, returned done) = (s, returned (pos 0))
  end_rules (s, broken) = (s, returned (pos 0))
  end_rules (s, thrown) = (s, thrown)
  end_rules (s, undefined) = (s, undefined)

  -- The rules, after the old policy of the name is gone.
  unfoldable pub replace_policy : Text → Value → Run ℤ
  replace_policy name root = do
    change (delete_named_policy host name)
    or_else (get_object_item root (codes "rules")) (ends (returned (negsuc 0)))
        λ rules. λ s. end_rules (parse_rules name rules (get_array_size rules) 0 s)

  unfoldable pub parse_net_policy : Option Text → Run ℤ
  parse_net_policy buf = or_else buf (ends (returned (negsuc 0))) λ text.
      or_else (json.parse text) (ends (returned (negsuc 0))) λ root.
        or_else (get_object_item root (codes "policy_name")) (ends (returned (negsuc 0)))
          λ item. or_else (valuestring item) (ends undefined) λ name. replace_policy name root

  -- The pods that `UpdateMark` marks after a message that was read to its end.
  unfoldable pub marked : (ℕ → Option Bool) → Parsing × Outcome ℤ → List ℕ
  marked sessions (s, returned (pos n)) = update_mark sessions s.pods
  marked sessions (s, returned (negsuc n)) = []
  marked sessions (s, broken) = []
  marked sessions (s, thrown) = []
  marked sessions (s, undefined) = []
