-- ===== src/Config/Members.antt =====
-- The lists of a rule in a policy message: inner loops of ParseNetPolicy of net-policy.cpp.
use net_policy.Common.Maps.{contains_key, insert}
use net_policy.Common.{
  ℕ, zero, suc, Bool, true, false, Option, none, some, List, [], ◌∷◌, ◌++◌, ◌==◌, nat_eq, text_eq,
  if◌then◌else◌, Text, codes,
}
use net_policy.Policy.{FlowDir, RulePort}
use net_policy.Microseg.{HttpRuleInfo}
use net_policy.Config.{
  Json, Numbers, returned, undefined, Run, ◌>>=◌, ◌>>◌, ends, or_else, change, convert_rule_action,
  u16, add_new_http_policy,
}
use net_policy.Post.{dir_number}
use net_policy.Config.Ranges.{parse_ip_string}

-- What a rule has read before its lists: action text, direction and protocol.
pub record RuleHead : Type 0 where
  pub action_dsc : Text
  pub direction : FlowDir
  pub proto : ℕ

abbrev pub http_info : RuleHead → Text → Text → Text → HttpRuleInfo
http_info head host method path = record {
  direction = dir_number head.direction;
  action = convert_rule_action head.action_dsc;
  host = host;
  method = method;
  path = path;
}

abbrev pub stop : Run (Unit {0})
stop = ends (returned tt)

module _ (json : Json) where
  open json use {Value, get_object_item, get_array_size, get_array_item, valuestring}
  open json use {get_string_value, valueint, value_u64}

  abbrev pub text_member : Option Text → (Text → Run (Unit {0})) → Run (Unit {0})
  text_member value = or_else value (ends undefined)

  -- The loop over a rule's HTTP rules; a member that is missing ends it.
  unfoldable pub parse_http : RuleHead → Text → Value → ℕ → ℕ → Run (Unit {0})
  parse_http head key httparr zero k = stop
  parse_http head key httparr (suc left) k = or_else (get_array_item httparr k) stop λ item.
      or_else (get_object_item item (codes "host")) stop λ host_item.
        text_member (get_string_value host_item) λ host.
          or_else (get_object_item item (codes "method")) stop λ method_item.
            text_member (get_string_value method_item) λ method.
              or_else (get_object_item item (codes "path")) stop λ path_item.
                text_member (get_string_value path_item) λ path. do
                  change (add_new_http_policy head.direction key (http_info head host method path))
                  parse_http head key httparr left (suc k)

  -- `cgRes.insert`, which keeps the entry of a pod that is there.
  unfoldable pub insert_pod : ℕ → Text → Run (Unit {0})
  insert_pod pod value s =
      if contains_key pod s.pods
      then (s, returned tt)
      else (record s { pods = insert pod value s.pods }, returned tt)

  unfoldable pub record_pod : Bool → Value → Text → Run (Unit {0})
  record_pod false item value = stop
  record_pod true item value =
      or_else (get_object_item item (codes "pod_id")) stop
        λ param. insert_pod (value_u64 param) value

  unfoldable pub int_member : Value → Text → ℕ
  int_member param name = elim (get_object_item param name) [
    | none ↦ 0
    | some item ↦ u16 (valueint item)
  ]

  -- One port entry: an end that is missing or 0 is the port.
  unfoldable pub parse_port : ℕ → Value → RulePort
  parse_port proto param =
      let end_port = int_member param (codes "endPort") in
      let port = int_member param (codes "port") in
      record { end_port = if end_port == 0 then port else end_port; port = port; proto = proto }

  unfoldable pub parse_rule_ports : ℕ → Value → ℕ → ℕ → List RulePort → List RulePort
  parse_rule_ports proto ports zero j rule_ports = rule_ports
  parse_rule_ports proto ports (suc left) j rule_ports = elim (get_array_item ports j) [
    | none ↦ rule_ports
    | some param ↦
        parse_rule_ports proto ports left (suc j) (rule_ports ++ (parse_port proto param ∷ []))
  ]

  module _ (numbers : Numbers) where
    -- The loops over `from_addresses` and `to_addresses`.
    unfoldable pub parse_addresses : Bool → Value → ℕ → ℕ → List Text → Run (List Text)
    parse_addresses records ipaddr zero j ret = ends (returned ret)
    parse_addresses records ipaddr (suc left) j ret =
        or_else (get_array_item ipaddr j) (ends (returned ret)) λ item.
          or_else (get_object_item item (codes "ip")) (ends (returned ret)) λ param.
            or_else (get_string_value param) (ends undefined) λ value. do
              ips ← ends (parse_ip_string numbers value ret)
              record_pod records item value
              parse_addresses records ipaddr left (suc j) ips
