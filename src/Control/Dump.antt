-- ===== src/Control/Dump.antt =====
-- GrpcDispatchDumpConfig of net-policy.cpp and PolicyRule::GetAllConfig of rule-detail.cpp, with
-- all_rules of crates/net_policy_engine and the names of utils.h.
use net_policy.Common.{
  ℕ, zero, suc, Bool, true, Option, none, some, List, [], ◌∷◌, ◌++◌, ◌==◌, nat_eq, text_eq,
  if◌then◌else◌, Text, codes,
}
use net_policy.Packet.{ipproto_icmp, ipproto_tcp, ipproto_udp}
use net_policy.Policy.{FlowDir, ingress, egress, RuleDetail, ℤ, pos}
use net_policy.Policy.Tree.{RuleGroup, RuleChain}
use net_policy.Policy.Engine.{RustPolicyEngine, tree_of}
use net_policy.Config.{Json}
use net_policy.Nfq.{NfQueData, NfqRes}
use net_policy.Http1Codec.Lossy.{from_utf8_lossy}
use net_policy.Control.{
  Tree, string, number, double, array, object, Items, no_item, item, Members, no_member, member,
  Printer,
}

unfoldable pub action_string : ℕ → Text
action_string action =
    if action == 0
    then codes "Deny"
    else if action == 1
    then codes "Allow"
    else if action == 2
    then codes "Alert"
    else codes "Unknown"

unfoldable pub direction_string : FlowDir → Text
direction_string ingress = codes "ingress"
direction_string egress = codes "egress"

unfoldable pub protocol_string : ℕ → Text
protocol_string protocol =
    if protocol == ipproto_tcp
    then codes "TCP"
    else if protocol == ipproto_udp
    then codes "UDP"
    else if protocol == ipproto_icmp
    then codes "ICMP"
    else []

-- `values()` of a group, and of all groups of a chain.
unfoldable pub group_rules : RuleGroup → List RuleDetail
group_rules [] = []
group_rules ((key, rule) ∷ group) = rule ∷ group_rules group

unfoldable pub chain_rules : RuleChain → List RuleDetail
chain_rules [] = []
chain_rules ((key, group) ∷ chain) = group_rules group ++ chain_rules chain

unfoldable pub all_rules : RustPolicyEngine → FlowDir → List RuleDetail
all_rules e dir = chain_rules (tree_of e dir).chain

unfoldable pub config_to_json : RuleDetail → Tree
config_to_json rd = object (
    member (codes "policy_name") (string rd.policy_key) (
      member (codes "priority") (number rd.priority) (
        member (codes "direction") (string (direction_string rd.direction)) (
          member (codes "action") (string (action_string rd.action)) (
            member (codes "protocol") (string (protocol_string rd.proto)) (
              member (codes "protocol_int") (number (pos rd.proto)) (
                member (codes "from_address") (string rd.src_ip)
                  (member (codes "to_address") (string rd.dst_ip) no_member))))))))

-- An empty name stands for all policies.
unfoldable pub is_asked : Text → RuleDetail → Bool
is_asked [] rd = true
is_asked (c ∷ name) rd = rd.policy_key == c ∷ name

unfoldable pub config_items : Text → List RuleDetail → Items
config_items name [] = no_item
config_items name (rd ∷ rules) =
    let rest = config_items name rules in
    if is_asked name rd then item (config_to_json rd) rest else rest

unfoldable pub container_to_json : NfqRes → Tree
container_to_json res = object (
    member (codes "pid") (number (pos res.pid))
      (member (codes "pod_id") (double res.pod_id) no_member))

unfoldable pub container_items : NfQueData → Items
container_items [] = no_item
container_items ((pod, res) ∷ resources) = item (container_to_json res) (container_items resources)

-- The members that a dump of all policies has besides.
unfoldable pub totals : Text → NfQueData → ℕ → Members
totals (c ∷ name) resources tcp_conn = no_member
totals [] resources tcp_conn = member (codes "containers") (array (container_items resources)) (
    member (codes "tcp") (object (member (codes "tcp_connection") (double tcp_conn) no_member))
      no_member)

unfoldable pub get_all_config : Text → RustPolicyEngine → NfQueData → ℕ → Tree
get_all_config name e resources tcp_conn = object (
    member (codes "inbound_rules") (array (config_items name (all_rules e ingress))) (
      member (codes "outbound_rules") (array (config_items name (all_rules e egress)))
        (totals name resources tcp_conn)))

pub record PolicyRuleConfigEntry : Type 0 where
  pub policy_name : Text
  pub priority : ℤ
  pub direction : Text
  pub action : Text
  pub protocol : Text
  pub protocol_int : ℤ
  pub from_address : Text
  pub to_address : Text

pub record ContainerInfo : Type 0 where
  pub pid : ℤ
  pub pod_id : ℕ

pub record DumpConfigResult : Type 0 where
  pub inbound_rules : List PolicyRuleConfigEntry
  pub outbound_rules : List PolicyRuleConfigEntry
  pub containers : List ContainerInfo
  pub tcp_connections : ℕ

module _ (json : Json) where
  open json use {Value, get_object_item, get_array_size, get_array_item, valuestring}
  open json use {valueint, value_u64}

  -- A member that is missing leaves the entry's default.
  unfoldable pub text_or_empty : Option Text → Text
  text_or_empty none = []
  text_or_empty (some text) = from_utf8_lossy text

  unfoldable pub read_text : Option Value → Text
  read_text none = []
  read_text (some v) = text_or_empty (valuestring v)

  unfoldable pub read_int : Option Value → ℤ
  read_int none = pos 0
  read_int (some v) = valueint v

  unfoldable pub read_u64 : Option Value → ℕ
  read_u64 none = 0
  read_u64 (some v) = value_u64 v

  unfoldable pub read_entry : Value → PolicyRuleConfigEntry
  read_entry e = record {
    policy_name = read_text (get_object_item e (codes "policy_name"));
    priority = read_int (get_object_item e (codes "priority"));
    direction = read_text (get_object_item e (codes "direction"));
    action = read_text (get_object_item e (codes "action"));
    protocol = read_text (get_object_item e (codes "protocol"));
    protocol_int = read_int (get_object_item e (codes "protocol_int"));
    from_address = read_text (get_object_item e (codes "from_address"));
    to_address = read_text (get_object_item e (codes "to_address"));
  }

  unfoldable pub read_container : Value → ContainerInfo
  read_container c = record {
    pid = read_int (get_object_item c (codes "pid"));
    pod_id = read_u64 (get_object_item c (codes "pod_id"));
  }

  -- The loops over an array; an item that is missing is passed over.
  unfoldable pub read_items : {A : Type 0} → (Value → A) → Value → ℕ → ℕ → List A
  read_items read value zero i = []
  read_items read value (suc left) i =
      let rest = read_items read value left (suc i) in
      elim (get_array_item value i) [ none ↦ rest | some v ↦ read v ∷ rest ]

  unfoldable pub read_array : {A : Type 0} → (Value → A) → Option Value → List A
  read_array read none = []
  read_array read (some value) = read_items read value (get_array_size value) 0

  unfoldable pub read_total : Option Value → ℕ
  read_total none = 0
  read_total (some tcp) = read_u64 (get_object_item tcp (codes "tcp_connection"))

  unfoldable pub dump_config :
      Printer json → Text → RustPolicyEngine → NfQueData → ℕ → DumpConfigResult
  dump_config printer name e resources tcp_conn =
      let config = printer.view (get_all_config name e resources tcp_conn) in
      record {
        inbound_rules = read_array read_entry (get_object_item config (codes "inbound_rules"));
        outbound_rules = read_array read_entry (get_object_item config (codes "outbound_rules"));
        containers = read_array read_container (get_object_item config (codes "containers"));
        tcp_connections = read_total (get_object_item config (codes "tcp"));
      }
