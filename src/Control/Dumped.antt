-- ===== src/Control/Dumped.antt =====
-- What GrpcDispatchDumpConfig of net-policy.cpp reports.
use net_policy.Common.{
  ℕ, suc, ◌≡◌, refl, Bool-cases, some, List, [], ◌∷◌, nat_eq, text_eq, text_beq, if◌then◌else◌,
  Text, codes, inl, inr,
}
use net_policy.Policy.{ingress, egress, RuleDetail, ℤ, pos}
use net_policy.Policy.Engine.{RustPolicyEngine}
use net_policy.Http.Http1.{to_low}
use net_policy.Config.{Json}
use net_policy.Nfq.{NfQueData, NfqRes}
use net_policy.Http1Codec.Lossy.{from_utf8_lossy}
use net_policy.Control.{
  Tree, string, number, double, array, object, Items, no_item, item, no_member, member, c_str,
  saturated, find_member, count, IsArray, end, next, Printer,
}
use net_policy.Control.Dump.{
  action_string, direction_string, protocol_string, all_rules, config_to_json, is_asked,
  config_items, container_to_json, container_items, totals, get_all_config, PolicyRuleConfigEntry,
  ContainerInfo, DumpConfigResult, text_or_empty, read_text, read_int, read_u64, read_entry,
  read_container, read_items, read_array, read_total, dump_config,
}

-- A text as it is reported: up to its first zero byte, made valid UTF-8.
abbrev pub shown : Text → Text
shown s = from_utf8_lossy (c_str s)

unfoldable pub entry_of : RuleDetail → PolicyRuleConfigEntry
entry_of rd = record {
  policy_name = shown rd.policy_key;
  priority = saturated rd.priority;
  direction = shown (direction_string rd.direction);
  action = shown (action_string rd.action);
  protocol = shown (protocol_string rd.proto);
  protocol_int = saturated (pos rd.proto);
  from_address = shown rd.src_ip;
  to_address = shown rd.dst_ip;
}

-- The entries of the policy that is asked for, of all policies for an empty name.
unfoldable pub asked_entries : Text → List RuleDetail → List PolicyRuleConfigEntry
asked_entries name [] = []
asked_entries name (rd ∷ rules) =
    let rest = asked_entries name rules in if is_asked name rd then entry_of rd ∷ rest else rest

unfoldable pub container_infos : (ℕ → ℕ) → NfQueData → List ContainerInfo
container_infos as_double [] = []
container_infos as_double ((pod, res) ∷ resources) =
    record { pid = saturated (pos res.pid); pod_id = as_double res.pod_id }
    ∷ container_infos as_double resources

unfoldable pub report : (ℕ → ℕ) → Text → RustPolicyEngine → NfQueData → ℕ → DumpConfigResult
report as_double [] e resources tcp_conn = record {
  inbound_rules = asked_entries [] (all_rules e ingress);
  outbound_rules = asked_entries [] (all_rules e egress);
  containers = container_infos as_double resources;
  tcp_connections = as_double tcp_conn;
}
report as_double (c ∷ name) e resources tcp_conn = record {
  inbound_rules = asked_entries (c ∷ name) (all_rules e ingress);
  outbound_rules = asked_entries (c ∷ name) (all_rules e egress);
  containers = [];
  tcp_connections = 0;
}

abbrev map_items : {A : Type 0} → (Tree → A) → Items → List A
map_items f no_item = []
map_items f (item tree items) = f tree ∷ map_items f items

module _ (json : Json) (printer : Printer json) where
  open json use {Value, get_object_item, get_array_size, get_array_item, valuestring}
  open printer use {view}

  items_read :
      {A : Type 0} (read : Value → A) (v : Value) (i : ℕ) (items : Items)
      → IsArray json view v i items
      → read_items json read v (count items) i ≡ map_items (λ tree. read (view tree)) items
  unfolding read_items count
  items_read read v i no_item end = refl
  items_read read v i (item tree items) (next e rest) = rw (e, items_read read v (suc i) items rest)

  array_read :
      {A : Type 0} (read : Value → A) (items : Items)
      → read_array json read (some (view (array items)))
        ≡ map_items (λ tree. read (view tree)) items
  unfolding read_array
  array_read read items =
      rw (printer.array_size items)
        (items_read read (view (array items)) 0 items (printer.array_items items))

  text_read : (s : Text) → read_text json (some (view (string s))) ≡ shown s
  unfolding read_text text_or_empty
  text_read s = rw (printer.string_value s)

  int_read : (n : ℤ) → read_int json (some (view (number n))) ≡ saturated n
  unfolding read_int
  int_read n = printer.number_value n

  u64_read : (n : ℕ) → read_u64 json (some (view (double n))) ≡ printer.as_double n
  unfolding read_u64
  u64_read n = printer.double_value n

  entry_read : (rd : RuleDetail) → read_entry json (view (config_to_json rd)) ≡ entry_of rd
  unfolding read_entry entry_of config_to_json find_member to_low text_beq
  entry_read rd = rw (
    printer.object_member _ (codes "policy_name"),
    printer.object_member _ (codes "priority"),
    printer.object_member _ (codes "direction"),
    printer.object_member _ (codes "action"),
    printer.object_member _ (codes "protocol"),
    printer.object_member _ (codes "protocol_int"),
    printer.object_member _ (codes "from_address"),
    printer.object_member _ (codes "to_address"),
    text_read rd.policy_key,
    int_read rd.priority,
    text_read (direction_string rd.direction),
    text_read (action_string rd.action),
    text_read (protocol_string rd.proto),
    int_read (pos rd.proto),
    text_read rd.src_ip,
    text_read rd.dst_ip,
  )

  container_read :
      (res : NfqRes)
      → read_container json (view (container_to_json res))
        ≡ record { pid = saturated (pos res.pid); pod_id = printer.as_double res.pod_id }
  unfolding read_container container_to_json find_member to_low text_beq
  container_read res = rw (
    printer.object_member _ (codes "pid"),
    printer.object_member _ (codes "pod_id"),
    int_read (pos res.pid),
    u64_read res.pod_id,
  )

  entries_read :
      (name : Text) (rules : List RuleDetail)
      → map_items (λ tree. read_entry json (view tree)) (config_items name rules)
        ≡ asked_entries name rules
  unfolding config_items asked_entries
  entries_read name [] = refl
  entries_read name (rd ∷ rules) = elim (Bool-cases (is_asked name rd)) [
    | inl e ↦ rw (e, entry_read rd, entries_read name rules)
    | inr e ↦ rw (e, entries_read name rules)
  ]

  containers_read :
      (resources : NfQueData)
      → map_items (λ tree. read_container json (view tree)) (container_items resources)
        ≡ container_infos printer.as_double resources
  unfolding container_items container_infos
  containers_read [] = refl
  containers_read ((pod, res) ∷ resources) = rw (container_read res, containers_read resources)

  total_read :
      (tcp_conn : ℕ)
      → read_total json
          (some (view (object (member (codes "tcp_connection") (double tcp_conn) no_member))))
        ≡ printer.as_double tcp_conn
  unfolding read_total find_member to_low text_beq
  total_read tcp_conn = rw (printer.object_member _ (codes "tcp_connection"), u64_read tcp_conn)

  -- The dump reports the engine: for every name, the rules of each direction in the engine's order,
  -- those of the policy alone if a name is asked for, and without a name all of them with the pods
  -- and the number of connections; texts end at a zero byte and are made UTF-8, priorities stop at
  -- the ends of an int, and the pods' and connections' numbers go through a double.
  pub dump_config-report :
      (name : Text) (e : RustPolicyEngine) (resources : NfQueData) (tcp_conn : ℕ)
      → dump_config json printer name e resources tcp_conn
        ≡ report printer.as_double name e resources tcp_conn
  unfolding dump_config get_all_config totals report find_member to_low text_beq
  dump_config-report [] e resources tcp_conn = rw (
    printer.object_member _ (codes "inbound_rules"),
    printer.object_member _ (codes "outbound_rules"),
    printer.object_member _ (codes "containers"),
    printer.object_member _ (codes "tcp"),
    array_read (read_entry json) (config_items [] (all_rules e ingress)),
    array_read (read_entry json) (config_items [] (all_rules e egress)),
    array_read (read_container json) (container_items resources),
    entries_read [] (all_rules e ingress),
    entries_read [] (all_rules e egress),
    containers_read resources,
    total_read tcp_conn,
  )
  dump_config-report (c ∷ name) e resources tcp_conn =
      rw
        (
          printer.object_member _ (codes "inbound_rules"),
          printer.object_member _ (codes "outbound_rules"),
          printer.object_member _ (codes "containers"),
          printer.object_member _ (codes "tcp"),
          array_read (read_entry json) (config_items (c ∷ name) (all_rules e ingress)),
          array_read (read_entry json) (config_items (c ∷ name) (all_rules e egress)),
          entries_read (c ∷ name) (all_rules e ingress),
          entries_read (c ∷ name) (all_rules e egress),
        )
        (unfold read_array read_total in refl)
