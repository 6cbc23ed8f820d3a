-- ===== src/Control.antt =====
-- The messages that the gRPC threads make for the event loop: GrpcDispatchAddPolicyRule and
-- GrpcDispatchUpdateNodeConfig of net-policy.cpp, with the types of crates/net_policy_control.
-- `cJSON_PrintUnformatted` is a parameter, and what the parser makes of a printed tree is in its laws.
pub mod Direct
pub mod Arrays
pub mod Fields
pub mod Added
pub mod Updated
pub mod Closures
pub mod Toggled
pub mod Dump
pub mod Dumped
use net_policy.Common.{
  ℕ, suc, ◌^◌, ◌≤◌, ◌≡◌, leb, Bool, true, false, Option, none, some, List, [], ◌∷◌, ◌==◌, nat_eq,
  text_eq, if◌then◌else◌, Text, codes,
}
use net_policy.Policy.{ℤ, pos, negsuc}
use net_policy.Http.Http1.{to_low}
use net_policy.Config.{Json}

pub record HttpMatchRule : Type 0 where
  pub host : Text
  pub method : Text
  pub path : Text

pub record AddressEndpoint : Type 0 where
  pub ip : Text
  pub pod_id : ℕ

pub record PortRange : Type 0 where
  pub port : ℕ
  pub end_port : ℕ

pub record PolicyRuleSpec : Type 0 where
  pub action : ℤ
  pub direction : ℤ
  pub protocol : ℤ
  pub from_addresses : List AddressEndpoint
  pub to_addresses : List AddressEndpoint
  pub ports : List PortRange
  pub priority : ℤ
  pub http_rules : List HttpMatchRule

-- A cJSON tree under construction; a `double` is made from a uint64.
mutual
  pub data Tree : Type 0 where
    string : Text → Tree
    number : ℤ → Tree
    double : ℕ → Tree
    array : Items → Tree
    object : Members → Tree

  pub data Items : Type 0 where
    no_item : Items
    item : Tree → Items → Items

  pub data Members : Type 0 where
    no_member : Members
    member : Text → Tree → Members → Members

-- The text up to its first zero byte, which is what a `char*` passes on.
unfoldable pub c_str : Text → Text
c_str [] = []
c_str (c ∷ s) = let rest = c_str s in if c == 0 then [] else c ∷ rest

-- The `int` of a cJSON number, which stops at the ends of the range.
unfoldable pub saturated : ℤ → ℤ
saturated (pos n) = if leb (2_147_483_647) n then pos (2_147_483_647) else pos n
saturated (negsuc n) = if leb (2_147_483_647) n then negsuc (2_147_483_647) else negsuc n

-- `cJSON_GetObjectItem`, which takes the first member whose name is the same but for case.
unfoldable pub find_member : Text → Members → Option Tree
find_member name no_member = none
find_member name (member key value members) =
    let rest = find_member name members in if to_low key == to_low name then some value else rest

unfoldable pub count : Items → ℕ
count no_item = 0
count (item value items) = suc (count items)

module _ (json : Json) where
  open json use {Value, get_object_item, get_array_size, get_array_item, valuestring}
  open json use {get_string_value, valueint, value_u64}

  module _ (view : Tree → Value) where
    abbrev pub viewed : Option Tree → Option Value
    viewed none = none
    viewed (some tree) = some (view tree)

    -- The array's items from a position on.
    pub data IsArray (value : Value) : ℕ → Items → Type 0 where
      end : {i : ℕ} → IsArray value i no_item
      next :
          {i : ℕ} {tree : Tree} {items : Items}
          → get_array_item value i ≡ some (view tree)
          → IsArray value (suc i) items
          → IsArray value i (item tree items)

  -- The printer, what the parser makes of a printed tree, and the way of a uint64 through a double.
  pub record Printer : Type 0 where
    pub print : Tree → Text
    pub view : Tree → Value
    pub as_double : ℕ → ℕ
    pub string_value : (s : Text) → valuestring (view (string s)) ≡ some (c_str s)
    pub string_text : (s : Text) → get_string_value (view (string s)) ≡ some (c_str s)
    pub number_value : (n : ℤ) → valueint (view (number n)) ≡ saturated n
    pub double_value : (n : ℕ) → value_u64 (view (double n)) ≡ as_double n
    pub array_size : (items : Items) → get_array_size (view (array items)) ≡ count items
    pub array_items : (items : Items) → IsArray view (view (array items)) 0 items
    pub object_member :
        (members : Members) (name : Text)
        → get_object_item (view (object members)) name ≡ viewed view (find_member name members)
    pub as_double_exact : (n : ℕ) → n ≤ 2 ^ 53 → as_double n ≡ n

unfoldable pub policy_action_to_str : ℤ → Text
policy_action_to_str (negsuc n) = codes "Deny"
policy_action_to_str (pos n) =
    if n == 2 then codes "Allow" else if n == 3 then codes "Alert" else codes "Deny"

unfoldable pub flow_direction_to_str : ℤ → Text
flow_direction_to_str (negsuc n) = codes "egress"
flow_direction_to_str (pos n) = if n == 1 then codes "ingress" else codes "egress"

unfoldable pub l4_protocol_to_str : ℤ → Text
l4_protocol_to_str (negsuc n) = []
l4_protocol_to_str (pos n) =
    if n == 1
    then codes "TCP"
    else if n == 2
    then codes "UDP"
    else if n == 3
    then codes "ICMP"
    else []

abbrev pub items_of : {A : Type 0} → (A → Tree) → List A → Items
items_of build [] = no_item
items_of build (a ∷ rest) = item (build a) (items_of build rest)

-- A member that is added under a condition.
abbrev pub optional : Text → Option Tree → Members → Members
optional name none members = members
optional name (some tree) members = member name tree members

-- An array that is left out when it is empty.
abbrev pub filled : {A : Type 0} → (A → Tree) → List A → Option Tree
filled build [] = none
filled build (a ∷ rest) = some (array (items_of build (a ∷ rest)))

unfoldable pub address_endpoint_to_json : AddressEndpoint → Tree
address_endpoint_to_json ep =
    object
      (member (codes "ip") (string ep.ip) (member (codes "pod_id") (double ep.pod_id) no_member))

unfoldable pub http_to_json : HttpMatchRule → Tree
http_to_json h = object (
    member (codes "host") (string h.host)
      (member (codes "method") (string h.method) (member (codes "path") (string h.path) no_member)))

unfoldable pub port_to_json : PortRange → Tree
port_to_json p = object (
    member (codes "port") (number (pos p.port))
      (member (codes "endPort") (number (pos p.end_port)) no_member))

abbrev pub is_unspecified : ℤ → Bool
is_unspecified (pos n) = n == 0
is_unspecified (negsuc n) = false

abbrev pub protocol_to_json : ℤ → Option Tree
protocol_to_json protocol =
    if is_unspecified protocol then none else some (string (l4_protocol_to_str protocol))

unfoldable pub rule_to_json : PolicyRuleSpec → Tree
rule_to_json rule = object (
    member (codes "action") (string (policy_action_to_str rule.action)) (
      member (codes "direction") (string (flow_direction_to_str rule.direction)) (
        optional (codes "protocol") (protocol_to_json rule.protocol) (
          optional (codes "http") (filled http_to_json rule.http_rules) (
            member (codes "from_addresses")
              (array (items_of address_endpoint_to_json rule.from_addresses))
              (member (codes "to_addresses")
                (array (items_of address_endpoint_to_json rule.to_addresses))
                (optional (codes "ports") (filled port_to_json rule.ports)
                  (member (codes "priority") (number rule.priority) no_member))))))))

-- The message of `GrpcDispatchAddPolicyRule`.
unfoldable pub policy_message : Text → List PolicyRuleSpec → Tree
policy_message name rules = object (
    member (codes "policy_name") (string name)
      (member (codes "rules") (array (items_of rule_to_json rules)) no_member))

-- The message of `GrpcDispatchUpdateNodeConfig`.
unfoldable pub node_message : Bool → List Text → Tree
node_message is_delete node_ips = object (
    member (codes "action") (string (if is_delete then codes "delete" else codes "add"))
      (member (codes "node_ips") (array (items_of string node_ips)) no_member))
