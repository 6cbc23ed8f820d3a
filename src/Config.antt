-- ===== src/Config.antt =====
-- The configuration messages of net-policy.cpp: NetProtoConvert, ConvertRuleAction, DeletePolicy,
-- AddNewHttpPolicy, UpdateMark and ParseNodeCfg. The JSON library and the C++ standard library
-- enter as parameters; an exception is a value.
pub mod Ranges
pub mod Members
pub mod Rules
pub mod Frame
pub mod Created
pub mod Results
pub mod Reading
pub mod Nodes
use net_policy.Common.Maps.{lookup, contains_key}
use net_policy.Common.{
  ℕ, zero, suc, ◌%◌, ◌-◌, Bool, true, false, ◌||◌, Option, none, some, List, [], ◌∷◌, ◌==◌, text_eq,
  nat_eq, if◌then◌else◌, Text, Map, codes,
}
use net_policy.Policy.{
  NetPolicyRule, k_deny, k_allow, k_mark, FlowDir, ingress, egress, ℤ, pos, negsuc,
}
use net_policy.Packet.{ipproto_icmp, ipproto_tcp, ipproto_udp}
use net_policy.Microseg.{
  Host, HttpRuleInfo, MicroSegEngine, add_node_ip, remove_node_ip, add_http_policy,
  delete_microseg_policy,
}

-- What the code reads of a cJSON tree; `none` is the null pointer.
pub record Json : Type 1 where
  pub Value : Type 0
  pub parse : Text → Option Value
  pub get_object_item : Value → Text → Option Value
  pub get_array_size : Value → ℕ
  pub get_array_item : Value → ℕ → Option Value
  pub valuestring : Value → Option Text
  pub get_string_value : Value → Option Text
  pub valueint : Value → ℤ
  pub value_u64 : Value → ℕ

-- `std::stoi`, which throws where this is `none`, `std::to_string`, and `inet_pton`.
pub record Numbers : Type 0 where
  pub stoi : Text → Option ℤ
  pub to_string : ℤ → Text
  pub inet_pton : Text → Option ℕ

-- How a piece of code ends: with a value, by leaving the loop over the rules, with an exception, or
-- where C++ leaves the behaviour open (a string made from a null pointer, an `int` that overflows).
pub data Outcome (A : Type 0) : Type 0 where
  returned : A → Outcome A
  broken : Outcome A
  thrown : Outcome A
  undefined : Outcome A

-- The state that the parser changes: the engine and the pods whose connections are marked again.
pub record Parsing : Type 0 where
  pub engine : MicroSegEngine
  pub pods : Map ℕ Text

abbrev pub Run : Type 0 → Type 0
Run A = Parsing → Parsing × Outcome A

unfoldable pub after : {A B : Type 0} → Parsing × Outcome A → (A → Run B) → Parsing × Outcome B
after (s, returned a) k = k a s
after (s, broken) k = (s, broken)
after (s, thrown) k = (s, thrown)
after (s, undefined) k = (s, undefined)

infixl 5 ◌>>=◌ ◌>>◌
unfoldable pub ◌>>=◌ : {A B : Type 0} → Run A → (A → Run B) → Run B
m >>= k = λ s. after (m s) k

abbrev pub ◌>>◌ : {B : Type 0} → Run (Unit {0}) → Run B → Run B
m >> k = m >>= λ _. k

unfoldable pub ends : {A : Type 0} → Outcome A → Run A
ends o = λ s. (s, o)

unfoldable pub or_else : {A B : Type 0} → Option A → Run B → (A → Run B) → Run B
or_else none missing found = missing
or_else (some a) missing found = found a

unfoldable pub change : (MicroSegEngine → MicroSegEngine) → Run (Unit {0})
change f = λ s. (record s { engine = f s.engine }, returned tt)

unfoldable pub net_proto_convert : Text → ℕ
net_proto_convert [] = 0
net_proto_convert (c ∷ proto) =
    if (c ∷ proto) == codes "TCP"
    then ipproto_tcp
    else if (c ∷ proto) == codes "UDP"
    then ipproto_udp
    else if (c ∷ proto) == codes "ICMP"
    then ipproto_icmp
    else 0

unfoldable pub convert_rule_action : Text → NetPolicyRule
convert_rule_action str =
    if str == codes "Allow" || str == codes "Log"
    then k_allow
    else if str == codes "Alert"
    then k_mark
    else k_deny

unfoldable pub direction_of : Text → FlowDir
direction_of dir = if dir == codes "ingress" then ingress else egress

-- A conversion to `uint16_t`.
unfoldable pub u16 : ℤ → ℕ
u16 (pos n) = n % 65536
u16 (negsuc n) = 65535 - n % 65536

-- `ipv4StringToInt`.
unfoldable pub ipv4_string_to_int : Numbers → Text → ℕ
ipv4_string_to_int numbers ip = elim (numbers.inet_pton ip) [ none ↦ 0 | some addr ↦ addr ]

-- `DeletePolicy`; its result is 0 on both branches.
unfoldable pub delete_named_policy : Host → Text → MicroSegEngine → MicroSegEngine
delete_named_policy host [] e = e
delete_named_policy host (c ∷ name) e = delete_microseg_policy host e (c ∷ name)

unfoldable pub add_new_http_policy : FlowDir → Text → HttpRuleInfo → MicroSegEngine → MicroSegEngine
add_new_http_policy dir key http e = add_http_policy e dir key http

-- The pods whose conntrack session is told to mark its connections. A pod without a resource
-- (`none`) or without a session (`some false`) is passed over.
unfoldable pub update_mark : (ℕ → Option Bool) → Map ℕ Text → List ℕ
update_mark sessions [] = []
update_mark sessions ((pod, address) ∷ rest) = elim (sessions pod) [
  | none ↦ update_mark sessions rest
  | some false ↦ update_mark sessions rest
  | some true ↦ pod ∷ update_mark sessions rest
]

module _ (json : Json) (numbers : Numbers) where
  open json use {Value, parse, get_object_item, get_array_size, get_array_item, valuestring}

  -- One address of the message: 0 removes it, any other action adds it.
  unfoldable pub set_node_ip : Bool → ℕ → MicroSegEngine → MicroSegEngine
  set_node_ip true ip e = remove_node_ip e ip
  set_node_ip false ip e = add_node_ip e ip

  unfoldable pub parse_node_ips : Bool → Value → ℕ → ℕ → Run (Unit {0})
  parse_node_ips delete item zero i = ends (returned tt)
  parse_node_ips delete item (suc left) i =
      or_else (get_array_item item i) (ends (returned tt)) λ param.
        or_else (valuestring param) (ends undefined) λ ip. do
          change (set_node_ip delete (ipv4_string_to_int numbers ip))
          parse_node_ips delete item left (suc i)

  -- `ParseNodeCfg`.
  unfoldable pub parse_node_cfg : Option Text → Run ℤ
  parse_node_cfg buf = or_else buf (ends (returned (negsuc 0))) λ text.
      or_else (parse text) (ends (returned (negsuc 0))) λ root.
        or_else (get_object_item root (codes "action")) (ends (returned (negsuc 0))) λ action.
          or_else (valuestring action) (ends undefined) λ value.
            or_else (get_object_item root (codes "node_ips")) (ends (returned (negsuc 0))) λ ips. do
              parse_node_ips (value == codes "delete") ips (get_array_size ips) 0
              ends (returned (pos 0))
