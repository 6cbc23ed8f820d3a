-- ===== src/Examples/Controls.antt =====
-- Messages of the gRPC threads on concrete requests.
use net_policy.Common.{
  ℕ, zero, suc, ◌+◌, ◌≡◌, refl, ap, true, false, Option, none, some, [], ◌∷◌, nat_eq, Text, codes,
  arith,
}
use net_policy.Policy.{ℤ, pos}
use net_policy.Microseg.{is_node_ip}
use net_policy.Config.{Json, Numbers, returned, Parsing, parse_node_cfg, ipv4_string_to_int}
use net_policy.Config.Rules.{parse_net_policy}
use net_policy.Control.{
  Tree, string, number, double, viewed, array, object, Items, no_item, item, no_member, member,
  c_str, saturated, find_member, count, IsArray, end, next, Printer, PolicyRuleSpec, policy_message,
  node_message,
}
use net_policy.Control.Direct.{replace_rules}
use net_policy.Control.Added.{parse_net_policy-policy_message}
use net_policy.Control.Updated.{parse_node_cfg-node_message}
use net_policy.Control.Dump.{dump_config}
use net_policy.Control.Dumped.{report, dump_config-report}
use net_policy.Examples.{host, rules, microseg}

abbrev nth : Items → ℕ → Option Tree
nth no_item i = none
nth (item tree items) zero = some tree
nth (item tree items) (suc i) = nth items i

abbrev size : Tree → ℕ
size (array items) = count items
size (string s) = 0
size (number n) = 0
size (double n) = 0
size (object members) = 0

abbrev at : Tree → ℕ → Option Tree
at (array items) i = nth items i
at (string s) i = none
at (number n) i = none
at (double n) i = none
at (object members) i = none

abbrev named : Tree → Text → Option Tree
named (object members) name = find_member name members
named (string s) name = none
named (number n) name = none
named (double n) name = none
named (array items) name = none

abbrev text_of : Tree → Option Text
text_of (string s) = some (c_str s)
text_of (number n) = none
text_of (double n) = none
text_of (array items) = none
text_of (object members) = none

abbrev int_of : Tree → ℤ
int_of (number n) = saturated n
int_of (string s) = pos 0
int_of (double n) = pos 0
int_of (array items) = pos 0
int_of (object members) = pos 0

abbrev u64_of : Tree → ℕ
u64_of (double n) = n
u64_of (string s) = 0
u64_of (number n) = 0
u64_of (array items) = 0
u64_of (object members) = 0

-- A library that knows one message.
abbrev json_of : Tree → Json
json_of tree = record {
  Value = Tree;
  parse = λ text. some tree;
  get_object_item = named;
  get_array_size = size;
  get_array_item = at;
  valuestring = text_of;
  get_string_value = text_of;
  valueint = int_of;
  value_u64 = u64_of;
}

items_from :
    (tree : Tree) (all : Items) (i : ℕ) (rest : Items)
    → ((j : ℕ) → nth all (i + j) ≡ nth rest j)
    → IsArray (json_of tree) (λ t. t) (array all) i rest
items_from tree all i no_item same = end
items_from tree all i (item t rest) same = next (let e : i ≡ i + 0 = omega arith in rw e (same 0)) (
    items_from tree all (suc i) rest
      (λ j. let e : suc i + j ≡ i + suc j = omega arith in rw e (same (suc j))))

found : (tree : Tree) (o : Option Tree) → o ≡ viewed (json_of tree) (λ t. t) o
found tree none = refl
found tree (some t) = refl

abbrev printer_of : (tree : Tree) → Printer (json_of tree)
printer_of tree = record {
  print = λ t. [];
  view = λ t. t;
  as_double = λ n. n;
  string_value = λ s. refl;
  string_text = λ s. refl;
  number_value = λ n. refl;
  double_value = λ n. refl;
  array_size = λ items. refl;
  array_items = λ items. items_from tree items 0 items (λ j. ap (nth items) (omega arith));
  object_member = λ members name. found tree (find_member name members);
  as_double_exact = λ n h. refl;
}

abbrev rule : PolicyRuleSpec
rule = record {
  action = pos 2;
  direction = pos 1;
  protocol = pos 1;
  from_addresses = record { ip = codes "7"; pod_id = 5 } ∷ [];
  to_addresses = record { ip = codes "9"; pod_id = 6 } ∷ [];
  ports = record { port = 80; end_port = 0 } ∷ [];
  priority = pos 1;
  http_rules = record { host = codes "h"; method = codes "GET"; path = codes "/" } ∷ [];
}

abbrev numbers : Numbers
numbers = record {
  stoi = λ text. some (pos 0);
  to_string = λ n. [];
  inet_pton = λ text. elim text [ [] ↦ none | c ∷ rest ↦ some c ];
}

abbrev before : Parsing
before = record { engine = microseg; pods = [] }

abbrev message : Tree
message = policy_message (codes "p") (rule ∷ [])

parse_net_policy-policy_message_example :
    parse_net_policy (json_of message) numbers host (some []) before
    ≡ replace_rules (json_of message) numbers host (λ n. n) (codes "p") (rule ∷ []) before
parse_net_policy-policy_message_example =
    parse_net_policy-policy_message (json_of message) (printer_of message) numbers host (codes "p")
      (rule ∷ []) before refl

abbrev nodes : Tree
nodes = node_message false (codes "7" ∷ [])

parse_node_cfg-node_message_example :
    let r = parse_node_cfg (json_of nodes) numbers (some []) before in
    (r.1 ≡ returned (pos 0))
    × (is_node_ip r.0.engine 55 ≡ true)
    × (r.0.engine.policy_rule ≡ microseg.policy_rule)
unfolding c_str ipv4_string_to_int
parse_node_cfg-node_message_example =
    parse_node_cfg-node_message (json_of nodes) (printer_of nodes) numbers false (codes "7" ∷ [])
      before 55 refl

abbrev request : Tree
request = object (member (codes "enable") (string (codes "y")) no_member)

-- The rules of one policy.
dump_config-report_example :
    dump_config (json_of request) (printer_of request) (codes "p") rules [] 3
    ≡ report (λ n. n) (codes "p") rules [] 3
dump_config-report_example =
    dump_config-report (json_of request) (printer_of request) (codes "p") rules [] 3
