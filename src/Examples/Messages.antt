-- ===== src/Examples/Messages.antt =====
-- Configuration messages on a concrete tree.
use net_policy.Common.Maps.{lookup}
use net_policy.Common.{
  ℕ, zero, suc, ◌≤◌, Option, none, some, List, [], ◌∷◌, ◌++◌, Text, codes, refl, ◌≡◌, ◌↔◌, arith,
  nat_eq, text_eq, text_beq, Among, inl, inr, byte_at,
}
use net_policy.Policy.{ingress, pos, negsuc, RulePort}
use net_policy.Policy.Engine.Deleting.{engine_rule, add_policy-EngineIsIndexed, new-EngineIsIndexed}
use net_policy.Policy.Engine
use net_policy.Policy.Engine.{lt_i32}
use net_policy.Policy.Rule.{create_rule_key}
use net_policy.Config.{delete_named_policy, Json, Numbers, returned, Parsing}
use net_policy.Config.Ranges.{parse_segment_ips, count_dots}
use net_policy.Config.Rules.{create_rules, parse_net_policy}
use net_policy.Config.Created.{HasPort, create_rules-HasPort}
use net_policy.Config.Results.{parse_net_policy_others, parse_net_policy_refused}
use net_policy.Config.Reading.{parse_segment_ips-range}
use net_policy.Examples.{host, one_char, deny_rule, any_port, rules, microseg}

-- The nodes of a tree: the message, its members, and the item of its array.
data Node : Type 0 where
  message named action_text addresses address : Node

abbrev member : Node → Text → Option Node
member message name = lookup name (
    (codes "policy_name", named)
    ∷ ((codes "action", action_text) ∷ ((codes "node_ips", addresses) ∷ [])))
member named name = none
member action_text name = none
member addresses name = none
member address name = none

abbrev item_at : Node → ℕ → Option Node
item_at addresses zero = some address
item_at addresses (suc i) = none
item_at message i = none
item_at named i = none
item_at action_text i = none
item_at address i = none

abbrev text_of : Node → Option Text
text_of named = some (98 ∷ [])
text_of action_text = some (codes "add")
text_of address = some (9 ∷ [])
text_of message = none
text_of addresses = none

abbrev json : Json
json = record {
  Value = Node;
  parse = λ text. some message;
  get_object_item = member;
  get_array_size = λ v. 1;
  get_array_item = item_at;
  valuestring = text_of;
  get_string_value = text_of;
  valueint = λ v. pos 0;
  value_u64 = λ v. 0;
}

-- Numbers and addresses of one byte.
abbrev numbers : Numbers
numbers = record {
  stoi = λ t. some (pos (byte_at t 0));
  to_string = elim [ pos n ↦ n ∷ [] | negsuc n ↦ [] ];
  inet_pton = λ t. some (byte_at t 0);
}

abbrev first_parsing : Parsing
first_parsing = record { engine = microseg; pods = [] }

-- The message names the policy 98 and has no rules.
parse_net_policy_others_example :
    engine_rule
      (parse_net_policy json numbers host (some []) first_parsing).0.engine.policy_rule
      ingress
      (create_rule_key one_char deny_rule).0
      (112 ∷ [])
    ≡ engine_rule rules ingress (create_rule_key one_char deny_rule).0 (112 ∷ [])
unfolding lookup text_beq
parse_net_policy_others_example =
    (parse_net_policy_others json numbers host (some []) first_parsing ingress
      (create_rule_key one_char deny_rule).0 (112 ∷ [])
      (add_policy-EngineIsIndexed one_char Engine.new deny_rule any_port new-EngineIsIndexed)
      (ground arith)).0

parse_net_policy_refused_example :
    (parse_net_policy json numbers host (some []) first_parsing).0
    ≡ record first_parsing { engine = delete_named_policy host (98 ∷ []) microseg }
unfolding lookup text_beq
parse_net_policy_refused_example =
    (parse_net_policy_refused json numbers host (some []) first_parsing).1 refl

abbrev https_port : RulePort
https_port = record { end_port = 443; port = 443; proto = 6 }

create_rules-HasPort_example :
    HasPort
      (create_rules host deny_rule
        ((5 ∷ []) ∷ ((7 ∷ []) ∷ []))
        ((9 ∷ []) ∷ [])
        (https_port ∷ [])
        microseg)
      ingress
      (create_rule_key one_char deny_rule).0
      (112 ∷ [])
      https_port
unfolding lt_i32
create_rules-HasPort_example =
    create_rules-HasPort host deny_rule ((5 ∷ []) ∷ ((7 ∷ []) ∷ [])) ((9 ∷ []) ∷ [])
      (https_port ∷ []) microseg (7 ∷ []) (9 ∷ []) https_port
      (record {
        above = refl;
        below = refl;
        key_valid = refl;
        action_valid = refl;
        src_valid = refl;
        dst_valid = refl;
      })
      (inr (inl refl)) (inl refl) (inl refl)

parse_segment_ips-range_example :
    (ips : List Text) × (parse_segment_ips numbers (codes "10.0.0.1-3") ≡ returned ips)
    × ((ip : Text)
        → Among ip ips ↔ ((i : ℕ) × (49 ≤ i) × (i ≤ 51) × (codes "10.0.0." ++ (i ∷ []) ≡ ip)))
unfolding count_dots
parse_segment_ips-range_example =
    parse_segment_ips-range numbers (codes "10.0.0") (codes "1") (codes "3") 49 51 refl refl refl
      refl refl (omega arith)
