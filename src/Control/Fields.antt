-- ===== src/Control/Fields.antt =====
-- What GrpcDispatchAddPolicyRule of net-policy.cpp writes into a rule, read back by name.
use net_policy.Common.{
  ◌≡◌, refl, ap, ◌∙◌, true, false, Bool-cases, Option, none, some, ◌==◌, nat_eq, text_eq, text_beq,
  Text, codes, inl, inr, arith,
}
use net_policy.Policy.{ℤ, pos, negsuc}
use net_policy.Http.Http1.{to_low}
use net_policy.Config.{Json, net_proto_convert, direction_of}
use net_policy.Control.{
  PolicyRuleSpec, Tree, string, number, array, Members, no_member, member, c_str, find_member,
  Printer, items_of, optional, filled, address_endpoint_to_json, http_to_json, port_to_json,
  policy_action_to_str, flow_direction_to_str, l4_protocol_to_str, protocol_to_json, rule_to_json,
  viewed,
}
use net_policy.Control.Direct.{flow_dir, proto_number}

find_optional :
    (name key : Text) (value : Option Tree) (members : Members)
    → (to_low key == to_low name) ≡ false
    → find_member name (optional key value members) ≡ find_member name members
unfolding find_member
find_optional name key none members h = refl
find_optional name key (some tree) members h = rw h

found_optional :
    (name : Text) (value : Option Tree) (members : Members)
    → (to_low name == to_low name) ≡ true
    → find_member name members ≡ none
    → find_member name (optional name value members) ≡ value
unfolding find_member
found_optional name none members h e = e
found_optional name (some tree) members h e = rw h

-- The numbers of the message's enumerations, by their texts.
pub action_kept : (a : ℤ) → c_str (policy_action_to_str a) ≡ policy_action_to_str a
unfolding policy_action_to_str c_str
action_kept (negsuc n) = refl
action_kept (pos n) = ground arith

pub direction_read : (d : ℤ) → direction_of (c_str (flow_direction_to_str d)) ≡ flow_dir d
unfolding flow_direction_to_str flow_dir
direction_read (negsuc n) = unfold direction_of c_str text_beq in refl
direction_read (pos n) = elim (Bool-cases (n == 1)) [
  | inl e ↦ rw e (unfold direction_of c_str text_beq in refl)
  | inr e ↦ rw e (unfold direction_of c_str text_beq in refl)
]

pub proto_read : (p : ℤ) → net_proto_convert (c_str (l4_protocol_to_str p)) ≡ proto_number p
unfolding l4_protocol_to_str proto_number
proto_read (negsuc n) = unfold net_proto_convert c_str in refl
proto_read (pos n) = elim (Bool-cases (n == 1)) [
  | inl e ↦ rw e (unfold net_proto_convert c_str text_beq in refl)
  | inr e ↦ elim (Bool-cases (n == 2)) [
    | inl k ↦ rw (e, k) (unfold net_proto_convert c_str text_beq in refl)
    | inr k ↦ elim (Bool-cases (n == 3)) [
      | inl l ↦ rw (e, k, l) (unfold net_proto_convert c_str text_beq in refl)
      | inr l ↦ rw (e, k, l) (unfold net_proto_convert c_str in refl)
    ]
  ]
]

abbrev tail_ports : PolicyRuleSpec → Members
tail_ports rule =
    optional (codes "ports") (filled port_to_json rule.ports)
      (member (codes "priority") (number rule.priority) no_member)

abbrev tail_from : PolicyRuleSpec → Members
tail_from rule =
    member (codes "from_addresses") (array (items_of address_endpoint_to_json rule.from_addresses))
      (member (codes "to_addresses") (array (items_of address_endpoint_to_json rule.to_addresses))
        (tail_ports rule))

abbrev tail_http : PolicyRuleSpec → Members
tail_http rule = optional (codes "http") (filled http_to_json rule.http_rules) (tail_from rule)

module _ (json : Json) (printer : Printer json) where
  open json use {
    Value, parse, get_object_item, get_array_size, valuestring, get_string_value, valueint,
  }
  open printer use {view}

  pub rule_action :
      (rule : PolicyRuleSpec)
      → get_object_item (view (rule_to_json rule)) (codes "action")
        ≡ some (view (string (policy_action_to_str rule.action)))
  unfolding rule_to_json find_member to_low text_beq
  rule_action rule = printer.object_member _ (codes "action")

  pub rule_direction :
      (rule : PolicyRuleSpec)
      → get_object_item (view (rule_to_json rule)) (codes "direction")
        ≡ some (view (string (flow_direction_to_str rule.direction)))
  unfolding rule_to_json find_member to_low text_beq
  rule_direction rule = printer.object_member _ (codes "direction")

  pub rule_protocol :
      (rule : PolicyRuleSpec)
      → get_object_item (view (rule_to_json rule)) (codes "protocol")
        ≡ viewed json view (protocol_to_json rule.protocol)
  unfolding rule_to_json find_member to_low text_beq
  rule_protocol rule =
      printer.object_member _ (codes "protocol")
      ∙ ap (viewed json view) (
          found_optional (codes "protocol") (protocol_to_json rule.protocol) (tail_http rule) refl (
            find_optional (codes "protocol") (codes "http") (filled http_to_json rule.http_rules)
              (tail_from rule) refl
            ∙ find_optional (codes "protocol") (codes "ports") (filled port_to_json rule.ports) _
                refl))

  past_protocol :
      (rule : PolicyRuleSpec) (name : Text)
      → (to_low (codes "action") == to_low name) ≡ false
      → (to_low (codes "direction") == to_low name) ≡ false
      → (to_low (codes "protocol") == to_low name) ≡ false
      → get_object_item (view (rule_to_json rule)) name
        ≡ viewed json view (find_member name (tail_http rule))
  unfolding rule_to_json find_member
  past_protocol rule name a d p =
      printer.object_member _ name
      ∙ ap (viewed json view) (
          rw (a, d)
            (find_optional name (codes "protocol") (protocol_to_json rule.protocol) (tail_http rule)
              p))

  pub rule_http :
      (rule : PolicyRuleSpec)
      → get_object_item (view (rule_to_json rule)) (codes "http")
        ≡ viewed json view (filled http_to_json rule.http_rules)
  unfolding find_member to_low text_beq
  rule_http rule =
      past_protocol rule (codes "http") refl refl refl
      ∙ ap (viewed json view) (
          found_optional (codes "http") (filled http_to_json rule.http_rules) (tail_from rule) refl
            (find_optional (codes "http") (codes "ports") (filled port_to_json rule.ports) _ refl))

  past_http :
      (rule : PolicyRuleSpec) (name : Text)
      → (to_low (codes "action") == to_low name) ≡ false
      → (to_low (codes "direction") == to_low name) ≡ false
      → (to_low (codes "protocol") == to_low name) ≡ false
      → (to_low (codes "http") == to_low name) ≡ false
      → get_object_item (view (rule_to_json rule)) name
        ≡ viewed json view (find_member name (tail_from rule))
  past_http rule name a d p h =
      past_protocol rule name a d p
      ∙ ap (viewed json view) (
          find_optional name (codes "http") (filled http_to_json rule.http_rules) (tail_from rule)
            h)

  pub rule_from :
      (rule : PolicyRuleSpec)
      → get_object_item (view (rule_to_json rule)) (codes "from_addresses")
        ≡ some (view (array (items_of address_endpoint_to_json rule.from_addresses)))
  unfolding find_member to_low text_beq
  rule_from rule = past_http rule (codes "from_addresses") refl refl refl refl

  pub rule_to :
      (rule : PolicyRuleSpec)
      → get_object_item (view (rule_to_json rule)) (codes "to_addresses")
        ≡ some (view (array (items_of address_endpoint_to_json rule.to_addresses)))
  unfolding find_member to_low text_beq
  rule_to rule = past_http rule (codes "to_addresses") refl refl refl refl

  pub rule_ports_member :
      (rule : PolicyRuleSpec)
      → get_object_item (view (rule_to_json rule)) (codes "ports")
        ≡ viewed json view (filled port_to_json rule.ports)
  unfolding find_member to_low text_beq
  rule_ports_member rule =
      past_http rule (codes "ports") refl refl refl refl
      ∙ ap (viewed json view)
          (found_optional (codes "ports") (filled port_to_json rule.ports) _ refl refl)

  pub rule_priority :
      (rule : PolicyRuleSpec)
      → get_object_item (view (rule_to_json rule)) (codes "priority")
        ≡ some (view (number rule.priority))
  unfolding find_member to_low text_beq
  rule_priority rule =
      past_http rule (codes "priority") refl refl refl refl
      ∙ ap (viewed json view)
          (find_optional (codes "priority") (codes "ports") (filled port_to_json rule.ports) _ refl)
