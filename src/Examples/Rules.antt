-- ===== src/Examples/Rules.antt =====
-- The policy engines on concrete rules.
use net_policy.Common.{
  true, none, some, [], ◌∷◌, Text, refl, ◌≡◌, ◌⊎◌, nat_eq, text_eq, text_beq, inl, inr,
}
use net_policy.Common.Maps.{lookup, contains_key, insert, erase}
use net_policy.Packet.{parse_ipv4_header, parse_tcp_header, parse_ports, parse_five_tuple}
use net_policy.Flow
use net_policy.Flow.{
  id_beq, segment_of, parse_segment, advance, on_tracked, seed_peer, start_flow, on_unknown,
  on_segment, on_packet_internal, kind_number, shared, on_packet, id_eq,
}
use net_policy.Policy.{ingress, egress, k_deny, k_default, pos, negsuc}
use net_policy.Policy.Rule.{
  split_slash, shift_of, mask_ip, ipv4_cidr_to_ip, parse_cidr, create_rule_key, match_ports,
  matches,
}
use net_policy.Policy.Tree.{
  empty_tree, add_rule_detail, match_rule, match_rule_group, add_rule_to_chain, add_policy_to_chain,
}
use net_policy.Policy.Engine
use net_policy.Policy.Engine.{
  lt_i32, insert_i32, tree_of, set_tree, add_mask_and_priority, first_match, add_policy, mask_keys,
  priority_keys, tuple_keys, create_rule_key_by_tuple, match_five_tuple,
}
use net_policy.Microseg.{
  reverse_tuple, is_node_ip, match_tuple, match_net_policy_rule, match_reverse,
  match_micro_policy_rule,
}
use net_policy.Conn.{receive, microseg_tracked}
use net_policy.Callback.{tuple_of}
use net_policy.Common.{Among}
use net_policy.Policy
use net_policy.Policy.{RuleDetail}
use net_policy.Policy.Tree.Contents.{rule_at}
use net_policy.Policy.Engine.Matching.{match_five_tuple_sound, StoredUnder}
use net_policy.Policy.Engine.Priority.{match_five_tuple-lowest, IsOrdered}
use net_policy.Policy.Engine.Deleting.{
  engine_rule, engine_rule-delete_policy, EngineIsIndexed, add_policy-EngineIsIndexed,
  new-EngineIsIndexed,
}
use net_policy.Policy.Engine.{delete_policy}
use net_policy.Policy.Engine.Reaching.{add_policy-match}
use net_policy.Policy.Engine.Reached.{run_policies, run_policies-new, add, delete}
use net_policy.Microseg.{FiveTuple}
use net_policy.Microseg.Verdicts.{match_micro_policy_rule_sound, Decides}
use net_policy.Examples.{host, one_char, any_port, deny_rule, rules, microseg}

abbrev policy_name : Text
policy_name = 112 ∷ []

-- The rule as the engine holds it.
abbrev held : RuleDetail
held = record deny_rule { ports = any_port ∷ [] }

match_five_tuple-lowest_example :
    (p : Policy.ℤ) × Among p rules.priority
    × (first_match
          (tree_of rules ingress)
          (priority_keys one_char p 6 (7 ∷ []) (9 ∷ []) ingress rules.mask_cidr)
          6
          80
          100
        ≡ some held)
    × ((q : Policy.ℤ)
        → Among q rules.priority
        → lt_i32 q p ≡ true
        → first_match
            (tree_of rules ingress)
            (priority_keys one_char q 6 (7 ∷ []) (9 ∷ []) ingress rules.mask_cidr)
            6
            80
            100
          ≡ none)
unfolding lookup contains_key insert erase text_beq parse_ipv4_header parse_tcp_header parse_ports
    parse_five_tuple Flow.new id_beq segment_of parse_segment advance on_tracked seed_peer
    start_flow on_unknown on_segment on_packet_internal kind_number shared on_packet split_slash
    shift_of mask_ip ipv4_cidr_to_ip parse_cidr create_rule_key match_ports matches empty_tree
    add_rule_detail match_rule match_rule_group add_rule_to_chain add_policy_to_chain Engine.new
    lt_i32 insert_i32 tree_of set_tree add_mask_and_priority first_match add_policy mask_keys
    priority_keys tuple_keys create_rule_key_by_tuple match_five_tuple reverse_tuple is_node_ip
    match_tuple match_net_policy_rule match_reverse match_micro_policy_rule receive microseg_tracked
    tuple_of
match_five_tuple-lowest_example =
    match_five_tuple-lowest one_char rules 6 80 100 (7 ∷ []) (9 ∷ []) ingress held
      ((λ q m. elim m [ ]), tt) refl

add_policy-match_example :
    (q : RuleDetail) × (match_five_tuple one_char rules 6 80 100 (7 ∷ []) (9 ∷ []) ingress ≡ some q)
unfolding lookup contains_key insert erase text_beq parse_ipv4_header parse_tcp_header parse_ports
    parse_five_tuple Flow.new id_beq segment_of parse_segment advance on_tracked seed_peer
    start_flow on_unknown on_segment on_packet_internal kind_number shared on_packet split_slash
    shift_of mask_ip ipv4_cidr_to_ip parse_cidr create_rule_key match_ports matches empty_tree
    add_rule_detail match_rule match_rule_group add_rule_to_chain add_policy_to_chain Engine.new
    lt_i32 insert_i32 tree_of set_tree add_mask_and_priority first_match add_policy mask_keys
    priority_keys tuple_keys create_rule_key_by_tuple match_five_tuple reverse_tuple is_node_ip
    match_tuple match_net_policy_rule match_reverse match_micro_policy_rule receive microseg_tracked
    tuple_of engine_rule rule_at
add_policy-match_example =
    add_policy-match one_char Engine.new deny_rule any_port 6 (7 ∷ []) (9 ∷ [])
      (record { masked = refl; exact = refl }) refl (inl refl) 80 100 refl (inr (inl refl))

engine_rule-delete_policy_example :
    engine_rule
      (delete_policy rules ingress policy_name)
      ingress
      (create_rule_key one_char deny_rule).0
      policy_name
    ≡ none
unfolding text_beq
engine_rule-delete_policy_example =
    engine_rule-delete_policy rules ingress ingress policy_name
      (create_rule_key one_char deny_rule).0 policy_name
      (add_policy-EngineIsIndexed one_char Engine.new deny_rule any_port new-EngineIsIndexed)

run_policies-new_example :
    let e =
      run_policies one_char Engine.new
        (add deny_rule any_port ∷ (delete egress policy_name ∷ [])) in
    IsOrdered e × EngineIsIndexed e
run_policies-new_example =
    run_policies-new one_char (add deny_rule any_port ∷ (delete egress policy_name ∷ []))

abbrev tuple : FiveTuple
tuple = record {
  proto = 6;
  tot_len = 40;
  src_port = 100;
  dst_port = 80;
  src_addr_u32 = 7;
  dst_addr_u32 = 9;
  src_addr = 7 ∷ [];
  dst_addr = 9 ∷ [];
}

match_micro_policy_rule_sound_example :
    let m = match_micro_policy_rule host microseg tuple ingress [] in
    ((match_net_policy_rule host microseg tuple ingress ≡ none)
      × (m.rule ≡ k_default)
      × (m.tuple ≡ tuple)
      × (m.dir ≡ ingress)
      × (m.rule_key ≡ []))
    ⊎ ((detail : RuleDetail) × (used : RuleDetail) × (match_net_policy_rule host microseg tuple
            ingress
          ≡ some detail)
        × Decides host microseg tuple ingress detail m used)
match_micro_policy_rule_sound_example = match_micro_policy_rule_sound host microseg tuple ingress []

-- The key under which the rule is found.
found :
    (key : Text) × Among key (create_rule_key_by_tuple one_char rules 6 (7 ∷ []) (9 ∷ []) ingress)
    × StoredUnder key held (tree_of rules ingress).chain
    × (matches held 6 80 100 ≡ true)
unfolding lookup contains_key insert erase text_beq parse_ipv4_header parse_tcp_header parse_ports
    parse_five_tuple Flow.new id_beq segment_of parse_segment advance on_tracked seed_peer
    start_flow on_unknown on_segment on_packet_internal kind_number shared on_packet split_slash
    shift_of mask_ip ipv4_cidr_to_ip parse_cidr create_rule_key match_ports matches empty_tree
    add_rule_detail match_rule match_rule_group add_rule_to_chain add_policy_to_chain Engine.new
    lt_i32 insert_i32 tree_of set_tree add_mask_and_priority first_match add_policy mask_keys
    priority_keys tuple_keys create_rule_key_by_tuple match_five_tuple reverse_tuple is_node_ip
    match_tuple match_net_policy_rule match_reverse match_micro_policy_rule receive microseg_tracked
    tuple_of
found = match_five_tuple_sound one_char rules 6 80 100 (7 ∷ []) (9 ∷ []) ingress held refl
