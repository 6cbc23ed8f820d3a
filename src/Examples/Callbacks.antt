-- ===== src/Examples/Callbacks.antt =====
-- The callbacks on concrete packets.
use net_policy.Common.{none, refl, ◌≡◌, arith, nat_eq, text_eq, text_beq}
use net_policy.Common.Maps.{lookup, contains_key, insert, erase}
use net_policy.Packet.{parse_ipv4_header, parse_tcp_header, parse_ports, parse_five_tuple}
use net_policy.Flow
use net_policy.Flow.{
  id_beq, segment_of, parse_segment, advance, on_tracked, seed_peer, start_flow, on_unknown,
  on_segment, on_packet_internal, kind_number, shared, on_packet, id_eq,
}
use net_policy.Policy.{ingress, k_deny}
use net_policy.Policy.Rule.{
  split_slash, shift_of, mask_ip, ipv4_cidr_to_ip, parse_cidr, create_rule_key, match_ports,
  matches,
}
use net_policy.Policy.Tree.{
  empty_tree, add_rule_detail, match_rule, match_rule_group, add_rule_to_chain, add_policy_to_chain,
}
use net_policy.Policy.Engine
use net_policy.Policy.Engine.{
  lt_i32, insert_i32, tree_of, set_tree, add_mask_and_priority, first_match, add_policy, mask_keys,
  priority_keys, tuple_keys, create_rule_key_by_tuple, match_five_tuple,
}
use net_policy.Microseg.{
  reverse_tuple, http_rule_fits, match_http_policy_rule, is_node_ip, match_tuple,
  match_net_policy_rule, match_reverse, match_micro_policy_rule,
}
use net_policy.Conn.{
  receive, microseg_tracked, microseg_rule_key, touch_microseg, microseg_touch, microseg_track,
  feed, dispatch_microseg, microseg_close,
}
use net_policy.Callback.{reset, tuple_of, post_match}
use net_policy.Callback.Input.{
  input_datagram, input_header, input_inspect, input_tracked, input_matched, input_untracked,
  input_tcp, input_received, input_nfq_cb,
}
use net_policy.Callback.Directions.{
  nfq_cb, matched_in, nfq_cb_drops, RewritesIn, nfq_cb_rewrites, nfq_cb_closes,
}
use net_policy.Conn.Entries.{rule_key_at}
use net_policy.Examples.{
  host, http, microseg, microseg_http, tracking, daemon, syn_packet, data_packet, fin_packet,
  unmarked,
}

nfq_cb_drops_example : (matched_in http host ingress (daemon microseg) syn_packet).rule ≡ k_deny
unfolding lookup contains_key insert erase text_beq parse_ipv4_header parse_tcp_header parse_ports
    parse_five_tuple Flow.new id_beq segment_of parse_segment advance on_tracked seed_peer
    start_flow on_unknown on_segment on_packet_internal kind_number shared on_packet split_slash
    shift_of mask_ip ipv4_cidr_to_ip parse_cidr create_rule_key match_ports matches empty_tree
    add_rule_detail match_rule match_rule_group add_rule_to_chain add_policy_to_chain Engine.new
    lt_i32 insert_i32 tree_of set_tree add_mask_and_priority first_match add_policy mask_keys
    priority_keys tuple_keys create_rule_key_by_tuple match_five_tuple reverse_tuple is_node_ip
    match_tuple match_net_policy_rule match_reverse match_micro_policy_rule receive microseg_tracked
    tuple_of microseg_rule_key touch_microseg microseg_touch microseg_track feed dispatch_microseg
    microseg_close post_match http_rule_fits match_http_policy_rule input_datagram input_header
    input_inspect input_tracked input_matched input_untracked input_tcp input_received input_nfq_cb
nfq_cb_drops_example =
    (nfq_cb_drops http host ingress (daemon microseg) (unmarked syn_packet) 0 refl).2

nfq_cb_rewrites_example :
    RewritesIn http host ingress
      (daemon microseg_http)
      (unmarked data_packet)
      0
      (reset host data_packet)
unfolding lookup contains_key insert erase text_beq parse_ipv4_header parse_tcp_header parse_ports
    parse_five_tuple Flow.new id_beq segment_of parse_segment advance on_tracked seed_peer
    start_flow on_unknown on_segment on_packet_internal kind_number shared on_packet split_slash
    shift_of mask_ip ipv4_cidr_to_ip parse_cidr create_rule_key match_ports matches empty_tree
    add_rule_detail match_rule match_rule_group add_rule_to_chain add_policy_to_chain Engine.new
    lt_i32 insert_i32 tree_of set_tree add_mask_and_priority first_match add_policy mask_keys
    priority_keys tuple_keys create_rule_key_by_tuple match_five_tuple reverse_tuple is_node_ip
    match_tuple match_net_policy_rule match_reverse match_micro_policy_rule receive microseg_tracked
    tuple_of microseg_rule_key touch_microseg microseg_touch microseg_track feed dispatch_microseg
    microseg_close post_match http_rule_fits match_http_policy_rule input_datagram input_header
    input_inspect input_tracked input_matched input_untracked input_tcp input_received input_nfq_cb
nfq_cb_rewrites_example =
    nfq_cb_rewrites http host ingress (daemon microseg_http) (unmarked data_packet) 0
      (reset host data_packet) refl

nfq_cb_closes_example :
    rule_key_at http
      (nfq_cb http host ingress tracking (unmarked fin_packet) 1).0.conns
      (record { local_ip = 7; foreign_ip = 9; local_port = 100; foreign_port = 80 })
    ≡ none
unfolding lookup contains_key insert erase text_beq parse_ipv4_header parse_tcp_header parse_ports
    parse_five_tuple Flow.new id_beq segment_of parse_segment advance on_tracked seed_peer
    start_flow on_unknown on_segment on_packet_internal kind_number shared on_packet split_slash
    shift_of mask_ip ipv4_cidr_to_ip parse_cidr create_rule_key match_ports matches empty_tree
    add_rule_detail match_rule match_rule_group add_rule_to_chain add_policy_to_chain Engine.new
    lt_i32 insert_i32 tree_of set_tree add_mask_and_priority first_match add_policy mask_keys
    priority_keys tuple_keys create_rule_key_by_tuple match_five_tuple reverse_tuple is_node_ip
    match_tuple match_net_policy_rule match_reverse match_micro_policy_rule receive microseg_tracked
    tuple_of
nfq_cb_closes_example =
    nfq_cb_closes http host ingress tracking (unmarked fin_packet) 1
      (record { local_ip = 7; foreign_ip = 9; local_port = 100; foreign_port = 80 }) refl
      (omega arith) refl refl refl refl
