-- ===== src/Control/Updated.antt =====
-- ParseNodeCfg of net-policy.cpp on a message of GrpcDispatchUpdateNodeConfig.
use net_policy.Common.{
  ℕ, suc, ◌≡◌, refl, ap, ◌∙◌, length, Bool, true, false, not, some, List, [], ◌∷◌, map, ◌==◌,
  text_eq, text_beq, if◌then◌else◌, Text, codes,
}
use net_policy.Policy.{pos}
use net_policy.Http.Http1.{to_low}
use net_policy.Microseg.{is_node_ip}
use net_policy.Config.{Json, Numbers, returned, Parsing, parse_node_cfg}
use net_policy.Config.Nodes.{is_listed, Holds, parse_node_cfg_lem}
use net_policy.Control.{
  string, array, c_str, find_member, IsArray, end, next, Printer, count, items_of, node_message,
}

length_texts : (texts : List Text) → count (items_of string texts) ≡ length (map c_str texts)
unfolding count
length_texts [] = refl
length_texts (text ∷ texts) = ap suc (length_texts texts)

module _ (json : Json) (printer : Printer json) (numbers : Numbers) where
  open json use {Value, parse, get_object_item, valuestring}
  open printer use {view}

  array-Holds :
      (v : Value) (i : ℕ) (texts : List Text)
      → IsArray json view v i (items_of string texts)
      → Holds json numbers v i (map c_str texts)
  array-Holds v i [] end = Holds.end
  array-Holds v i (text ∷ texts) (next e rest) =
      Holds.next e (printer.string_value text) (array-Holds v (suc i) texts rest)

  action_text :
      (is_delete : Bool)
      → (c_str (if is_delete then codes "delete" else codes "add") == codes "delete") ≡ is_delete
  unfolding c_str text_beq
  action_text true = refl
  action_text false = refl

  message_action :
      (is_delete : Bool) (node_ips : List Text)
      → get_object_item (view (node_message is_delete node_ips)) (codes "action")
        ≡ some (view (string (if is_delete then codes "delete" else codes "add")))
  unfolding node_message find_member to_low text_beq
  message_action is_delete node_ips = printer.object_member _ (codes "action")

  message_ips :
      (is_delete : Bool) (node_ips : List Text)
      → get_object_item (view (node_message is_delete node_ips)) (codes "node_ips")
        ≡ some (view (array (items_of string node_ips)))
  unfolding node_message find_member to_low text_beq
  message_ips is_delete node_ips = printer.object_member _ (codes "node_ips")

  -- What GrpcDispatchUpdateNodeConfig prints, ParseNodeCfg does: for a message whose printed text
  -- parses the call returns 0, each address that it lists is then a node's, or none's if it deletes,
  -- and the other addresses and the rules stay.
  pub parse_node_cfg-node_message :
      (is_delete : Bool) (node_ips : List Text) (s : Parsing) (ip : ℕ)
      → parse (printer.print (node_message is_delete node_ips))
        ≡ some (view (node_message is_delete node_ips))
      → let r =
          parse_node_cfg json numbers (some (printer.print (node_message is_delete node_ips))) s in
        (r.1 ≡ returned (pos 0))
        × (is_node_ip r.0.engine ip ≡ (
            if is_listed numbers ip (map c_str node_ips)
            then not is_delete
            else is_node_ip s.engine ip))
        × (r.0.engine.policy_rule ≡ s.engine.policy_rule)
  parse_node_cfg-node_message is_delete node_ips s ip printed =
      let (ended, nodes, policy) =
        parse_node_cfg_lem json numbers _ _ _ _ _ (map c_str node_ips) s ip printed
          (message_action is_delete node_ips) (printer.string_value _)
          (message_ips is_delete node_ips) (printer.array_size _ ∙ length_texts node_ips)
          (array-Holds _ 0 node_ips (printer.array_items _)) in
      (ended, rw (action_text is_delete) at nodes, policy)
