-- ===== src/Config/Nodes.antt =====
-- The node addresses after a message: ParseNodeCfg of net-policy.cpp.
use net_policy.Common.Maps.{contains_key-insert, contains_key-erase}
use net_policy.Common.{
  ℕ, suc, ◌≡◌, refl, ◌∙◌, length, Bool, true, false, ◌||◌, not, some, List, [], ◌∷◌, ◌==◌, nat_eq,
  text_eq, Text, arith, if◌then◌else◌, codes,
}
use net_policy.Policy.{pos}
use net_policy.Microseg.{MicroSegEngine, add_node_ip, remove_node_ip, is_node_ip}
use net_policy.Config.{
  Json, Numbers, Outcome, Run, returned, Parsing, ◌>>=◌, ends, or_else, change, after, set_node_ip,
  parse_node_ips, parse_node_cfg, ipv4_string_to_int,
}

-- An address occurs among the texts.
abbrev pub is_listed : Numbers → ℕ → List Text → Bool
is_listed numbers ip [] = false
is_listed numbers ip (text ∷ texts) =
    ipv4_string_to_int numbers text == ip || is_listed numbers ip texts

after-returned :
    {A B : Type 0} (r : Parsing × Outcome A) (k : A → Run B) {a : A}
    → r.1 ≡ returned a
    → after r k ≡ k a r.0
unfolding after
after-returned (s, o) k h = rw (h) refl

module _ (json : Json) (numbers : Numbers) where
  open json use {Value, get_object_item, get_array_item, get_array_size, valuestring}

  -- The array holds strings from a position on.
  pub data Holds (item : Value) : ℕ → List Text → Type 0 where
    end : {i : ℕ} → Holds item i []
    next :
        {i : ℕ} {param : Value} {text : Text} {texts : List Text}
        → get_array_item item i ≡ some param
        → valuestring param ≡ some text
        → Holds item (suc i) texts
        → Holds item i (text ∷ texts)

  set_node_ip-is_node_ip :
      (delete : Bool) (at ip : ℕ) (e : MicroSegEngine)
      → is_node_ip (set_node_ip json numbers delete at e) ip
        ≡ (if at == ip then not delete else is_node_ip e ip)
  unfolding set_node_ip add_node_ip remove_node_ip is_node_ip
  set_node_ip-is_node_ip true at ip e = ground (arith, contains_key-erase at ip e.nodes_ip)
  set_node_ip-is_node_ip false at ip e = ground (arith, contains_key-insert at ip 1 e.nodes_ip)

  set_node_ip-policy :
      (delete : Bool) (at : ℕ) (e : MicroSegEngine)
      → (set_node_ip json numbers delete at e).policy_rule ≡ e.policy_rule
  unfolding set_node_ip add_node_ip remove_node_ip
  set_node_ip-policy true at e = refl
  set_node_ip-policy false at e = refl

  parse_node_ips_lem :
      (delete : Bool) (item : Value) (i : ℕ) (texts : List Text) (s : Parsing) (ip : ℕ)
      → Holds item i texts
      → let r = parse_node_ips json numbers delete item (length texts) i s in
        (r.1 ≡ returned tt)
        × (is_node_ip r.0.engine ip
            ≡ (if is_listed numbers ip texts then not delete else is_node_ip s.engine ip))
        × (r.0.engine.policy_rule ≡ s.engine.policy_rule)
  unfolding parse_node_ips ends ◌>>=◌ after or_else change
  parse_node_ips_lem delete item i [] s ip end = (refl, refl, refl)
  parse_node_ips_lem delete item i (text ∷ texts) s ip (next at_i is_text rest) =
      let at = ipv4_string_to_int numbers text in
      let s' : Parsing = record s { engine = set_node_ip json numbers delete at s.engine } in
      let (ended, nodes, policy) = parse_node_ips_lem delete item (suc i) texts s' ip rest in
      rw (at_i, is_text)
        (
          ended,
          ground (arith, nodes, set_node_ip-is_node_ip delete at ip s.engine),
          policy ∙ set_node_ip-policy delete at s.engine,
        )

  -- A message whose `node_ips` are strings is accepted with 0. Each address that it lists is then a
  -- node's, or with the action `delete` none's; the other addresses and the rules stay.
  pub parse_node_cfg_lem :
      (text value : Text) (root action ips : Value) (texts : List Text) (s : Parsing) (ip : ℕ)
      → json.parse text ≡ some root
      → get_object_item root (codes "action") ≡ some action
      → valuestring action ≡ some value
      → get_object_item root (codes "node_ips") ≡ some ips
      → get_array_size ips ≡ length texts
      → Holds ips 0 texts
      → let r = parse_node_cfg json numbers (some text) s in
        (r.1 ≡ returned (pos 0))
        × (is_node_ip r.0.engine ip ≡ (
            if is_listed numbers ip texts
            then not (value == codes "delete")
            else is_node_ip s.engine ip))
        × (r.0.engine.policy_rule ≡ s.engine.policy_rule)
  unfolding parse_node_cfg or_else ends ◌>>=◌
  parse_node_cfg_lem text value root action ips texts s ip a b c d size holds =
      let (ended, nodes, policy) =
        parse_node_ips_lem (value == codes "delete") ips 0 texts s ip holds in
      rw
        (
          a,
          b,
          c,
          d,
          size,
          after-returned
              (parse_node_ips json numbers (value == codes "delete") ips (length texts) 0 s)
              (λ done. ends (returned (pos 0))) ended,
        )
        (refl, nodes, policy)
