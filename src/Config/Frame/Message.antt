-- ===== src/Config/Frame/Message.antt =====
-- A policy message changes its own policy alone (ParseNetPolicy of net-policy.cpp).
use net_policy.Common.Maps.{contains_key}
use net_policy.Common.{
  ◌≡◌, refl, zero, suc, ℕ, Bool, true, false, Option, none, some, List, [], ◌∷◌, Text, nat_eq,
  Bool-cases, inl, inr,
}
use net_policy.Policy.{RuleDetail, RulePort}
use net_policy.Policy.Engine.Deleting.{EngineIsIndexed}
use net_policy.Microseg.{Host, MicroSegEngine, add_new_policy}
use net_policy.Config.{
  Json, Numbers, Outcome, returned, broken, thrown, undefined, Parsing, Run, ◌>>=◌, after, change,
}
use net_policy.Config.Members.{RuleHead, parse_http, insert_pod, record_pod, parse_addresses, stop}
use net_policy.Config.Rules.{
  add_ports, add_destinations, create_rules, parse_rule_body, parse_rule_http, parse_rule,
  parse_rules, end_rules, optional_proto, replace_policy,
}
use net_policy.Config.Frame.{
  Stays, Stays-refl, Stays-trans, Frames, ends-Frames, bind-Frames, or_else-Frames, change-Frames,
  add_new_http_policy-Stays, add_new_policy-Stays, delete_named_policy-Stays,
}

module _ (name : Text) (host : Host) where
  add_ports-Stays :
      (rule : RuleDetail) (ports : List RulePort) (e : MicroSegEngine)
      → rule.policy_key ≡ name
      → Stays name e (add_ports host rule ports e)
  unfolding add_ports
  add_ports-Stays rule [] e h = Stays-refl name e
  add_ports-Stays rule (p ∷ ports) e h =
      Stays-trans name (add_new_policy-Stays name host e rule p h)
        (add_ports-Stays rule ports (add_new_policy host e rule p).0 h)

  add_destinations-Stays :
      (rule : RuleDetail) (dsts : List Text) (ports : List RulePort) (e : MicroSegEngine)
      → rule.policy_key ≡ name
      → Stays name e (add_destinations host rule dsts ports e)
  unfolding add_destinations
  add_destinations-Stays rule [] ports e h = Stays-refl name e
  add_destinations-Stays rule (dst ∷ dsts) ports e h =
      Stays-trans name (add_ports-Stays (record rule { dst_ip = dst }) _ e h)
        (add_destinations-Stays rule dsts ports _ h)

  create_rules-Stays :
      (rule : RuleDetail) (srcs dsts : List Text) (ports : List RulePort) (e : MicroSegEngine)
      → rule.policy_key ≡ name
      → Stays name e (create_rules host rule srcs dsts ports e)
  unfolding create_rules
  create_rules-Stays rule [] dsts ports e h = Stays-refl name e
  create_rules-Stays rule (src ∷ srcs) dsts ports e h =
      Stays-trans name (add_destinations-Stays (record rule { src_ip = src }) dsts ports e h)
        (create_rules-Stays rule srcs dsts ports _ h)

module _ (json : Json) (numbers : Numbers) (host : Host) (name : Text) where
  open json use {Value, get_object_item, get_array_size, get_array_item}

  done-Frames : Frames name stop
  done-Frames = ends-Frames name (returned tt)

  insert_pod-Frames : (pod : ℕ) (value : Text) → Frames name (insert_pod json pod value)
  unfolding insert_pod
  insert_pod-Frames pod value = record {
    stays = λ s. elim (Bool-cases (contains_key pod s.pods)) [
      | inl e ↦ rw (e) (Stays-refl name s.engine)
      | inr e ↦ rw (e) (Stays-refl name s.engine)
    ];
  }

  record_pod-Frames :
      (records : Bool) (item : Value) (value : Text)
      → Frames name (record_pod json records item value)
  unfolding record_pod
  record_pod-Frames false item value = done-Frames
  record_pod-Frames true item value =
      or_else-Frames name _ stop _ done-Frames λ param. insert_pod-Frames _ value

  parse_addresses-Frames :
      (records : Bool) (ipaddr : Value) (left j : ℕ) (ret : List Text)
      → Frames name (parse_addresses json numbers records ipaddr left j ret)
  unfolding parse_addresses
  parse_addresses-Frames records ipaddr zero j ret = ends-Frames name _
  parse_addresses-Frames records ipaddr (suc left) j ret =
      or_else-Frames name _ _ _ (ends-Frames name _) λ item.
        or_else-Frames name _ _ _ (ends-Frames name _) λ param.
          or_else-Frames name _ _ _ (ends-Frames name _) λ value.
            bind-Frames name _ _ (ends-Frames name _) λ ips.
              bind-Frames name _ _ (record_pod-Frames records item value)
                λ done. parse_addresses-Frames records ipaddr left (suc j) ips

  parse_http-Frames :
      (head : RuleHead) (httparr : Value) (left k : ℕ)
      → Frames name (parse_http json head name httparr left k)
  unfolding parse_http
  parse_http-Frames head httparr zero k = done-Frames
  parse_http-Frames head httparr (suc left) k = or_else-Frames name _ _ _ done-Frames λ item.
      or_else-Frames name _ _ _ done-Frames λ host_item.
        or_else-Frames name _ _ _ (ends-Frames name _) λ host.
          or_else-Frames name _ _ _ done-Frames λ method_item.
            or_else-Frames name _ _ _ (ends-Frames name _) λ method.
              or_else-Frames name _ _ _ done-Frames λ path_item.
                or_else-Frames name _ _ _ (ends-Frames name _) λ path.
                  bind-Frames name _ _
                    (change-Frames name _ λ e. add_new_http_policy-Stays name head.direction _ e)
                    λ done. parse_http-Frames head httparr left (suc k)

  parse_rule_http-Frames :
      (head : RuleHead) (http : Option Value)
      → Frames name (parse_rule_http json numbers host name head http)
  unfolding parse_rule_http
  parse_rule_http-Frames head none = done-Frames
  parse_rule_http-Frames head (some httparr) = parse_http-Frames head httparr _ 0

  parse_rule_body-Frames :
      (head : RuleHead) (array : Value)
      → Frames name (parse_rule_body json numbers host name head array)
  unfolding parse_rule_body
  parse_rule_body-Frames head array = or_else-Frames name _ _ _ (ends-Frames name _) λ from.
      bind-Frames name _ _ (parse_addresses-Frames _ from _ 0 []) λ srcs.
        or_else-Frames name _ _ _ (ends-Frames name _) λ priority.
          or_else-Frames name _ _ _ (ends-Frames name _) λ to.
            bind-Frames name _ _ (parse_addresses-Frames _ to _ 0 [])
              λ dsts. change-Frames name _ λ e. create_rules-Stays name host _ srcs dsts _ e refl

  optional_proto-Frames :
      (item : Option Value) (rest : ℕ → Run (Unit {0}))
      → ((proto : ℕ) → Frames name (rest proto))
      → Frames name (optional_proto json numbers host item rest)
  unfolding optional_proto
  optional_proto-Frames none rest h = h 0
  optional_proto-Frames (some item) rest h =
      or_else-Frames name _ _ _ (ends-Frames name _) λ value. h _

  parse_rule-Frames : (array : Value) → Frames name (parse_rule json numbers host name array)
  unfolding parse_rule
  parse_rule-Frames array = or_else-Frames name _ _ _ (ends-Frames name _) λ action_item.
      or_else-Frames name _ _ _ (ends-Frames name _) λ action.
        or_else-Frames name _ _ _ (ends-Frames name _) λ dir_item.
          or_else-Frames name _ _ _ (ends-Frames name _) λ dir. optional_proto-Frames _ _ λ proto.
            bind-Frames name _ _ (parse_rule_http-Frames _ _) λ done. parse_rule_body-Frames _ array

  parse_rules-Frames :
      (rules : Value) (left i : ℕ) → Frames name (parse_rules json numbers host name rules left i)
  unfolding parse_rules
  parse_rules-Frames rules zero i = done-Frames
  parse_rules-Frames rules (suc left) i = or_else-Frames name _ _ _ done-Frames λ array.
      bind-Frames name _ _ (parse_rule-Frames array) λ done. parse_rules-Frames rules left (suc i)

  end_rules-state : (r : Parsing × Outcome (Unit {0})) → (end_rules json numbers host r).0 ≡ r.0
  end_rules-state (s, returned done) = refl
  end_rules-state (s, broken) = refl
  end_rules-state (s, thrown) = refl
  end_rules-state (s, undefined) = refl

  list_rules-Frames :
      (rules : Value) (left : ℕ)
      → Frames name
          (λ s. end_rules json numbers host (parse_rules json numbers host name rules left 0 s))
  list_rules-Frames rules left = record {
    stays = λ s.
        rw (end_rules-state (parse_rules json numbers host name rules left 0 s))
          ((parse_rules-Frames rules left 0).stays s);
  }

  -- From an engine whose indexes cover its rules: replacing a policy changes the rules and HTTP rules of that policy alone, and no node address,
  -- also where it ends early, with an exception or in undefined behaviour.
  pub replace_policy-Stays :
      (root : Value) (s : Parsing)
      → EngineIsIndexed s.engine.policy_rule
      → Stays name s.engine (replace_policy json numbers host name root s).0.engine
  unfolding replace_policy ◌>>=◌ change after
  replace_policy-Stays root s i =
      Stays-trans name (delete_named_policy-Stays name host name s.engine refl i) (
        (or_else-Frames name _ _ _ (ends-Frames name _) λ rules. list_rules-Frames rules _).stays _)
