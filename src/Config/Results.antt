-- ===== src/Config/Results.antt =====
-- How a policy message ends (ParseNetPolicy of net-policy.cpp).
use net_policy.Common.Maps.{lookup}
use net_policy.Common.{
  ◌≡◌, ◌≢◌, refl, ap, zero, suc, Bool, true, false, Option, none, some, Text, text_eq, Option-cases,
  inl, inr, codes,
}
use net_policy.Policy.{FlowDir, ℤ, pos, negsuc}
use net_policy.Policy.Engine.Deleting.{engine_rule, EngineIsIndexed}
use net_policy.Microseg.{Host, MicroSegEngine}
use net_policy.Microseg.Policies.{http_policy}
use net_policy.Config.{
  Json, Numbers, Outcome, returned, broken, thrown, undefined, Parsing, after, ◌>>=◌, ends, or_else,
  change, delete_named_policy,
}
use net_policy.Config.Rules.{end_rules, replace_policy, parse_net_policy}
use net_policy.Config.Frame.Message.{replace_policy-Stays}

module _ (json : Json) (numbers : Numbers) (host : Host) where
  open json use {Value, get_object_item, valuestring, parse}

  -- The name in a message, if there is one.
  abbrev pub name_of : Option Text → Option Text
  name_of none = none
  name_of (some text) = elim (parse text) [
    | none ↦ none
    | some root ↦ elim (get_object_item root (codes "policy_name")) [
      | none ↦ none
      | some item ↦ valuestring item
    ]
  ]

  -- A message without a buffer, a tree, a name or, if the name is a string, rules.
  abbrev pub is_refused : Option Text → Bool
  is_refused none = true
  is_refused (some text) = elim (parse text) [
    | none ↦ true
    | some root ↦ elim (get_object_item root (codes "policy_name")) [
      | none ↦ true
      | some item ↦ elim (valuestring item) [
        | none ↦ false
        | some name ↦ elim (get_object_item root (codes "rules")) [
          | none ↦ true
          | some rules ↦ false
        ]
      ]
    ]
  ]

  -- From an engine whose indexes cover its rules: a policy that a message does not name keeps its rules and its HTTP rules in both directions,
  -- and the node addresses stay, however the message ends.
  pub parse_net_policy_others :
      (buf : Option Text) (s : Parsing) (d : FlowDir) (key other : Text)
      → EngineIsIndexed s.engine.policy_rule
      → name_of buf ≢ some other
      → let e' = (parse_net_policy json numbers host buf s).0.engine in
        (engine_rule e'.policy_rule d key other ≡ engine_rule s.engine.policy_rule d key other)
        × (lookup other (http_policy e' d) ≡ lookup other (http_policy s.engine d))
        × (e'.nodes_ip ≡ s.engine.nodes_ip)
  unfolding parse_net_policy or_else ends
  parse_net_policy_others none s d key other i h = (refl, refl, refl)
  parse_net_policy_others (some text) s d key other i h = elim (Option-cases (parse text)) [
    | inl e ↦ rw (e) (refl, refl, refl)
    | inr (root, e) ↦ elim (Option-cases (get_object_item root (codes "policy_name"))) [
      | inl f ↦ rw (e, f) (refl, refl, refl)
      | inr (item, f) ↦ elim (Option-cases (valuestring item)) [
        | inl g ↦ rw (e, f, g) (refl, refl, refl)
        | inr (name, g) ↦
            let stays = replace_policy-Stays json numbers host name root s i in
            let differ : name ≢ other = λ same. h (rw (e, f, g, name_of) (ap some same)) in
            rw (e, f, g) (stays.rules d key other differ, stays.https d other differ, stays.nodes)
      ]
    ]
  ]

  -- The code that a run returns, if it returns.
  abbrev is_minus_one : Outcome ℤ → Bool
  is_minus_one (returned (negsuc zero)) = true
  is_minus_one (returned (negsuc (suc n))) = false
  is_minus_one (returned (pos n)) = false
  is_minus_one broken = false
  is_minus_one thrown = false
  is_minus_one undefined = false

  end_rules-outcome :
      (r : Parsing × Outcome (Unit {0})) → is_minus_one (end_rules json numbers host r).1 ≡ false
  end_rules-outcome (s, returned done) = refl
  end_rules-outcome (s, broken) = refl
  end_rules-outcome (s, thrown) = refl
  end_rules-outcome (s, undefined) = refl

  abbrev named_policy_deleted : Option Text → MicroSegEngine → MicroSegEngine
  named_policy_deleted none e = e
  named_policy_deleted (some name) e = delete_named_policy host name e

  -- ParseNetPolicy returns −1 exactly for a message without a buffer, a tree, a name or (if the name
  -- is a string) rules. The engine is then as it was, but a policy whose name was read is deleted.
  pub parse_net_policy_refused :
      (buf : Option Text) (s : Parsing)
      → (is_minus_one (parse_net_policy json numbers host buf s).1 ≡ is_refused buf)
        × (is_refused buf ≡ true
            → (parse_net_policy json numbers host buf s).0
              ≡ record s { engine = named_policy_deleted (name_of buf) s.engine })
  unfolding parse_net_policy replace_policy or_else ends ◌>>=◌ change after
  parse_net_policy_refused none s = (refl, λ h. refl)
  parse_net_policy_refused (some text) s = elim (Option-cases (parse text)) [
    | inl e ↦ rw (e, is_refused, name_of) (refl, λ h. refl)
    | inr (root, e) ↦ elim (Option-cases (get_object_item root (codes "policy_name"))) [
      | inl f ↦ rw (e, f, is_refused, name_of) (refl, λ h. refl)
      | inr (item, f) ↦ elim (Option-cases (valuestring item)) [
        | inl g ↦ rw (e, f, g, is_refused, name_of) (refl, λ h. cc)
        | inr (name, g) ↦ elim (Option-cases (get_object_item root (codes "rules"))) [
          | inl k ↦ rw (e, f, g, k, is_refused, name_of) (refl, λ h. refl)
          | inr (rules, k) ↦ rw (e, f, g, k, is_refused, name_of) (end_rules-outcome _, λ h. cc)
        ]
      ]
    ]
  ]
