-- ===== src/Config/Frame.antt =====
-- A policy message changes its own policy alone (what the
-- operations that ParseNetPolicy of net-policy.cpp calls leave as it is).
pub mod Message
use net_policy.Common.Maps.{lookup, lookup-insert, lookup-erase}
use net_policy.Common.{
  ◌≡◌, ◌≢◌, refl, ◌∙◌, zero, suc, ℕ, Bool, true, false, Option, none, some, List, [], ◌∷◌, Text,
  text_eq, text_beq_iff, arith, ◌==◌, if◌then◌else◌, Bool-cases, inl, inr, ◌&&◌, ◌⊎◌, KeyEq,
}
use net_policy.Policy.{FlowDir, ingress, egress, RuleDetail, RulePort, ℤ}
use net_policy.Policy.Rule.{create_rule_key}
use net_policy.Policy.Engine.{RustPolicyEngine, add_policy}
use net_policy.Policy.Engine.Deleting.{
  engine_rule, EngineIsIndexed, engine_rule-delete_policy, delete_policy-EngineIsIndexed,
}
use net_policy.Policy.Engine.Adding.{engine_rule-add_policy}
use net_policy.Microseg.{
  Host, HttpRuleInfo, HttpPolicy, MicroSegEngine, add_new_policy, add_policy_to_tree,
  add_http_policy, delete_microseg_policy, delete_rule_policy,
}
use net_policy.Microseg.Policies.{http_policy, delete_microseg_policy_lem}
use net_policy.Config.{
  Json, Numbers, Outcome, returned, broken, thrown, undefined, Parsing, Run, after, ◌>>=◌, ends,
  or_else, change, delete_named_policy, add_new_http_policy,
}

-- The rules and HTTP rules of every policy but one, and the node addresses, are the same.
pub record Stays (name : Text) (e e' : MicroSegEngine) : Type 0 where
  pub rules :
      (d : FlowDir) (key other : Text)
      → name ≢ other
      → engine_rule e'.policy_rule d key other ≡ engine_rule e.policy_rule d key other
  pub https :
      (d : FlowDir) (other : Text)
      → name ≢ other
      → lookup other (http_policy e' d) ≡ lookup other (http_policy e d)
  pub nodes : e'.nodes_ip ≡ e.nodes_ip

pub Stays-refl : (name : Text) (e : MicroSegEngine) → Stays name e e
Stays-refl name e = record {
  rules = λ d key other differ. refl;
  https = λ d other differ. refl;
  nodes = refl;
}

pub Stays-trans :
    (name : Text) {a b c : MicroSegEngine} → Stays name a b → Stays name b c → Stays name a c
Stays-trans name p q = record {
  rules = λ d key other differ. q.rules d key other differ ∙ p.rules d key other differ;
  https = λ d other differ. q.https d other differ ∙ p.https d other differ;
  nodes = q.nodes ∙ p.nodes;
}

-- A run that changes the named policy alone, however it ends.
pub record Frames {A : Type 0} (name : Text) (m : Run A) : Type 0 where
  pub stays : (s : Parsing) → Stays name s.engine (m s).0.engine

module _ (name : Text) where
  pub ends-Frames : {A : Type 0} (o : Outcome A) → Frames name (ends o)
  unfolding ends
  ends-Frames o = record { stays = λ s. Stays-refl name s.engine }

  pub after-Frames :
      {A B : Type 0} (e : MicroSegEngine) (r : Parsing × Outcome A) (k : A → Run B)
      → Stays name e r.0.engine
      → ((a : A) → Frames name (k a))
      → Stays name e (after r k).0.engine
  unfolding after
  after-Frames e (s, returned a) k p q = Stays-trans name p ((q a).stays s)
  after-Frames e (s, broken) k p q = p
  after-Frames e (s, thrown) k p q = p
  after-Frames e (s, undefined) k p q = p

  pub bind-Frames :
      {A B : Type 0} (m : Run A) (k : A → Run B)
      → Frames name m
      → ((a : A) → Frames name (k a))
      → Frames name (m >>= k)
  unfolding ◌>>=◌
  bind-Frames m k p q = record { stays = λ s. after-Frames s.engine (m s) k (p.stays s) q }

  pub or_else-Frames :
      {A B : Type 0} (o : Option A) (missing : Run B) (found : A → Run B)
      → Frames name missing
      → ((a : A) → Frames name (found a))
      → Frames name (or_else o missing found)
  unfolding or_else
  or_else-Frames none missing found p q = p
  or_else-Frames (some a) missing found p q = q a

  pub change-Frames :
      (f : MicroSegEngine → MicroSegEngine)
      → ((e : MicroSegEngine) → Stays name e (f e))
      → Frames name (change f)
  unfolding change
  change-Frames f p = record { stays = λ s. p s.engine }

  beq_differ : (other : Text) → name ≢ other → (name == other) ≡ false
  beq_differ other h = elim (Bool-cases (name == other)) [
    | inl e ↦ elim (h ((text_beq_iff name other).0 e)) [ ]
    | inr e ↦ e
  ]

  lookup-add_new_http_policy :
      (dir d : FlowDir) (http : HttpRuleInfo) (e : MicroSegEngine) (other : Text)
      → name ≢ other
      → lookup other (http_policy (add_new_http_policy dir name http e) d)
        ≡ lookup other (http_policy e d)
  unfolding add_new_http_policy add_http_policy
  lookup-add_new_http_policy ingress ingress http e other h =
      rw (lookup-insert name other _ e.input_http_policy, beq_differ other h) refl
  lookup-add_new_http_policy ingress egress http e other h = refl
  lookup-add_new_http_policy egress ingress http e other h = refl
  lookup-add_new_http_policy egress egress http e other h =
      rw (lookup-insert name other _ e.output_http_policy, beq_differ other h) refl

  add_new_http_policy-rest :
      (dir : FlowDir) (http : HttpRuleInfo) (e : MicroSegEngine)
      → ((add_new_http_policy dir name http e).policy_rule ≡ e.policy_rule)
        × ((add_new_http_policy dir name http e).nodes_ip ≡ e.nodes_ip)
  unfolding add_new_http_policy add_http_policy
  add_new_http_policy-rest ingress http e = (refl, refl)
  add_new_http_policy-rest egress http e = (refl, refl)

  pub add_new_http_policy-Stays :
      (dir : FlowDir) (http : HttpRuleInfo) (e : MicroSegEngine)
      → Stays name e (add_new_http_policy dir name http e)
  add_new_http_policy-Stays dir http e = record {
    rules = λ d key other differ. rw ((add_new_http_policy-rest dir http e).0) refl;
    https = λ d other differ. lookup-add_new_http_policy dir d http e other differ;
    nodes = (add_new_http_policy-rest dir http e).1;
  }

  module _ (host : Host) where
    open host use {std}

    add_policy-Stays :
        (e : MicroSegEngine) (r : RuleDetail) (p : RulePort)
        → r.policy_key ≡ name
        → Stays name e (record e { policy_rule = add_policy std e.policy_rule r p })
    add_policy-Stays e r p h = record {
      rules = λ d key other differ. ground (
        arith,
        engine_rule-add_policy std e.policy_rule d key other r p,
        text_beq_iff r.policy_key other,
      );
      https = λ d other differ. refl;
      nodes = refl;
    }

    pub add_new_policy-Stays :
        (e : MicroSegEngine) (r : RuleDetail) (p : RulePort)
        → r.policy_key ≡ name
        → Stays name e (add_new_policy host e r p).0
    unfolding add_new_policy add_policy_to_tree
    add_new_policy-Stays e r p h =
        let refused = Stays-refl name e in let added = add_policy-Stays e r p h in ground (arith)

    delete_rule_policy-other :
        (e : RustPolicyEngine) (dir d : FlowDir) (key other : Text)
        → EngineIsIndexed e
        → name ≢ other
        → (engine_rule (delete_rule_policy host e dir name) d key other ≡ engine_rule e d key other)
          × EngineIsIndexed (delete_rule_policy host e dir name)
    unfolding delete_rule_policy
    delete_rule_policy-other e dir d key other i h = ground (
      arith,
      beq_differ other h,
      engine_rule-delete_policy e dir d name key other i,
      delete_policy-EngineIsIndexed e dir name i,
    )

    delete_microseg_policy-Stays :
        (e : MicroSegEngine)
        → EngineIsIndexed e.policy_rule
        → Stays name e (delete_microseg_policy host e name)
    unfolding delete_microseg_policy
    delete_microseg_policy-Stays e i = record {
      rules = λ d key other h.
          let first = delete_rule_policy-other e.policy_rule ingress d key other i h in
          (delete_rule_policy-other _ egress d key other first.1 h).0 ∙ first.0;
      https = λ d other h. lookup_deleted d other h;
      nodes = refl;
    }
      where
        lookup_deleted :
            (d : FlowDir) (other : Text)
            → name ≢ other
            → lookup other (http_policy (delete_microseg_policy host e name) d)
              ≡ lookup other (http_policy e d)
        lookup_deleted ingress other h =
            rw (lookup-erase name other e.input_http_policy, beq_differ other h) refl
        lookup_deleted egress other h =
            rw (lookup-erase name other e.output_http_policy, beq_differ other h) refl

    -- An empty name deletes nothing.
    pub delete_named_policy-Stays :
        (key : Text) (e : MicroSegEngine)
        → key ≡ name
        → EngineIsIndexed e.policy_rule
        → Stays name e (delete_named_policy host key e)
    unfolding delete_named_policy
    delete_named_policy-Stays [] e h i = Stays-refl name e
    delete_named_policy-Stays (c ∷ key) e h i = rw (h) (delete_microseg_policy-Stays e i)
