-- ===== src/Config/Created.antt =====
-- The rules that a policy message creates: the nested loops over addresses and ports at the end of a
-- rule of ParseNetPolicy (net-policy.cpp).
use net_policy.Common.{
  Among, Among-append_left, Among-append_right, ◌≡◌, refl, Bool, true, false, ◌&&◌, inl, inr,
  Option, none, some, List, [], ◌∷◌, ◌++◌, Text, arith, ◌==◌, text_eq, text_beq_iff, if◌then◌else◌,
  Option-cases, Bool-cases,
}
use net_policy.Policy.{FlowDir, ingress, egress, RuleDetail, RulePort, pos}
use net_policy.Policy.Rule.{create_rule_key}
use net_policy.Policy.Tree.Contents.{merged}
use net_policy.Policy.Engine.{RustPolicyEngine, add_policy, lt_i32}
use net_policy.Policy.Engine.Deleting.{engine_rule, same_dir}
use net_policy.Policy.Engine.Adding.{engine_rule-add_policy, same_dir_refl}
use net_policy.Microseg.{Host, MicroSegEngine, add_new_policy, add_policy_to_tree}
use net_policy.Microseg.Policies.{add_new_policy_lem}
use net_policy.Config.Rules.{add_ports, add_destinations, create_rules, ports_or_any}

-- A policy has a rule of a direction under a key, and the rule lists a port.
pub record HasPort (e : MicroSegEngine) (d : FlowDir) (key name : Text) (p : RulePort)
    : Type 0 where
  pub stored : RuleDetail
  pub found : engine_rule e.policy_rule d key name ≡ some stored
  pub listed : Among p stored.ports

module _ (host : Host) where
  open host use {std, is_valid_utf8}

  -- What a rule and its addresses must satisfy to be accepted.
  pub record IsAccepted (r : RuleDetail) : Type 0 where
    pub above : lt_i32 (pos 0) r.priority ≡ true
    pub below : lt_i32 r.priority (pos 129) ≡ true
    pub key_valid : is_valid_utf8 r.policy_key ≡ true
    pub action_valid : is_valid_utf8 r.action_dsc ≡ true
    pub src_valid : is_valid_utf8 r.src_ip ≡ true
    pub dst_valid : is_valid_utf8 r.dst_ip ≡ true

  -- The key under which a rule of two addresses is stored.
  abbrev pub key_of : RuleDetail → Text
  key_of r = (create_rule_key std r).0

  same_dir_sound : (c d : FlowDir) → same_dir c d ≡ true → c ≡ d
  same_dir_sound ingress ingress h = refl
  same_dir_sound ingress egress h = cc
  same_dir_sound egress ingress h = cc
  same_dir_sound egress egress h = refl

  -- Adding a rule takes no port away.
  add_policy-keeps :
      (e : RustPolicyEngine) (r : RuleDetail) (p q : RulePort) (d : FlowDir) (key name : Text)
      (old : RuleDetail)
      → engine_rule e d key name ≡ some old
      → Among q old.ports
      → (new : RuleDetail) × (engine_rule (add_policy std e r p) d key name ≡ some new)
        × Among q new.ports
  unfolding merged
  add_policy-keeps e r p q d key name old h m =
      elim (Bool-cases (same_dir r.direction d && (key_of r == key && r.policy_key == name))) [
        | inl c ↦ (
          record old { ports = old.ports ++ (p ∷ []) },
          ground (
            arith,
            engine_rule-add_policy std e d key name r p,
            same_dir_sound r.direction d,
            text_beq_iff (key_of r) key,
            text_beq_iff r.policy_key name,
          ),
          Among-append_left q old.ports _ m,
        )
        | inr c ↦ (old, rw (engine_rule-add_policy std e d key name r p, c) h, m)
      ]

  -- A rule that is added lists its port.
  add_policy-listed :
      (e : RustPolicyEngine) (r : RuleDetail) (p : RulePort)
      → (new : RuleDetail) × (engine_rule (add_policy std e r p) r.direction (key_of r) r.policy_key
          ≡ some new)
        × Among p new.ports
  unfolding merged
  add_policy-listed e r p =
      elim (Option-cases (engine_rule e r.direction (key_of r) r.policy_key)) [
        | inl h ↦ (record r { ports = p ∷ [] }, written none h, inl refl)
        | inr (old, h) ↦ (
          record old { ports = old.ports ++ (p ∷ []) },
          written (some old) h,
          Among-append_right p old.ports _ (inl refl),
        )
      ]
    where
      written :
          (before : Option RuleDetail)
          → engine_rule e r.direction (key_of r) r.policy_key ≡ before
          → engine_rule (add_policy std e r p) r.direction (key_of r) r.policy_key
            ≡ some (merged before r p)
      written before h = ground (
        arith,
        engine_rule-add_policy std e r.direction (key_of r) r.policy_key r p,
        text_beq_iff (key_of r) (key_of r),
        text_beq_iff r.policy_key r.policy_key,
        same_dir_refl r.direction,
      )

  add_new_policy-HasPort :
      (e : MicroSegEngine) (r : RuleDetail) (p q : RulePort) (d : FlowDir) (key name : Text)
      → HasPort e d key name q
      → HasPort (add_new_policy host e r p).0 d key name q
  add_new_policy-HasPort e r p q d key name has =
      let (new, found, listed) =
        add_policy-keeps e.policy_rule r p q d key name has.stored has.found has.listed in
      rw ((add_new_policy_lem host e r p).1)
        (either _ has (record { stored = new; found = found; listed = listed }))
    where
      either :
          {a b : MicroSegEngine} (ok : Bool)
          → HasPort b d key name q
          → HasPort a d key name q
          → HasPort (if ok then a else b) d key name q
      either true refused added = added
      either false refused added = refused

  add_new_policy-listed :
      (e : MicroSegEngine) (r : RuleDetail) (p : RulePort)
      → IsAccepted r
      → HasPort (add_new_policy host e r p).0 r.direction (key_of r) r.policy_key p
  unfolding add_new_policy add_policy_to_tree
  add_new_policy-listed e r p ok =
      let (new, found, listed) = add_policy-listed e.policy_rule r p in
      rw (ok.above, ok.below, ok.key_valid, ok.src_valid, ok.dst_valid, ok.action_valid)
        (record { stored = new; found = found; listed = listed })

  -- What is listed stays listed through the loops.
  module _ (d : FlowDir) (key name : Text) (q : RulePort) where
    add_ports-keeps :
        (rule : RuleDetail) (ports : List RulePort) (e : MicroSegEngine)
        → HasPort e d key name q
        → HasPort (add_ports host rule ports e) d key name q
    unfolding add_ports
    add_ports-keeps rule [] e has = has
    add_ports-keeps rule (p ∷ ports) e has =
        add_ports-keeps rule ports _ (add_new_policy-HasPort e rule p q d key name has)

    add_destinations-keeps :
        (rule : RuleDetail) (dsts : List Text) (ports : List RulePort) (e : MicroSegEngine)
        → HasPort e d key name q
        → HasPort (add_destinations host rule dsts ports e) d key name q
    unfolding add_destinations
    add_destinations-keeps rule [] ports e has = has
    add_destinations-keeps rule (dst ∷ dsts) ports e has =
        add_destinations-keeps rule dsts ports _
          (add_ports-keeps (record rule { dst_ip = dst }) _ e has)

    create_rules-keeps :
        (rule : RuleDetail) (srcs dsts : List Text) (ports : List RulePort) (e : MicroSegEngine)
        → HasPort e d key name q
        → HasPort (create_rules host rule srcs dsts ports e) d key name q
    unfolding create_rules
    create_rules-keeps rule [] dsts ports e has = has
    create_rules-keeps rule (src ∷ srcs) dsts ports e has =
        create_rules-keeps rule srcs dsts ports _
          (add_destinations-keeps (record rule { src_ip = src }) dsts ports e has)

  add_ports-listed :
      (rule : RuleDetail) (ports : List RulePort) (e : MicroSegEngine) (p : RulePort)
      → IsAccepted rule
      → Among p ports
      → HasPort (add_ports host rule ports e) rule.direction (key_of rule) rule.policy_key p
  unfolding add_ports
  add_ports-listed rule [] e p ok m = elim m [ ]
  add_ports-listed rule (first ∷ ports) e p ok (inl h) =
      add_ports-keeps _ _ _ p rule ports _ (rw (h) (add_new_policy-listed e rule p ok))
  add_ports-listed rule (first ∷ ports) e p ok (inr m) = add_ports-listed rule ports _ p ok m

  add_destinations-listed :
      (rule : RuleDetail) (dsts : List Text) (ports : List RulePort) (e : MicroSegEngine)
      (dst : Text) (p : RulePort)
      → let of_dst = record rule { dst_ip = dst } in
        IsAccepted of_dst
        → Among dst dsts
        → Among p (ports_or_any ports)
        → HasPort
            (add_destinations host rule dsts ports e)
            rule.direction
            (key_of of_dst)
            rule.policy_key
            p
  unfolding add_destinations
  add_destinations-listed rule [] ports e dst p ok m listed = elim m [ ]
  add_destinations-listed rule (first ∷ dsts) ports e dst p ok (inl h) listed =
      add_destinations-keeps _ _ _ p rule dsts ports _ (
        rw (h) (add_ports-listed (record rule { dst_ip = dst }) (ports_or_any ports) e p ok listed))
  add_destinations-listed rule (first ∷ dsts) ports e dst p ok (inr m) listed =
      add_destinations-listed rule dsts ports _ dst p ok m listed

  -- After the loops every pair of a source and a destination that is accepted has a rule of the
  -- policy under its key, and the rule lists every port, or `RULE_PORT{}` if there are none.
  pub create_rules-HasPort :
      (rule : RuleDetail) (srcs dsts : List Text) (ports : List RulePort) (e : MicroSegEngine)
      (src dst : Text) (p : RulePort)
      → let of_pair = record rule { src_ip = src; dst_ip = dst } in
        IsAccepted of_pair
        → Among src srcs
        → Among dst dsts
        → Among p (ports_or_any ports)
        → HasPort
            (create_rules host rule srcs dsts ports e)
            rule.direction
            (key_of of_pair)
            rule.policy_key
            p
  unfolding create_rules
  create_rules-HasPort rule [] dsts ports e src dst p ok m n listed = elim m [ ]
  create_rules-HasPort rule (first ∷ srcs) dsts ports e src dst p ok (inl h) n listed =
      create_rules-keeps _ _ _ p rule srcs dsts ports _ (
        rw (h)
          (add_destinations-listed (record rule { src_ip = src }) dsts ports e dst p ok n listed))
  create_rules-HasPort rule (first ∷ srcs) dsts ports e src dst p ok (inr m) n listed =
      create_rules-HasPort rule srcs dsts ports _ src dst p ok m n listed
