-- ===== src/Microseg.antt =====
-- The microsegmentation engine: net-policy.h and net-policy.cpp
-- (MicroSegEngine, MatchHttpPolicyRule, MatchNetPolicyRule, MatchMicroPolicyRule,
-- AddNewPolicy) and rule-detail.cpp (FiveTuple, PolicyRule).
pub mod Verdicts
pub mod HttpRules
pub mod Policies
use net_policy.Common.Maps.{lookup, insert, erase, contains_key}
use net_policy.Common.{
  ℕ, suc, ◌+◌, ◌/◌, ◌%◌, Bool, true, false, ◌&&◌, ◌||◌, not, Option, none, some, List, [], ◌∷◌,
  ◌++◌, length, leb, ltb, ◌==◌, nat_eq, text_eq, if◌then◌else◌, Text, Map, codes,
}
use net_policy.Http.{Header}
use net_policy.Policy.{
  NetPolicyRule, k_allow, k_default, FlowDir, ingress, egress, RuleDetail, RulePort, ℤ, pos, negsuc,
}
use net_policy.Policy.Rule.{StdText, unwrap_or}
use net_policy.Policy.Engine.{
  RustPolicyEngine, lt_i32, add_policy, delete_policy, clear_cfg, match_five_tuple,
}

-- What the C++ code takes from its surroundings: `inet_ntoa`, `printf`'s `%d`, the validity test of
-- `rust::Str`, whether a `write` to the client succeeds, and what a packet holds behind a write
-- outside it.
pub record Host : Type 0 where
  pub std : StdText
  pub inet_ntoa : ℕ → Text
  pub show_d : ℕ → Text
  pub is_valid_utf8 : Text → Bool
  pub write_ok : ℕ → Text → Bool
  pub overrun : Text → Text

pub record FiveTuple : Type 0 where
  pub proto : ℕ
  pub tot_len : ℕ
  pub src_port : ℕ
  pub dst_port : ℕ
  pub src_addr_u32 : ℕ
  pub dst_addr_u32 : ℕ
  pub src_addr : Text
  pub dst_addr : Text

unfoldable pub reverse_tuple : FiveTuple → FiveTuple
reverse_tuple t = record {
  proto = t.proto;
  tot_len = t.tot_len;
  src_port = t.dst_port;
  dst_port = t.src_port;
  src_addr_u32 = t.dst_addr_u32;
  dst_addr_u32 = t.src_addr_u32;
  src_addr = t.dst_addr;
  dst_addr = t.src_addr;
}

pub record HttpRuleInfo : Type 0 where
  pub direction : ℕ
  pub action : NetPolicyRule
  pub host : Text
  pub method : Text
  pub path : Text

abbrev pub HttpPolicy : Type 0
HttpPolicy = Map Text (List HttpRuleInfo)

pub record MicroSegEngine : Type 0 where
  pub policy_rule : RustPolicyEngine
  pub nodes_ip : Map ℕ ℕ
  pub input_http_policy : HttpPolicy
  pub output_http_policy : HttpPolicy

-- A field that a rule leaves empty fits anything.
abbrev pub field_fits : Text → Text → Bool
field_fits [] seen = true
field_fits (c ∷ wanted) seen = (c ∷ wanted) == seen

unfoldable pub http_rule_fits : HttpRuleInfo → Header → Bool
http_rule_fits rule state =
    field_fits rule.host state.host
    && (field_fits rule.method state.method && field_fits rule.path state.path)

-- The loop over the rules with its three `continue`s.
unfoldable pub match_http_policy_rule : List HttpRuleInfo → Header → NetPolicyRule
unfolding http_rule_fits
match_http_policy_rule [] state = k_default
match_http_policy_rule (rule ∷ rules) state =
    let rest = match_http_policy_rule rules state in
    if http_rule_fits rule state then rule.action else rest

unfoldable pub add_node_ip : MicroSegEngine → ℕ → MicroSegEngine
add_node_ip e ip = record e { nodes_ip = insert ip 1 e.nodes_ip }

unfoldable pub remove_node_ip : MicroSegEngine → ℕ → MicroSegEngine
remove_node_ip e ip = record e { nodes_ip = erase ip e.nodes_ip }

unfoldable pub is_node_ip : MicroSegEngine → ℕ → Bool
is_node_ip e ip = contains_key ip e.nodes_ip

-- `http[key].push_back(rule)`.
abbrev push_rule : Text → HttpRuleInfo → HttpPolicy → HttpPolicy
push_rule key rule policy = insert key (unwrap_or (lookup key policy) [] ++ (rule ∷ [])) policy

unfoldable pub add_http_policy : MicroSegEngine → FlowDir → Text → HttpRuleInfo → MicroSegEngine
add_http_policy e ingress key rule = record e {
  input_http_policy = push_rule key rule e.input_http_policy;
}
add_http_policy e egress key rule = record e {
  output_http_policy = push_rule key rule e.output_http_policy;
}

-- `ClearCfg` is passed on to the rule engine alone.
unfoldable pub clear_config : MicroSegEngine → MicroSegEngine
clear_config e = record e { policy_rule = clear_cfg e.policy_rule }

-- The outcome of a match: the action, and the tuple, direction and key as it leaves them.
pub record MicroMatch : Type 0 where
  pub rule : NetPolicyRule
  pub tuple : FiveTuple
  pub dir : FlowDir
  pub rule_key : Text

abbrev pub opposite : FlowDir → FlowDir
opposite ingress = egress
opposite egress = ingress

module _ (host : Host) where
  open host use {std, is_valid_utf8}

  unfoldable pub delete_rule_policy : RustPolicyEngine → FlowDir → Text → RustPolicyEngine
  delete_rule_policy e dir name = if is_valid_utf8 name then delete_policy e dir name else e

  -- `MicroSegEngine::DeletePolicy`.
  unfoldable pub delete_microseg_policy : MicroSegEngine → Text → MicroSegEngine
  unfolding delete_rule_policy
  delete_microseg_policy e name = record e {
    policy_rule = delete_rule_policy (delete_rule_policy e.policy_rule ingress name) egress name;
    input_http_policy = erase name e.input_http_policy;
    output_http_policy = erase name e.output_http_policy;
  }

  -- `PolicyRule::AddPolicyToTree`, with its return code.
  unfoldable pub add_policy_to_tree : MicroSegEngine → RuleDetail → RulePort → MicroSegEngine × ℤ
  add_policy_to_tree e policy port =
      if is_valid_utf8 policy.policy_key
        && (is_valid_utf8 policy.src_ip
            && (is_valid_utf8 policy.dst_ip && is_valid_utf8 policy.action_dsc))
      then (record e { policy_rule = add_policy std e.policy_rule policy port }, pos 0)
      else (e, negsuc 0)

  unfoldable pub add_new_policy : MicroSegEngine → RuleDetail → RulePort → MicroSegEngine × ℤ
  add_new_policy e policy port =
      if not (lt_i32 (pos 0) policy.priority) || not (lt_i32 policy.priority (pos 129))
      then (e, negsuc 0)
      else add_policy_to_tree e policy port

  unfoldable pub match_tuple : MicroSegEngine → FiveTuple → FlowDir → Option RuleDetail
  match_tuple e tuple dir =
      if not (is_valid_utf8 tuple.src_addr) || not (is_valid_utf8 tuple.dst_addr)
      then none
      else match_five_tuple std e.policy_rule tuple.proto tuple.dst_port tuple.src_port
          tuple.src_addr tuple.dst_addr dir

  unfoldable pub match_net_policy_rule : MicroSegEngine → FiveTuple → FlowDir → Option RuleDetail
  match_net_policy_rule e tuple dir =
      if is_node_ip e tuple.src_addr_u32 then none else match_tuple e tuple dir

  -- A rule that was found and does not allow gives way to one of the reverse direction with a
  -- smaller priority number.
  unfoldable pub match_reverse : MicroSegEngine → FiveTuple → FlowDir → RuleDetail → MicroMatch
  match_reverse e tuple dir detail =
      elim (match_net_policy_rule e (reverse_tuple tuple) (opposite dir)) [
        | none ↦ record {
          rule = detail.action;
          tuple = tuple;
          dir = dir;
          rule_key = detail.policy_key;
        }
        | some rev ↦
            if not (lt_i32 rev.priority detail.priority)
            then record {
              rule = detail.action;
              tuple = tuple;
              dir = dir;
              rule_key = detail.policy_key;
            }
            else record {
              rule = rev.action;
              tuple = reverse_tuple tuple;
              dir = opposite dir;
              rule_key = rev.policy_key;
            }
      ]

  unfoldable pub match_micro_policy_rule : MicroSegEngine → FiveTuple → FlowDir → Text → MicroMatch
  match_micro_policy_rule e tuple dir rule_key = elim (match_net_policy_rule e tuple dir) [
    | none ↦ record { rule = k_default; tuple = tuple; dir = dir; rule_key = rule_key }
    | some detail ↦
        if detail.action == k_allow
        then record { rule = detail.action; tuple = tuple; dir = dir; rule_key = detail.policy_key }
        else match_reverse e tuple dir detail
  ]
