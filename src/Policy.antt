-- ===== src/Policy.antt =====
-- The vocabulary of network policies: net-policy.h (NetPolicyRule, FlowDir, RulePort, RuleDetail)
-- and their twins in crates/net_policy_engine/src/lib.rs. A `std::string` or `String` is the list
-- of its bytes.
pub mod Rule
pub mod Tree
pub mod Engine
use net_policy.Common.{ℕ, Text, List, KeyEq, Bool, true, false, ◌≡◌, ◌↔◌, arith}

-- The values of `enum class NetPolicyRule : uint32_t`; a cast from any other number is kept.
abbrev pub NetPolicyRule : Type 0
NetPolicyRule = ℕ

abbrev pub k_deny : NetPolicyRule
k_deny = 0

abbrev pub k_allow : NetPolicyRule
k_allow = 1

abbrev pub k_mark : NetPolicyRule
k_mark = 2

abbrev pub k_allow_rsp : NetPolicyRule
k_allow_rsp = 3

abbrev pub k_allow_req : NetPolicyRule
k_allow_req = 4

abbrev pub k_default : NetPolicyRule
k_default = 5

pub data FlowDir : Type 0 where
  ingress egress : FlowDir

pub record RulePort : Type 0 where
  pub end_port : ℕ
  pub port : ℕ
  pub proto : ℕ

-- An `int32_t`; `negsuc n` is -(n + 1).
pub data ℤ : Type 0 where
  pos : ℕ → ℤ
  negsuc : ℕ → ℤ

pub record RuleDetail : Type 0 where
  pub proto : ℕ
  pub priority : ℤ
  pub addr_type : ℤ
  pub direction : FlowDir
  pub action : NetPolicyRule
  pub action_dsc : Text
  pub policy_key : Text
  pub src_ip : Text
  pub dst_ip : Text
  pub ports : List RulePort
