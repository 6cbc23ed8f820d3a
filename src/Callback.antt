-- ===== src/Callback.antt =====
-- The packet callbacks of net-policy.cpp (input_nfq_cb, output_nfq_cb): the state that they share,
-- the message they get and the verdict they give. A callback reads the clock as its argument `now`.
pub mod Input
pub mod Output
pub mod Directions
use net_policy.Common.Maps.{lookup}
use net_policy.Common.{
  ℕ, Bool, true, false, Option, none, some, List, [], ◌∷◌, Text, ◌++◌, text_eq, nat_eq, ◌==◌, ◌&&◌,
  ◌||◌, ltb, length,
}
use net_policy.Packet.{FiveTupleResult}
use net_policy.Flow.{FlowEngine, SharedDecision}
use net_policy.Http.{HttpConnection}
use net_policy.Conn.{MicrosegConns}
use net_policy.Policy.{NetPolicyRule, FlowDir}
use net_policy.Microseg.{Host, FiveTuple, HttpRuleInfo, HttpPolicy, MicroSegEngine}
use net_policy.Rst.{rst_tcp_link}
use net_policy.Post.{PostServer, MatchEvent, send_match_msg}

pub record NfqMessage : Type 0 where
  pub id : ℕ
  pub nfmark : ℕ
  pub payload : Text

pub data NfqVerdict : Type 0 where
  accept drop : NfqVerdict

-- One call of `verdict` or `verdict_with_mark`: the mark, and the payload that replaces the packet's.
pub record Verdict : Type 0 where
  pub verdict : NfqVerdict
  pub mark : Option NetPolicyRule
  pub payload : Option Text

abbrev pub plain : NfqVerdict → Verdict
plain v = record { verdict = v; mark = none; payload = none }

abbrev pub accept_with : NetPolicyRule → Verdict
accept_with mark = record { verdict = accept; mark = some mark; payload = none }

-- A packet's payload is looked at for the kinds 3, 4 and 5.
abbrev pub carries_payload : SharedDecision → Text → Bool
carries_payload decision pkg =
    (decision.kind == 3 || (decision.kind == 4 || decision.kind == 5))
    && ltb decision.payload_offset (length pkg)

-- `sizeof(struct iphdr)`.
abbrev pub iphdr_size : ℕ
iphdr_size = 20

pub record Daemon (http : HttpConnection) : Type 0 where
  pub engine : FlowEngine
  pub conns : MicrosegConns http
  pub microseg : MicroSegEngine
  pub post : PostServer

-- The HTTP rules of a key: `none` where the key is missing.
abbrev pub http_rules : Text → HttpPolicy → Option (List HttpRuleInfo)
http_rules key policy = lookup key policy

-- `find(key) == end() || second.empty()`.
abbrev pub has_rules : Option (List HttpRuleInfo) → Bool
has_rules none = false
has_rules (some []) = false
has_rules (some (rule ∷ rules)) = true

-- The tuple that the callbacks fill in from the parsed packet.
unfoldable pub tuple_of : Host → FiveTupleResult → FiveTuple
tuple_of host r = record {
  proto = r.proto;
  tot_len = r.tot_len;
  src_port = r.src_port;
  dst_port = r.dst_port;
  src_addr_u32 = r.src_addr;
  dst_addr_u32 = r.dst_addr;
  src_addr = host.inet_ntoa r.src_addr;
  dst_addr = host.inet_ntoa r.dst_addr;
}

-- The packet after rst_tcp_link: whatever its memory then holds, where that is undefined.
unfoldable pub reset : Host → Text → Text
reset host pkg = elim (rst_tcp_link pkg) [ none ↦ host.overrun pkg | some bytes ↦ bytes ]

-- A match is announced.
unfoldable pub post_match :
    {http : HttpConnection}
    → Host
    → Daemon http
    → FiveTuple
    → NetPolicyRule
    → FlowDir
    → Text
    → Daemon http
post_match host d tuple rule dir key = record d {
  post =
      send_match_msg host d.post
        (record { tuple = tuple; action = rule; dir = dir; rule_key = key });
}
