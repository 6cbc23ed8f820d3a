-- ===== src/Callback/Input.antt =====
-- input_nfq_cb of net-policy.cpp, stage by stage.
pub mod Verdicts
pub mod Rewrites
pub mod Close
use net_policy.Common.{
  ℕ, Bool, true, false, ◌&&◌, ◌||◌, not, Option, none, some, [], length, ltb, ◌==◌, nat_eq,
  if◌then◌else◌, Text,
}
use net_policy.Packet.{ipproto_icmp, ipproto_tcp, ipproto_udp}
use net_policy.Flow.{FlowEngine, SharedDecision}
use net_policy.Http.{Header, HttpConnection}
use net_policy.Conn.{
  ReceiveResult, receive, microseg_tracked, microseg_rule_key, microseg_touch, microseg_track,
  microseg_close, dispatch_microseg,
}
use net_policy.Policy.{k_deny, k_allow, k_allow_rsp, k_allow_req, k_default, ingress}
use net_policy.Policy.Rule.{unwrap_or}
use net_policy.Microseg.{
  Host, FiveTuple, MicroMatch, match_micro_policy_rule, match_http_policy_rule,
}
use net_policy.Callback.{
  reset, NfqMessage, accept, drop, Verdict, plain, accept_with, iphdr_size, Daemon, http_rules,
  has_rules, tuple_of, post_match, carries_payload,
}

module _ (http : HttpConnection) (host : Host) where
  -- UDP and ICMP.
  unfoldable pub input_datagram : Daemon http → FiveTuple → Daemon http × Verdict
  input_datagram d tuple =
      let m = match_micro_policy_rule host d.microseg tuple ingress [] in
      if m.rule == k_default
      then (d, accept_with k_allow)
      else if m.rule == k_deny
      then (post_match host d m.tuple m.rule m.dir m.rule_key, plain drop)
      else (post_match host d m.tuple m.rule m.dir m.rule_key, accept_with k_allow)

  -- The header of a finished request against the HTTP rules of the key.
  unfoldable pub input_header :
      Daemon http → Text → FiveTuple → Text → Header → Daemon http × Verdict
  input_header d pkg tuple rule_key header =
      elim (http_rules rule_key d.microseg.input_http_policy) [
        | none ↦ (d, accept_with k_default)
        | some rules ↦
            let rule = match_http_policy_rule rules header in
            if rule == k_default then (d, accept_with k_allow_req) else (
              post_match host d tuple rule ingress rule_key,
              record {
                verdict = accept;
                mark = some k_allow_req;
                payload = some (if rule == k_deny then reset host pkg else pkg);
              },
            )
      ]

  -- The shared tail: the one call of `DispatchMicroseg` for a payload.
  unfoldable pub input_inspect :
      Daemon http → SharedDecision → Text → ℕ → FiveTuple → Text → Daemon http × Verdict
  input_inspect d decision pkg now tuple rule_key =
      let (conns, header) = dispatch_microseg http d.conns decision pkg rule_key now in
      let d' = record d { conns = conns } in
      elim header [
        | none ↦ (d', accept_with k_allow_req)
        | some h ↦ input_header d' pkg tuple rule_key h
      ]

  -- The flow has an entry.
  unfoldable pub input_tracked :
      Daemon http → SharedDecision → Text → ℕ → FiveTuple → Bool → Daemon http × Verdict
  input_tracked d decision pkg now tuple has_payload =
      if decision.kind == 2
      then (d, accept_with k_allow)
      else if not has_payload
      then (d, accept_with k_allow_req)
      else if decision.syn
      then (d, accept_with k_allow_req)
      else if decision.kind == 4
      then (d, plain accept)
      else input_inspect d decision pkg now tuple
          (unwrap_or (microseg_rule_key http d.conns decision) [])

  -- A rule fired on a flow without an entry: with HTTP rules the flow is tracked from here on.
  unfoldable pub input_matched :
      Daemon http → SharedDecision → Text → ℕ → MicroMatch → Daemon http × Verdict
  input_matched d decision pkg now m =
      if not (has_rules (http_rules m.rule_key d.microseg.input_http_policy))
      then if m.rule == k_deny
        then (post_match host d m.tuple m.rule m.dir m.rule_key, plain drop)
        else (post_match host d m.tuple m.rule m.dir m.rule_key, accept_with k_allow)
      else if decision.syn
      then (
        record d { conns = microseg_track http d.conns decision m.rule_key now },
        accept_with k_allow_req,
      )
      else input_inspect (record d { conns = microseg_track http d.conns decision m.rule_key now })
          decision pkg now m.tuple m.rule_key

  -- The flow has no entry.
  unfoldable pub input_untracked :
      Daemon http → SharedDecision → Text → ℕ → FiveTuple → Bool → Daemon http × Verdict
  input_untracked d decision pkg now tuple has_payload =
      if not decision.syn && not has_payload
      then (d, accept_with k_allow_req)
      else let m = match_micro_policy_rule host d.microseg tuple ingress [] in
        if m.rule == k_default then (d, accept_with k_allow) else input_matched d decision pkg now m

  unfoldable pub input_tcp :
      Daemon http → SharedDecision → Text → ℕ → FiveTuple → Daemon http × Verdict
  input_tcp d decision pkg now tuple =
      let tracked = microseg_tracked http d.conns decision in
      let touched = microseg_touch http d.conns decision now in
      let has_payload = carries_payload decision pkg in
      if decision.kind == 0
      then (record d { conns = touched }, accept_with k_allow_req)
      else let d' = record d { conns = (microseg_close http touched decision pkg now).0 } in
        if tracked
        then input_tracked d' decision pkg now tuple has_payload
        else input_untracked d' decision pkg now tuple has_payload

  -- By protocol, behind the packet intake.
  unfoldable pub input_received : Daemon http → ReceiveResult → Text → ℕ → Daemon http × Verdict
  input_received d r pkg now =
      if not r.tuple.recognized
      then (d, plain accept)
      else if r.tuple.proto == ipproto_udp || r.tuple.proto == ipproto_icmp
      then input_datagram d (tuple_of host r.tuple)
      else if not (r.tuple.proto == ipproto_tcp)
      then (d, plain accept)
      else input_tcp d r.decision pkg now (tuple_of host r.tuple)

  unfoldable pub input_nfq_cb : Daemon http → NfqMessage → ℕ → Daemon http × Verdict
  input_nfq_cb d msg now =
      if msg.nfmark == k_allow || msg.nfmark == k_allow_rsp
      then (d, plain accept)
      else if ltb (length msg.payload) iphdr_size
      then (d, plain accept)
      else let (engine, r) = receive d.engine msg.payload true now in
        input_received (record d { engine = engine }) r msg.payload now
