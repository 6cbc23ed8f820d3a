-- ===== src/Callback/Directions.antt =====
-- What the callbacks of both directions, input_nfq_cb and output_nfq_cb of net-policy.cpp, have in
-- common.
use net_policy.Common.{
  ℕ, Bool, true, false, ◌||◌, none, some, [], length, ◌==◌, nat_eq, if◌then◌else◌, Text, ◌≡◌, ◌≤◌,
}
use net_policy.Packet.{ipproto_tcp, parse_five_tuple}
use net_policy.Flow.{ConnectionId, id_beq}
use net_policy.Http.{HttpConnection}
use net_policy.Conn.{receive, microseg_tracked}
use net_policy.Conn.Entries.{rule_key_at}
use net_policy.Policy.{k_deny, k_allow, k_allow_rsp, k_allow_req, FlowDir, ingress, egress}
use net_policy.Microseg.{Host, MicroMatch, match_micro_policy_rule}
use net_policy.Microseg.Policies.{http_policy}
use net_policy.Callback.{
  NfqMessage, Verdict, drop, iphdr_size, Daemon, http_rules, has_rules, tuple_of,
}
use net_policy.Callback.Input.{input_nfq_cb}
use net_policy.Callback.Output.{output_nfq_cb}
use net_policy.Callback.Input
use net_policy.Callback.Output
use net_policy.Callback.Input.Verdicts.{input_nfq_cb_drops}
use net_policy.Callback.Output.Verdicts.{output_nfq_cb_drops}
use net_policy.Callback.Input.Rewrites.{input_nfq_cb-Rewrites}
use net_policy.Callback.Input.Close.{input_nfq_cb_closes}
use net_policy.Callback.Output.Rewrites.{output_nfq_cb-Rewrites}
use net_policy.Callback.Output.Close.{output_nfq_cb_closes}

-- The marks that let a packet of a direction pass at once: kAllow, and kAllowRsp or kAllowReq.
abbrev pub passes_at_once : FlowDir → ℕ → Bool
passes_at_once ingress mark = mark == k_allow || mark == k_allow_rsp
passes_at_once egress mark = mark == k_allow || mark == k_allow_req

module _ (http : HttpConnection) (host : Host) where
  -- The callback of a direction.
  abbrev pub nfq_cb : FlowDir → Daemon http → NfqMessage → ℕ → Daemon http × Verdict
  nfq_cb ingress = input_nfq_cb http host
  nfq_cb egress = output_nfq_cb http host

  -- The match that a packet's own tuple gives in a direction.
  abbrev pub matched_in : FlowDir → Daemon http → Text → MicroMatch
  matched_in dir d pkg =
      match_micro_policy_rule host d.microseg (tuple_of host (parse_five_tuple pkg)) dir []

  abbrev pub has_http_rules : FlowDir → Daemon http → Text → Bool
  has_http_rules dir d pkg =
      has_rules (http_rules (matched_in dir d pkg).rule_key (http_policy d.microseg dir))

  -- The verdict on a packet is to drop it only if its mark does not let it pass at once, it is
  -- recognized and the rule that its tuple matches denies; for TCP also only if that rule's key has
  -- no HTTP rules and the packet's direction has no entry in the table.
  pub nfq_cb_drops :
      (dir : FlowDir) (d : Daemon http) (msg : NfqMessage) (now : ℕ)
      → (nfq_cb dir d msg now).1.verdict ≡ drop
      → (passes_at_once dir msg.nfmark ≡ false)
        × ((parse_five_tuple msg.payload).recognized ≡ true)
        × ((matched_in dir d msg.payload).rule ≡ k_deny)
        × ((parse_five_tuple msg.payload).proto ≡ ipproto_tcp
            → (has_http_rules dir d msg.payload ≡ false)
              × (microseg_tracked http d.conns (receive d.engine msg.payload true now).1.decision
                  ≡ false))
  unfolding Input.Verdicts.matched Output.Verdicts.matched
  nfq_cb_drops ingress d msg now h = input_nfq_cb_drops http host d msg now h
  nfq_cb_drops egress d msg now h = output_nfq_cb_drops http host d msg now h

  -- What a dropped TCP packet shows in a direction.
  abbrev pub DeniedIn : FlowDir → Daemon http → NfqMessage → ℕ → Type 0
  DeniedIn ingress = Input.Verdicts.Denied http host
  DeniedIn egress = Output.Verdicts.Denied http host

  -- What a rewritten packet shows in a direction.
  abbrev pub RewritesIn : FlowDir → Daemon http → NfqMessage → ℕ → Text → Type 0
  RewritesIn ingress = Input.Rewrites.Rewrites http host
  RewritesIn egress = Output.Rewrites.Rewrites http host

  -- A packet is rewritten only if the header that its own connection answers to its payload is
  -- finished and fits one of the HTTP rules of the connection's key: the key of the entry, or, for a
  -- direction without one, the key of the rule that the tuple matches. The bytes are the packet
  -- itself, or its reset if that rule denies.
  pub nfq_cb_rewrites :
      (dir : FlowDir) (d : Daemon http) (msg : NfqMessage) (now : ℕ) (replaced : Text)
      → (nfq_cb dir d msg now).1.payload ≡ some replaced
      → RewritesIn dir d msg now replaced
  nfq_cb_rewrites ingress d msg now replaced h =
      input_nfq_cb-Rewrites http host d msg now replaced h
  nfq_cb_rewrites egress d msg now replaced h =
      output_nfq_cb-Rewrites http host d msg now replaced h

  -- A packet that closes a connection erases the entries of both directions, and no other, whether
  -- or not its own direction has one and whatever the policies are. The packet is one that the
  -- callback looks at: long enough, not marked as allowed, recognized as TCP; and it is not a SYN.
  pub nfq_cb_closes :
      (dir : FlowDir) (d : Daemon http) (msg : NfqMessage) (now : ℕ) (id : ConnectionId)
      → passes_at_once dir msg.nfmark ≡ false
      → iphdr_size ≤ length msg.payload
      → (parse_five_tuple msg.payload).recognized ≡ true
      → (parse_five_tuple msg.payload).proto ≡ ipproto_tcp
      → (receive d.engine msg.payload true now).1.decision.kind ≡ 2
      → (receive d.engine msg.payload true now).1.decision.syn ≡ false
      → rule_key_at http (nfq_cb dir d msg now).0.conns id ≡ (
          if id_beq (receive d.engine msg.payload true now).1.decision.conn_id id
            || id_beq (receive d.engine msg.payload true now).1.decision.peer_conn_id id
          then none
          else rule_key_at http d.conns id)
  nfq_cb_closes ingress d msg now id = input_nfq_cb_closes http host d msg now id
  nfq_cb_closes egress d msg now id = output_nfq_cb_closes http host d msg now id
