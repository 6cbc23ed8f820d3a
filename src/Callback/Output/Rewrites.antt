-- ===== src/Callback/Output/Rewrites.antt =====
-- What a rewritten packet shows: output_nfq_cb of net-policy.cpp.
use net_policy.Common.{
  ℕ, Bool, true, some, List, [], ◌==◌, nat_eq, if◌then◌else◌, Text, ◌≡◌, ◌≢◌, inl, inr, arith,
  Option-cases, Bool-cases,
}
use net_policy.Packet.{parse_five_tuple}
use net_policy.Flow.{SharedDecision}
use net_policy.Http.{Header, HttpConnection, done}
use net_policy.Conn.{
  MicrosegConns, receive, microseg_tracked, microseg_rule_key, microseg_track, dispatch_microseg,
}
use net_policy.Conn.Entries.{dispatch-header}
use net_policy.Policy.{k_deny, k_default, egress}
use net_policy.Policy.Rule.{unwrap_or}
use net_policy.Microseg.{
  Host, FiveTuple, MicroMatch, HttpRuleInfo, match_micro_policy_rule, match_http_policy_rule,
}
use net_policy.Callback.{reset, NfqMessage, Daemon, http_rules, tuple_of, carries_payload}
use net_policy.Callback.Output.{
  output_datagram, output_header, output_inspect, output_tracked, output_matched, output_untracked,
  output_tcp, output_received, output_nfq_cb,
}
use net_policy.Callback.Output.Verdicts.{closed, received}

module _ (http : HttpConnection) (host : Host) where
  -- What a rewritten payload shows, over a connection table and a rule key: the HTTP rules of the key,
  -- the header that the packet's connection answers to its payload, finished, which one of them fits,
  -- and the packet itself, or its reset if that rule denies.
  unfoldable pub Shows :
      Daemon http → SharedDecision → Text → ℕ → MicrosegConns http → Text → Text → Type 0
  Shows d s pkg now conns key replaced =
      (rules : List HttpRuleInfo) × (h : Header) × (http_rules key d.microseg.output_http_policy
        ≡ some rules)
      × ((dispatch_microseg http conns s pkg key now).1 ≡ some h)
      × (h.parse_state ≡ done)
      × (match_http_policy_rule rules h ≢ k_default)
      × (replaced ≡ (if match_http_policy_rule rules h == k_deny then reset host pkg else pkg))

  header-Rewrites :
      (d : Daemon http) (s : SharedDecision) (pkg : Text) (now : ℕ) (conns : MicrosegConns http)
      (tuple : FiveTuple) (key : Text) (h : Header) (replaced : Text)
      → (dispatch_microseg http conns s pkg key now).1 ≡ some h
      → h.parse_state ≡ done
      → (output_header http host d pkg tuple key h).1.payload ≡ some replaced
      → Shows d s pkg now conns key replaced
  unfolding output_header Shows
  header-Rewrites d s pkg now conns tuple key h replaced o p e =
      elim (Option-cases (http_rules key d.microseg.output_http_policy)) [
        | inl n ↦ absurd (ground arith)
        | inr (rules, n) ↦ (rules, h, n, o, p, ground arith, ground arith)
      ]

  inspect-Rewrites :
      (d : Daemon http) (s : SharedDecision) (pkg : Text) (now : ℕ) (tuple : FiveTuple) (key : Text)
      (replaced : Text)
      → (output_inspect http host d s pkg now tuple key).1.payload ≡ some replaced
      → Shows d s pkg now d.conns key replaced
  unfolding output_inspect Shows
  inspect-Rewrites d s pkg now tuple key replaced e =
      elim (Option-cases (dispatch_microseg http d.conns s pkg key now).1) [
        | inl n ↦ absurd (ground arith)
        | inr (h, n) ↦
            header-Rewrites (record d { conns = (dispatch_microseg http d.conns s pkg key now).0 })
              s pkg now d.conns tuple key h replaced n
              (dispatch-header http d.conns s pkg key now h n).1 (ground arith)
      ]

  matched-Rewrites :
      (d : Daemon http) (s : SharedDecision) (pkg : Text) (now : ℕ) (m : MicroMatch)
      (replaced : Text)
      → (output_matched http host d s pkg now m).1.payload ≡ some replaced
      → Shows d s pkg now (microseg_track http d.conns s m.rule_key now) m.rule_key replaced
  unfolding output_matched Shows
  matched-Rewrites d s pkg now m replaced e =
      inspect-Rewrites (record d { conns = microseg_track http d.conns s m.rule_key now }) s pkg now
        m.tuple m.rule_key replaced (ground arith)

  abbrev match_of : Daemon http → FiveTuple → MicroMatch
  match_of d tuple = match_micro_policy_rule host d.microseg tuple egress []

  untracked-Rewrites :
      (d : Daemon http) (s : SharedDecision) (pkg : Text) (now : ℕ) (tuple : FiveTuple) (p : Bool)
      (replaced : Text)
      → (output_untracked http host d s pkg now tuple p).1.payload ≡ some replaced
      → Shows d s pkg now
          (microseg_track http d.conns s (match_of d tuple).rule_key now)
          (match_of d tuple).rule_key
          replaced
  unfolding output_untracked
  untracked-Rewrites d s pkg now tuple p replaced e =
      matched-Rewrites d s pkg now (match_of d tuple) replaced (ground arith)

  tracked-Rewrites :
      (d : Daemon http) (s : SharedDecision) (pkg : Text) (now : ℕ) (tuple : FiveTuple) (p : Bool)
      (replaced : Text)
      → (output_tracked http host d s pkg now tuple p).1.payload ≡ some replaced
      → Shows d s pkg now d.conns (unwrap_or (microseg_rule_key http d.conns s) []) replaced
  unfolding output_tracked
  tracked-Rewrites d s pkg now tuple p replaced e =
      inspect-Rewrites d s pkg now tuple (unwrap_or (microseg_rule_key http d.conns s) []) replaced
        (ground arith)

  -- The key of a packet's HTTP rules, and the table in which its connection answers: those of its
  -- entry behind the teardown, or for a direction without one those of the rule that is matched.
  abbrev pub key_of : Daemon http → SharedDecision → Text → ℕ → FiveTuple → Text
  key_of d s pkg now tuple =
      if microseg_tracked http d.conns s
      then unwrap_or (microseg_rule_key http (closed http host d s pkg now).conns s) []
      else (match_of d tuple).rule_key

  abbrev pub table_of : Daemon http → SharedDecision → Text → ℕ → FiveTuple → MicrosegConns http
  table_of d s pkg now tuple =
      if microseg_tracked http d.conns s
      then (closed http host d s pkg now).conns
      else microseg_track http (closed http host d s pkg now).conns s (match_of d tuple).rule_key
          now

  tcp-Rewrites :
      (d : Daemon http) (s : SharedDecision) (pkg : Text) (now : ℕ) (tuple : FiveTuple)
      (replaced : Text)
      → (output_tcp http host d s pkg now tuple).1.payload ≡ some replaced
      → Shows d s pkg now (table_of d s pkg now tuple) (key_of d s pkg now tuple) replaced
  unfolding output_tcp Shows
  tcp-Rewrites d s pkg now tuple replaced e = elim (Bool-cases (microseg_tracked http d.conns s)) [
    | inl t ↦ rw t (
        tracked-Rewrites (closed http host d s pkg now) s pkg now tuple (carries_payload s pkg)
          replaced (ground arith))
    | inr t ↦ rw t (
        untracked-Rewrites (closed http host d s pkg now) s pkg now tuple (carries_payload s pkg)
          replaced (ground arith))
  ]

  -- The same of a packet and the daemon before it.
  abbrev pub Rewrites : Daemon http → NfqMessage → ℕ → Text → Type 0
  Rewrites d msg now replaced =
      let s = (receive d.engine msg.payload true now).1.decision in
      let tuple = tuple_of host (parse_five_tuple msg.payload) in
      Shows d s msg.payload now (table_of d s msg.payload now tuple)
        (key_of d s msg.payload now tuple) replaced

  -- A packet goes out rewritten only if the header that its connection answers to its payload is
  -- finished and fits one of the HTTP rules of the connection's key; its bytes are then the packet's
  -- own, or its reset if that rule denies.
  pub output_nfq_cb-Rewrites :
      (d : Daemon http) (msg : NfqMessage) (now : ℕ) (replaced : Text)
      → (output_nfq_cb http host d msg now).1.payload ≡ some replaced
      → Rewrites d msg now replaced
  unfolding output_nfq_cb output_received receive output_datagram Shows
  output_nfq_cb-Rewrites d msg now replaced e =
      tcp-Rewrites (received http host d msg now) (receive d.engine msg.payload true now).1.decision
        msg.payload now (tuple_of host (parse_five_tuple msg.payload)) replaced (ground arith)
