-- ===== src/Callback/Output/Verdicts.antt =====
-- The verdicts of output_nfq_cb of net-policy.cpp.
use net_policy.Common.{
  ◌↔◌, ◌⊎◌, ℕ, Bool, true, false, ◌||◌, [], length, ◌==◌, nat_eq, Text, ◌≡◌, ◌≢◌, inl, inr, refl,
  arith, Option-cases, Bool-cases, ◌≤◌,
}
use net_policy.Packet.{ipproto_tcp, parse_five_tuple}
use net_policy.Flow.{SharedDecision}
use net_policy.Http.{Header, HttpConnection}
use net_policy.Conn.{
  receive, microseg_tracked, microseg_rule_key, microseg_track, microseg_touch, microseg_close,
  dispatch_microseg,
}
use net_policy.Policy.{k_deny, k_allow, k_allow_req, egress}
use net_policy.Policy.Rule.{unwrap_or}
use net_policy.Microseg.{Host, FiveTuple, MicroMatch, match_micro_policy_rule}
use net_policy.Callback.{
  NfqMessage, accept, drop, iphdr_size, Daemon, http_rules, has_rules, tuple_of, carries_payload,
}
use net_policy.Callback.Output.{
  output_datagram, output_header, output_inspect, output_tracked, output_matched, output_untracked,
  output_tcp, output_received, output_nfq_cb,
}

module _ (http : HttpConnection) (host : Host) where
  -- The match that a packet's own direction gives.
  unfoldable pub matched : Daemon http → Text → MicroMatch
  matched d pkg =
      match_micro_policy_rule host d.microseg (tuple_of host (parse_five_tuple pkg)) egress []

  header_accepts :
      (d : Daemon http) (pkg : Text) (tuple : FiveTuple) (key : Text) (h : Header)
      → (output_header http host d pkg tuple key h).1.verdict ≡ accept
  unfolding output_header
  header_accepts d pkg tuple key h =
      elim (Option-cases (http_rules key d.microseg.output_http_policy)) [
        | inl e ↦ rw (e, output_header) refl
        | inr (rules, e) ↦ ground arith
      ]

  inspect_accepts :
      (d : Daemon http) (s : SharedDecision) (pkg : Text) (now : ℕ) (tuple : FiveTuple) (key : Text)
      → (output_inspect http host d s pkg now tuple key).1.verdict ≡ accept
  unfolding output_inspect
  inspect_accepts d s pkg now tuple key =
      elim (Option-cases (dispatch_microseg http d.conns s pkg key now).1) [
        | inl e ↦ rw (e, output_inspect) refl
        | inr (h, e) ↦ rw (e, output_inspect) (header_accepts _ pkg tuple key h)
      ]

  tracked_accepts :
      (d : Daemon http) (s : SharedDecision) (pkg : Text) (now : ℕ) (tuple : FiveTuple) (p : Bool)
      → (output_tracked http host d s pkg now tuple p).1.verdict ≡ accept
  unfolding output_tracked
  tracked_accepts d s pkg now tuple p =
      ground
        (arith, inspect_accepts d s pkg now tuple (unwrap_or (microseg_rule_key http d.conns s) []))

  matched_drops :
      (d : Daemon http) (s : SharedDecision) (pkg : Text) (now : ℕ) (m : MicroMatch)
      → (output_matched http host d s pkg now m).1.verdict ≡ drop
      → (m.rule ≡ k_deny)
        × (has_rules (http_rules m.rule_key d.microseg.output_http_policy) ≡ false)
  unfolding output_matched
  matched_drops d s pkg now m h = ground (
    arith,
    inspect_accepts (record d { conns = microseg_track http d.conns s m.rule_key now }) s pkg now
        m.tuple m.rule_key,
  )

  untracked_drops :
      (d : Daemon http) (s : SharedDecision) (pkg : Text) (now : ℕ) (tuple : FiveTuple) (p : Bool)
      → (output_untracked http host d s pkg now tuple p).1.verdict ≡ drop
      → let m = match_micro_policy_rule host d.microseg tuple egress [] in
        (m.rule ≡ k_deny)
        × (has_rules (http_rules m.rule_key d.microseg.output_http_policy) ≡ false)
  unfolding output_untracked
  untracked_drops d s pkg now tuple p h =
      ground
        (arith, matched_drops d s pkg now (match_micro_policy_rule host d.microseg tuple egress []))

  -- The daemon behind the touch and the close.
  abbrev pub closed : Daemon http → SharedDecision → Text → ℕ → Daemon http
  closed d s pkg now = record d {
    conns = (microseg_close http (microseg_touch http d.conns s now) s pkg now).0;
  }

  tcp_drops :
      (d : Daemon http) (s : SharedDecision) (pkg : Text) (now : ℕ) (tuple : FiveTuple)
      → (output_tcp http host d s pkg now tuple).1.verdict ≡ drop
      → let m = match_micro_policy_rule host d.microseg tuple egress [] in
        (m.rule ≡ k_deny)
        × (has_rules (http_rules m.rule_key d.microseg.output_http_policy) ≡ false)
        × (microseg_tracked http d.conns s ≡ false)
  unfolding output_tcp
  tcp_drops d s pkg now tuple h = ground (
    arith,
    tracked_accepts (closed d s pkg now) s pkg now tuple (carries_payload s pkg),
    untracked_drops (closed d s pkg now) s pkg now tuple (carries_payload s pkg),
  )

  datagram_drops :
      (d : Daemon http) (tuple : FiveTuple)
      → (output_datagram http host d tuple).1.verdict ≡ drop
      → (match_micro_policy_rule host d.microseg tuple egress []).rule ≡ k_deny
  unfolding output_datagram
  datagram_drops d tuple h = ground arith

  -- The daemon behind the intake.
  abbrev pub received : Daemon http → NfqMessage → ℕ → Daemon http
  received d msg now = record d { engine = (receive d.engine msg.payload true now).0 }

  -- The verdict on a packet is to drop it only if the mark is neither kAllow nor kAllowReq, the
  -- packet is recognized and the rule that its tuple matches denies; for TCP also only if that
  -- rule's key has no HTTP rules and the packet's direction has no entry in the table.
  pub output_nfq_cb_drops :
      (d : Daemon http) (msg : NfqMessage) (now : ℕ)
      → (output_nfq_cb http host d msg now).1.verdict ≡ drop
      → ((msg.nfmark == k_allow || msg.nfmark == k_allow_req) ≡ false)
        × ((parse_five_tuple msg.payload).recognized ≡ true)
        × ((matched d msg.payload).rule ≡ k_deny)
        × ((parse_five_tuple msg.payload).proto ≡ ipproto_tcp
            → (has_rules (http_rules (matched d msg.payload).rule_key d.microseg.output_http_policy)
                ≡ false)
              × (microseg_tracked http d.conns (receive d.engine msg.payload true now).1.decision
                  ≡ false))
  unfolding output_nfq_cb output_received matched receive
  output_nfq_cb_drops d msg now h = ground (
    arith,
    tcp_drops (received d msg now) (receive d.engine msg.payload true now).1.decision msg.payload
        now (tuple_of host (parse_five_tuple msg.payload)),
    datagram_drops (received d msg now) (tuple_of host (parse_five_tuple msg.payload)),
  )

  -- What a TCP packet that is dropped shows: its mark does not let it pass, it is long enough and the
  -- engine does not ignore it, its direction has no entry, it is a SYN or carries a payload, and the
  -- rule that its tuple matches denies and has no HTTP rules under its key.
  pub record Denied (d : Daemon http) (msg : NfqMessage) (now : ℕ) : Type 0 where
    pub marked : (msg.nfmark == k_allow || msg.nfmark == k_allow_req) ≡ false
    pub long : iphdr_size ≤ length msg.payload
    pub tracked_by_engine : (receive d.engine msg.payload true now).1.decision.kind ≢ 0
    pub no_entry :
        microseg_tracked http d.conns (receive d.engine msg.payload true now).1.decision ≡ false
    pub looked_at :
        ((receive d.engine msg.payload true now).1.decision.syn ≡ true)
        ⊎ (carries_payload (receive d.engine msg.payload true now).1.decision msg.payload ≡ true)
    pub denies : (matched d msg.payload).rule ≡ k_deny
    pub unruled :
        has_rules (http_rules (matched d msg.payload).rule_key d.microseg.output_http_policy)
        ≡ false

  -- Without a SYN or a payload nothing is dropped.
  looked_at_drops :
      (d : Daemon http) (s : SharedDecision) (pkg : Text) (now : ℕ) (tuple : FiveTuple)
      → microseg_tracked http d.conns s ≡ false
      → (output_tcp http host d s pkg now tuple).1.verdict ≡ drop
      → (s.syn ≡ true) ⊎ (carries_payload s pkg ≡ true)
  unfolding output_tcp output_untracked
  looked_at_drops d s pkg now tuple entry h = elim (Bool-cases s.syn) [
    | inl y ↦ inl y
    | inr y ↦ elim (Bool-cases (carries_payload s pkg)) [
      | inl p ↦ inr p
      | inr p ↦ absurd (ground arith)
    ]
  ]

  pub output_nfq_cb-Denied :
      (d : Daemon http) (msg : NfqMessage) (now : ℕ)
      → (parse_five_tuple msg.payload).recognized ≡ true
      → (parse_five_tuple msg.payload).proto ≡ ipproto_tcp
      → ((output_nfq_cb http host d msg now).1.verdict ≡ drop) ↔ Denied d msg now
  unfolding output_nfq_cb output_received matched receive output_tcp output_untracked output_matched
  output_nfq_cb-Denied d msg now recognized tcp = (
    (λ h.
        let (m, r, deny, more) = output_nfq_cb_drops d msg now h in
        let (rules, entry) = more tcp in
        record {
          marked = m;
          long = ground arith;
          tracked_by_engine = ground (arith, m, r, entry);
          no_entry = entry;
          looked_at =
              looked_at_drops (received d msg now)
                (receive d.engine msg.payload true now).1.decision msg.payload now
                (tuple_of host (parse_five_tuple msg.payload)) entry (ground (arith, m, r));
          denies = deny;
          unruled = rules;
        }),
    λ c. ground (
      arith, c.marked, c.long, c.tracked_by_engine, c.no_entry, c.looked_at, c.denies, c.unruled,
    ),
  )
