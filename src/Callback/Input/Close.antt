-- ===== src/Callback/Input/Close.antt =====
-- The teardown of a closed connection's entries in input_nfq_cb of net-policy.cpp.
use net_policy.Common.{
  ℕ, true, false, ◌||◌, none, length, ◌==◌, nat_eq, if◌then◌else◌, ◌≡◌, ◌≤◌, arith,
}
use net_policy.Packet.{ipproto_tcp, parse_five_tuple}
use net_policy.Flow.{ConnectionId, id_beq}
use net_policy.Http.{HttpConnection}
use net_policy.Conn.{receive, microseg_touch}
use net_policy.Conn.Entries.{rule_key_at, rule_key_at-touch, microseg_close_lem}
use net_policy.Policy.{k_allow, k_allow_rsp}
use net_policy.Microseg.{Host}
use net_policy.Callback.{NfqMessage, Daemon, iphdr_size}
use net_policy.Callback.Input.{
  input_tracked, input_untracked, input_tcp, input_received, input_nfq_cb,
}

module _ (http : HttpConnection) (host : Host) where
  -- A packet that closes a connection erases the entries of both directions, and no other, whether
  -- or not its own direction has one and whatever the policies are. The packet is one that the
  -- callback looks at: long enough, not marked as allowed, recognized as TCP; and it is not a SYN.
  pub input_nfq_cb_closes :
      (d : Daemon http) (msg : NfqMessage) (now : ℕ) (id : ConnectionId)
      → (msg.nfmark == k_allow || msg.nfmark == k_allow_rsp) ≡ false
      → iphdr_size ≤ length msg.payload
      → (parse_five_tuple msg.payload).recognized ≡ true
      → (parse_five_tuple msg.payload).proto ≡ ipproto_tcp
      → (receive d.engine msg.payload true now).1.decision.kind ≡ 2
      → (receive d.engine msg.payload true now).1.decision.syn ≡ false
      → rule_key_at http (input_nfq_cb http host d msg now).0.conns id ≡ (
          if id_beq (receive d.engine msg.payload true now).1.decision.conn_id id
            || id_beq (receive d.engine msg.payload true now).1.decision.peer_conn_id id
          then none
          else rule_key_at http d.conns id)
  unfolding input_nfq_cb input_received input_tcp input_tracked input_untracked receive
  input_nfq_cb_closes d msg now id marks long recognized tcp kind syn =
      let s = (receive d.engine msg.payload true now).1.decision in
      let touched = microseg_touch http d.conns s now in
      ground (
        arith,
        microseg_close_lem http touched s msg.payload now id,
        rule_key_at-touch http d.conns s now id,
      )
