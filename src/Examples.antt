-- ===== src/Examples.antt =====
-- Concrete packets, rules and surroundings for the applications in the modules below.
pub mod Packets
pub mod Rules
pub mod Connections
pub mod Callbacks
pub mod Messages
pub mod Requests
pub mod Dispatches
pub mod Pods
pub mod Controls
pub mod Streams
pub mod Wakeups
pub mod Sessions
use net_policy.Common.{ℕ, Bool, true, false, Option, none, some, List, [], ◌∷◌, Text, byte_at, refl}
use net_policy.Packet.Bounds.{tcp_packet}
use net_policy.Flow
use net_policy.Http.{HttpConnection, done}
use net_policy.Policy.{RuleDetail, RulePort, pos, negsuc, ℤ, ingress, egress, k_deny}
use net_policy.Policy.Rule.{StdText}
use net_policy.Policy.Engine
use net_policy.Microseg.{Host, HttpRuleInfo, MicroSegEngine}
use net_policy.Callback.{Daemon, NfqMessage}
use net_policy.Post.{PostServer}

-- Numbers and addresses of one character.
abbrev pub show_one : ℤ → Text
show_one (pos n) = n ∷ []
show_one (negsuc n) = 45 ∷ (n ∷ [])

abbrev pub one_char : StdText
one_char = record {
  parse_ipv4 = λ t. some (byte_at t 0);
  print_ipv4 = λ n. n ∷ [];
  parse_i32 = λ t. some (pos (byte_at t 0));
  show_i32 = show_one;
}

abbrev pub host : Host
host = record {
  std = one_char;
  inet_ntoa = λ n. n ∷ [];
  show_d = λ n. n ∷ [];
  is_valid_utf8 = λ t. true;
  write_ok = λ fd t. true;
  overrun = λ t. t;
}

-- A parser that takes each payload for a finished request of that path.
abbrev pub http : HttpConnection
http = record {
  Connection = Text;
  connection = λ key. key;
  get_rule_key = λ c. c;
  on_data = λ c payload. (c, record { method = []; path = payload; host = []; parse_state = done });
  get_rule_key-connection = λ key. refl;
  get_rule_key-on_data = λ c payload. refl;
}

abbrev pub any_port : RulePort
any_port = record { end_port = 0; port = 0; proto = 0 }

-- The policy 112 denies TCP from the address 7 to the address 9.
abbrev pub deny_rule : RuleDetail
deny_rule = record {
  proto = 6;
  priority = pos 10;
  addr_type = pos 0;
  direction = ingress;
  action = k_deny;
  action_dsc = [];
  policy_key = 112 ∷ [];
  src_ip = 7 ∷ [];
  dst_ip = 9 ∷ [];
  ports = [];
}

abbrev pub rules : Engine.RustPolicyEngine
rules = Engine.add_policy one_char Engine.new deny_rule any_port

abbrev pub microseg : MicroSegEngine
microseg = record {
  policy_rule = rules;
  nodes_ip = [];
  input_http_policy = [];
  output_http_policy = [];
}

abbrev pub http_deny : HttpRuleInfo
http_deny = record { direction = 0; action = k_deny; host = []; method = []; path = 65 ∷ [] }

-- The same with an HTTP rule of the policy.
abbrev pub microseg_http : MicroSegEngine
microseg_http = record microseg { input_http_policy = (112 ∷ [], http_deny ∷ []) ∷ [] }

abbrev pub post : PostServer
post = record { post_link_fd = 3; closed_fds = []; published = []; written = []; overrun = false }

abbrev pub daemon : MicroSegEngine → Daemon http
daemon m = record { engine = Flow.new; conns = []; microseg = m; post = post }

abbrev pub syn_packet : Text
syn_packet = tcp_packet 7 9 100 80 5 2 []

abbrev pub data_packet : Text
data_packet = tcp_packet 7 9 100 80 6 16 (65 ∷ [])

abbrev pub unmarked : Text → NfqMessage
unmarked pkg = record { id = 0; nfmark = 0; payload = pkg }

abbrev pub fin_packet : Text
fin_packet = tcp_packet 7 9 100 80 6 17 []

-- The same policy, and its HTTP rule, for egress.
abbrev pub deny_out : RuleDetail
deny_out = record deny_rule { direction = egress }

abbrev pub microseg_out : MicroSegEngine
microseg_out = record microseg {
  policy_rule = Engine.add_policy one_char Engine.new deny_out any_port;
}

abbrev pub microseg_http_out : MicroSegEngine
microseg_http_out = record microseg_out { output_http_policy = (112 ∷ [], http_deny ∷ []) ∷ [] }

-- The daemon that tracks the flow of the SYN.
abbrev pub tracking : Daemon http
tracking = record (daemon microseg) { engine = (Flow.on_packet Flow.new syn_packet 0).0 }

-- The segments of the packets above.
abbrev pub flow_id : Flow.ConnectionId
flow_id = record { local_ip = 7; foreign_ip = 9; local_port = 100; foreign_port = 80 }

abbrev pub reply_id : Flow.ConnectionId
reply_id = record { local_ip = 9; foreign_ip = 7; local_port = 80; foreign_port = 100 }
