-- ===== src/Lib.antt =====
-- The network policy daemon net-policy: its packet path, its policies and its control.
--
-- The daemon takes each packet that NFQUEUE hands it in one of two callbacks, input_nfq_cb and
-- output_nfq_cb (net-policy.cpp), and answers with a verdict. A callback parses the packet's
-- five-tuple and, for TCP, passes the packet to the flow engine (crates/net_flow_engine), which
-- says whether it opens, continues or closes a connection. A packet without an entry in the
-- connection table (net/connection_manager.h) is matched against the policy engine
-- (crates/net_policy_engine) behind the microsegmentation engine (net-policy.h, rule-detail.cpp); if
-- the matched policy has HTTP rules, the connection's requests are parsed and matched against them.
-- Matches are announced by the post server (net-policy.cpp), and a denied request's packet is
-- rewritten by rst_tcp_link.
--
-- Policies and node addresses arrive as JSON texts (ParseNetPolicy and ParseNodeCfg of
-- net-policy.cpp), and pods come and go (InitNfqueue, rule-detail.cpp). These calls are made by the
-- event loop, which takes them from a queue that the threads of the gRPC service fill
-- (grpc/control_dispatch.cc).
--
-- The modules:
--   Common     shared names; Boolean tests, lists and maps as association lists.
--   Packet     the packet parsers of crates/net_flow_engine/src/lib.rs (parse_ipv4_header,
--              parse_tcp_header, parse_five_tuple_internal as parse_five_tuple).
--   Flow       FlowEngine of the same file: on_packet_internal, evict_stale, and on_packet with what
--              crosses the bridge to C++. Flow/Pairing, Flow/Lifecycle and Flow/Evict hold the proofs.
--   Policy     the shared types; Policy/Rule is RuleDetail, Policy/Tree is RuleGroup, RuleChain and
--              PolicyTree, Policy/Engine is RustPolicyEngine of crates/net_policy_engine/src/lib.rs.
--              Its children hold the proofs, named for what they are about.
--   Http       http/codec.h, and http/connection.h as an interface: a connection that keeps its rule
--              key and turns payloads into headers. Http/Connection fills it: Connection of
--              http/connection.cc over HttpInspector (Http/Inspector), http1::ConnectionImpl
--              (Http/Http1) and http2::ConnectionImpl (Http/Http2), with the filters of http/filter.cc
--              and http/http_filter_factory.cc (Http/Filters). Http/Buffering holds the proofs.
--   Http1Codec the HTTP/1 parser of crates/http1_codec/src: parse_request_target in Http1Codec/Target,
--              try_parse_headers in Http1Codec/Headers, BodyFraming in Http1Codec/Body and
--              Http1Parser in Http1Codec/Parser, over the httparse crate, with the strings of Rust
--              that they use in Http1Codec/Strings and Http1Codec/Lossy. Http1Codec/Interface puts
--              it into the adapter of Http/Http1. The other children hold the proofs.
--   Conn       ConnectionManager of net/connection_manager.h, over that interface.
--   Microseg   MicroSegEngine, PolicyRule and FiveTuple, and the matching of net-policy.cpp
--              (MatchHttpPolicyRule, MatchNetPolicyRule, MatchMicroPolicyRule, AddNewPolicy).
--   Rst        csum, TcpCsum and rst_tcp_link of net-policy.cpp, undefined where they leave the packet
--              or their buffer.
--   Post       PostServer of net-policy.cpp.
--   Config     the messages of net-policy.cpp: ParseNodeCfg and UpdateMark in Config, ParseIpString in
--              Config/Ranges, the lists of a rule and ParseNetPolicy in Config/Members and
--              Config/Rules. The other children hold the proofs.
--   Profile    Heap of admin/profile.cc.
--   Control    the GrpcDispatch functions of net-policy.cpp that change the daemon: their messages in
--              Control, their closures in Control/Closures. Control/Direct says what a message of
--              rules is to do without a text in between, Control/Dump is GrpcDispatchDumpConfig
--              with GetAllConfig of rule-detail.cpp; the other children hold the proofs.
--   Dispatch   GrpcDispatchQueue of grpc/control_dispatch.cc and the loop's
--              DispatchGrpcRustQueueEvent of net-policy.cpp as a step relation; Dispatch/Order and
--              Dispatch/Wake hold the proofs.
--   Nfq        NFQ_RES_INFO, NfQueData and InitNfqueue of net-policy.h, rule-detail.cpp and
--              net-policy.cpp over a kernel; Nfq/Release and Nfq/PodUp hold the proofs.
--   Queues     NfqQueue of crates/net_nfq/src/queue.rs and NfqueueRcvData of net-policy.cpp, which has
--              a batch of packets judged by the callbacks.
--   Conntrack  the sessions of crates/net_conntrack/src/session.rs: what they hold in
--              Conntrack/Opening, the updates that they send in Conntrack/Marks, and what
--              these do to the kernel's marks in Conntrack/Effects.
--   Callback   the two callbacks, in Callback/Input and Callback/Output, over one daemon state;
--              Callback/Directions states what both share.
--   Examples   concrete data, and the theorems applied to it.
--
-- The state is passed explicitly: an operation takes the state and returns the new one with its
-- result, and the clock is an argument. Fixed-width numbers are natural numbers with the
-- wrap-around written out. A hash map is an association list, so an iteration order that the
-- program leaves open is the order of the list here. Parameters stand for the code outside the
-- repository: StdText for the text forms of numbers and addresses in the Rust standard library,
-- Host for inet_ntoa, printf, the UTF-8 test, write and what a packet holds after a write outside
-- it, Json for cJSON, Numbers for std::stoi, std::to_string and inet_pton, Llhttp and Nghttp2 for
-- the libraries of those names, and Libraries for these and for what a kept payload's memory holds
-- when it is read again. The parser of crates/http1_codec enters the connections as the interface
-- Http1Parser, and fills it over Httparse, the httparse crate; what that crate documents of a parse
-- is in IsBounded and IsIncremental. Printer is what cJSON prints, with what it reads back of that.
-- Kernel stands for the queues, the conntrack sessions and epoll; NfqCrate for the nfq crate,
-- Allocator and Conntrack for libnetfilter_conntrack, of which KeepsMark and KeepsMarks state what
-- it documents. The checksum loop runs on fuel, as much as the sum that it folds; the loop over a
-- chunked body on as much as the buffer has bytes, of which every round takes one, and the loop of
-- the HTTP/1 parser on twice as much, since a head takes a byte and a body follows it.
--
-- Not modelled: the gRPC control and event services (crates/net_policy_control,
-- crates/net_policy_events) and GrpcDispatchDumpConnections, iptables (crates/net_iptables), the
-- packet buffers and URLs of the HTTP parser, start-up and logging, and the libraries that the
-- repository has copies of. A log line has no effect here, descriptors are not negative, and
-- printed texts contain no zero byte.
pub mod Common
pub mod Packet
pub mod Flow
pub mod Policy
pub mod Http
pub mod Http1Codec
pub mod Conn
pub mod Rst
pub mod Microseg
pub mod Post
pub mod Config
pub mod Profile
pub mod Control
pub mod Dispatch
pub mod Nfq
pub mod Conntrack
pub mod Callback
pub mod Queues
pub mod Examples
