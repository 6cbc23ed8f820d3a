-- ===== src/Control/Arrays.antt =====
-- The loops of ParseNetPolicy of net-policy.cpp over the arrays of a message that was printed.
use net_policy.Common.{
  ℕ, suc, ◌≡◌, refl, ◌∙◌, sym, Bool, true, false, some, List, [], ◌∷◌, ◌++◌, nat_eq, text_eq,
  text_beq, Text, codes,
}
use mathlib.Core.List.{append_assoc, append-nil}
use net_policy.Policy.{RulePort, ℤ, pos}
use net_policy.Http.Http1.{to_low}
use net_policy.Config.{
  Json, Numbers, Outcome, returned, broken, thrown, undefined, Parsing, Run, after, ◌>>=◌, ends,
  or_else, change, u16,
}
use net_policy.Microseg.{Host}
use net_policy.Config.Ranges.{parse_ip_string}
use net_policy.Config.Members.{
  RuleHead, record_pod, int_member, parse_http, parse_port, parse_rule_ports, parse_addresses,
}
use net_policy.Control.{
  HttpMatchRule, AddressEndpoint, PortRange, string, number, double, c_str, saturated, find_member,
  IsArray, end, next, Printer, count, items_of, address_endpoint_to_json, http_to_json,
  port_to_json,
}
use net_policy.Control.Direct.{rule_port, rule_ports, add_http_rules, note_pod, add_endpoints}

pub after_same :
    {A B : Type 0} (r : Parsing × Outcome A) (k k' : A → Run B)
    → ((a : A) (s : Parsing) → k a s ≡ k' a s)
    → after r k ≡ after r k'
unfolding after
after_same (s, returned a) k k' h = h a s
after_same (s, broken) k k' h = refl
after_same (s, thrown) k k' h = refl
after_same (s, undefined) k k' h = refl

module _ (json : Json) (printer : Printer json) where
  open json use {Value, get_object_item, get_array_item, valueint, value_u64, get_string_value}
  open printer use {view}

  endpoint_ip :
      (ep : AddressEndpoint)
      → get_object_item (view (address_endpoint_to_json ep)) (codes "ip")
        ≡ some (view (string ep.ip))
  unfolding address_endpoint_to_json find_member to_low text_beq
  endpoint_ip ep = printer.object_member _ (codes "ip")

  endpoint_pod :
      (ep : AddressEndpoint)
      → get_object_item (view (address_endpoint_to_json ep)) (codes "pod_id")
        ≡ some (view (double ep.pod_id))
  unfolding address_endpoint_to_json find_member to_low text_beq
  endpoint_pod ep = printer.object_member _ (codes "pod_id")

  http_host :
      (h : HttpMatchRule)
      → get_object_item (view (http_to_json h)) (codes "host") ≡ some (view (string h.host))
  unfolding http_to_json find_member to_low text_beq
  http_host h = printer.object_member _ (codes "host")

  http_method :
      (h : HttpMatchRule)
      → get_object_item (view (http_to_json h)) (codes "method") ≡ some (view (string h.method))
  unfolding http_to_json find_member to_low text_beq
  http_method h = printer.object_member _ (codes "method")

  http_path :
      (h : HttpMatchRule)
      → get_object_item (view (http_to_json h)) (codes "path") ≡ some (view (string h.path))
  unfolding http_to_json find_member to_low text_beq
  http_path h = printer.object_member _ (codes "path")

  port_port :
      (p : PortRange)
      → get_object_item (view (port_to_json p)) (codes "port") ≡ some (view (number (pos p.port)))
  unfolding port_to_json find_member to_low text_beq
  port_port p = printer.object_member _ (codes "port")

  port_end :
      (p : PortRange)
      → get_object_item (view (port_to_json p)) (codes "endPort")
        ≡ some (view (number (pos p.end_port)))
  unfolding port_to_json find_member to_low text_beq
  port_end p = printer.object_member _ (codes "endPort")

  int_read :
      (v : Value) (name : Text) (n : ℤ)
      → get_object_item v name ≡ some (view (number n))
      → int_member json v name ≡ u16 (saturated n)
  unfolding int_member
  int_read v name n e = rw (e, int_member, printer.number_value n)

  port_read :
      (proto : ℕ) (p : PortRange)
      → parse_port json proto (view (port_to_json p)) ≡ rule_port proto p
  unfolding parse_port rule_port
  port_read proto p = rw (
    int_read (view (port_to_json p)) (codes "port") (pos p.port) (port_port p),
    int_read (view (port_to_json p)) (codes "endPort") (pos p.end_port) (port_end p),
  )

  pub ports_read :
      (proto : ℕ) (v : Value) (j : ℕ) (ports : List PortRange) (before : List RulePort)
      → IsArray json view v j (items_of port_to_json ports)
      → parse_rule_ports json proto v (count (items_of port_to_json ports)) j before
        ≡ before ++ rule_ports proto ports
  unfolding parse_rule_ports rule_ports count
  ports_read proto v j [] before end = sym (append-nil before)
  ports_read proto v j (p ∷ ports) before (next e rest) =
      rw (e, port_read proto p)
        (ports_read proto v (suc j) ports (before ++ (rule_port proto p ∷ [])) rest
          ∙ append_assoc before (rule_port proto p ∷ []) (rule_ports proto ports))

  pub http_read :
      (head : RuleHead) (key : Text) (v : Value) (k : ℕ) (rules : List HttpMatchRule) (s : Parsing)
      → IsArray json view v k (items_of http_to_json rules)
      → parse_http json head key v (count (items_of http_to_json rules)) k s
        ≡ add_http_rules head key rules s
  unfolding parse_http add_http_rules count or_else ◌>>=◌ after change
  http_read head key v k [] s end = refl
  http_read head key v k (h ∷ rules) s (next e rest) =
      rw
        (
          e,
          http_host h,
          printer.string_text h.host,
          http_method h,
          printer.string_text h.method,
          http_path h,
          printer.string_text h.path,
        )
        (http_read head key v (suc k) rules _ rest)

  pod_read :
      (numbers : Numbers) (host : Host) (records : Bool) (ep : AddressEndpoint) (value : Text)
      (s : Parsing)
      → record_pod json records (view (address_endpoint_to_json ep)) value s
        ≡ note_pod json numbers host printer.as_double records (printer.as_double ep.pod_id) value s
  unfolding record_pod note_pod or_else
  pod_read numbers host false ep value s = refl
  pod_read numbers host true ep value s = rw (endpoint_pod ep, printer.double_value ep.pod_id)

  pub endpoints_read :
      (numbers : Numbers) (host : Host) (records : Bool) (v : Value) (j : ℕ)
      (eps : List AddressEndpoint) (before : List Text) (s : Parsing)
      → IsArray json view v j (items_of address_endpoint_to_json eps)
      → parse_addresses json numbers records v
          (count (items_of address_endpoint_to_json eps))
          j
          before
          s
        ≡ add_endpoints json numbers host printer.as_double records eps before s
  unfolding parse_addresses add_endpoints count or_else ◌>>=◌
  endpoints_read numbers host records v j [] before s end = refl
  endpoints_read numbers host records v j (ep ∷ eps) before s (next e rest) =
      rw (e, endpoint_ip ep, printer.string_text ep.ip)
        (after_same (ends (parse_ip_string numbers (c_str ep.ip) before) s) _ _ λ ips s'.
          rw (pod_read numbers host records ep (c_str ep.ip) s') (
            after_same
              (note_pod json numbers host printer.as_double records (printer.as_double ep.pod_id)
                (c_str ep.ip) s')
              _ _ λ x s''. endpoints_read numbers host records v (suc j) eps ips s'' rest))
