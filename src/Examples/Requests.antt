-- ===== src/Examples/Requests.antt =====
-- HTTP connections on concrete payloads.
use net_policy.Common.{
  true, false, none, some, [], ◌∷◌, ◌++◌, Text, codes, refl, ◌≡◌, nat_eq, text_eq,
}
use net_policy.Http.{Header, done}
use net_policy.Http.Inspector.{
  Llhttp, new_inspector, http11, agrees, through_line_end, parse_request_line, parse_http_header,
  http2_connection_preface, parse_http_header_lem, is_http2,
}
use net_policy.Http.Filters.{no_filters, decode_headers, run_filters, add_header}
use net_policy.Http.Http1.{
  Http1Parser, new_http1, add_fields, raw_host, header_map_of, apply_parsed_header, dispatch_http1,
}
use net_policy.Http.Http2.{Nghttp2, Http2Connection}
use net_policy.Http.Connection.{
  Libraries, http1_codec, Connection, new_connection, create_codec, header_of, dispatch,
  dispatch_packet,
}
use net_policy.Http.Buffering.{run_data, run_data-buffered, ready, more}

-- Parsers that remember the bytes; the path of a request is all of them.
abbrev llhttp : Llhttp
llhttp = record { Parser = Text; init = []; execute = λ p bytes. (p ++ bytes, true) }

abbrev http1 : Http1Parser
http1 = record {
  Parser = Text;
  new_http1_parser = [];
  dispatch = λ p bytes. (
    p ++ bytes,
    record { parse_state = 1; method = codes "GET"; path = p ++ bytes; host = []; fields = [] },
  );
}

abbrev nghttp2 : Nghttp2
nghttp2 = record {
  Session = Text;
  server_new = [];
  mem_recv = λ s bytes.
      (s ++ bytes, record { is_request = true; name = codes ":path"; value = bytes } ∷ [], true);
}

abbrev libs : Libraries
libs = record {
  llhttp = llhttp;
  http1 = http1;
  nghttp2 = nghttp2;
  reread = λ bytes. bytes;
  c_string = λ bytes. bytes;
}

abbrev fresh : Connection libs (Unit {0})
fresh = new_connection libs [] no_filters false

abbrev first_request : Header
first_request = record {
  method = codes "GET";
  path = codes "/a";
  host = codes "h";
  parse_state = done;
}

abbrev complete : Http2Connection nghttp2
complete = record { session = []; header = first_request }

parse_http_header_lem_example :
    is_http2 (parse_http_header llhttp (new_inspector llhttp) http2_connection_preface).0.protocol
    ≡ true
parse_http_header_lem_example =
    (parse_http_header_lem llhttp (new_inspector llhttp) http2_connection_preface refl).0

-- A second request of the connection is answered by the first one's header.
-- A request line in two payloads.
abbrev request_line : Text
request_line = codes "GET" ++ (13 ∷ [])

run_data-buffered_example :
    (run_data libs tt fresh fresh.header (codes "GE" ∷ ((codes "T" ++ (13 ∷ [])) ∷ []))).2
    ≡ record { method = codes "GET"; path = request_line; host = []; parse_state = done }
unfolding new_connection agrees through_line_end parse_request_line parse_http_header create_codec
    header_of dispatch dispatch_packet decode_headers run_filters add_header add_fields raw_host
    header_map_of apply_parsed_header dispatch_http1
run_data-buffered_example =
    (run_data-buffered libs tt fresh fresh.header (record { parser = codes "GE"; protocol = none })
      (record { parser = request_line; protocol = some http11 }) (codes "GE" ∷ [])
      (codes "T" ++ (13 ∷ [])) (http1_codec (new_http1 http1)) refl (more refl ready) refl refl).3
