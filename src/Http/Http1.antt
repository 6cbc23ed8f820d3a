-- ===== src/Http/Http1.antt =====
-- The adapter over the HTTP/1 parser: http/http1/codec.h and http/http1/codec.cc
-- (http1::ConnectionImpl). The parser of crates/http1_codec enters as an interface.

use net_policy.Common.{
  ℕ, ◌+◌, leb, Bool, ◌&&◌, ◌||◌, Option, none, some, List, [], ◌∷◌, ◌==◌, nat_eq, text_eq,
  if◌then◌else◌, Text, codes,
}
use net_policy.Http.{Header, continue, done, error}
use net_policy.Http.Filters.{
  FilterStatus, RequestHeaderMap, add_header, HttpFilterManager, decode_headers,
}

-- What crosses the bridge from the parser; the state is 0 for Continue, 1 for Done, 2 for Error.
pub record ParsedHeader : Type 0 where
  pub parse_state : ℕ
  pub method : Text
  pub path : Text
  pub host : Text
  pub fields : List (Text × Text)

pub record Http1Parser : Type 1 where
  pub Parser : Type 0
  pub new_http1_parser : Parser
  pub dispatch : Parser → Text → Parser × ParsedHeader

-- `utility::toLow`, in the C locale.
unfoldable pub to_low : Text → Text
to_low [] = []
to_low (c ∷ s) = let rest = to_low s in if leb 65 c && leb c 90 then (c + 32) ∷ rest else c ∷ rest

module _ (http1 : Http1Parser) where
  open http1 use {Parser, new_http1_parser}

  -- The status is not set before the first header is done.
  pub record Http1Connection : Type 0 where
    pub parser : Parser
    pub header : Header
    pub raw_host_header : Text
    pub header_map : RequestHeaderMap
    pub status : Option FilterStatus

  abbrev pub new_http1 : Http1Connection
  new_http1 = record {
    parser = new_http1_parser;
    header = record { method = []; path = []; host = []; parse_state = continue };
    raw_host_header = [];
    header_map = [];
    status = none;
  }

  -- The loop over the parsed fields.
  unfoldable pub add_fields : List (Text × Text) → RequestHeaderMap → RequestHeaderMap
  add_fields [] headers = headers
  add_fields ((name, value) ∷ fields) headers =
      add_fields fields (add_header (to_low name) (to_low value) headers)

  unfoldable pub raw_host : List (Text × Text) → Text → Text
  raw_host [] host = host
  raw_host ((name, value) ∷ fields) host =
      raw_host fields (if name == codes "Host" || name == codes "host" then value else host)

  unfoldable pub header_map_of : ParsedHeader → RequestHeaderMap
  header_map_of parsed = add_header (codes ":path") parsed.path (
      add_header (codes ":method") parsed.method
        (add_header (codes ":host") parsed.host (add_fields parsed.fields [])))

  module _ {W : Type 0} (manager : HttpFilterManager W) (server_side : Bool) where
    unfoldable pub apply_parsed_header : W → Http1Connection → ParsedHeader → W × Http1Connection
    apply_parsed_header w c parsed =
        let (w', headers, status) = decode_headers manager w (header_map_of parsed) server_side in
        (
          w',
          record c {
            header = record {
              method = parsed.method;
              path = parsed.path;
              host = parsed.host;
              parse_state = done;
            };
            raw_host_header = raw_host parsed.fields [];
            header_map = headers;
            status = some status;
          },
        )

    -- Both overloads of `dispatch`: the one returns the header, the other the status.
    unfoldable pub dispatch_http1 : W → Http1Connection → Text → W × Http1Connection
    dispatch_http1 w c bytes =
        let (parser, parsed) = http1.dispatch c.parser bytes in
        let fed : Http1Connection = record c { parser = parser } in
        if parsed.parse_state == 2
        then (w, record fed { header = record c.header { parse_state = error } })
        else if parsed.parse_state == 0
        then (w, record fed { header = record c.header { parse_state = continue } })
        else apply_parsed_header w fed parsed
