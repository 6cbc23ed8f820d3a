-- ===== src/Http1Codec/Headers.antt =====
-- The request line and the header fields: crates/http1_codec/src/header_parser.rs. The httparse
-- crate is a parameter.
use net_policy.Common.{
  ℕ, Bool, true, false, ◌&&◌, Option, none, some, List, [], ◌∷◌, ◌==◌, nat_eq, text_eq,
  if◌then◌else◌, Text, codes,
}
use net_policy.Http1Codec.Strings.{trim, from_str_radix, eq_ignore_ascii_case, before_last}
use net_policy.Http1Codec.Lossy.{from_utf8_lossy}
use net_policy.Http1Codec.Target.{parse_request_target}

-- `httparse::Request`
pub record Request : Type 0 where
  pub method : Option Text
  pub path : Option Text
  pub headers : List (Text × Text)

-- `httparse::Status`, and `invalid` for any `httparse::Error`.
pub data Status : Type 0 where
  complete : ℕ → Request → Status
  partial invalid : Status

-- `Request::parse` with room for the given number of headers.
pub record Httparse : Type 0 where
  pub parse : ℕ → Text → Status

pub record HeaderParseResult : Type 0 where
  pub method : Text
  pub path : Text
  pub host : Text
  pub fields : List (Text × Text)
  pub content_length : Option ℕ
  pub chunked : Bool
  pub consumed : ℕ

-- `Err(())`, `Ok(None)` and `Ok(Some(..))`.
pub data Headers : Type 0 where
  refused more : Headers
  parsed : HeaderParseResult → Headers

abbrev pub max_headers : ℕ
max_headers = 100

unfoldable pub or_empty : Option Text → Text
or_empty none = []
or_empty (some s) = s

unfoldable pub is_content_length : Text → Bool
is_content_length name = eq_ignore_ascii_case name (codes "content-length")

unfoldable pub is_chunked : Text → Text → Bool
is_chunked name value =
    eq_ignore_ascii_case name (codes "transfer-encoding")
    && eq_ignore_ascii_case (trim value) (codes "chunked")

-- A length against the one of an earlier field.
unfoldable pub agree : Option ℕ → ℕ → Bool
agree none n = true
agree (some existing) n = existing == n

-- The field is pushed in front of those that the rest of the loop pushes.
abbrev pub push_field :
    Text × Text
    → Option (List (Text × Text) × Option ℕ × Bool)
    → Option (List (Text × Text) × Option ℕ × Bool)
push_field field none = none
push_field field (some (fields, content_length, chunked)) =
    some (field ∷ fields, content_length, chunked)

-- The loop over the headers: the fields, the length and whether the body is chunked.
unfoldable pub read_fields :
    List (Text × Text) → Option ℕ → Bool → Option (List (Text × Text) × Option ℕ × Bool)
read_fields [] content_length chunked = some ([], content_length, chunked)
read_fields ((name, raw) ∷ headers) content_length chunked =
    let value = from_utf8_lossy raw in
    elim (is_content_length name) [
      | true ↦ elim (from_str_radix 10 (trim value)) [
        | none ↦ none
        | some n ↦ elim (agree content_length n) [
          | false ↦ none
          | true ↦ push_field (name, value) (read_fields headers (some n) chunked)
        ]
      ]
      | false ↦ elim (is_chunked name value) [
        | true ↦ push_field (name, value) (read_fields headers content_length true)
        | false ↦ push_field (name, value) (read_fields headers content_length chunked)
      ]
    ]

-- The first host field without its port, when the target names no host.
unfoldable pub host_field : List (Text × Text) → Text
host_field [] = []
host_field ((name, value) ∷ fields) =
    let rest = host_field fields in
    if eq_ignore_ascii_case name (codes "host") then before_last 58 value else rest

unfoldable pub resolve_host : Text → List (Text × Text) → Text
resolve_host [] fields = host_field fields
resolve_host (c ∷ host) fields = c ∷ host

-- Both a length and a chunked body.
unfoldable pub is_ambiguous : Option ℕ → Bool → Bool
is_ambiguous none chunked = false
is_ambiguous (some n) chunked = chunked

abbrev pub unless : Bool → HeaderParseResult → Headers
unless true result = refused
unless false result = parsed result

unfoldable pub header_result : ℕ → Request → Option (List (Text × Text) × Option ℕ × Bool) → Headers
header_result consumed request none = refused
header_result consumed request (some (fields, content_length, chunked)) =
    let target = parse_request_target (or_empty request.path) in
    unless (is_ambiguous content_length chunked) (record {
      method = or_empty request.method;
      path = target.path;
      host = resolve_host target.host fields;
      fields = fields;
      content_length = content_length;
      chunked = chunked;
      consumed = consumed;
    })

unfoldable pub try_parse_headers : Httparse → Text → Headers
try_parse_headers httparse buf = elim (httparse.parse max_headers buf) [
  | complete n request ↦ header_result n request (read_fields request.headers none false)
  | partial ↦ more
  | invalid ↦ refused
]
