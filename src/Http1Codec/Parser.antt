-- ===== src/Http1Codec/Parser.antt =====
-- The parser of a connection: crates/http1_codec/src/lib.rs (Http1Parser).
use net_policy.Common.{
  ℕ, zero, suc, ◌+◌, ◌*◌, ltb, true, false, Option, none, some, [], ◌++◌, if◌then◌else◌, Text,
  length, drop,
}
use net_policy.Http.Http1.{ParsedHeader}
use net_policy.Http1Codec.Headers.{
  Httparse, HeaderParseResult, Headers, refused, more, parsed, try_parse_headers,
}
use net_policy.Http1Codec.Body.{
  BodyFraming, start, Advance, advanced, failed, panic, out_of_fuel, advance,
}

pub data Phase : Type 0 where
  headers : Phase
  body : BodyFraming → Phase

pub record ParserState : Type 0 where
  pub buf : Text
  pub phase : Phase

abbrev pub new_http1_parser : ParserState
new_http1_parser = record { buf = []; phase = headers }

-- `..Default::default()` with the given state.
abbrev pub bare_header : ℕ → ParsedHeader
bare_header state = record { parse_state = state; method = []; path = []; host = []; fields = [] }

abbrev pub continue_header : ParsedHeader
continue_header = bare_header 0

abbrev pub error_header : ParsedHeader
error_header = bare_header 2

abbrev pub done_header : HeaderParseResult → ParsedHeader
done_header r = record {
  parse_state = 1;
  method = r.method;
  path = r.path;
  host = r.host;
  fields = r.fields;
}

-- One round of the loop of `dispatch`: it goes on, breaks, or returns.
pub data Turn : Type 0 where
  goes_on breaks : ParserState → Option ParsedHeader → Turn
  returns : ParserState → ParsedHeader → Turn
  panics : Turn

-- `buf.drain(..n)`, which panics past the end.
unfoldable pub drained : ℕ → Text → (Text → Turn) → Turn
drained n buf rest = if ltb (length buf) n then panics else rest (drop n buf)

-- A request line or a header that is refused: an earlier result goes first, and then the buffer stays.
unfoldable pub refused_turn : Text → Option ParsedHeader → Turn
refused_turn buf (some r) = returns (record { buf = buf; phase = headers }) r
refused_turn buf none = returns new_http1_parser error_header

unfoldable pub headers_turn : Text → Option ParsedHeader → Headers → Turn
headers_turn buf result refused = refused_turn buf result
headers_turn buf result more = breaks (record { buf = buf; phase = headers }) result
headers_turn buf result (parsed r) = drained r.consumed buf λ rest.
    goes_on (record { buf = rest; phase = body (start r.content_length r.chunked) })
      (some (done_header r))

unfoldable pub body_turn : Text → Option ParsedHeader → Advance → Turn
body_turn buf result (advanced framing consumed true) =
    drained consumed buf λ rest. goes_on (record { buf = rest; phase = headers }) result
body_turn buf result (advanced framing consumed false) =
    drained consumed buf λ rest. breaks (record { buf = rest; phase = body framing }) result
body_turn buf result failed = returns new_http1_parser error_header
body_turn buf result panic = panics
body_turn buf result out_of_fuel = panics

unfoldable pub answer : Option ParsedHeader → ParsedHeader
answer none = continue_header
answer (some r) = r

-- What `dispatch` ends with; `stuck` is no end of the source's.
pub data Dispatched : Type 0 where
  returned : ParserState → ParsedHeader → Dispatched
  panicked stuck : Dispatched

module _ (httparse : Httparse) where
  unfoldable pub turn : Text → Phase → Option ParsedHeader → Turn
  turn buf headers result = headers_turn buf result (try_parse_headers httparse buf)
  turn buf (body framing) result = body_turn buf result (advance framing buf)

  unfoldable pub dispatch_loop : ℕ → ParserState → Option ParsedHeader → Dispatched
  dispatch_loop zero p result = stuck
  dispatch_loop (suc fuel) p result = elim (turn p.buf p.phase result) [
    | goes_on q result' ↦ dispatch_loop fuel q result'
    | breaks q result' ↦ returned q (answer result')
    | returns q r ↦ returned q r
    | panics ↦ panicked
  ]

  -- Parsed headers take a byte at least, and a body follows them.
  unfoldable pub dispatch : ParserState → Text → Dispatched
  dispatch p bytes =
      dispatch_loop (suc (2 * length (p.buf ++ bytes) + 1)) (record p { buf = p.buf ++ bytes }) none
