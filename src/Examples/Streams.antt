-- ===== src/Examples/Streams.antt =====
-- The HTTP/1 parser on concrete bytes.
use net_policy.Common.{
  ℕ, suc, ◌≤◌, ◌≡◌, refl, true, Bool-cases, none, some, [], ◌∷◌, ◌++◌, ◌==◌, nat_eq, text_beq,
  if◌then◌else◌, Text, length, codes, arith, inl, inr,
}
use net_policy.Http.Filters.{no_filters}
use net_policy.Http.Http1.{ParsedHeader, Http1Connection, new_http1, dispatch_http1, to_low}
use net_policy.Http1Codec.Strings.{
  contains, eq_ignore_ascii_case, trim, reverse_onto, trim_end, trim_start, before_last, digit,
  digits, from_first, from_str_radix, is_space1, is_space2, space3, strip_prefix, take, up_to,
}
use net_policy.Http1Codec.Lossy.{from_utf8_lossy, first_byte, lossy, next_char, start_char}
use net_policy.Http1Codec.Target.{strip_scheme, parse_request_target}
use net_policy.Http1Codec.Headers.{
  Request, Status, complete, partial, invalid, Httparse, or_empty, HeaderParseResult,
  try_parse_headers, header_result, read_fields, is_content_length, is_chunked, agree, host_field,
  is_ambiguous, resolve_host,
}
use net_policy.Http1Codec.Body.{
  chunked_size, chunked_data, chunked_trailer, advanced, advance, advance_chunked, after_data,
  chunked_loop, chunked_round, find_crlf, min, size_of_line, sized, start, trailer,
}
use net_policy.Http1Codec.Splits.{IsSplit, advance-IsSplit}
use net_policy.Http1Codec.Chunks.{Chunk, IsLine, advance-body_text}
use net_policy.Http1Codec.Parser.{
  headers, body, ParserState, new_http1_parser, error_header, returned, dispatch, turn,
  dispatch_loop, headers_turn, refused_turn, answer, body_turn, drained,
}
use net_policy.Http1Codec.Progress.{IsBounded}
use net_policy.Http1Codec.Returns.{dispatch_returns}
use net_policy.Http1Codec.Turns.{IsIncremental}
use net_policy.Http1Codec.Stream.{latest, dispatch-append}
use net_policy.Http1Codec.Interface.{http1_codec, dispatch_http1-append}
use net_policy.Http1Codec.Smuggling.{IsUnambiguous, try_parse_headers-IsUnambiguous}
use net_policy.Http1Codec.Recovery.{dispatch_error}

-- A parse of one line: a zero byte is invalid, each letter C stands for a field that says the body is
-- chunked, and the line is the target.
abbrev chunked_field : Text × Text
chunked_field = (codes "Transfer-Encoding", codes "chunked")

abbrev pushed : ℕ → Status → Status
pushed c (complete n r) = complete (suc n) (record r {
  path = some (c ∷ or_empty r.path);
  headers = if c == 67 then chunked_field ∷ r.headers else r.headers;
})
pushed c partial = partial
pushed c invalid = invalid

abbrev request_line : Request
request_line = record { method = some (codes "GET"); path = some []; headers = [] }

abbrev scan : Text → Status
scan [] = partial
scan (c ∷ s) =
    let rest = scan s in
    if c == 10 then complete 1 request_line else if c == 0 then invalid else pushed c rest

abbrev httparse : Httparse
httparse = record { parse = λ room s. scan s }

pushed_done :
    (c n : ℕ) (x : Status) (r : Request)
    → pushed c x ≡ complete n r
    → (m : ℕ) × ((q : Request) × (x ≡ complete m q) × (suc m ≡ n))
pushed_done c n (complete m q) r e = (m, (q, refl, cc))
pushed_done c n partial r e = cc
pushed_done c n invalid r e = cc

scan_within : (s : Text) (n : ℕ) (r : Request) → scan s ≡ complete n r → (1 ≤ n) × (n ≤ length s)
scan_within [] n r e = cc
scan_within (c ∷ s) n r e = elim (Bool-cases (c == 10)) [
  | inl h ↦
      let e' : complete 1 request_line ≡ complete n r = rw h at e in
      let e1 : 1 ≡ n = cc in omega arith
  | inr h ↦ elim (Bool-cases (c == 0)) [
    | inl k ↦ let e' : invalid ≡ complete n r = rw (h, k) at e in cc
    | inr k ↦
        let (m, (q, x, y)) = pushed_done c n (scan s) r (rw (h, k) at e) in
        omega (arith, scan_within s m q x)
  ]
]

scan_done :
    (s t : Text) (n : ℕ) (r : Request) → scan s ≡ complete n r → scan (s ++ t) ≡ complete n r
scan_done [] t n r e = cc
scan_done (c ∷ s) t n r e = elim (Bool-cases (c == 10)) [
  | inl h ↦ rw h (rw h at e)
  | inr h ↦ elim (Bool-cases (c == 0)) [
    | inl k ↦ rw (h, k) (rw (h, k) at e)
    | inr k ↦
        let (m, (q, x, y)) = pushed_done c n (scan s) r (rw (h, k) at e) in
        rw (h, k, scan_done s t m q x) (rw (h, k, x) at e)
  ]
]

pushed_bad : (c : ℕ) (x : Status) → pushed c x ≡ invalid → x ≡ invalid
pushed_bad c (complete m q) e = cc
pushed_bad c partial e = cc
pushed_bad c invalid e = refl

scan_bad : (s t : Text) → scan s ≡ invalid → scan (s ++ t) ≡ invalid
scan_bad [] t e = cc
scan_bad (c ∷ s) t e = elim (Bool-cases (c == 10)) [
  | inl h ↦ let e' : complete 1 request_line ≡ invalid = rw h at e in cc
  | inr h ↦ elim (Bool-cases (c == 0)) [
    | inl k ↦ rw (h, k) (rw (h, k) at e)
    | inr k ↦ rw (h, k, scan_bad s t (pushed_bad c (scan s) (rw (h, k) at e)))
  ]
]

bounded : IsBounded httparse
bounded = record { within = scan_within }

incremental : IsIncremental httparse
incremental = record { done = scan_done; bad = scan_bad }

abbrev crlf : Text
crlf = 13 ∷ 10 ∷ []

abbrev three : Text
three = codes "3" ++ (crlf ++ (codes "foo" ++ crlf))

abbrev last_chunk : Text
last_chunk = codes "0" ++ (crlf ++ crlf)

-- One chunk, cut in its data.
advance-IsSplit_example :
    IsSplit
      (codes "3" ++ (crlf ++ codes "f"))
      (codes "oo" ++ (crlf ++ last_chunk))
      (advance chunked_size (codes "3" ++ (crlf ++ codes "f")))
      (advance chunked_size (three ++ last_chunk))
advance-IsSplit_example =
    advance-IsSplit chunked_size (codes "3" ++ (crlf ++ codes "f"))
      (codes "oo" ++ (crlf ++ last_chunk))

abbrev chunk : Chunk
chunk = record { line = codes "3;x=y"; content = codes "foo" }

is_line : IsLine (codes "3;x=y")
unfolding find_crlf
is_line = record { unended = refl }

advance-body_text_example :
    advance chunked_size (
      codes "3;x=y"
      ++ (crlf
          ++ (codes "foo"
              ++ (crlf
                  ++ (codes "0" ++ (crlf ++ (codes "X: y" ++ (crlf ++ (crlf ++ codes "GET")))))))))
    ≡ advanced chunked_trailer 23 true
unfolding find_crlf size_of_line from_str_radix trim reverse_onto trim_end trim_start up_to
    is_space1 digits digit
advance-body_text_example =
    advance-body_text (chunk ∷ []) (codes "0") (codes "X: y" ∷ []) (codes "GET")
      (record { is_line = is_line; some_data = omega arith; sized = refl }, tt)
      (record { unended = refl }) refl
      (record { is_line = record { unended = refl }; some_text = omega arith }, tt)

dispatch_returns_example :
    (q : ParserState) × ((r : ParsedHeader) × (dispatch httparse new_http1_parser (codes "GET")
        ≡ returned q r))
dispatch_returns_example = dispatch_returns httparse bounded new_http1_parser (codes "GET")

abbrev chunked_header : ParsedHeader
chunked_header = record {
  parse_state = 1;
  method = codes "GET";
  path = codes "C";
  host = [];
  fields = chunked_field ∷ [];
}

abbrev continue_header : ParsedHeader
continue_header = record { parse_state = 0; method = []; path = []; host = []; fields = [] }

-- A request with a chunked body, cut in a chunk.
dispatch-append_example :
    dispatch httparse new_http1_parser (codes "C" ++ (10 ∷ (three ++ last_chunk)))
    ≡ returned new_http1_parser chunked_header
unfolding turn dispatch dispatch_loop headers_turn refused_turn try_parse_headers header_result
    read_fields is_content_length is_chunked eq_ignore_ascii_case text_beq to_low trim reverse_onto
    trim_end trim_start from_utf8_lossy advance advance_chunked after_data chunked_loop
    chunked_round find_crlf min size_of_line sized start trailer agree host_field is_ambiguous
    or_empty resolve_host first_byte lossy next_char start_char answer body_turn drained before_last
    contains digit digits from_first from_str_radix is_space1 is_space2 space3 strip_prefix take
    up_to parse_request_target strip_scheme latest
dispatch-append_example =
    dispatch-append httparse bounded incremental new_http1_parser
      (record { buf = []; phase = body (chunked_data 2) }) new_http1_parser
      (codes "C" ++ (10 ∷ (codes "3" ++ (crlf ++ codes "f")))) (codes "oo" ++ (crlf ++ last_chunk))
      chunked_header continue_header refl (λ e. cc) refl (λ e. cc)

dispatch_error_example : (new_http1_parser ≡ new_http1_parser) × (error_header ≡ error_header)
unfolding turn dispatch dispatch_loop headers_turn refused_turn try_parse_headers header_result
    read_fields is_content_length is_chunked eq_ignore_ascii_case text_beq to_low trim reverse_onto
    trim_end trim_start from_utf8_lossy advance advance_chunked after_data chunked_loop
    chunked_round find_crlf min size_of_line sized start trailer agree host_field is_ambiguous
    or_empty resolve_host first_byte lossy next_char start_char answer body_turn drained before_last
    contains digit digits from_first from_str_radix is_space1 is_space2 space3 strip_prefix take
    up_to parse_request_target strip_scheme
dispatch_error_example =
    dispatch_error httparse bounded new_http1_parser new_http1_parser (71 ∷ 0 ∷ []) error_header
      refl refl

-- A stray zero byte after a request stays in the buffer, and the next request is refused for it.
stray_byte_kept :
    dispatch httparse new_http1_parser (codes "a" ++ (10 ∷ 0 ∷ []))
    ≡ returned
        (record { buf = 0 ∷ []; phase = headers })
        (record chunked_header { path = codes "a"; fields = [] })
unfolding turn dispatch dispatch_loop headers_turn refused_turn try_parse_headers header_result
    read_fields is_content_length is_chunked eq_ignore_ascii_case text_beq to_low trim reverse_onto
    trim_end trim_start from_utf8_lossy advance advance_chunked after_data chunked_loop
    chunked_round find_crlf min size_of_line sized start trailer agree host_field is_ambiguous
    or_empty resolve_host first_byte lossy next_char start_char answer body_turn drained before_last
    contains digit digits from_first from_str_radix is_space1 is_space2 space3 strip_prefix take
    up_to parse_request_target strip_scheme
stray_byte_kept = refl

next_request_refused :
    dispatch httparse (record { buf = 0 ∷ []; phase = headers }) (codes "b" ++ (10 ∷ []))
    ≡ returned new_http1_parser error_header
unfolding turn dispatch dispatch_loop headers_turn refused_turn try_parse_headers header_result
    read_fields is_content_length is_chunked eq_ignore_ascii_case text_beq to_low trim reverse_onto
    trim_end trim_start from_utf8_lossy advance advance_chunked after_data chunked_loop
    chunked_round find_crlf min size_of_line sized start trailer agree host_field is_ambiguous
    or_empty resolve_host first_byte lossy next_char start_char answer body_turn drained before_last
    contains digit digits from_first from_str_radix is_space1 is_space2 space3 strip_prefix take
    up_to parse_request_target strip_scheme
next_request_refused = refl

abbrev fed : Unit {0} × Http1Connection (http1_codec httparse bounded)
fed =
    dispatch_http1 (http1_codec httparse bounded) no_filters true tt
      (new_http1 (http1_codec httparse bounded)) (codes "C")

-- A request line that is cut.
dispatch_http1-append_example :
    dispatch_http1
      (http1_codec httparse bounded)
      no_filters
      true
      fed.0
      fed.1
      (10 ∷ (three ++ last_chunk))
    ≡ dispatch_http1
        (http1_codec httparse bounded)
        no_filters
        true
        tt
        (new_http1 (http1_codec httparse bounded))
        (codes "C" ++ (10 ∷ (three ++ last_chunk)))
unfolding turn dispatch dispatch_loop headers_turn refused_turn try_parse_headers header_result
    read_fields is_content_length is_chunked eq_ignore_ascii_case text_beq to_low trim reverse_onto
    trim_end trim_start from_utf8_lossy advance advance_chunked after_data chunked_loop
    chunked_round find_crlf min size_of_line sized start trailer agree host_field is_ambiguous
    or_empty resolve_host first_byte lossy next_char start_char answer body_turn drained before_last
    contains digit digits from_first from_str_radix is_space1 is_space2 space3 strip_prefix take
    up_to parse_request_target strip_scheme
dispatch_http1-append_example =
    dispatch_http1-append httparse bounded incremental no_filters true tt
      (new_http1 (http1_codec httparse bounded)) (codes "C") (10 ∷ (three ++ last_chunk))
      (record { buf = codes "C"; phase = headers }) new_http1_parser continue_header chunked_header
      refl refl refl (λ e. cc)

abbrev chunked_result : HeaderParseResult
chunked_result = record {
  method = codes "GET";
  path = codes "C";
  host = [];
  fields = chunked_field ∷ [];
  content_length = none;
  chunked = true;
  consumed = 2;
}

try_parse_headers-IsUnambiguous_example : IsUnambiguous chunked_result
unfolding turn dispatch dispatch_loop headers_turn refused_turn try_parse_headers header_result
    read_fields is_content_length is_chunked eq_ignore_ascii_case text_beq to_low trim reverse_onto
    trim_end trim_start from_utf8_lossy advance advance_chunked after_data chunked_loop
    chunked_round find_crlf min size_of_line sized start trailer agree host_field is_ambiguous
    or_empty resolve_host first_byte lossy next_char start_char answer body_turn drained before_last
    contains digit digits from_first from_str_radix is_space1 is_space2 space3 strip_prefix take
    up_to parse_request_target strip_scheme
try_parse_headers-IsUnambiguous_example =
    try_parse_headers-IsUnambiguous httparse (codes "C" ++ (10 ∷ [])) chunked_result refl
