-- ===== src/Http/Inspector.antt =====
-- The recognition of the protocol: http/http_inspector.h and http/http_inspector.cc
-- (HttpInspector). The llhttp library is a parameter.
use net_policy.Common.{
  ℕ, ◌≡◌, refl, Bool, true, false, ◌&&◌, ◌||◌, not, Option, none, some, [], ◌∷◌, ◌++◌, length, ltb,
  ◌==◌, nat_eq, text_eq, if◌then◌else◌, Text, codes, arith, Option-cases, Bool-cases, inl, inr,
}
use net_policy.Http.{ParseState, continue, done, error}

-- `llhttp_init` for either kind of message, and `llhttp_execute`, with whether it returns `HPE_OK`
-- or `HPE_PAUSED`.
pub record Llhttp : Type 1 where
  pub Parser : Type 0
  pub init : Parser
  pub execute : Parser → Text → Parser × Bool

pub data Protocol : Type 0 where
  http10 http11 http2 http3 : Protocol

abbrev crlf : Text
crlf = 13 ∷ (10 ∷ [])

abbrev pub http2_connection_preface : Text
http2_connection_preface =
    codes "PRI * HTTP/2.0" ++ (crlf ++ (crlf ++ (codes "SM" ++ (crlf ++ crlf))))

-- `preface.compare(0, len, bytes, 0, len) == 0` for the smaller of the lengths.
unfoldable pub agrees : Text → Text → Bool
agrees [] bytes = true
agrees (c ∷ preface) [] = true
agrees (c ∷ preface) (b ∷ bytes) = c == b && agrees preface bytes

abbrev is_line_end : ℕ → Bool
is_line_end b = b == 13 || b == 10

abbrev starts_line_end : Text → Bool
starts_line_end [] = false
starts_line_end (b ∷ bytes) = is_line_end b

-- `substr(0, pos + 1)` for the first CR or LF.
unfoldable pub through_line_end : Text → Option Text
through_line_end [] = none
through_line_end (b ∷ bytes) = elim (through_line_end bytes) [
  | none ↦ if is_line_end b then some (b ∷ []) else none
  | some line ↦ if is_line_end b then some (b ∷ []) else some (b ∷ line)
]

-- Whether a text begins with another.
abbrev pub starts_with : Text → Text → Bool
starts_with [] bytes = true
starts_with (c ∷ start) [] = false
starts_with (c ∷ start) (b ∷ bytes) = c == b && starts_with start bytes

module _ (llhttp : Llhttp) where
  open llhttp use {Parser, init, execute}

  -- The protocol is not set before the first request line.
  pub record HttpInspector : Type 0 where
    pub parser : Parser
    pub protocol : Option Protocol

  abbrev pub new_inspector : HttpInspector
  new_inspector = record { parser = init; protocol = none }

  unfoldable pub parse_request_line : HttpInspector → Text → HttpInspector × ParseState
  parse_request_line i bytes = elim (through_line_end bytes) [
    | some line ↦
        let (parser, ok) = execute i.parser line in
        if ok
        then (record { parser = parser; protocol = some http11 }, done)
        else (record i { parser = parser }, error)
    | none ↦
        let (parser, ok) = execute i.parser bytes in
        (record i { parser = parser }, if ok then continue else error)
  ]

  unfoldable pub parse_http_header : HttpInspector → Text → HttpInspector × ParseState
  parse_http_header i bytes =
      if agrees http2_connection_preface bytes
      then if ltb (length bytes) (length http2_connection_preface)
        then (i, continue)
        else (record i { protocol = some http2 }, done)
      else if starts_line_end bytes
      then (i, error)
      else parse_request_line i bytes

-- Agreeing with a preface that is not longer is beginning with it.
agrees-starts_with :
    (preface bytes : Text)
    → starts_with preface bytes
      ≡ (agrees preface bytes && not (ltb (length bytes) (length preface)))
unfolding agrees
agrees-starts_with [] bytes = ground arith
agrees-starts_with (c ∷ preface) [] = ground arith
agrees-starts_with (c ∷ preface) (b ∷ bytes) = ground (arith, agrees-starts_with preface bytes)

abbrev pub is_http2 : Option Protocol → Bool
is_http2 none = false
is_http2 (some http10) = false
is_http2 (some http11) = false
is_http2 (some http2) = true
is_http2 (some http3) = false

module _ (llhttp : Llhttp) where
  request_line-protocol :
      (i : HttpInspector llhttp) (bytes : Text)
      → is_http2 i.protocol ≡ false
      → is_http2 (parse_request_line llhttp i bytes).0.protocol ≡ false
  unfolding parse_request_line
  request_line-protocol i bytes h = elim (Option-cases (through_line_end bytes)) [
    | inl e ↦ rw (e, parse_request_line) h
    | inr (line, e) ↦ elim (Bool-cases (llhttp.execute i.parser line).1) [
      | inl ok ↦ rw (e, parse_request_line, ok) refl
      | inr failed ↦ rw (e, parse_request_line, failed) h
    ]
  ]

  -- By an inspector that has not recognized it yet, HTTP/2 is recognized exactly in a payload that begins with the whole preface. A payload that is
  -- shorter and agrees with it is waited for, and is not passed to the parser of request lines.
  pub parse_http_header_lem :
      (i : HttpInspector llhttp) (bytes : Text)
      → is_http2 i.protocol ≡ false
      → let r = parse_http_header llhttp i bytes in
        (is_http2 r.0.protocol ≡ starts_with http2_connection_preface bytes)
        × (starts_with http2_connection_preface bytes ≡ true → r.1 ≡ done)
        × (agrees http2_connection_preface bytes ≡ true
            → starts_with http2_connection_preface bytes ≡ false
            → r ≡ (i, continue))
  unfolding parse_http_header
  parse_http_header_lem i bytes h =
      let begins = agrees-starts_with http2_connection_preface bytes in
      elim (Bool-cases (agrees http2_connection_preface bytes)) [
        | inl a ↦ elim (Bool-cases (ltb (length bytes) (length http2_connection_preface))) [
          | inl short ↦ rw (begins, a, short) (h, λ e. cc, λ e f. refl)
          | inr long ↦ rw (begins, a, long) (refl, λ e. refl, λ e f. cc)
        ]
        | inr a ↦ elim (Bool-cases (starts_line_end bytes)) [
          | inl blank ↦ rw (begins, a, blank) (h, λ e. cc, λ e. cc)
          | inr line ↦ rw (begins, a, line) (request_line-protocol i bytes h, λ e. cc, λ e. cc)
        ]
      ]
