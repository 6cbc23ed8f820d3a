-- ===== src/Http1Codec/Interface.antt =====
-- crates/http1_codec fills the interface of the adapter in http/http1/codec.cc.
use net_policy.Common.{
  ◌≡◌, sym, ◌∙◌, Bool, false, Bool-cases, Text, ◌++◌, nat_beq_iff, nat_eq, ◌==◌, arith, inl, inr,
}
use net_policy.Http.Filters.{HttpFilterManager}
use net_policy.Http.Http1.{
  ParsedHeader, Http1Parser, Http1Connection, apply_parsed_header, dispatch_http1,
}
use net_policy.Http1Codec.Headers.{Httparse}
use net_policy.Http1Codec.Parser.{ParserState, new_http1_parser, returned, dispatch}
use net_policy.Http1Codec.Progress.{IsBounded}
use net_policy.Http1Codec.Returns.{dispatch_returns}
use net_policy.Http1Codec.Turns.{IsIncremental, IsError}
use net_policy.Http1Codec.Stream.{latest, dispatch-append}

module _ (httparse : Httparse) (bounded : IsBounded httparse) where
  -- `dispatch` returns, so it is a function to its state and its header.
  pub run : ParserState → Text → ParserState × ParsedHeader
  run p bytes = let (q, (h, e)) = dispatch_returns httparse bounded p bytes in (q, h)

  dispatch-run :
      (p : ParserState) (bytes : Text)
      → dispatch httparse p bytes ≡ returned (run p bytes).0 (run p bytes).1
  unfolding run
  dispatch-run p bytes = let (q, (h, e)) = dispatch_returns httparse bounded p bytes in e

  abbrev pub http1_codec : Http1Parser
  http1_codec = record { Parser = ParserState; new_http1_parser = new_http1_parser; dispatch = run }

  same_result :
      (x : ParserState × ParsedHeader) (q : ParserState) (h : ParsedHeader)
      → returned x.0 x.1 ≡ returned q h
      → x ≡ (q, h)
  same_result (q', h') q h e = let e1 : q' ≡ q = cc in let e2 : h' ≡ h = cc in rw (e1, e2)

  run-returned :
      (p q : ParserState) (bytes : Text) (h : ParsedHeader)
      → dispatch httparse p bytes ≡ returned q h
      → run p bytes ≡ (q, h)
  run-returned p q bytes h e = same_result (run p bytes) q h (sym (dispatch-run p bytes) ∙ e)

  latest-waiting : (h h' : ParsedHeader) → h'.parse_state ≡ 0 → latest h h' ≡ h
  unfolding latest
  latest-waiting h h' e = rw e

  latest-later : (h h' : ParsedHeader) → (h'.parse_state == 0) ≡ false → latest h h' ≡ h'
  unfolding latest
  latest-later h h' e = rw e

  module _ {W : Type 0} (incremental : IsIncremental httparse) (manager : HttpFilterManager W)
      (server_side : Bool) where
    abbrev feed : W → Http1Connection http1_codec → Text → W × Http1Connection http1_codec
    feed = dispatch_http1 http1_codec manager server_side

    -- The adapter does not see how a request is cut: for a parse that takes a byte at least and no
    -- more than there are, and that later bytes do not change once it is complete or invalid, where
    -- the parser asks for more after the first part and reports no error after the second, feeding
    -- the parts one after the other leaves the same world and the same connection as feeding them
    -- together.
    pub dispatch_http1-append :
        (w : W) (c : Http1Connection http1_codec) (a b : Text) (q q' : ParserState)
        (h h' : ParsedHeader)
        → dispatch httparse c.parser a ≡ returned q h
        → h.parse_state ≡ 0
        → dispatch httparse q b ≡ returned q' h'
        → ¬ IsError h'
        → (let (w', c') = feed w c a in feed w' c' b) ≡ feed w c (a ++ b)
    unfolding dispatch_http1 apply_parsed_header
    dispatch_http1-append w c a b q q' h h' e first e' n' =
        elim (Bool-cases (h'.parse_state == 0)) [
          | inl z ↦
              let later : h'.parse_state ≡ 0 = (nat_beq_iff _ 0).0 z in
              rw (
                run-returned c.parser q a h e,
                whole,
                latest-waiting h h' later,
                first,
                run-returned q q' b h' e',
                later,
              )
          | inr z ↦ rw (
            run-returned c.parser q a h e,
            whole,
            latest-later h h' z,
            first,
            run-returned q q' b h' e',
          )
        ]
      where
        whole : run c.parser (a ++ b) ≡ (q', latest h h')
        whole = run-returned c.parser q' (a ++ b) (latest h h') (
            dispatch-append httparse bounded incremental c.parser q q' a b h h' e
              (λ x. absurd (omega arith)) e' n')
