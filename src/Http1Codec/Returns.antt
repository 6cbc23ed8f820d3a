-- ===== src/Http1Codec/Returns.antt =====
-- The loop of `dispatch` of crates/http1_codec/src/lib.rs: its runs, and that it returns.
use net_policy.Common.{
  ℕ, zero, suc, ◌<◌, ◌≡◌, refl, subst, ◌∙◌, sym, Option, none, ◌++◌, Text, arith,
}
use net_policy.Http.Http1.{ParsedHeader}
use net_policy.Http1Codec.Headers.{Httparse}
use net_policy.Http1Codec.Parser.{
  ParserState, Turn, goes_on, breaks, returns, panics, answer, Dispatched, returned, turn,
  dispatch_loop, dispatch,
}
use net_policy.Http1Codec.Progress.{
  IsBounded, measure, measure_bound, IsProgress, IsProgress-mono, turn-IsProgress,
}

module _ (httparse : Httparse) (bounded : IsBounded httparse) where
  -- The runs of the loop.
  pub data Run : ParserState → Option ParsedHeader → ParserState → ParsedHeader → Type 0 where
    going :
        (p q s : ParserState) (result result' : Option ParsedHeader) (r : ParsedHeader)
        → turn httparse p.buf p.phase result ≡ goes_on q result'
        → Run q result' s r
        → Run p result s r
    breaking :
        (p q : ParserState) (result result' : Option ParsedHeader)
        → turn httparse p.buf p.phase result ≡ breaks q result'
        → Run p result q (answer result')
    returning :
        (p q : ParserState) (result : Option ParsedHeader) (r : ParsedHeader)
        → turn httparse p.buf p.phase result ≡ returns q r
        → Run p result q r

  pub IsReturn : ParserState → Option ParsedHeader → Dispatched → Type 0
  IsReturn p result d =
      (q : ParserState) × ((r : ParsedHeader) × (d ≡ returned q r) × Run p result q r)

  turned :
      (k : ℕ) (p : ParserState) (result : Option ParsedHeader) (t : Turn)
      → turn httparse p.buf p.phase result ≡ t
      → IsProgress k t
      → ((q : ParserState) (result' : Option ParsedHeader)
          → measure q.buf q.phase < k
          → IsReturn q result' (dispatch_loop httparse k q result'))
      → IsReturn p result (dispatch_loop httparse (suc k) p result)
  unfolding IsReturn IsProgress dispatch_loop
  turned k p result (goes_on q result') e less next =
      let (s, (r, e', run)) = next q result' less in
      (s, (r, rw (e, dispatch_loop) e', going p q s result result' r e run))
  turned k p result (breaks q result') e less next =
      (q, (answer result', rw (e, dispatch_loop), breaking p q result result' e))
  turned k p result (returns q r) e less next =
      (q, (r, rw (e, dispatch_loop), returning p q result r e))
  turned k p result panics e less next = elim less [ ]

  dispatch_loop-IsReturn :
      (k : ℕ) (p : ParserState) (result : Option ParsedHeader)
      → measure p.buf p.phase < k
      → IsReturn p result (dispatch_loop httparse k p result)
  dispatch_loop-IsReturn zero p result h = absurd (omega arith)
  dispatch_loop-IsReturn (suc k) p result h =
      turned k p result _ refl
        (IsProgress-mono _ k _ (omega arith)
          (turn-IsProgress httparse bounded p.buf p.phase result))
        λ q result' l. dispatch_loop-IsReturn k q result' l

  pub dispatch-IsReturn :
      (p : ParserState) (bytes : Text)
      → IsReturn (record p { buf = p.buf ++ bytes }) none (dispatch httparse p bytes)
  unfolding dispatch
  dispatch-IsReturn p bytes =
      dispatch_loop-IsReturn _ _ none (measure_bound (p.buf ++ bytes) p.phase)

  goes_on_less :
      (p q : ParserState) (result result' : Option ParsedHeader)
      → turn httparse p.buf p.phase result ≡ goes_on q result'
      → measure q.buf q.phase < measure p.buf p.phase
  unfolding IsProgress
  goes_on_less p q result result' e =
      subst (IsProgress (measure p.buf p.phase)) e
        (turn-IsProgress httparse bounded p.buf p.phase result)

  pub Run-dispatch_loop :
      (k : ℕ) (p s : ParserState) (result : Option ParsedHeader) (r : ParsedHeader)
      → Run p result s r
      → measure p.buf p.phase < k
      → dispatch_loop httparse k p result ≡ returned s r
  unfolding dispatch_loop
  Run-dispatch_loop zero p s result r run h = absurd (omega arith)
  Run-dispatch_loop (suc k) p s result r (going _ q _ _ result' _ e run) h =
      rw (e, dispatch_loop)
        (Run-dispatch_loop k q s result' r run (omega (arith, goes_on_less p q result result' e)))
  Run-dispatch_loop (suc k) p s result r (breaking _ _ _ result' e) h = rw (e, dispatch_loop)
  Run-dispatch_loop (suc k) p s result r (returning _ _ _ _ e) h = rw (e, dispatch_loop)

  pub Run-dispatch :
      (p s : ParserState) (bytes : Text) (r : ParsedHeader)
      → Run (record p { buf = p.buf ++ bytes }) none s r
      → dispatch httparse p bytes ≡ returned s r
  unfolding dispatch
  Run-dispatch p s bytes r run =
      Run-dispatch_loop _ _ s none r run (measure_bound (p.buf ++ bytes) p.phase)

  -- `dispatch` returns: for a parse that takes a byte at least and no more than there are, its loop
  -- ends on every state and every bytes, and no drain is out of bounds.
  pub dispatch_returns :
      (p : ParserState) (bytes : Text)
      → (q : ParserState) × ((r : ParsedHeader) × (dispatch httparse p bytes ≡ returned q r))
  unfolding IsReturn
  dispatch_returns p bytes = let (q, (r, e, run)) = dispatch-IsReturn p bytes in (q, (r, e))

  renamed :
      (p q q' : ParserState) (result : Option ParsedHeader) (r r' : ParsedHeader)
      → returned q r ≡ returned q' r'
      → Run p result q r
      → Run p result q' r'
  renamed p q q' result r r' e run =
      let e1 : q ≡ q' = cc in
      let e2 : r ≡ r' = cc in
      subst (λ x. Run p result x r') e1 (subst (λ x. Run p result q x) e2 run)

  pub dispatch-Run :
      (p q : ParserState) (bytes : Text) (r : ParsedHeader)
      → dispatch httparse p bytes ≡ returned q r
      → Run (record p { buf = p.buf ++ bytes }) none q r
  unfolding IsReturn
  dispatch-Run p q bytes r e =
      let (q', (r', e', run)) = dispatch-IsReturn p bytes in
      renamed _ q' q none r' r (sym e' ∙ e) run
