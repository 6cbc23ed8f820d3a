-- ===== src/Http1Codec/Stream.antt =====
-- `dispatch` of crates/http1_codec/src/lib.rs on a stream that arrives in parts.
use net_policy.Common.{
  ℕ, ◌≡◌, ◌⊎◌, refl, ap, subst, ◌∙◌, sym, true, false, Bool-cases, Option, none, some, ◌++◌, ltb,
  if◌then◌else◌, Empty, Text, length, drop, inl, inr, ◌==◌, nat_eq,
}
use net_policy.Http.Http1.{ParsedHeader}
use net_policy.Http1Codec.Headers.{Httparse, Headers, refused, more, parsed, try_parse_headers}
use net_policy.Http1Codec.Body.{Advance, advanced, failed, panic, out_of_fuel, advance}
use net_policy.Http1Codec.Parser.{
  Phase, headers, body, ParserState, new_http1_parser, error_header, Turn, goes_on, breaks, returns,
  panics, drained, refused_turn, headers_turn, body_turn, answer, returned, turn, dispatch,
}
use net_policy.Http1Codec.Progress.{IsBounded}
use net_policy.Http1Codec.Returns.{Run, going, breaking, returning, Run-dispatch, dispatch-Run}
use net_policy.Http1Codec.Turns.{IsIncremental, IsError, followed, IsAhead, turn_at, turn-IsAhead}
use mathlib.Core.List.{append_assoc}

-- The answers of two calls as the one answer of a call on both their bytes.
unfoldable pub latest : ParsedHeader → ParsedHeader → ParsedHeader
latest h h' = if h'.parse_state == 0 then h else h'

module _ (httparse : Httparse) (bounded : IsBounded httparse)
    (incremental : IsIncremental httparse) where
  abbrev IsDone : ParsedHeader → Type 0
  IsDone h = h.parse_state ≡ 1

  -- What a turn without a result says of the turn with one.
  IsAlike : Option ParsedHeader → Turn → Turn → Type 0
  IsAlike result (goes_on q none) t = t ≡ goes_on q result
  IsAlike result (goes_on q (some r)) t = IsDone r × (t ≡ goes_on q (some r))
  IsAlike result (breaks q none) t = t ≡ breaks q result
  IsAlike result (breaks q (some r)) t = Empty
  IsAlike result (returns q h) t = IsError h
  IsAlike result panics t = Unit

  drained-IsAlike :
      (n : ℕ) (s : Text) (rest rest' : Text → Turn) (result : Option ParsedHeader)
      → ((t : Text) → IsAlike result (rest t) (rest' t))
      → IsAlike result (drained n s rest) (drained n s rest')
  unfolding drained
  drained-IsAlike n s rest rest' result h = elim (Bool-cases (ltb (length s) n)) [
    | inl e ↦ rw e (unfold IsAlike in tt)
    | inr e ↦ rw e (h (drop n s))
  ]

  turn-IsAlike :
      (s : Text) (phase : Phase) (result : Option ParsedHeader)
      → IsAlike result (turn httparse s phase none) (turn httparse s phase result)
  unfolding turn
  turn-IsAlike s headers result = by_headers (try_parse_headers httparse s)
    where
      by_headers : (h : Headers) → IsAlike result (headers_turn s none h) (headers_turn s result h)
      by_headers refused = unfold headers_turn refused_turn IsAlike in refl
      by_headers more = unfold headers_turn IsAlike in refl
      by_headers (parsed r) =
          unfold headers_turn in
          drained-IsAlike r.consumed s _ _ result λ t. unfold IsAlike in (refl, refl)
  turn-IsAlike s (body f) result = by_advance (advance f s)
    where
      by_advance : (x : Advance) → IsAlike result (body_turn s none x) (body_turn s result x)
      by_advance (advanced f' n true) =
          unfold body_turn in drained-IsAlike n s _ _ result λ t. unfold IsAlike in refl
      by_advance (advanced f' n false) =
          unfold body_turn in drained-IsAlike n s _ _ result λ t. unfold IsAlike in refl
      by_advance failed = unfold body_turn IsAlike in refl
      by_advance panic = unfold body_turn IsAlike in tt
      by_advance out_of_fuel = unfold body_turn IsAlike in tt

  -- A result once there is never lost.
  HasResult : Turn → Type 0
  HasResult (goes_on q none) = Empty
  HasResult (goes_on q (some r)) = IsDone r
  HasResult (breaks q none) = Empty
  HasResult (breaks q (some r)) = IsDone r
  HasResult (returns q h) = IsDone h ⊎ IsError h
  HasResult panics = Unit

  drained-HasResult :
      (n : ℕ) (s : Text) (rest : Text → Turn)
      → ((t : Text) → HasResult (rest t))
      → HasResult (drained n s rest)
  unfolding drained
  drained-HasResult n s rest h = elim (Bool-cases (ltb (length s) n)) [
    | inl e ↦ rw e (unfold HasResult in tt)
    | inr e ↦ rw e (h (drop n s))
  ]

  turn-HasResult :
      (s : Text) (phase : Phase) (x : ParsedHeader)
      → IsDone x
      → HasResult (turn httparse s phase (some x))
  unfolding turn
  turn-HasResult s headers x d = by_headers (try_parse_headers httparse s)
    where
      by_headers : (h : Headers) → HasResult (headers_turn s (some x) h)
      by_headers refused = unfold headers_turn refused_turn HasResult in inl d
      by_headers more = unfold headers_turn HasResult in d
      by_headers (parsed r) =
          unfold headers_turn in drained-HasResult r.consumed s _ λ t. unfold HasResult in refl
  turn-HasResult s (body f) x d = by_advance (advance f s)
    where
      by_advance : (y : Advance) → HasResult (body_turn s (some x) y)
      by_advance (advanced f' n true) =
          unfold body_turn in drained-HasResult n s _ λ t. unfold HasResult in d
      by_advance (advanced f' n false) =
          unfold body_turn in drained-HasResult n s _ λ t. unfold HasResult in d
      by_advance failed = unfold body_turn HasResult in inr refl
      by_advance panic = unfold body_turn HasResult in tt
      by_advance out_of_fuel = unfold body_turn HasResult in tt

  Run-IsDone :
      (p q : ParserState) (x h : ParsedHeader)
      → Run httparse bounded p (some x) q h
      → IsDone x
      → ¬ IsError h
      → IsDone h
  unfolding HasResult answer
  Run-IsDone p q x h (going _ p1 _ _ none _ e run) d n =
      elim (subst HasResult e (turn-HasResult p.buf p.phase x d)) [ ]
  Run-IsDone p q x h (going _ p1 _ _ (some x') _ e run) d n =
      Run-IsDone p1 q x' h run (subst HasResult e (turn-HasResult p.buf p.phase x d)) n
  Run-IsDone p q x h (breaking _ _ _ none e) d n =
      elim (subst HasResult e (turn-HasResult p.buf p.phase x d)) [ ]
  Run-IsDone p q x h (breaking _ _ _ (some x') e) d n =
      subst HasResult e (turn-HasResult p.buf p.phase x d)
  Run-IsDone p q x h (returning _ _ _ _ e) d n =
      elim (subst HasResult e (turn-HasResult p.buf p.phase x d)) [
        | inl y ↦ y
        | inr y ↦ absurd (n y)
      ]

  latest-done : (h h' : ParsedHeader) → IsDone h' → latest h h' ≡ h'
  unfolding latest
  latest-done h h' d = rw d

  -- A run without a result, and the one with an earlier result.
  Run-latest :
      (p q : ParserState) (h : ParsedHeader) (result : Option ParsedHeader)
      → Run httparse bounded p none q h
      → ¬ IsError h
      → Run httparse bounded p result q (latest (answer result) h)
  unfolding IsAlike
  Run-latest p q h result (going _ p1 _ _ none _ e run) n =
      going p p1 q result result _
        (subst (λ t. IsAlike result t (turn_at httparse p result)) e
          (turn-IsAlike p.buf p.phase result))
        (Run-latest p1 q h result run n)
  Run-latest p q h result (going _ p1 _ _ (some x) _ e run) n =
      let (d, e') =
        subst (λ t. IsAlike result t (turn_at httparse p result)) e
          (turn-IsAlike p.buf p.phase result) in
      rw (latest-done (answer result) h (Run-IsDone p1 q x h run d n))
        (going p p1 q result (some x) h e' run)
  Run-latest p q h result (breaking _ _ _ none e) n =
      unfold latest answer in
      breaking p q result result (
        subst (λ t. IsAlike result t (turn_at httparse p result)) e
          (turn-IsAlike p.buf p.phase result))
  Run-latest p q h result (breaking _ _ _ (some x) e) n =
      elim (subst (λ t. IsAlike result t (turn_at httparse p result)) e
        (turn-IsAlike p.buf p.phase result)) [ ]
  Run-latest p q h result (returning _ _ _ _ e) n = absurd (
      n (
        subst (λ t. IsAlike result t (turn_at httparse p result)) e
          (turn-IsAlike p.buf p.phase result)))

  -- A run is decided by its first turn.
  Run-turn :
      (p p' q : ParserState) (result result' : Option ParsedHeader) (h : ParsedHeader)
      → turn_at httparse p result ≡ turn_at httparse p' result'
      → Run httparse bounded p' result' q h
      → Run httparse bounded p result q h
  Run-turn p p' q result result' h e (going _ p1 _ _ result1 _ e' run) =
      going p p1 q result result1 h (e ∙ e') run
  Run-turn p p' q result result' h e (breaking _ _ _ result1 e') =
      breaking p q result result1 (e ∙ e')
  Run-turn p p' q result result' h e (returning _ _ _ _ e') = returning p q result h (e ∙ e')

  Run-refused :
      (p q s : ParserState) (result : Option ParsedHeader) (h r : ParsedHeader)
      → turn_at httparse p result ≡ returns s r
      → Run httparse bounded p result q h
      → r ≡ h
  Run-refused p q s result h r e (going _ p1 _ _ result1 _ e' run) =
      let clash : returns s r ≡ goes_on p1 result1 = sym e ∙ e' in cc
  Run-refused p q s result h r e (breaking _ _ _ result1 e') =
      let clash : returns s r ≡ breaks q result1 = sym e ∙ e' in cc
  Run-refused p q s result h r e (returning _ _ _ _ e') =
      let same : returns s r ≡ returns q h = sym e ∙ e' in cc

  Run-append :
      (p q q' : ParserState) (b : Text) (result : Option ParsedHeader) (h h' : ParsedHeader)
      → Run httparse bounded p result q h
      → ¬ IsError h
      → Run httparse bounded (followed q b) none q' h'
      → ¬ IsError h'
      → Run httparse bounded (followed p b) result q' (latest h h')
  unfolding IsAhead
  Run-append p q q' b result h h' (going _ p1 _ _ result1 _ e run) n run' n' =
      going (followed p b) (followed p1 b) q' result result1 _
        (subst (λ t. IsAhead (turn_at httparse) b t (turn_at httparse (followed p b) result)) e
          (turn-IsAhead httparse bounded incremental p b result))
        (Run-append p1 q q' b result1 h h' run n run' n')
  Run-append p q q' b result h h' (breaking _ _ _ result1 e) n run' n' =
      Run-turn (followed p b) (followed q b) q' result result1 _
        (subst (λ t. IsAhead (turn_at httparse) b t (turn_at httparse (followed p b) result)) e
          (turn-IsAhead httparse bounded incremental p b result))
        (Run-latest (followed q b) q' h' result1 run' n')
  Run-append p q q' b result h h' (returning _ _ _ _ e) n run' n' =
      elim (subst (λ t. IsAhead (turn_at httparse) b t (turn_at httparse (followed p b) result)) e
        (turn-IsAhead httparse bounded incremental p b result)) [
          | inl bad ↦ absurd (n bad)
          | inr refusal ↦ absurd (
              n' (
                ap (λ x. x.parse_state)
                  (sym (
                    Run-refused (followed q b) q' new_http1_parser none h' error_header refusal
                      run'))))
        ]

  -- A stream is parsed the same however it is cut: for a parse that takes a byte at least and no more
  -- than there are, and that later bytes do not change once it is complete or invalid, two calls of
  -- `dispatch` of which neither reports an error leave the parser as one call on both their bytes
  -- does, and that call reports the later header of the two.
  pub dispatch-append :
      (p q q' : ParserState) (a b : Text) (h h' : ParsedHeader)
      → dispatch httparse p a ≡ returned q h
      → ¬ IsError h
      → dispatch httparse q b ≡ returned q' h'
      → ¬ IsError h'
      → dispatch httparse p (a ++ b) ≡ returned q' (latest h h')
  dispatch-append p q q' a b h h' e n e' n' =
      Run-dispatch httparse bounded p q' (a ++ b) (latest h h') (
        rw (← append_assoc p.buf a b) (
          Run-append (followed p a) q q' b none h h' (dispatch-Run httparse bounded p q a h e) n
            (dispatch-Run httparse bounded q q' b h' e') n'))
