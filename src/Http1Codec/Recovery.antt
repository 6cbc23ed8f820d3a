-- ===== src/Http1Codec/Recovery.antt =====
-- What an error leaves behind: `dispatch` of crates/http1_codec/src/lib.rs.
use net_policy.Common.{
  ℕ, ◌≡◌, ◌⊎◌, refl, subst, true, false, Bool-cases, Option, none, some, ltb, Text, length, drop,
  arith, inl, inr,
}
use net_policy.Http.Http1.{ParsedHeader}
use net_policy.Http1Codec.Headers.{Httparse, Headers, refused, more, parsed}
use net_policy.Http1Codec.Body.{Advance, advanced, failed, panic, out_of_fuel}
use net_policy.Http1Codec.Parser.{
  Phase, headers, body, ParserState, new_http1_parser, error_header, Turn, goes_on, breaks, returns,
  panics, drained, refused_turn, headers_turn, body_turn, answer, returned, turn, dispatch,
}
use net_policy.Http1Codec.Progress.{IsBounded}
use net_policy.Http1Codec.Returns.{Run, going, breaking, returning, dispatch-Run}
use net_policy.Http1Codec.Turns.{IsError}

abbrev IsDone : ParsedHeader → Type 0
IsDone h = h.parse_state ≡ 1

-- No result yet, or one that is done.
IsResult : Option ParsedHeader → Type 0
IsResult none = Unit
IsResult (some h) = IsDone h

-- What a turn may end with.
IsFair : Turn → Type 0
IsFair (goes_on q result) = IsResult result
IsFair (breaks q result) = IsResult result
IsFair (returns q h) = IsDone h ⊎ ((q ≡ new_http1_parser) × (h ≡ error_header))
IsFair panics = Unit

drained-IsFair :
    (n : ℕ) (s : Text) (rest : Text → Turn)
    → ((t : Text) → IsFair (rest t))
    → IsFair (drained n s rest)
unfolding drained
drained-IsFair n s rest h = elim (Bool-cases (ltb (length s) n)) [
  | inl e ↦ rw e (unfold IsFair in tt)
  | inr e ↦ rw e (h (drop n s))
]

headers_turn-IsFair :
    (s : Text) (result : Option ParsedHeader) (h : Headers)
    → IsResult result
    → IsFair (headers_turn s result h)
unfolding IsFair IsResult headers_turn refused_turn
headers_turn-IsFair s none refused d = inr (refl, refl)
headers_turn-IsFair s (some r) refused d = inl d
headers_turn-IsFair s result more d = d
headers_turn-IsFair s result (parsed r) d = drained-IsFair r.consumed s _ λ t. refl

body_turn-IsFair :
    (s : Text) (result : Option ParsedHeader) (x : Advance)
    → IsResult result
    → IsFair (body_turn s result x)
unfolding IsFair body_turn
body_turn-IsFair s result (advanced f n true) d = drained-IsFair n s _ λ t. d
body_turn-IsFair s result (advanced f n false) d = drained-IsFair n s _ λ t. d
body_turn-IsFair s result failed d = inr (refl, refl)
body_turn-IsFair s result panic d = tt
body_turn-IsFair s result out_of_fuel d = tt

module _ (httparse : Httparse) (bounded : IsBounded httparse) where
  turn-IsFair :
      (s : Text) (phase : Phase) (result : Option ParsedHeader)
      → IsResult result
      → IsFair (turn httparse s phase result)
  unfolding turn
  turn-IsFair s headers result d = headers_turn-IsFair s result _ d
  turn-IsFair s (body f) result d = body_turn-IsFair s result _ d

  Run-IsFair :
      (p q : ParserState) (result : Option ParsedHeader) (h : ParsedHeader)
      → Run httparse bounded p result q h
      → IsResult result
      → IsError h
      → (q ≡ new_http1_parser) × (h ≡ error_header)
  unfolding IsFair IsResult answer
  Run-IsFair p q result h (going _ p1 _ _ result1 _ e run) d bad =
      Run-IsFair p1 q result1 h run (subst IsFair e (turn-IsFair p.buf p.phase result d)) bad
  Run-IsFair p q result h (breaking _ _ _ none e) d bad = absurd (omega arith)
  Run-IsFair p q result h (breaking _ _ _ (some x) e) d bad =
      let done : IsDone x = subst IsFair e (turn-IsFair p.buf p.phase result d) in
      absurd (omega arith)
  Run-IsFair p q result h (returning _ _ _ _ e) d bad =
      elim (subst IsFair e (turn-IsFair p.buf p.phase result d)) [
        | inl done ↦ absurd (omega arith)
        | inr end ↦ end
      ]

  -- An error is reported by a parser that is new again: whatever bytes and state led to it, for a
  -- parse that takes a byte at least and no more than there are, an answer with the error state
  -- carries no header, and the parser keeps no byte and expects a request.
  pub dispatch_error :
      (p q : ParserState) (bytes : Text) (h : ParsedHeader)
      → dispatch httparse p bytes ≡ returned q h
      → IsError h
      → (q ≡ new_http1_parser) × (h ≡ error_header)
  unfolding IsResult
  dispatch_error p q bytes h e bad =
      Run-IsFair _ q none h (dispatch-Run httparse bounded p q bytes h e) tt bad
