-- ===== src/Http1Codec/Turns.antt =====
-- One round of the loop of `dispatch` of crates/http1_codec/src/lib.rs, on a buffer and on a longer one.
use net_policy.Common.{
  ℕ, ◌+◌, ◌≤◌, ◌≡◌, ◌⊎◌, refl, ap, ◌∙◌, sym, true, false, Option, none, some, ◌++◌, Text, length,
  drop, length-drop, length-append, arith, inl, inr, nat_eq,
}
use net_policy.Http.Http1.{ParsedHeader}
use net_policy.Http1Codec.Headers.{
  Request, Status, complete, partial, invalid, Httparse, Headers, refused, more, parsed,
  max_headers, try_parse_headers,
}
use net_policy.Http1Codec.Body.{BodyFraming, Advance, advanced, failed, panic, out_of_fuel, advance}
use net_policy.Http1Codec.Slices.{drop-append, drop-drop}
use net_policy.Http1Codec.Resumed.{moved}
use net_policy.Http1Codec.Splits.{IsSplit, advance-IsSplit}
use net_policy.Http1Codec.Parser.{
  Phase, headers, body, ParserState, new_http1_parser, error_header, Turn, goes_on, breaks, returns,
  panics, drained, refused_turn, headers_turn, body_turn, turn,
}
use net_policy.Http1Codec.Progress.{IsBounded, drained-cut, try_parse_headers_within}

-- A parse that is decided is not changed by the bytes that follow.
pub record IsIncremental (httparse : Httparse) : Type 0 where
  pub done :
      (s t : Text) (n : ℕ) (r : Request)
      → httparse.parse max_headers s ≡ complete n r
      → httparse.parse max_headers (s ++ t) ≡ complete n r
  pub bad :
      (s t : Text)
      → httparse.parse max_headers s ≡ invalid
      → httparse.parse max_headers (s ++ t) ≡ invalid

abbrev pub IsError : ParsedHeader → Type 0
IsError h = h.parse_state ≡ 2

abbrev pub followed : ParserState → Text → ParserState
followed q b = record q { buf = q.buf ++ b }

-- What a turn says of the turn on a longer buffer.
unfoldable pub IsAhead : (ParserState → Option ParsedHeader → Turn) → Text → Turn → Turn → Type 0
IsAhead next b (goes_on q r) t = t ≡ goes_on (followed q b) r
IsAhead next b (breaks q r) t = t ≡ next (followed q b) r
IsAhead next b (returns q h) t =
    IsError h ⊎ (next (followed q b) none ≡ returns new_http1_parser error_header)
IsAhead next b panics t = Unit

drained-append :
    (n : ℕ) (s b : Text) (rest : Text → Turn)
    → n ≤ length s
    → drained n (s ++ b) rest ≡ rest (drop n s ++ b)
drained-append n s b rest h =
    drained-cut n (s ++ b) rest (omega (arith, length-append s b)) ∙ ap rest (drop-append n s b h)

drained-drop :
    (n m : ℕ) (s : Text) (rest : Text → Turn)
    → n ≤ length s
    → drained (n + m) s rest ≡ drained m (drop n s) rest
unfolding drained
drained-drop n m s rest h = ground (arith, drop-drop m n (n + m) s refl, length-drop n s)

body_turn-moved :
    (n : ℕ) (s : Text) (result : Option ParsedHeader) (x : Advance)
    → n ≤ length s
    → body_turn s result (moved n x) ≡ body_turn (drop n s) result x
unfolding body_turn moved
body_turn-moved n s result (advanced f m true) h = drained-drop n m s _ h
body_turn-moved n s result (advanced f m false) h = drained-drop n m s _ h
body_turn-moved n s result failed h = refl
body_turn-moved n s result panic h = refl
body_turn-moved n s result out_of_fuel h = refl

body_turn-IsAhead :
    (s b : Text) (result : Option ParsedHeader) (next : ParserState → Option ParsedHeader → Turn)
    (x y : Advance)
    → ((f : BodyFraming) (t : Text)
        → next (record { buf = t; phase = body f }) result ≡ body_turn t result (advance f t))
    → IsSplit s b x y
    → IsAhead next b (body_turn s result x) (body_turn (s ++ b) result y)
unfolding IsSplit body_turn
body_turn-IsAhead s b result next (advanced f n true) y same (h, e) =
    rw (e, drained-cut n s _ h, drained-append n s b _ h) (unfold IsAhead in refl)
body_turn-IsAhead s b result next (advanced f n false) y same (h, e) =
    rw
      (
        e,
        body_turn-moved n (s ++ b) result (advance f (drop n s ++ b))
            (omega (arith, length-append s b)),
        drained-cut n s _ h,
        drop-append n s b h,
      )
      (unfold IsAhead in sym (same f (drop n s ++ b)))
body_turn-IsAhead s b result next failed y same e = rw e (unfold IsAhead in inl refl)
body_turn-IsAhead s b result next panic y same e = elim e [ ]
body_turn-IsAhead s b result next out_of_fuel y same e = elim e [ ]

abbrev pub turn_at : Httparse → ParserState → Option ParsedHeader → Turn
turn_at httparse p result = turn httparse p.buf p.phase result

module _ (httparse : Httparse) (bounded : IsBounded httparse)
    (incremental : IsIncremental httparse) where
  -- What the headers of a buffer say of those of a longer one.
  IsDecided : Text → Headers → Headers → Type 0
  IsDecided s (parsed r) h = (r.consumed ≤ length s) × (h ≡ parsed r)
  IsDecided s refused h = h ≡ refused
  IsDecided s more h = Unit

  try_parse_headers-stable :
      (s b : Text) (y : Status)
      → httparse.parse max_headers s ≡ y
      → (try_parse_headers httparse s ≡ more)
        ⊎ (try_parse_headers httparse (s ++ b) ≡ try_parse_headers httparse s)
  unfolding try_parse_headers
  try_parse_headers-stable s b (complete n q) e =
      inr (rw (e, try_parse_headers, incremental.done s b n q e))
  try_parse_headers-stable s b partial e = inl (rw (e, try_parse_headers))
  try_parse_headers-stable s b invalid e = inr (rw (e, try_parse_headers, incremental.bad s b e))

  try_parse_headers-IsDecided :
      (s b : Text) (x : Headers)
      → try_parse_headers httparse s ≡ x
      → IsDecided s x (try_parse_headers httparse (s ++ b))
  unfolding IsDecided
  try_parse_headers-IsDecided s b more e = tt
  try_parse_headers-IsDecided s b refused e = elim (try_parse_headers-stable s b _ refl) [
    | inl h ↦ let clash : more ≡ refused = sym h ∙ e in cc
    | inr h ↦ h ∙ e
  ]
  try_parse_headers-IsDecided s b (parsed r) e = elim (try_parse_headers-stable s b _ refl) [
    | inl h ↦ let clash : more ≡ parsed r = sym h ∙ e in cc
    | inr h ↦ ((try_parse_headers_within httparse bounded s r _ refl e).1, h ∙ e)
  ]

  headers_turn-IsAhead :
      (s b : Text) (result : Option ParsedHeader) (x y : Headers)
      → try_parse_headers httparse (s ++ b) ≡ y
      → IsDecided s x y
      → IsAhead (turn_at httparse) b (headers_turn s result x) (headers_turn (s ++ b) result y)
  unfolding IsDecided IsAhead headers_turn refused_turn turn
  headers_turn-IsAhead s b result (parsed r) y k (h, e) =
      rw (e, drained-cut r.consumed s _ h, drained-append r.consumed s b _ h) refl
  headers_turn-IsAhead s b result more y k h = rw k
  headers_turn-IsAhead s b none refused y k e = inl refl
  headers_turn-IsAhead s b (some r) refused y k e = inr (rw (k, e))

  pub turn-IsAhead :
      (p : ParserState) (b : Text) (result : Option ParsedHeader)
      → IsAhead
          (turn_at httparse)
          b
          (turn_at httparse p result)
          (turn_at httparse (followed p b) result)
  turn-IsAhead p b result = by_phase p.buf p.phase
    where
      by_phase :
          (s : Text) (phase : Phase)
          → IsAhead
              (turn_at httparse)
              b
              (turn httparse s phase result)
              (turn httparse (s ++ b) phase result)
      by_phase s headers =
          unfold turn in
          headers_turn-IsAhead s b result _ _ refl (try_parse_headers-IsDecided s b _ refl)
      by_phase s (body f) =
          unfold turn in
          body_turn-IsAhead s b result (turn_at httparse) _ _ (λ f' t. unfold turn in refl)
            (advance-IsSplit f s b)
