-- ===== src/Http1Codec/Progress.antt =====
-- One turn of the loop of `dispatch` of crates/http1_codec/src/lib.rs: the bytes that it takes. What
-- the httparse crate documents of a parse enters as hypotheses.
use net_policy.Common.{
  ℕ, suc, ◌+◌, ◌*◌, ◌≤◌, ◌<◌, ◌≡◌, refl, ap, sym, Bool, true, false, Option, none, some, List, [],
  Empty, Text, length, drop, length-drop, arith,
}
use net_policy.Http.Http1.{ParsedHeader}
use net_policy.Http1Codec.Headers.{
  Request, Status, complete, partial, invalid, Httparse, HeaderParseResult, Headers, refused, more,
  parsed, unless, is_ambiguous, header_result, read_fields, max_headers, try_parse_headers,
}
use net_policy.Http1Codec.Body.{Advance, advanced, failed, panic, out_of_fuel}
use net_policy.Http1Codec.Splits.{IsSplit, advance-IsSplit}
use net_policy.Http1Codec.Parser.{
  Phase, headers, body, Turn, goes_on, breaks, returns, panics, drained, refused_turn, headers_turn,
  body_turn, turn,
}

-- `Complete(n)`: the head of the message was `n` bytes of the buffer, and it has an end.
pub record IsBounded (httparse : Httparse) : Type 0 where
  pub within :
      (s : Text) (n : ℕ) (r : Request)
      → httparse.parse max_headers s ≡ complete n r
      → (1 ≤ n) × (n ≤ length s)

-- Bytes left to parse, with a body to come counted too.
pub measure : Text → Phase → ℕ
measure buf headers = 2 * length buf
measure buf (body framing) = 2 * length buf + 1

pub measure_bound : (buf : Text) (phase : Phase) → measure buf phase < suc (2 * length buf + 1)
unfolding measure
measure_bound buf headers = omega arith
measure_bound buf (body framing) = omega arith

pub drained-cut :
    (n : ℕ) (buf : Text) (rest : Text → Turn)
    → n ≤ length buf
    → drained n buf rest ≡ rest (drop n buf)
unfolding drained
drained-cut n buf rest h = ground arith

pub unless_parsed : (b : Bool) (r r' : HeaderParseResult) → unless b r ≡ parsed r' → r ≡ r'
unless_parsed true r r' e = cc
unless_parsed false r r' e = cc

header_result_consumed :
    (n : ℕ) (q : Request) (o : Option (List (Text × Text) × Option ℕ × Bool))
    (r : HeaderParseResult)
    → header_result n q o ≡ parsed r
    → r.consumed ≡ n
unfolding header_result
header_result_consumed n q none r e = cc
header_result_consumed n q (some (fields, length, chunked)) r e =
    sym (ap (λ x. x.consumed) (unless_parsed (is_ambiguous length chunked) _ r e))

-- What the loop needs of a turn: it gets nearer to its end, or it ends without a panic.
unfoldable pub IsProgress : ℕ → Turn → Type 0
IsProgress m (goes_on q r) = measure q.buf q.phase < m
IsProgress m (breaks q r) = Unit
IsProgress m (returns q r) = Unit
IsProgress m panics = Empty

pub IsProgress-mono : (m k : ℕ) (t : Turn) → m ≤ k → IsProgress m t → IsProgress k t
unfolding IsProgress
IsProgress-mono m k (goes_on q r) h p = omega arith
IsProgress-mono m k (breaks q r) h p = tt
IsProgress-mono m k (returns q r) h p = tt
IsProgress-mono m k panics h p = p

drained-IsProgress :
    (n m : ℕ) (buf : Text) (rest : Text → Turn)
    → n ≤ length buf
    → IsProgress m (rest (drop n buf))
    → IsProgress m (drained n buf rest)
drained-IsProgress n m buf rest h k = rw (drained-cut n buf rest h) k

headers_turn-IsProgress :
    (buf : Text) (result : Option ParsedHeader) (h : Headers)
    → ((r : HeaderParseResult) → h ≡ parsed r → (1 ≤ r.consumed) × (r.consumed ≤ length buf))
    → IsProgress (2 * length buf) (headers_turn buf result h)
headers_turn-IsProgress buf (some r) refused b = unfold headers_turn refused_turn IsProgress in tt
headers_turn-IsProgress buf none refused b = unfold headers_turn refused_turn IsProgress in tt
headers_turn-IsProgress buf result more b = unfold headers_turn IsProgress in tt
headers_turn-IsProgress buf result (parsed r) b =
    let (lo, hi) = b r refl in
    unfold headers_turn in
    drained-IsProgress r.consumed (2 * length buf) buf _ hi
      (unfold IsProgress measure in omega (arith, length-drop r.consumed buf))

body_turn-IsProgress :
    (buf : Text) (result : Option ParsedHeader) (x y : Advance)
    → IsSplit buf [] x y
    → IsProgress (2 * length buf + 1) (body_turn buf result x)
unfolding IsSplit body_turn
body_turn-IsProgress buf result (advanced f n true) y (h, e) =
    drained-IsProgress n (2 * length buf + 1) buf _ h
      (unfold IsProgress measure in omega (arith, length-drop n buf))
body_turn-IsProgress buf result (advanced f n false) y (h, e) =
    drained-IsProgress n (2 * length buf + 1) buf _ h (unfold IsProgress in tt)
body_turn-IsProgress buf result failed y h = unfold IsProgress in tt
body_turn-IsProgress buf result panic y h = elim h [ ]
body_turn-IsProgress buf result out_of_fuel y h = elim h [ ]

module _ (httparse : Httparse) (bounded : IsBounded httparse) where
  pub try_parse_headers_within :
      (s : Text) (r : HeaderParseResult) (x : Status)
      → httparse.parse max_headers s ≡ x
      → try_parse_headers httparse s ≡ parsed r
      → (1 ≤ r.consumed) × (r.consumed ≤ length s)
  unfolding try_parse_headers
  try_parse_headers_within s r (complete n q) e p =
      let c : r.consumed ≡ n =
        header_result_consumed n q (read_fields q.headers none false) r
          (rw (e, try_parse_headers) at p) in
      rw c (bounded.within s n q e)
  try_parse_headers_within s r partial e p =
      let q : more ≡ parsed r = rw (e, try_parse_headers) at p in cc
  try_parse_headers_within s r invalid e p =
      let q : refused ≡ parsed r = rw (e, try_parse_headers) at p in cc

  pub turn-IsProgress :
      (buf : Text) (phase : Phase) (result : Option ParsedHeader)
      → IsProgress (measure buf phase) (turn httparse buf phase result)
  unfolding turn measure
  turn-IsProgress buf headers result =
      headers_turn-IsProgress buf result (try_parse_headers httparse buf)
        λ r e. try_parse_headers_within buf r _ refl e
  turn-IsProgress buf (body framing) result =
      body_turn-IsProgress buf result _ _ (advance-IsSplit framing buf [])
