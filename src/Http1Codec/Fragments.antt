-- ===== src/Http1Codec/Fragments.antt =====
-- A chunked body that arrives in parts: `advance` of crates/http1_codec/src/body_framing.rs.
use net_policy.Common.{
  ℕ, zero, suc, ◌+◌, ◌-◌, ◌≤◌, ◌<◌, ◌≡◌, refl, ap, Bool, ◌&&◌, ◌==◌, nat_eq, true, false, Option,
  none, some, [], ◌∷◌, ◌++◌, Empty, Text, if◌then◌else◌, length, drop, length-drop, length-append,
  arith, Option-cases, inl, inr,
}
use native.Mathlib.Decide.{dec_lt}
use net_policy.Http1Codec.Slices.{
  find_crlf_within, find_crlf-append, take-append, drop-append, drop_all, drop-append_right,
}
use net_policy.Http1Codec.Body.{
  BodyFraming, chunked_size, chunked_data, chunked_trailer, find_crlf, min, Round, again, pause,
  complete, malformed, unreachable, sized, after_data, trailer, chunked_round,
}

-- The rounds of a body that is chunked.
pub data IsChunked : BodyFraming → Type 0 where
  size : IsChunked chunked_size
  body : (n : ℕ) → IsChunked (chunked_data n)
  last : IsChunked chunked_trailer

-- What a round says of the bytes it is given and of those that follow them.
unfoldable pub after_first : ℕ → Round → Round
after_first n (again framing m) = again framing (n + m)
after_first n (pause framing m) = pause framing (n + m)
after_first n (complete m) = complete (n + m)
after_first n malformed = malformed
after_first n unreachable = unreachable

after_first_zero : (r : Round) → r ≡ after_first 0 r
unfolding after_first
after_first_zero (again framing m) = ap (again framing) (omega arith)
after_first_zero (pause framing m) = ap (pause framing) (omega arith)
after_first_zero (complete m) = ap complete (omega arith)
after_first_zero malformed = refl
after_first_zero unreachable = refl

-- What the round on `a` promises of the round on `a ++ b`: a round that goes on, ends the body or
-- fails does the same, and one that pauses is taken up where it stood.
unfoldable pub IsFirm : Text → Text → Round → Round → Type 0
IsFirm a b (again f n) r = (1 ≤ n) × (n ≤ length a) × IsChunked f × (r ≡ again f n)
IsFirm a b (pause f n) r =
    (n ≤ length a) × IsChunked f × (r ≡ after_first n (chunked_round f (drop n a ++ b)))
IsFirm a b (complete n) r = (n ≤ length a) × (r ≡ complete n)
IsFirm a b malformed r = r ≡ malformed
IsFirm a b unreachable r = Empty

data_waits :
    (m : ℕ) (r : Text)
    → length r < m
    → chunked_round (chunked_data m) r ≡ pause (chunked_data (m - length r)) (length r)
unfolding chunked_round min
data_waits m r h = ground arith

pub data_full :
    (m : ℕ) (r : Text) → m ≤ length r → chunked_round (chunked_data m) r ≡ after_data m (drop m r)
unfolding chunked_round min
data_full m r h = ground arith

after_first-after_data :
    (n m : ℕ) (s : Text) → after_first n (after_data m s) ≡ after_data (n + m) s
unfolding after_first after_data
after_first-after_data n m [] = refl
after_first-after_data n m (x ∷ []) = refl
after_first-after_data n m (x ∷ y ∷ s) = ground arith

sized-IsFirm :
    (n : ℕ) (o : Option ℕ) (a b : Text) → n + 2 ≤ length a → IsFirm a b (sized n o) (sized n o)
unfolding IsFirm sized
sized-IsFirm n none a b h = refl
sized-IsFirm n (some zero) a b h = (omega arith, h, last, refl)
sized-IsFirm n (some (suc m)) a b h = (omega arith, h, body (suc m), refl)

trailer-IsFirm :
    (n : ℕ) (a b : Text) → n + 2 ≤ length a → IsFirm a b (trailer (some n)) (trailer (some n))
unfolding IsFirm trailer
trailer-IsFirm zero a b h = (omega arith, refl)
trailer-IsFirm (suc n) a b h = (omega arith, h, last, refl)

resumed : (m : ℕ) (s : Text) → after_data m s ≡ after_first m (chunked_round (chunked_data 0) s)
resumed m s =
    rw (data_full 0 s (omega arith), after_first-after_data m 0 s)
      (ap (λ k. after_data k s) (omega arith))

test-IsFirm :
    (here : Bool) (m : ℕ) (a b : Text)
    → m + 2 ≤ length a
    → IsFirm a b
        (if here then again chunked_size (m + 2) else malformed)
        (if here then again chunked_size (m + 2) else malformed)
unfolding IsFirm
test-IsFirm true m a b h = (omega arith, h, size, refl)
test-IsFirm false m a b h = refl

-- The end of a chunk's data at `tail`, which is what stands behind the data in `a`.
after_data-IsFirm :
    (m : ℕ) (tail a b : Text)
    → drop m a ≡ tail
    → m + length tail ≤ length a
    → IsFirm a b (after_data m tail) (after_data m (tail ++ b))
unfolding IsFirm after_data
after_data-IsFirm m [] a b e h = (omega arith, body 0, rw e (resumed m b))
after_data-IsFirm m (x ∷ []) a b e h = (omega arith, body 0, rw e (resumed m (x ∷ b)))
after_data-IsFirm m (x ∷ y ∷ t) a b e h = test-IsFirm (x == 13 && y == 10) m a b (omega arith)

-- Data that is not all there yet.
rest_of_data :
    (m : ℕ) (a b : Text)
    → length a < m
    → chunked_round (chunked_data m) (a ++ b)
      ≡ after_first (length a) (chunked_round (chunked_data (m - length a)) b)
unfolding after_first
rest_of_data m a b h = elim (dec_lt (length b) (m - length a)) [
  | yes l ↦
      rw
        (
          data_waits m (a ++ b) (omega (arith, length-append a b)),
          data_waits (m - length a) b l,
          length-append,
        )
        (ap (λ k. pause (chunked_data k) (length a + length b)) (omega arith))
  | no n ↦
      rw
        (
          data_full m (a ++ b) (omega (arith, length-append a b)),
          data_full (m - length a) b (omega arith),
          after_first-after_data,
          drop-append_right m (m - length a) a b (omega arith),
        )
        (ap (λ k. after_data k (drop (m - length a) b)) (omega arith))
]

data-IsFirm :
    (m : ℕ) (a b : Text)
    → IsFirm a b (chunked_round (chunked_data m) a) (chunked_round (chunked_data m) (a ++ b))
data-IsFirm m a b = elim (dec_lt (length a) m) [
  | yes l ↦
      rw (data_waits m a l)
        (unfold IsFirm in (omega arith, body _, rw (drop_all a) (rest_of_data m a b l)))
  | no n ↦
      rw
        (
          data_full m a (omega arith),
          data_full m (a ++ b) (omega (arith, length-append a b)),
          drop-append m a b (omega arith),
        )
        (after_data-IsFirm m (drop m a) a b refl (omega (arith, length-drop m a)))
]

size-IsFirm :
    (a b : Text) → IsFirm a b (chunked_round chunked_size a) (chunked_round chunked_size (a ++ b))
unfolding chunked_round
size-IsFirm a b = elim (Option-cases (find_crlf a)) [
  | inl e ↦ rw (e, chunked_round) (unfold IsFirm in (omega arith, size, after_first_zero _))
  | inr (n, e) ↦
      rw
        (
          e,
          chunked_round,
          find_crlf-append a b n e,
          take-append n a b (omega (arith, find_crlf_within a n e)),
        )
        (sized-IsFirm n _ a b (find_crlf_within a n e))
]

last-IsFirm :
    (a b : Text)
    → IsFirm a b (chunked_round chunked_trailer a) (chunked_round chunked_trailer (a ++ b))
unfolding chunked_round
last-IsFirm a b = elim (Option-cases (find_crlf a)) [
  | inl e ↦ rw (e, chunked_round) (unfold IsFirm trailer in (omega arith, last, after_first_zero _))
  | inr (n, e) ↦
      rw (e, chunked_round, find_crlf-append a b n e)
        (trailer-IsFirm n a b (find_crlf_within a n e))
]

pub chunked_round-IsFirm :
    (f : BodyFraming) (a b : Text)
    → IsChunked f
    → IsFirm a b (chunked_round f a) (chunked_round f (a ++ b))
chunked_round-IsFirm f a b size = size-IsFirm a b
chunked_round-IsFirm f a b (body m) = data-IsFirm m a b
chunked_round-IsFirm f a b last = last-IsFirm a b
