-- ===== src/Http1Codec/Splits.antt =====
-- `advance` of crates/http1_codec/src/body_framing.rs: the end of a body does not depend on how its
-- bytes are split into buffers.
use net_policy.Common.{
  ℕ, zero, suc, ◌+◌, ◌-◌, ◌≤◌, ◌<◌, ◌≡◌, refl, ap, ◌∙◌, sym, true, false, ◌++◌, Empty, Text, length,
  drop, length-drop, length-append, arith,
}
use native.Mathlib.Decide.{dec_lt}
use native.Mathlib.Nat.{zero-add}
use net_policy.Http1Codec.Slices.{drop-append, drop-drop, drop_all}
use net_policy.Http1Codec.Body.{
  BodyFraming, no_body, content_length, chunked_size, chunked_data, chunked_trailer, min, Round,
  again, pause, complete, malformed, unreachable, chunked_round, Advance, advanced, failed, panic,
  out_of_fuel, chunked_loop, advance_chunked, advance,
}
use net_policy.Http1Codec.Fragments.{
  after_first, IsChunked, size, body, last, IsFirm, chunked_round-IsFirm,
}
use net_policy.Http1Codec.Resumed.{
  after_round, chunked_loop-after_round, moved, chunked_loop-moved, chunked_loop-fuel,
}

moved-moved : (m n k : ℕ) (r : Advance) → m + n ≡ k → moved m (moved n r) ≡ moved k r
unfolding moved
moved-moved m n k (advanced f q c) e = ap (λ p. advanced f p c) (omega arith)
moved-moved m n k failed e = refl
moved-moved m n k panic e = refl
moved-moved m n k out_of_fuel e = refl

-- What the result on `a` promises of the result on `a ++ b`, in a body that is chunked.
IsResumable : Text → Text → Advance → Advance → Type 0
IsResumable a b (advanced f n false) r =
    (n ≤ length a) × IsChunked f × (r ≡ moved n (advance_chunked f (drop n a ++ b)))
IsResumable a b (advanced f n true) r = (n ≤ length a) × (r ≡ advanced f n true)
IsResumable a b failed r = r ≡ failed
IsResumable a b panic r = Empty
IsResumable a b out_of_fuel r = Empty

moved-IsResumable :
    (n : ℕ) (a b : Text) (x y : Advance)
    → n ≤ length a
    → IsResumable (drop n a) b x y
    → IsResumable a b (moved n x) (moved n y)
unfolding IsResumable moved
moved-IsResumable n a b (advanced f m false) y h (k, c, e) = (
  omega (arith, length-drop n a),
  c,
  rw (e, drop-drop m n (n + m) a refl) (moved-moved n m (n + m) _ refl),
)
moved-IsResumable n a b (advanced f m true) y h (k, e) =
    (omega (arith, length-drop n a), rw e (unfold moved in refl))
moved-IsResumable n a b failed y h e = rw e refl
moved-IsResumable n a b panic y h e = e
moved-IsResumable n a b out_of_fuel y h e = e

-- A pause, and the round that takes up the rest.
after_round-resumed :
    (j n : ℕ) (s t : Text) (r : Round)
    → drop n s ≡ t
    → after_round j 0 s (after_first n r) ≡ moved n (after_round j 0 t r)
unfolding after_round after_first moved
after_round-resumed j n s t (again f m) e =
    rw (← e, drop-drop m n (n + m) s refl)
      (chunked_loop-moved j n (0 + m) (0 + (n + m)) f (drop (n + m) s) (omega arith))
after_round-resumed j n s t (pause f m) e = ap (λ k. advanced f k false) (omega arith)
after_round-resumed j n s t (complete m) e = ap (λ k. advanced chunked_trailer k true) (omega arith)
after_round-resumed j n s t malformed e = refl
after_round-resumed j n s t unreachable e = refl

paused :
    (j n : ℕ) (f : BodyFraming) (a b : Text)
    → IsChunked f
    → n ≤ length a
    → length (a ++ b) < suc j
    → after_round j 0 (a ++ b) (after_first n (chunked_round f (drop n a ++ b)))
      ≡ moved n (advance_chunked f (drop n a ++ b))
unfolding advance_chunked
paused j n f a b c h l =
    after_round-resumed j n (a ++ b) (drop n a ++ b) _ (drop-append n a b h)
    ∙ ap (moved n) (
        sym (chunked_loop-after_round j 0 f (drop n a ++ b))
        ∙ chunked_loop-fuel (suc j) _ 0 f _ c
            (omega (arith, length-append a b, length-append (drop n a) b, length-drop n a))
            (omega arith))

after_round-IsResumable :
    (k j : ℕ) (a b : Text) (x y : Round)
    → length (a ++ b) < suc j
    → IsFirm a b x y
    → ((f : BodyFraming) (n : ℕ)
        → IsChunked f
        → 1 ≤ n
        → n ≤ length a
        → IsResumable
            (drop n a)
            b
            (chunked_loop k f 0 (drop n a))
            (chunked_loop j f 0 (drop n a ++ b)))
    → IsResumable a b (after_round k 0 a x) (after_round j 0 (a ++ b) y)
unfolding IsFirm after_round
after_round-IsResumable k j a b (again f n) y l (n1, n2, c, e) rest =
    rw
      (
        e,
        drop-append n a b n2,
        chunked_loop-moved k n 0 (0 + n) f (drop n a) (omega arith),
        chunked_loop-moved j n 0 (0 + n) f (drop n a ++ b) (omega arith),
      )
      (moved-IsResumable n a b _ _ n2 (rest f n c n1 n2))
after_round-IsResumable k j a b (pause f n) y l (n2, c, e) rest =
    rw (e, zero-add) (unfold IsResumable in (n2, c, paused j n f a b c n2 l))
after_round-IsResumable k j a b (complete n) y l (n2, e) rest =
    rw (e, zero-add) (unfold IsResumable in (n2, refl))
after_round-IsResumable k j a b malformed y l e rest = rw e (unfold IsResumable in refl)
after_round-IsResumable k j a b unreachable y l e rest = elim e [ ]

chunked_loop-IsResumable :
    (k j : ℕ) (f : BodyFraming) (a b : Text)
    → IsChunked f
    → length a < k
    → length (a ++ b) < j
    → IsResumable a b (chunked_loop k f 0 a) (chunked_loop j f 0 (a ++ b))
chunked_loop-IsResumable zero j f a b c h l = absurd (omega arith)
chunked_loop-IsResumable (suc k) zero f a b c h l = absurd (omega arith)
chunked_loop-IsResumable (suc k) (suc j) f a b c h l =
    rw (chunked_loop-after_round k 0 f a, chunked_loop-after_round j 0 f (a ++ b))
      (after_round-IsResumable k j a b _ _ l (chunked_round-IsFirm f a b c) λ f' n c' n1 n2.
        chunked_loop-IsResumable k j f' (drop n a) b c' (omega (arith, length-drop n a))
          (omega (arith, length-append a b, length-append (drop n a) b, length-drop n a)))

advance_chunked-IsResumable :
    (f : BodyFraming) (a b : Text)
    → IsChunked f
    → IsResumable a b (advance_chunked f a) (advance_chunked f (a ++ b))
unfolding advance_chunked
advance_chunked-IsResumable f a b c =
    chunked_loop-IsResumable _ _ f a b c (omega arith) (omega arith)

-- What the result of `advance` on `a` says of the one on `a ++ b`: an incomplete body is taken up from
-- the framing that was left, on the bytes that were not taken; a complete or malformed one stays so.
unfoldable pub IsSplit : Text → Text → Advance → Advance → Type 0
IsSplit a b (advanced f n false) r = (n ≤ length a) × (r ≡ moved n (advance f (drop n a ++ b)))
IsSplit a b (advanced f n true) r = (n ≤ length a) × (r ≡ advanced f n true)
IsSplit a b failed r = r ≡ failed
IsSplit a b panic r = Empty
IsSplit a b out_of_fuel r = Empty

advance-chunked : (f : BodyFraming) (s : Text) → IsChunked f → advance f s ≡ advance_chunked f s
unfolding advance
advance-chunked f s size = refl
advance-chunked f s (body n) = refl
advance-chunked f s last = refl

IsResumable-IsSplit : (a b : Text) (x y : Advance) → IsResumable a b x y → IsSplit a b x y
unfolding IsResumable IsSplit
IsResumable-IsSplit a b (advanced f n false) y (h, c, e) = (h, rw (advance-chunked f _ c) e)
IsResumable-IsSplit a b (advanced f n true) y h = h
IsResumable-IsSplit a b failed y h = h
IsResumable-IsSplit a b panic y h = h
IsResumable-IsSplit a b out_of_fuel y h = h

chunked-IsSplit :
    (f : BodyFraming) (a b : Text) → IsChunked f → IsSplit a b (advance f a) (advance f (a ++ b))
chunked-IsSplit f a b c =
    rw (advance-chunked f a c, advance-chunked f (a ++ b) c)
      (IsResumable-IsSplit a b _ _ (advance_chunked-IsResumable f a b c))

length_waits :
    (r : ℕ) (s : Text)
    → length s < r
    → advance (content_length r) s ≡ advanced (content_length (r - length s)) (length s) false
unfolding advance min
length_waits r s h = ground arith

length_ends :
    (r : ℕ) (s : Text)
    → r ≤ length s
    → advance (content_length r) s ≡ advanced (content_length 0) r true
unfolding advance min
length_ends r s h = ground arith

length_resumed :
    (r : ℕ) (a b : Text)
    → length a < r
    → advance (content_length r) (a ++ b)
      ≡ moved (length a) (advance (content_length (r - length a)) b)
unfolding moved
length_resumed r a b h = elim (dec_lt (length b) (r - length a)) [
  | yes l ↦
      rw
        (
          length_waits r (a ++ b) (omega (arith, length-append a b)),
          length_waits (r - length a) b l,
          length-append,
        )
        (ap (λ k. advanced (content_length k) (length a + length b) false) (omega arith))
  | no n ↦
      rw
        (
          length_ends r (a ++ b) (omega (arith, length-append a b)),
          length_ends (r - length a) b (omega arith),
        )
        (ap (λ k. advanced (content_length 0) k true) (omega arith))
]

length-IsSplit :
    (r : ℕ) (a b : Text)
    → IsSplit a b (advance (content_length r) a) (advance (content_length r) (a ++ b))
unfolding IsSplit
length-IsSplit r a b = elim (dec_lt (length a) r) [
  | yes l ↦ rw (length_waits r a l, drop_all a) (omega arith, length_resumed r a b l)
  | no n ↦
      rw (length_ends r a (omega arith), length_ends r (a ++ b) (omega (arith, length-append a b)))
        (omega arith, refl)
]

-- The end of a body does not depend on how its bytes are split: on any framing and any two parts,
-- `advance` neither panics nor runs out of fuel, takes no more bytes than the first part has, stays
-- with its answer where the body is complete or malformed, and is otherwise taken up on the bytes
-- that are left.
pub advance-IsSplit :
    (f : BodyFraming) (a b : Text) → IsSplit a b (advance f a) (advance f (a ++ b))
advance-IsSplit no_body a b = unfold advance IsSplit in (omega arith, refl)
advance-IsSplit (content_length r) a b = length-IsSplit r a b
advance-IsSplit chunked_size a b = chunked-IsSplit chunked_size a b size
advance-IsSplit (chunked_data n) a b = chunked-IsSplit (chunked_data n) a b (body n)
advance-IsSplit chunked_trailer a b = chunked-IsSplit chunked_trailer a b last
