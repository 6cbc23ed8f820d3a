-- ===== src/Http1Codec/Resumed.antt =====
-- `advance` of crates/http1_codec/src/body_framing.rs on a body that arrives in parts.
use net_policy.Common.{
  ℕ, zero, suc, ◌+◌, ◌<◌, ◌≡◌, refl, ap, true, false, [], ◌++◌, Text, length, drop, length-drop,
  arith,
}
use net_policy.Http1Codec.Body.{
  BodyFraming, chunked_trailer, Round, again, pause, complete, malformed, unreachable,
  chunked_round, Advance, advanced, failed, panic, out_of_fuel, chunked_loop,
}
use net_policy.Http1Codec.Fragments.{IsChunked, IsFirm, chunked_round-IsFirm}

-- The rest of the loop after a round.
unfoldable pub after_round : ℕ → ℕ → Text → Round → Advance
after_round k pos s (again f n) = chunked_loop k f (pos + n) (drop n s)
after_round k pos s (pause f n) = advanced f (pos + n) false
after_round k pos s (complete n) = advanced chunked_trailer (pos + n) true
after_round k pos s malformed = failed
after_round k pos s unreachable = panic

pub chunked_loop-after_round :
    (k pos : ℕ) (f : BodyFraming) (s : Text)
    → chunked_loop (suc k) f pos s ≡ after_round k pos s (chunked_round f s)
unfolding chunked_loop after_round
chunked_loop-after_round k pos f s = go (chunked_round f s)
  where
    go :
        (r : Round)
        → elim r [
          | again f' n ↦ chunked_loop k f' (pos + n) (drop n s)
          | pause f' n ↦ advanced f' (pos + n) false
          | complete n ↦ advanced chunked_trailer (pos + n) true
          | malformed ↦ failed
          | unreachable ↦ panic
        ]
          ≡ after_round k pos s r
    go (again f' n) = refl
    go (pause f' n) = refl
    go (complete n) = refl
    go malformed = refl
    go unreachable = refl

-- A result at a later position.
unfoldable pub moved : ℕ → Advance → Advance
moved p (advanced f q c) = advanced f (p + q) c
moved p failed = failed
moved p panic = panic
moved p out_of_fuel = out_of_fuel

after_round-moved :
    (k p q r : ℕ) (s : Text) (x : Round)
    → p + q ≡ r
    → ((f : BodyFraming) (n : ℕ)
        → chunked_loop k f (r + n) (drop n s) ≡ moved p (chunked_loop k f (q + n) (drop n s)))
    → after_round k r s x ≡ moved p (after_round k q s x)
unfolding after_round moved
after_round-moved k p q r s (again f n) h same = same f n
after_round-moved k p q r s (pause f n) h same = ap (λ m. advanced f m false) (omega arith)
after_round-moved k p q r s (complete n) h same =
    ap (λ m. advanced chunked_trailer m true) (omega arith)
after_round-moved k p q r s malformed h same = refl
after_round-moved k p q r s unreachable h same = refl

-- The position is only added to.
pub chunked_loop-moved :
    (k p q r : ℕ) (f : BodyFraming) (s : Text)
    → p + q ≡ r
    → chunked_loop k f r s ≡ moved p (chunked_loop k f q s)
chunked_loop-moved zero p q r f s h = unfold chunked_loop moved in refl
chunked_loop-moved (suc k) p q r f s h =
    rw (chunked_loop-after_round k r f s, chunked_loop-after_round k q f s)
      (after_round-moved k p q r s (chunked_round f s) h
        λ f' n. chunked_loop-moved k p (q + n) (r + n) f' (drop n s) (omega arith))

-- The round of a body that is chunked, on nothing more.
round_now :
    (f : BodyFraming) (s : Text)
    → IsChunked f
    → IsFirm s [] (chunked_round f s) (chunked_round f (s ++ []))
round_now f s c = chunked_round-IsFirm f s [] c

after_round-fuel :
    (k j pos : ℕ) (s : Text) (x y : Round)
    → IsFirm s [] x y
    → ((f : BodyFraming) (n : ℕ)
        → IsChunked f
        → length (drop n s) < length s
        → chunked_loop k f (pos + n) (drop n s) ≡ chunked_loop j f (pos + n) (drop n s))
    → after_round k pos s x ≡ after_round j pos s x
unfolding after_round IsFirm
after_round-fuel k j pos s (again f n) y (n1, n2, c, e) same =
    same f n c (omega (arith, length-drop n s))
after_round-fuel k j pos s (pause f n) y firm same = refl
after_round-fuel k j pos s (complete n) y firm same = refl
after_round-fuel k j pos s malformed y firm same = refl
after_round-fuel k j pos s unreachable y firm same = refl

-- Fuel above the number of bytes is enough.
pub chunked_loop-fuel :
    (k j pos : ℕ) (f : BodyFraming) (s : Text)
    → IsChunked f
    → length s < k
    → length s < j
    → chunked_loop k f pos s ≡ chunked_loop j f pos s
chunked_loop-fuel zero j pos f s c h l = absurd (omega arith)
chunked_loop-fuel (suc k) zero pos f s c h l = absurd (omega arith)
chunked_loop-fuel (suc k) (suc j) pos f s c h l =
    rw (chunked_loop-after_round k pos f s, chunked_loop-after_round j pos f s)
      (after_round-fuel k j pos s _ _ (round_now f s c)
        λ f' n c' m. chunked_loop-fuel k j (pos + n) f' (drop n s) c' (omega arith) (omega arith))
