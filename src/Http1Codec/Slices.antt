-- ===== src/Http1Codec/Slices.antt =====
-- Parts of the buffer that crates/http1_codec/src/body_framing.rs reads: the first line's end, and what
-- stands before and behind a place.
use net_policy.Common.{
  ℕ, zero, suc, ◌+◌, ◌≤◌, ◌≡◌, refl, ap, Bool, ◌&&◌, ◌==◌, nat_eq, true, false, Option, none, some,
  [], ◌∷◌, ◌++◌, Text, length, drop, arith,
}
use net_policy.Http1Codec.Strings.{take}
use net_policy.Http1Codec.Body.{found_after, find_crlf}

found_after_within :
    (here : Bool) (rest : Option ℕ) (k n : ℕ)
    → ((m : ℕ) → rest ≡ some m → m + 2 ≤ k)
    → 1 ≤ k
    → found_after here rest ≡ some n
    → n + 2 ≤ suc k
found_after_within true rest k n h l e = ground arith
found_after_within false none k n h l e = cc
found_after_within false (some m) k n h l e = ground (arith, h m refl)

pub find_crlf_within : (s : Text) (n : ℕ) → find_crlf s ≡ some n → n + 2 ≤ length s
unfolding find_crlf
find_crlf_within [] n e = cc
find_crlf_within (a ∷ []) n e = cc
find_crlf_within (a ∷ b ∷ s) n e =
    found_after_within (a == 13 && b == 10) (find_crlf (b ∷ s)) (length (b ∷ s)) n
      (find_crlf_within (b ∷ s)) (omega arith) e

found_after_same :
    (here : Bool) (rest rest' : Option ℕ) (n : ℕ)
    → ((m : ℕ) → rest ≡ some m → rest' ≡ some m)
    → found_after here rest ≡ some n
    → found_after here rest' ≡ some n
found_after_same true rest rest' n h e = e
found_after_same false none rest' n h e = cc
found_after_same false (some m) rest' n h e = rw (h m refl) e

pub find_crlf-append : (s t : Text) (n : ℕ) → find_crlf s ≡ some n → find_crlf (s ++ t) ≡ some n
unfolding find_crlf
find_crlf-append [] t n e = cc
find_crlf-append (a ∷ []) t n e = cc
find_crlf-append (a ∷ b ∷ s) t n e =
    found_after_same (a == 13 && b == 10) (find_crlf (b ∷ s)) (find_crlf (b ∷ (s ++ t))) n
      (find_crlf-append (b ∷ s) t) e

pub take-append : (n : ℕ) (s t : Text) → n ≤ length s → take n (s ++ t) ≡ take n s
unfolding take
take-append zero s t h = refl
take-append (suc n) [] t h = absurd (omega arith)
take-append (suc n) (c ∷ s) t h = ap (λ r. c ∷ r) (take-append n s t (omega arith))

pub drop-append : (n : ℕ) (s t : Text) → n ≤ length s → drop n (s ++ t) ≡ drop n s ++ t
drop-append zero s t h = refl
drop-append (suc n) [] t h = absurd (omega arith)
drop-append (suc n) (c ∷ s) t h = drop-append n s t (omega arith)

pub drop-drop : (m n k : ℕ) (s : Text) → n + m ≡ k → drop m (drop n s) ≡ drop k s
drop-drop m zero k s e = let e' : m ≡ k = omega arith in rw e'
drop-drop zero (suc n) zero s e = absurd (omega arith)
drop-drop (suc m) (suc n) zero s e = absurd (omega arith)
drop-drop zero (suc n) (suc k) [] e = refl
drop-drop (suc m) (suc n) (suc k) [] e = refl
drop-drop m (suc n) (suc k) (c ∷ s) e = drop-drop m n k s (omega arith)

pub drop_all : (s : Text) → drop (length s) s ≡ []
drop_all [] = refl
drop_all (c ∷ s) = drop_all s

pub drop-append_right : (n k : ℕ) (s t : Text) → length s + k ≡ n → drop n (s ++ t) ≡ drop k t
drop-append_right n k [] t e = let e' : k ≡ n = omega arith in rw e'
drop-append_right zero k (c ∷ s) t e = absurd (omega arith)
drop-append_right (suc n) k (c ∷ s) t e = drop-append_right n k s t (omega arith)
