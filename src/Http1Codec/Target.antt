-- ===== src/Http1Codec/Target.antt =====
-- The request target: crates/http1_codec/src/request_target.rs.
use net_policy.Common.{
  ℕ, ◌≡◌, refl, ap, false, Option, none, some, [], ◌∷◌, ◌++◌, Text, codes, arith, nat_eq,
}
use mathlib.Core.List.{append_assoc}
use net_policy.Http1Codec.Strings.{up_to, from_first, contains, strip_prefix}

pub record RequestTarget : Type 0 where
  pub host : Text
  pub path : Text

-- `strip_prefix("http://").or_else(...)`
unfoldable pub strip_scheme : Text → Option Text
strip_scheme target = elim (strip_prefix (codes "http://") target) [
  | some rest ↦ some rest
  | none ↦ strip_prefix (codes "https://") target
]

-- The authority ends at the first slash, its host at the first colon; the path ends at the query.
unfoldable pub parse_request_target : Text → RequestTarget
parse_request_target target = elim (strip_scheme target) [
  | some rest ↦ record { host = up_to 58 (up_to 47 rest); path = up_to 63 (from_first 47 rest) }
  | none ↦ record { host = []; path = up_to 63 target }
]

-- The text before a byte it does not hold.
up_to-append : (c : ℕ) (s t : Text) → contains c s ≡ false → up_to c (s ++ (c ∷ t)) ≡ s
unfolding up_to contains
up_to-append c [] t h = ground arith
up_to-append c (a ∷ s) t h = ground (arith, up_to-append c s t)

up_to_all : (c : ℕ) (s : Text) → contains c s ≡ false → up_to c s ≡ s
unfolding up_to contains
up_to_all c [] h = refl
up_to_all c (a ∷ s) h = ground (arith, up_to_all c s)

from_first-append :
    (c : ℕ) (s t : Text) → contains c s ≡ false → from_first c (s ++ (c ∷ t)) ≡ c ∷ t
unfolding from_first contains
from_first-append c [] t h = ground arith
from_first-append c (a ∷ s) t h = ground (arith, from_first-append c s t)

strip_prefix-append : (p s : Text) → strip_prefix p (p ++ s) ≡ some s
unfolding strip_prefix
strip_prefix-append [] s = refl
strip_prefix-append (c ∷ p) s = ground (arith, strip_prefix-append p s)

contains-append :
    (c : ℕ) (s t : Text) → contains c s ≡ false → contains c t ≡ false → contains c (s ++ t) ≡ false
unfolding contains
contains-append c [] t h k = k
contains-append c (a ∷ s) t h k = ground (arith, contains-append c s t)

-- The part after the scheme.
parse_authority :
    (authority path query : Text) (host : Text)
    → contains 47 authority ≡ false
    → contains 63 path ≡ false
    → up_to 58 authority ≡ host
    → parse_request_target (codes "https://" ++ (authority ++ (47 ∷ (path ++ (63 ∷ query)))))
      ≡ record { host = host; path = 47 ∷ path }
unfolding parse_request_target strip_scheme strip_prefix contains
parse_authority authority path query host h1 h2 e =
    rw
      (
        up_to-append 47 authority (path ++ (63 ∷ query)) h1,
        from_first-append 47 authority (path ++ (63 ∷ query)) h1,
        e,
      )
      (ap (λ p. record { host = host; path = p }) (up_to-append 63 (47 ∷ path) query h2))

-- A target with a scheme, an authority `host:port`, a path that starts with a slash and a query is
-- read as that host and path, for a host without colon and slash, a port without slash and a path
-- without question mark.
pub parse_request_target-absolute :
    (host port path query : Text)
    → contains 58 host ≡ false
    → contains 47 host ≡ false
    → contains 47 port ≡ false
    → contains 63 path ≡ false
    → parse_request_target
        (codes "https://" ++ (host ++ (58 ∷ (port ++ (47 ∷ (path ++ (63 ∷ query)))))))
      ≡ record { host = host; path = 47 ∷ path }
unfolding contains
parse_request_target-absolute host port path query h1 h2 h3 h4 =
    rw (← append_assoc host (58 ∷ port) (47 ∷ (path ++ (63 ∷ query)))) (
      parse_authority (host ++ (58 ∷ port)) path query host
        (contains-append 47 host (58 ∷ port) h2 h3) h4 (up_to-append 58 host port h1))
