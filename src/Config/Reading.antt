-- ===== src/Config/Reading.antt =====
-- What the address lists mean: ParseIpString of net-policy.cpp.
use mathlib.Core.List.{append-nil, append_assoc}
use net_policy.Common.{
  ℕ, zero, suc, ◌+◌, ◌-◌, ◌≤◌, ◌<◌, ◌≡◌, ◌↔◌, ◌⊎◌, inl, inr, refl, ap, ◌∙◌, Bool, true, false, ◌&&◌,
  not, none, some, List, [], ◌∷◌, ◌++◌, ◌==◌, nat_eq, Text, All, Among, arith, if◌then◌else◌,
}
use net_policy.Policy.{pos}
use net_policy.Config.{Numbers, returned, undefined}
use net_policy.Config.Ranges.{
  segments, split_dash, count_dots, split_last_dot, range_size, next_int, addresses_from, expand,
  expand_range, parse_segment_ips, parse_segments, parse_ip_string, is_int_max,
}

-- A byte does not occur in a text.
abbrev pub lacks : ℕ → Text → Bool
lacks c [] = true
lacks c (b ∷ s) = not (b == c) && lacks c s

-- Addresses separated by commas.
abbrev pub joined : Text → List Text → Text
joined ip [] = ip
joined ip (next ∷ ips) = ip ++ (b',' ∷ joined next ips)

-- A text that is one address: not empty, without a comma and without a dash.
abbrev pub is_plain : Text → Bool
is_plain [] = false
is_plain (b ∷ s) = lacks b',' (b ∷ s) && lacks b'-' (b ∷ s)

segments-one : (b : ℕ) (s : Text) → lacks b',' (b ∷ s) ≡ true → segments (b ∷ s) ≡ ((b ∷ s) ∷ [])
unfolding segments
segments-one b [] h = ground arith
segments-one b (c ∷ s) h = ground (arith, segments-one c s)

segments-comma :
    (s rest : Text) → lacks b',' s ≡ true → segments (s ++ (b',' ∷ rest)) ≡ (s ∷ segments rest)
unfolding segments
segments-comma [] rest h = refl
segments-comma (c ∷ s) rest h = ground (arith, segments-comma s rest)

split_dash-none : (s : Text) → lacks b'-' s ≡ true → split_dash s ≡ none
unfolding split_dash
split_dash-none [] h = refl
split_dash-none (c ∷ s) h = ground (arith, split_dash-none s)

split_dash-at :
    (s rest : Text) → lacks b'-' s ≡ true → split_dash (s ++ (b'-' ∷ rest)) ≡ some (s, rest)
unfolding split_dash
split_dash-at [] rest h = refl
split_dash-at (c ∷ s) rest h = ground (arith, split_dash-at s rest)

split_last_dot-none : (s : Text) → lacks b'.' s ≡ true → split_last_dot s ≡ none
unfolding split_last_dot
split_last_dot-none [] h = refl
split_last_dot-none (c ∷ s) h = ground (arith, split_last_dot-none s)

-- A range's start: the text through its last dot, and the rest.
split_last_dot-at :
    (s rest : Text)
    → lacks b'.' rest ≡ true
    → split_last_dot (s ++ (b'.' ∷ rest)) ≡ some (s ++ (b'.' ∷ []), rest)
unfolding split_last_dot
split_last_dot-at [] rest h = ground (arith, split_last_dot-none rest)
split_last_dot-at (c ∷ s) rest h = ground (arith, split_last_dot-at s rest)

module _ (numbers : Numbers) where
  open numbers use {stoi, to_string}

  addresses_from-Among :
      (base : Text) (first left : ℕ) (ip : Text)
      → Among ip (addresses_from numbers base (pos first) left)
        ↔ ((i : ℕ) × (first ≤ i) × (i < first + left) × (base ++ to_string (pos i) ≡ ip))
  unfolding addresses_from next_int
  addresses_from-Among base first zero ip =
      (λ m. elim m [ ], λ (i, low, high, e). elim (nothing i low high) [ ])
    where
      nothing : (i : ℕ) → first ≤ i → i < first + 0 → ⊥
      nothing i low high = omega arith
  addresses_from-Among base first (suc left) ip =
      step (addresses_from-Among base (suc first) left ip)
    where
      split : (i : ℕ) → first ≤ i → (first ≡ i) ⊎ (suc first ≤ i)
      split i low = omega arith

      step :
          (Among ip (addresses_from numbers base (pos (suc first)) left) ↔ (
            (i : ℕ) × (suc first ≤ i) × (i < suc first + left) × (base ++ to_string (pos i) ≡ ip)))
          → Among ip (addresses_from numbers base (pos first) (suc left))
            ↔ ((i : ℕ) × (first ≤ i) × (i < first + suc left) × (base ++ to_string (pos i) ≡ ip))
      step rest = (
        λ m. elim m [
          | inl e ↦ (first, omega arith, omega arith, e)
          | inr m ↦ let (i, low, high, e) = rest.0 m in (i, omega arith, omega arith, e)
        ],
        λ (i, low, high, e). elim (split i low) [
          | inl at ↦ inl (rw (at) e)
          | inr above ↦ inr (rest.1 (i, above, omega arith, e))
        ],
      )

  parse_segment_ips-plain :
      (s : Text) → is_plain s ≡ true → parse_segment_ips numbers s ≡ returned (s ∷ [])
  unfolding parse_segment_ips
  parse_segment_ips-plain [] h = cc
  parse_segment_ips-plain (c ∷ s) h =
      rw (split_dash-none (c ∷ s) (ground arith), parse_segment_ips) refl

  parse_segments-plain :
      (ips ret : List Text)
      → All (λ one. is_plain one ≡ true) ips
      → parse_segments numbers ips ret ≡ returned (ret ++ ips)
  unfolding parse_segments
  parse_segments-plain [] ret h = rw (append-nil ret) refl
  parse_segments-plain (ip ∷ ips) ret h =
      rw (parse_segment_ips-plain ip h.0, parse_segments)
        (parse_segments-plain ips (ret ++ (ip ∷ [])) h.1
          ∙ ap returned (append_assoc ret (ip ∷ []) ips))

  segments-joined :
      (ip : Text) (ips : List Text)
      → All (λ one. is_plain one ≡ true) (ip ∷ ips)
      → segments (joined ip ips) ≡ (ip ∷ ips)
  segments-joined [] ips h = cc
  segments-joined (c ∷ ip) [] h = segments-one c ip (ground arith)
  segments-joined (c ∷ ip) (next ∷ ips) h =
      rw (segments-comma (c ∷ ip) (joined next ips) (ground arith), segments-joined next ips h.1)
        refl

  expand-lem :
      (base : Text) (first last : ℕ)
      → last < 2147483647
      → expand numbers base (pos first) (pos last)
        ≡ returned (addresses_from numbers base (pos first) (suc last - first))
  unfolding expand range_size addresses_from
  expand-lem base first last small = by_size (suc last - first) small
    where
      by_size :
          (size : ℕ)
          → last < 2147483647
          → elim size [
            | zero ↦ returned []
            | suc n ↦
                if is_int_max (pos last)
                then undefined
                else returned (addresses_from numbers base (pos first) (suc n))
          ]
            ≡ returned (addresses_from numbers base (pos first) size)
      by_size zero small = refl
      by_size (suc n) small = ground arith

  -- A list of plain addresses is read as just those addresses, in order, after what was there.
  pub parse_ip_string-joined :
      (ip : Text) (ips ret : List Text)
      → All (λ one. is_plain one ≡ true) (ip ∷ ips)
      → parse_ip_string numbers (joined ip ips) ret ≡ returned (ret ++ (ip ∷ ips))
  unfolding parse_ip_string
  parse_ip_string-joined ip ips ret h =
      rw (segments-joined ip ips h) (parse_segments-plain (ip ∷ ips) ret h)

  -- A range `base.first-last`, whose start has three dots and no dash and whose ends `stoi` reads as
  -- numbers that are not negative, gives exactly the addresses of the numbers from first through
  -- last, if that is not the largest `int`.
  pub parse_segment_ips-range :
      (base tail end_ip : Text) (first last : ℕ)
      → lacks b'-' (base ++ (b'.' ∷ tail)) ≡ true
      → lacks b'.' tail ≡ true
      → count_dots (base ++ (b'.' ∷ tail)) ≡ 3
      → stoi tail ≡ some (pos first)
      → stoi end_ip ≡ some (pos last)
      → last < 2147483647
      → (ips : List Text) × (parse_segment_ips numbers ((base ++ (b'.' ∷ tail)) ++ (b'-' ∷ end_ip))
          ≡ returned ips)
        × ((ip : Text)
            → Among ip ips ↔ (
                (i : ℕ) × (first ≤ i)
                × (i ≤ last)
                × ((base ++ (b'.' ∷ [])) ++ to_string (pos i) ≡ ip)))
  unfolding parse_segment_ips expand_range
  parse_segment_ips-range base tail end_ip first last dash dot dots f l small = (
    addresses_from numbers (base ++ (b'.' ∷ [])) (pos first) (suc last - first),
    rw
        (
          split_dash-at (base ++ (b'.' ∷ tail)) end_ip dash,
          parse_segment_ips,
          expand_range,
          dots,
          split_last_dot-at base tail dot,
          f,
          l,
        )
        (expand-lem (base ++ (b'.' ∷ [])) first last small),
    λ ip.
        let iff = addresses_from-Among (base ++ (b'.' ∷ [])) first (suc last - first) ip in
        (
          λ m. let (i, low, high, e) = iff.0 m in (i, low, omega arith, e),
          λ (i, low, high, e). iff.1 (i, low, omega arith, e),
        ),
  )
