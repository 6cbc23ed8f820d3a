-- ===== src/Http1Codec/Lossy.antt =====
-- `String::from_utf8_lossy`: the bytes with every part that is no UTF-8 replaced by U+FFFD.
use net_policy.Common.{
  ℕ, leb, ltb, ◌≡◌, refl, ◌<◌, ◌-◌, ap, arith, ◌&&◌, [], ◌∷◌, ◌++◌, ◌==◌, nat_eq, if◌then◌else◌,
  Text, All,
}

-- A character that is not complete: its bytes so far, how many must follow, and the range of the next.
pub record Pending : Type 0 where
  pub bytes : Text
  pub missing : ℕ
  pub low : ℕ
  pub high : ℕ

abbrev replacement : Text
replacement = 0xef ∷ 0xbf ∷ 0xbd ∷ []

abbrev none_pending : Pending
none_pending = record { bytes = []; missing = 0; low = 0; high = 0 }

abbrev opened : ℕ → ℕ → ℕ → ℕ → Pending
opened c missing low high = record { bytes = c ∷ []; missing = missing; low = low; high = high }

-- The first byte of a character says how many follow; the bounds leave out overlong forms, surrogates
-- and what lies above U+10FFFF.
unfoldable pub first_byte : ℕ → Pending
first_byte c =
    if leb 0xc2 c && leb c 0xdf
    then opened c 1 0x80 0xbf
    else if c == 0xe0
    then opened c 2 0xa0 0xbf
    else if c == 0xed
    then opened c 2 0x80 0x9f
    else if leb 0xe1 c && leb c 0xef
    then opened c 2 0x80 0xbf
    else if c == 0xf0
    then opened c 3 0x90 0xbf
    else if leb 0xf1 c && leb c 0xf3
    then opened c 3 0x80 0xbf
    else if c == 0xf4
    then opened c 3 0x80 0x8f
    else none_pending

-- What a byte at the start of a character writes, and the character it leaves open.
unfoldable pub start_char : ℕ → Text × Pending
start_char c =
    if ltb c 0x80
    then (c ∷ [], none_pending)
    else if (first_byte c).missing == 0
    then (replacement, none_pending)
    else ([], first_byte c)

-- The same at any byte: one that does not fit ends the open character and starts another.
unfoldable pub next_char : Pending → ℕ → Text × Pending
next_char p c =
    if p.missing == 0
    then start_char c
    else if leb p.low c && leb c p.high
    then if p.missing == 1 then (p.bytes ++ (c ∷ []), none_pending) else (
      [],
      record { bytes = p.bytes ++ (c ∷ []); missing = p.missing - 1; low = 0x80; high = 0xbf },
    )
    else (replacement ++ (start_char c).0, (start_char c).1)

unfoldable pub lossy : Pending → Text → Text
lossy p [] = if p.missing == 0 then [] else replacement
lossy p (c ∷ s) = let (written, p') = next_char p c in written ++ lossy p' s

unfoldable pub from_utf8_lossy : Text → Text
from_utf8_lossy = lossy none_pending

next_char_ascii : (c : ℕ) → c < 0x80 → next_char none_pending c ≡ (c ∷ [], none_pending)
unfolding next_char start_char
next_char_ascii c h = ground arith

-- A text of ASCII bytes is kept.
pub from_utf8_lossy-ascii : (s : Text) → All (λ c. c < 0x80) s → from_utf8_lossy s ≡ s
unfolding from_utf8_lossy lossy
from_utf8_lossy-ascii [] h = refl
from_utf8_lossy-ascii (c ∷ s) (hc, hs) =
    rw (next_char_ascii c hc) (ap (λ rest. c ∷ rest) (from_utf8_lossy-ascii s hs))
