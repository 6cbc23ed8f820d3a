-- ===== src/Http1Codec/Strings.antt =====
-- What crates/http1_codec uses of Rust's strings: `trim`, `parse::<usize>`, `from_str_radix`,
-- `eq_ignore_ascii_case`, `find`, `rfind`, `split`, `strip_prefix` and `String::from_utf8_lossy`.
-- A `str` is the list of its UTF-8 bytes.
use net_policy.Common.{
  ℕ, zero, suc, ◌+◌, ◌-◌, ◌*◌, ◌^◌, ltb, leb, Bool, false, not, ◌&&◌, ◌||◌, Option, none, some, [],
  ◌∷◌, ◌==◌, nat_eq, text_eq, if◌then◌else◌, Text,
}
use net_policy.Http.Http1.{to_low}

unfoldable pub take : ℕ → Text → Text
take zero s = []
take (suc n) [] = []
take (suc n) (c ∷ s) = c ∷ take n s

unfoldable pub reverse_onto : Text → Text → Text
reverse_onto [] acc = acc
reverse_onto (c ∷ s) acc = reverse_onto s (c ∷ acc)

-- The number of bytes of the character of White_Space that the text starts with, 0 when there is none.
unfoldable pub space3 : ℕ → ℕ → ℕ → ℕ
space3 a b c =
    if (a == 0xe1 && b == 0x9a && c == 0x80)
      || (a == 0xe2
          && b == 0x80
          && (leb 0x80 c && leb c 0x8a || c == 0xa8 || c == 0xa9 || c == 0xaf))
      || (a == 0xe2 && b == 0x81 && c == 0x9f)
      || (a == 0xe3 && b == 0x80 && c == 0x80)
    then 3
    else 0

unfoldable pub is_space1 : ℕ → Bool
is_space1 a = (leb 9 a && leb a 13) || a == 32

unfoldable pub is_space2 : ℕ → ℕ → Bool
is_space2 a b = a == 0xc2 && (b == 0x85 || b == 0xa0)

-- The characters of White_Space at the start go.
unfoldable pub trim_start : Text → Text
trim_start [] = []
trim_start (a ∷ []) = if is_space1 a then [] else a ∷ []
trim_start (a ∷ b ∷ []) =
    let rest = trim_start (b ∷ []) in
    if is_space1 a then rest else if is_space2 a b then [] else a ∷ b ∷ []
trim_start (a ∷ b ∷ c ∷ s) =
    let after1 = trim_start (b ∷ c ∷ s) in
    let after2 = trim_start (c ∷ s) in
    let after3 = trim_start s in
    if is_space1 a
    then after1
    else if is_space2 a b
    then after2
    else if space3 a b c == 3
    then after3
    else a ∷ b ∷ c ∷ s

-- The same at the end, on the reversed bytes.
unfoldable pub trim_end : Text → Text
trim_end [] = []
trim_end (c ∷ []) = if is_space1 c then [] else c ∷ []
trim_end (c ∷ b ∷ []) =
    let rest = trim_end (b ∷ []) in
    if is_space1 c then rest else if is_space2 b c then [] else c ∷ b ∷ []
trim_end (c ∷ b ∷ a ∷ s) =
    let after1 = trim_end (b ∷ a ∷ s) in
    let after2 = trim_end (a ∷ s) in
    let after3 = trim_end s in
    if is_space1 c
    then after1
    else if is_space2 b c
    then after2
    else if space3 a b c == 3
    then after3
    else c ∷ b ∷ a ∷ s

unfoldable pub trim : Text → Text
trim s = reverse_onto (trim_end (reverse_onto (trim_start s) [])) []

-- The value of a digit: 0 to 35, or none.
unfoldable pub digit : ℕ → ℕ → Option ℕ
digit radix c =
    let value =
      if leb 48 c && leb c 57
      then c - 48
      else if leb 97 c && leb c 122
      then c - 87
      else if leb 65 c && leb c 90
      then c - 55
      else 36 in
    if ltb value radix then some value else none

-- The digits from the left, within a usize of 64 bits.
unfoldable pub digits : ℕ → ℕ → Text → Option ℕ
digits radix acc [] = some acc
digits radix acc (c ∷ s) = elim (digit radix c) [
  | some d ↦ if ltb (acc * radix + d) (2 ^ 64) then digits radix (acc * radix + d) s else none
  | none ↦ none
]

-- `usize::from_str_radix`, and `str::parse` at radix 10: a plus sign may go first.
unfoldable pub from_str_radix : ℕ → Text → Option ℕ
from_str_radix radix [] = none
from_str_radix radix (c ∷ []) = digits radix 0 (c ∷ [])
from_str_radix radix (c ∷ d ∷ s) =
    if c == 43 then digits radix 0 (d ∷ s) else digits radix 0 (c ∷ d ∷ s)

unfoldable pub eq_ignore_ascii_case : Text → Text → Bool
eq_ignore_ascii_case s t = to_low s == to_low t

-- The text before the first byte `c`, or all of it: `split(c).next()`.
unfoldable pub up_to : ℕ → Text → Text
up_to c [] = []
up_to c (a ∷ s) = let rest = up_to c s in if a == c then [] else a ∷ rest

-- What the first byte `c` starts.
unfoldable pub from_first : ℕ → Text → Text
from_first c [] = []
from_first c (a ∷ s) = let rest = from_first c s in if a == c then a ∷ s else rest

unfoldable pub contains : ℕ → Text → Bool
contains c [] = false
contains c (a ∷ s) = a == c || contains c s

-- The text before the last byte `c`, or all of it.
unfoldable pub before_last : ℕ → Text → Text
before_last c [] = []
before_last c (a ∷ s) =
    let rest = before_last c s in if a == c && not (contains c s) then [] else a ∷ rest

unfoldable pub strip_prefix : Text → Text → Option Text
strip_prefix [] s = some s
strip_prefix (p ∷ ps) [] = none
strip_prefix (p ∷ ps) (c ∷ s) = if p == c then strip_prefix ps s else none
