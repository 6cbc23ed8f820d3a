-- ===== src/Http1Codec/Body.antt =====
-- The end of a message's body: crates/http1_codec/src/body_framing.rs.
use net_policy.Common.{
  ℕ, zero, suc, ◌+◌, ◌-◌, ltb, Bool, true, false, ◌&&◌, Option, none, some, [], ◌∷◌, ◌==◌, nat_eq,
  if◌then◌else◌, Text, length, drop,
}
use net_policy.Http1Codec.Strings.{take, trim, from_str_radix, up_to}

pub data BodyFraming : Type 0 where
  no_body : BodyFraming
  content_length : ℕ → BodyFraming
  chunked_size : BodyFraming
  chunked_data : ℕ → BodyFraming
  chunked_trailer : BodyFraming

unfoldable pub start : Option ℕ → Bool → BodyFraming
start length true = chunked_size
start none false = no_body
start (some zero) false = no_body
start (some (suc n)) false = content_length (suc n)

-- The window at hand is a line's end, or the place is one further on.
abbrev pub found_after : Bool → Option ℕ → Option ℕ
found_after true rest = some 0
found_after false none = none
found_after false (some n) = some (suc n)

unfoldable pub find_crlf : Text → Option ℕ
find_crlf [] = none
find_crlf (a ∷ []) = none
find_crlf (a ∷ b ∷ s) = found_after (a == 13 && b == 10) (find_crlf (b ∷ s))

unfoldable pub min : ℕ → ℕ → ℕ
min m n = if ltb n m then n else m

-- One round of the loop of `advance_chunked` on the bytes from `pos` on: the loop goes on after some
-- bytes, returns `Ok((pos, false))` or `Ok((pos, true))` after some bytes, returns `Err(())`, or
-- reaches what it must not reach.
pub data Round : Type 0 where
  again pause : BodyFraming → ℕ → Round
  complete : ℕ → Round
  malformed unreachable : Round

-- The chunk's size: the line up to its extension, without white space, in hexadecimal. A line that is
-- no UTF-8 has bytes that are no digits.
unfoldable pub size_of_line : Text → Option ℕ
size_of_line line = from_str_radix 16 (trim (up_to 59 line))

unfoldable pub sized : ℕ → Option ℕ → Round
sized line_len none = malformed
sized line_len (some zero) = again chunked_trailer (line_len + 2)
sized line_len (some (suc n)) = again (chunked_data (suc n)) (line_len + 2)

unfoldable pub after_data : ℕ → Text → Round
after_data taken [] = pause (chunked_data 0) taken
after_data taken (a ∷ []) = pause (chunked_data 0) taken
after_data taken (a ∷ b ∷ s) =
    if a == 13 && b == 10 then again chunked_size (taken + 2) else malformed

unfoldable pub trailer : Option ℕ → Round
trailer none = pause chunked_trailer 0
trailer (some zero) = complete 2
trailer (some (suc n)) = again chunked_trailer (suc n + 2)

unfoldable pub chunked_round : BodyFraming → Text → Round
chunked_round no_body rest = unreachable
chunked_round (content_length n) rest = unreachable
chunked_round chunked_size rest = elim (find_crlf rest) [
  | none ↦ pause chunked_size 0
  | some n ↦ sized n (size_of_line (take n rest))
]
chunked_round (chunked_data remaining) rest =
    let taken = min remaining (length rest) in
    if ltb 0 (remaining - taken)
    then pause (chunked_data (remaining - taken)) taken
    else after_data taken (drop taken rest)
chunked_round chunked_trailer rest = trailer (find_crlf rest)

-- What `advance` returns, with the framing it leaves; `panic` where the source is unreachable, and
-- `out_of_fuel` is no result of the source.
pub data Advance : Type 0 where
  advanced : BodyFraming → ℕ → Bool → Advance
  failed panic out_of_fuel : Advance

-- The loop at `pos`, on the bytes from there on.
unfoldable pub chunked_loop : ℕ → BodyFraming → ℕ → Text → Advance
chunked_loop zero framing pos rest = out_of_fuel
chunked_loop (suc fuel) framing pos rest = elim (chunked_round framing rest) [
  | again framing' n ↦ chunked_loop fuel framing' (pos + n) (drop n rest)
  | pause framing' n ↦ advanced framing' (pos + n) false
  | complete n ↦ advanced chunked_trailer (pos + n) true
  | malformed ↦ failed
  | unreachable ↦ panic
]

-- Every round of the loop takes a byte, so this is enough fuel.
unfoldable pub advance_chunked : BodyFraming → Text → Advance
advance_chunked framing buf = chunked_loop (suc (length buf)) framing 0 buf

unfoldable pub advance : BodyFraming → Text → Advance
advance no_body buf = advanced no_body 0 true
advance (content_length remaining) buf =
    let taken = min remaining (length buf) in
    advanced (content_length (remaining - taken)) taken (remaining - taken == 0)
advance chunked_size buf = advance_chunked chunked_size buf
advance (chunked_data n) buf = advance_chunked (chunked_data n) buf
advance chunked_trailer buf = advance_chunked chunked_trailer buf
