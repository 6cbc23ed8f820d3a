-- ===== src/Config/Ranges.antt =====
-- The address lists of a rule: ParseIpString of net-policy.cpp.
use net_policy.Common.{
  ℕ, zero, suc, ◌+◌, ◌-◌, Bool, false, Option, none, some, List, [], ◌∷◌, ◌++◌, ◌==◌, nat_eq,
  if◌then◌else◌, Text,
}
use net_policy.Policy.{ℤ, pos, negsuc}
use net_policy.Config.{Numbers, Outcome, returned, broken, thrown, undefined}

abbrev pub cons_first : ℕ → List Text → List Text
cons_first c [] = (c ∷ []) ∷ []
cons_first c (segment ∷ segments) = (c ∷ segment) ∷ segments

-- The pieces that `std::getline` reads up to each comma; nothing is read after a comma at the end.
unfoldable pub segments : Text → List Text
segments [] = []
segments (c ∷ input) =
    let rest = segments input in if c == b',' then [] ∷ rest else cons_first c rest

-- `find('-')` with the text before and after it.
unfoldable pub split_dash : Text → Option (Text × Text)
split_dash [] = none
split_dash (c ∷ s) =
    let rest = split_dash s in
    if c == b'-'
    then some ([], s)
    else elim rest [ none ↦ none | some (before, after) ↦ some (c ∷ before, after) ]

unfoldable pub count_dots : Text → ℕ
count_dots [] = 0
count_dots (c ∷ s) = let rest = count_dots s in if c == b'.' then suc rest else rest

-- `rfind('.')` with the text through it and after it.
unfoldable pub split_last_dot : Text → Option (Text × Text)
split_last_dot [] = none
split_last_dot (c ∷ s) = elim (split_last_dot s) [
  | some (through, after) ↦ some (c ∷ through, after)
  | none ↦ if c == b'.' then some (c ∷ [], s) else none
]

-- The numbers of `for (int i = first; i <= last; ++i)`.
unfoldable pub range_size : ℤ → ℤ → ℕ
range_size (pos a) (pos b) = suc b - a
range_size (pos a) (negsuc b) = 0
range_size (negsuc a) (pos b) = suc a + suc b
range_size (negsuc a) (negsuc b) = suc a - b

unfoldable pub next_int : ℤ → ℤ
next_int (pos n) = pos (suc n)
next_int (negsuc zero) = pos 0
next_int (negsuc (suc n)) = negsuc n

abbrev pub is_int_max : ℤ → Bool
is_int_max (pos n) = n == 2147483647
is_int_max (negsuc n) = false

module _ (numbers : Numbers) where
  open numbers use {stoi, to_string}

  unfoldable pub addresses_from : Text → ℤ → ℕ → List Text
  addresses_from base i zero = []
  addresses_from base i (suc left) = (base ++ to_string i) ∷ addresses_from base (next_int i) left

  -- The loop over the last byte. Its counter overflows if the end is the largest `int`.
  unfoldable pub expand : Text → ℤ → ℤ → Outcome (List Text)
  expand base first last = elim (range_size first last) [
    | zero ↦ returned []
    | suc n ↦ if is_int_max last then undefined else returned (addresses_from base first (suc n))
  ]

  -- `start-end`: three dots in the start make it a range, anything else is passed over.
  unfoldable pub expand_range : Text → Text → Outcome (List Text)
  expand_range start_ip end_ip =
      if count_dots start_ip == 3
      then elim (split_last_dot start_ip) [
        | none ↦ returned []
        | some (base, tail) ↦ elim (stoi tail) [
          | none ↦ thrown
          | some first ↦ elim (stoi end_ip) [ none ↦ thrown | some last ↦ expand base first last ]
        ]
      ]
      else returned []

  unfoldable pub parse_segment_ips : Text → Outcome (List Text)
  parse_segment_ips segment = elim (split_dash segment) [
    | some (start_ip, end_ip) ↦ expand_range start_ip end_ip
    | none ↦ returned (segment ∷ [])
  ]

  unfoldable pub parse_segments : List Text → List Text → Outcome (List Text)
  parse_segments [] ret = returned ret
  parse_segments (segment ∷ rest) ret = elim (parse_segment_ips segment) [
    | returned ips ↦ parse_segments rest (ret ++ ips)
    | broken ↦ broken
    | thrown ↦ thrown
    | undefined ↦ undefined
  ]

  -- `ParseIpString`, which appends to the list it is given.
  unfoldable pub parse_ip_string : Text → List Text → Outcome (List Text)
  parse_ip_string input ret = parse_segments (segments input) ret
