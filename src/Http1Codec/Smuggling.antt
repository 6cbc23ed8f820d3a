-- ===== src/Http1Codec/Smuggling.antt =====
-- What crates/http1_codec/src/header_parser.rs makes of the fields that say where a message's body ends.
use net_policy.Common.{
  ap, codes, text_eq, text_beq, Among, inl, inr, ℕ, ◌≡◌, refl, ◌∙◌, sym, Bool, true, false,
  Bool-cases, Option, none, some, Option-cases, List, [], ◌∷◌, Text, All, nat_eq, ◌||◌, arith,
  subst,
}
use net_policy.Http1Codec.Strings.{eq_ignore_ascii_case, trim, from_str_radix}
use net_policy.Http1Codec.Lossy.{from_utf8_lossy}
use net_policy.Http1Codec.Headers.{
  Request, Status, complete, partial, invalid, Httparse, HeaderParseResult, refused, more, parsed,
  is_ambiguous, is_content_length, is_chunked, agree, push_field, read_fields, header_result,
  max_headers, try_parse_headers,
}
use net_policy.Http1Codec.Trimmed.{SaysChunked, SaysChunked-is_chunked}
use net_policy.Http.Http1.{to_low}
use net_policy.Http1Codec.Progress.{unless_parsed}

-- A field that states the length of the body states this one.
abbrev pub States : Option ℕ → Text × Text → Type 0
States length (name, value) =
    is_content_length name ≡ true → from_str_radix 10 (trim value) ≡ length

unfoldable pub some_chunked : List (Text × Text) → Bool
some_chunked [] = false
some_chunked ((name, value) ∷ fields) =
    let rest = some_chunked fields in
    elim (is_content_length name) [ true ↦ rest | false ↦ is_chunked name value || rest ]

-- What the loop over the headers finds, from the length and the flag it has.
record IsRead (before : Option ℕ) (flag : Bool) (fields : List (Text × Text)) (length : Option ℕ)
    (chunked : Bool) : Type 0 where
  kept : (n : ℕ) → before ≡ some n → length ≡ some n
  stated : All (States length) fields
  flagged : chunked ≡ (flag || some_chunked fields)

agree_same : (before : Option ℕ) (n m : ℕ) → agree before n ≡ true → before ≡ some m → n ≡ m
unfolding agree
agree_same none n m h e = cc
agree_same (some k) n m h e = ground arith

or_true : (b : Bool) → true ≡ (b || true)
or_true true = refl
or_true false = refl

or_false : (b : Bool) → b ≡ (b || false)
or_false true = refl
or_false false = refl

or_end : (b : Bool) → (b || true) ≡ true
or_end true = refl
or_end false = refl

or_assoc : (a b c : Bool) → ((a || b) || c) ≡ (a || (b || c))
or_assoc true b c = refl
or_assoc false b c = refl

length-IsRead :
    (before : Option ℕ) (flag : Bool) (name value : Text) (n : ℕ) (fields : List (Text × Text))
    (length : Option ℕ) (chunked : Bool)
    → is_content_length name ≡ true
    → from_str_radix 10 (trim value) ≡ some n
    → agree before n ≡ true
    → IsRead (some n) flag fields length chunked
    → IsRead before flag ((name, value) ∷ fields) length chunked
unfolding some_chunked
length-IsRead before flag name value n fields length chunked c e a r = record {
  kept = λ m h. rw (← agree_same before n m a h) (r.kept n refl);
  stated = (λ _. e ∙ sym (r.kept n refl), r.stated);
  flagged = rw (c, some_chunked) r.flagged;
}

other-IsRead :
    (before : Option ℕ) (flag flag' : Bool) (name value : Text) (fields : List (Text × Text))
    (length : Option ℕ) (chunked : Bool)
    → is_content_length name ≡ false
    → flag' ≡ (flag || is_chunked name value)
    → IsRead before flag' fields length chunked
    → IsRead before flag ((name, value) ∷ fields) length chunked
unfolding some_chunked
other-IsRead before flag flag' name value fields length chunked c f r = record {
  kept = r.kept;
  stated = (λ d. let clash : true ≡ false = sym d ∙ c in cc, r.stated);
  flagged =
      rw (c, some_chunked)
        (r.flagged ∙ rw f (or_assoc flag (is_chunked name value) (some_chunked fields)));
}

-- The same of what the loop returns.
HasRead : Option ℕ → Bool → Option (List (Text × Text) × Option ℕ × Bool) → Type 0
HasRead before flag none = Unit
HasRead before flag (some (fields, length, chunked)) = IsRead before flag fields length chunked

push_field-HasRead :
    (before before' : Option ℕ) (flag flag' : Bool) (field : Text × Text)
    (o : Option (List (Text × Text) × Option ℕ × Bool))
    → ((fields : List (Text × Text)) (length : Option ℕ) (chunked : Bool)
        → IsRead before' flag' fields length chunked
        → IsRead before flag (field ∷ fields) length chunked)
    → HasRead before' flag' o
    → HasRead before flag (push_field field o)
unfolding HasRead
push_field-HasRead before before' flag flag' field none step h = tt
push_field-HasRead before before' flag flag' field (some (fields, length, chunked)) step h =
    step fields length chunked h

read_fields-HasRead :
    (headers : List (Text × Text)) (before : Option ℕ) (flag : Bool)
    → HasRead before flag (read_fields headers before flag)
unfolding read_fields
read_fields-HasRead [] before flag =
    unfold HasRead some_chunked in record { kept = λ n h. h; stated = tt; flagged = or_false flag }
read_fields-HasRead ((name, raw) ∷ headers) before flag =
    elim (Bool-cases (is_content_length name)) [
      | inl c ↦ elim (Option-cases (from_str_radix 10 (trim (from_utf8_lossy raw)))) [
        | inl o ↦ rw (c, read_fields, o) (unfold HasRead in tt)
        | inr (n, o) ↦ elim (Bool-cases (agree before n)) [
          | inl a ↦
              rw (c, read_fields, o, a)
                (push_field-HasRead before (some n) flag flag (name, from_utf8_lossy raw) _
                  (λ fields length chunked r.
                    length-IsRead before flag name (from_utf8_lossy raw) n fields length chunked c o
                      a r)
                  (read_fields-HasRead headers (some n) flag))
          | inr a ↦ rw (c, read_fields, o, a) (unfold HasRead in tt)
        ]
      ]
      | inr c ↦ elim (Bool-cases (is_chunked name (from_utf8_lossy raw))) [
        | inl k ↦
            rw (c, read_fields, k)
              (push_field-HasRead before before flag true (name, from_utf8_lossy raw) _
                (λ fields length chunked r.
                  other-IsRead before flag true name (from_utf8_lossy raw) fields length chunked c
                    (rw k (or_true flag)) r)
                (read_fields-HasRead headers before true))
        | inr k ↦
            rw (c, read_fields, k)
              (push_field-HasRead before before flag flag (name, from_utf8_lossy raw) _
                (λ fields length chunked r.
                  other-IsRead before flag flag name (from_utf8_lossy raw) fields length chunked c
                    (rw k (or_false flag)) r)
                (read_fields-HasRead headers before flag))
      ]
    ]

no_length : (name : Text) → to_low name ≡ codes "transfer-encoding" → is_content_length name ≡ false
unfolding is_content_length eq_ignore_ascii_case to_low text_beq
no_length name h = rw (h, is_content_length, eq_ignore_ascii_case)

some_chunked-heard :
    (fields : List (Text × Text)) (name value : Text)
    → Among (name, value) fields
    → SaysChunked name value
    → some_chunked fields ≡ true
unfolding some_chunked
some_chunked-heard [] name value m c = elim m [ ]
some_chunked-heard ((n, v) ∷ fields) name value (inl e) c =
    let first : n ≡ name = ap (λ f. f.0) e in
    let second : v ≡ value = ap (λ f. f.1) e in
    let heard : is_chunked n v ≡ true = rw (first, second) (SaysChunked-is_chunked name value c) in
    rw (no_length n (ap to_low first ∙ c.named), some_chunked, heard)
some_chunked-heard ((n, v) ∷ fields) name value (inr m) c =
    let rest = some_chunked-heard fields name value m c in
    elim (Bool-cases (is_content_length n)) [
      | inl l ↦ rw (l, some_chunked) rest
      | inr l ↦ rw (l, some_chunked, rest) (or_end (is_chunked n v))
    ]

-- What the headers that are accepted say of the body: every content-length field states the length
-- that is reported, a transfer-encoding field that says `chunked` is heard, only one that passes the
-- test of its value is, and a chunked body has no length.
pub record IsUnambiguous (r : HeaderParseResult) : Type 0 where
  pub stated : All (States r.content_length) r.fields
  pub flagged : r.chunked ≡ some_chunked r.fields
  pub heard :
      (name value : Text) → Among (name, value) r.fields → SaysChunked name value → r.chunked ≡ true
  pub one_way : r.chunked ≡ true → r.content_length ≡ none

one_length :
    (length : Option ℕ) (chunked : Bool)
    → is_ambiguous length chunked ≡ false
    → chunked ≡ true
    → length ≡ none
unfolding is_ambiguous
one_length none chunked a c = refl
one_length (some n) chunked a c = let clash : false ≡ true = sym a ∙ c in cc

header_result-IsUnambiguous :
    (n : ℕ) (q : Request) (o : Option (List (Text × Text) × Option ℕ × Bool))
    (r : HeaderParseResult)
    → HasRead none false o
    → header_result n q o ≡ parsed r
    → IsUnambiguous r
unfolding header_result HasRead
header_result-IsUnambiguous n q none r h e = let clash : refused ≡ parsed r = e in cc
header_result-IsUnambiguous n q (some (fields, length, chunked)) r h e =
    elim (Bool-cases (is_ambiguous length chunked)) [
      | inl a ↦ let clash : refused ≡ parsed r = rw a at e in cc
      | inr a ↦ subst IsUnambiguous (unless_parsed (is_ambiguous length chunked) _ r e) (record {
        stated = h.stated;
        flagged = h.flagged;
        heard = λ name value m c. h.flagged ∙ some_chunked-heard fields name value m c;
        one_way = one_length length chunked a;
      })
    ]

-- In headers that are accepted, every content-length field states the length that is reported; a
-- transfer-encoding field with the value `chunked`, in any case of letters and with white space of
-- one byte around it, makes the body chunked; the body is chunked only if a transfer-encoding field
-- passes the parser's own test; and a chunked body has no length. Other values of transfer-encoding,
-- a list of codings as well, are passed over.
pub try_parse_headers-IsUnambiguous :
    (httparse : Httparse) (buf : Text) (r : HeaderParseResult)
    → try_parse_headers httparse buf ≡ parsed r
    → IsUnambiguous r
unfolding try_parse_headers
try_parse_headers-IsUnambiguous httparse buf r e = by_status (httparse.parse max_headers buf) refl
  where
    by_status : (x : Status) → httparse.parse max_headers buf ≡ x → IsUnambiguous r
    by_status (complete n q) k =
        header_result-IsUnambiguous n q _ r (read_fields-HasRead q.headers none false)
          (rw (k, try_parse_headers) at e)
    by_status partial k = let clash : more ≡ parsed r = rw (k, try_parse_headers) at e in cc
    by_status invalid k = let clash : refused ≡ parsed r = rw (k, try_parse_headers) at e in cc
