-- ===== src/Http1Codec/Chunks.antt =====
-- A chunked body as RFC 9112 writes it, read by `advance` of
-- crates/http1_codec/src/body_framing.rs.
use net_policy.Common.{
  ℕ, suc, ◌+◌, ◌≤◌, ◌≡◌, refl, ap, subst, ◌∙◌, Bool, ◌&&◌, ◌==◌, nat_eq, true, false, Option, none,
  some, List, [], ◌∷◌, ◌++◌, Text, length, drop, length-drop, length-append, All, arith,
}
use net_policy.Http1Codec.Strings.{take}
use net_policy.Http1Codec.Slices.{drop-append_right}
use net_policy.Http1Codec.Body.{
  BodyFraming, chunked_size, chunked_data, chunked_trailer, find_crlf, found_after, size_of_line,
  again, complete, sized, trailer, after_data, chunked_round, advanced, advance_chunked, advance,
}
use net_policy.Http1Codec.Fragments.{
  IsChunked, size, body, last, IsFirm, chunked_round-IsFirm, data_full,
}
use net_policy.Http1Codec.Resumed.{
  after_round, chunked_loop-after_round, moved, chunked_loop-moved, chunked_loop-fuel,
}
use net_policy.Http1Codec.Splits.{IsSplit, advance-IsSplit}

-- A line without its end: no CR LF ends in it or at its end.
pub record IsLine (line : Text) : Type 0 where
  pub unended : find_crlf (line ++ (13 ∷ [])) ≡ none

-- The size line, with extensions if any, and the data.
pub record Chunk : Type 0 where
  pub line : Text
  pub content : Text

pub record IsChunk (c : Chunk) : Type 0 where
  pub is_line : IsLine c.line
  pub some_data : 1 ≤ length c.content
  pub sized : size_of_line c.line ≡ some (length c.content)

pub record IsField (line : Text) : Type 0 where
  pub is_line : IsLine line
  pub some_text : 1 ≤ length line

abbrev pub ended : Text → Text → Text
ended line after = line ++ (13 ∷ 10 ∷ after)

abbrev pub fields_text : List Text → Text
fields_text [] = 13 ∷ 10 ∷ []
fields_text (field ∷ fields) = ended field (fields_text fields)

-- The chunks, the line of the last chunk, and the trailer section.
abbrev pub body_text : List Chunk → Text → List Text → Text
body_text [] zero_line fields = ended zero_line (fields_text fields)
body_text (c ∷ chunks) zero_line fields =
    ended c.line (ended c.content (body_text chunks zero_line fields))

found_none :
    (here : Bool) (rest : Option ℕ) → found_after here rest ≡ none → (here ≡ false) × (rest ≡ none)
found_none true rest e = cc
found_none false none e = (refl, refl)
found_none false (some n) e = cc

find_crlf-ended :
    (line after : Text)
    → find_crlf (line ++ (13 ∷ [])) ≡ none
    → find_crlf (ended line after) ≡ some (length line)
unfolding find_crlf
find_crlf-ended [] after e = refl
find_crlf-ended (a ∷ []) after e = ground (arith)
find_crlf-ended (a ∷ b ∷ line) after e =
    let (h, k) = found_none (a == 13 && b == 10) (find_crlf (b ∷ (line ++ (13 ∷ [])))) e in
    rw (h, find_crlf-ended (b ∷ line) after k)

take-all : (s t : Text) → take (length s) (s ++ t) ≡ s
unfolding take
take-all [] t = refl
take-all (c ∷ s) t = ap (λ r. c ∷ r) (take-all s t)

-- The loop ends the body at the end of the bytes.
IsEnd : BodyFraming → Text → Type 0
IsEnd f s = advance_chunked f s ≡ advanced chunked_trailer (length s) true

again-IsEnd :
    (f f' : BodyFraming) (n : ℕ) (s : Text)
    → IsChunked f
    → chunked_round f s ≡ again f' n
    → IsEnd f' (drop n s)
    → IsEnd f s
unfolding IsEnd advance_chunked after_round
again-IsEnd f f' n s c e h =
    let (n1, n2, c', _) = firm in
    chunked_loop-after_round (length s) 0 f s
    ∙ rw (e, after_round)
        (chunked_loop-moved (length s) n 0 (0 + n) f' (drop n s) (omega arith)
          ∙ ap (moved n) (
              chunked_loop-fuel (length s) _ 0 f' (drop n s) c' (omega (arith, length-drop n s))
                (omega arith)
              ∙ h)
          ∙ unfold moved in
            ap (λ k. advanced chunked_trailer k true) (omega (arith, length-drop n s)))
  where
    firm : (1 ≤ n) × (n ≤ length s) × IsChunked f' × (chunked_round f (s ++ []) ≡ again f' n)
    firm = unfold IsFirm in rw e at (chunked_round-IsFirm f s [] c)

ended-rest : (k : ℕ) (line after : Text) → k ≡ length line + 2 → drop k (ended line after) ≡ after
ended-rest k line after e = drop-append_right k 2 line (13 ∷ 10 ∷ after) (omega arith)

complete-IsEnd :
    (s : Text) → chunked_round chunked_trailer s ≡ complete (length s) → IsEnd chunked_trailer s
unfolding IsEnd advance_chunked after_round
complete-IsEnd s e =
    chunked_loop-after_round (length s) 0 chunked_trailer s
    ∙ rw (e, after_round) (ap (λ k. advanced chunked_trailer k true) (omega arith))

field_round :
    (field after : Text)
    → IsField field
    → chunked_round chunked_trailer (ended field after) ≡ again chunked_trailer (length field + 2)
unfolding chunked_round trailer
field_round [] after h = absurd (omega (arith, h.some_text))
field_round (a ∷ field) after h = rw (find_crlf-ended (a ∷ field) after h.is_line.unended)

fields-IsEnd :
    (fields : List Text) → All IsField fields → IsEnd chunked_trailer (fields_text fields)
fields-IsEnd [] h = complete-IsEnd _ (unfold chunked_round find_crlf trailer in refl)
fields-IsEnd (field ∷ fields) (h, hs) =
    again-IsEnd chunked_trailer chunked_trailer (length field + 2)
      (ended field (fields_text fields)) last (field_round field (fields_text fields) h)
      (rw (ended-rest (length field + 2) field (fields_text fields) refl) (fields-IsEnd fields hs))

size_round :
    (line after : Text) (o : Option ℕ)
    → IsLine line
    → size_of_line line ≡ o
    → chunked_round chunked_size (ended line after) ≡ sized (length line) o
unfolding chunked_round
size_round line after o h e =
    rw (find_crlf-ended line after h.unended, chunked_round, take-all line (13 ∷ 10 ∷ after), e)

data_round :
    (n : ℕ) (content after : Text)
    → length content ≡ n
    → chunked_round (chunked_data n) (ended content after) ≡ again chunked_size (n + 2)
data_round n content after e =
    data_full n (ended content after) (omega (arith, length-append content (13 ∷ 10 ∷ after)))
    ∙ rw (drop-append_right n 0 content (13 ∷ 10 ∷ after) (omega arith)) (unfold after_data in refl)

chunk-IsEnd :
    (n : ℕ) (line content after : Text)
    → IsLine line
    → length content ≡ suc n
    → size_of_line line ≡ some (suc n)
    → IsEnd chunked_size after
    → IsEnd chunked_size (ended line (ended content after))
chunk-IsEnd n line content after h e s end =
    again-IsEnd chunked_size (chunked_data (suc n)) (length line + 2) _ size
      (size_round line (ended content after) _ h s ∙ unfold sized in refl)
      (rw (ended-rest (length line + 2) line (ended content after) refl) (
        again-IsEnd (chunked_data (suc n)) chunked_size (suc n + 2) (ended content after)
          (body (suc n)) (data_round (suc n) content after e)
          (rw (ended-rest (suc n + 2) content after (omega arith)) end)))

body-IsEnd :
    (chunks : List Chunk) (zero_line : Text) (fields : List Text)
    → All IsChunk chunks
    → IsLine zero_line
    → size_of_line zero_line ≡ some 0
    → All IsField fields
    → IsEnd chunked_size (body_text chunks zero_line fields)
body-IsEnd [] zero_line fields cs z e fs =
    again-IsEnd chunked_size chunked_trailer (length zero_line + 2)
      (ended zero_line (fields_text fields)) size
      (size_round zero_line (fields_text fields) _ z e ∙ unfold sized in refl)
      (rw (ended-rest (length zero_line + 2) zero_line (fields_text fields) refl)
        (fields-IsEnd fields fs))
body-IsEnd (c ∷ chunks) zero_line fields (h, cs) z e fs =
    let (n, l) = nonempty c.content h.some_data in
    chunk-IsEnd n c.line c.content (body_text chunks zero_line fields) h.is_line l
      (h.sized ∙ ap some l) (body-IsEnd chunks zero_line fields cs z e fs)
  where
    nonempty : (s : Text) → 1 ≤ length s → (n : ℕ) × (length s ≡ suc n)
    nonempty [] h = absurd (omega arith)
    nonempty (a ∷ s) h = (length s, refl)

-- A chunked body is read to its end and no further: for chunks whose size lines give the lengths of
-- their data, a last line of size 0 and trailer fields that are not empty, none of these lines with a
-- CR LF in it, `advance` takes exactly the body's bytes, whatever follows them.
pub advance-body_text :
    (chunks : List Chunk) (zero_line : Text) (fields : List Text) (after : Text)
    → All IsChunk chunks
    → IsLine zero_line
    → size_of_line zero_line ≡ some 0
    → All IsField fields
    → advance chunked_size (body_text chunks zero_line fields ++ after)
      ≡ advanced chunked_trailer (length (body_text chunks zero_line fields)) true
unfolding IsEnd IsSplit advance
advance-body_text chunks zero_line fields after cs z e fs = ended_split.1
  where
    whole : Text
    whole = body_text chunks zero_line fields

    ended_split :
        (length whole ≤ length whole)
        × (advance chunked_size (whole ++ after) ≡ advanced chunked_trailer (length whole) true)
    ended_split =
        subst (λ x. IsSplit whole after x (advance chunked_size (whole ++ after)))
          (body-IsEnd chunks zero_line fields cs z e fs) (advance-IsSplit chunked_size whole after)
