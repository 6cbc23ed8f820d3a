-- ===== src/Http1Codec/Trimmed.antt =====
-- Texts with white space around them: `trim` on the values of crates/http1_codec/src/header_parser.rs.
use net_policy.Common.{
  ℕ, ◌≡◌, refl, ap, ◌∙◌, true, false, [], ◌∷◌, ◌++◌, Text, All, arith, ◌<◌, ◌≤◌, codes, text_eq,
  text_beq_iff,
}
use net_policy.Http1Codec.Strings.{
  is_space1, is_space2, space3, trim_start, trim_end, trim, reverse_onto, eq_ignore_ascii_case,
}
use net_policy.Http.Http1.{to_low}
use net_policy.Http1Codec.Headers.{is_chunked}

-- White space of one byte.
abbrev pub Blank : Text → Type 0
Blank s = All (λ c. is_space1 c ≡ true) s

-- A byte of ASCII that is no white space.
abbrev pub Solid : ℕ → Type 0
Solid c = (is_space1 c ≡ false) × (c < 128)

trim_start_blank : (c : ℕ) (s : Text) → is_space1 c ≡ true → trim_start (c ∷ s) ≡ trim_start s
unfolding trim_start
trim_start_blank c [] h = ground arith
trim_start_blank c (a ∷ []) h = ground arith
trim_start_blank c (a ∷ b ∷ s) h = ground arith

trim_end_blank : (c : ℕ) (s : Text) → is_space1 c ≡ true → trim_end (c ∷ s) ≡ trim_end s
unfolding trim_end
trim_end_blank c [] h = ground arith
trim_end_blank c (a ∷ []) h = ground arith
trim_end_blank c (a ∷ b ∷ s) h = ground arith

trim_start-Solid : (c : ℕ) (s : Text) → Solid c → trim_start (c ∷ s) ≡ c ∷ s
unfolding trim_start is_space2 space3
trim_start-Solid c [] (h, k) = ground arith
trim_start-Solid c (a ∷ []) (h, k) = ground arith
trim_start-Solid c (a ∷ b ∷ s) (h, k) = ground arith

trim_end-Solid : (c : ℕ) (s : Text) → Solid c → trim_end (c ∷ s) ≡ c ∷ s
unfolding trim_end is_space2 space3
trim_end-Solid c [] (h, k) = ground arith
trim_end-Solid c (a ∷ []) (h, k) = ground arith
trim_end-Solid c (a ∷ b ∷ s) (h, k) = ground arith

trim_start-pad : (pad s : Text) → Blank pad → trim_start (pad ++ s) ≡ trim_start s
trim_start-pad [] s b = refl
trim_start-pad (c ∷ pad) s (h, b) = trim_start_blank c (pad ++ s) h ∙ trim_start-pad pad s b

-- Reversed white space goes as well.
trim_end-pad : (pad s : Text) → Blank pad → trim_end (reverse_onto pad s) ≡ trim_end s
unfolding reverse_onto
trim_end-pad [] s b = refl
trim_end-pad (c ∷ pad) s (h, b) = trim_end-pad pad (c ∷ s) b ∙ trim_end_blank c s h

reverse_onto-append :
    (s t acc : Text) → reverse_onto (s ++ t) acc ≡ reverse_onto t (reverse_onto s acc)
unfolding reverse_onto
reverse_onto-append [] t acc = refl
reverse_onto-append (c ∷ s) t acc = reverse_onto-append s t (c ∷ acc)

reverse_twice : (s acc t : Text) → reverse_onto (reverse_onto s acc) t ≡ reverse_onto acc (s ++ t)
unfolding reverse_onto
reverse_twice [] acc t = refl
reverse_twice (c ∷ s) acc t = reverse_twice s (c ∷ acc) t

-- White space on both sides of a text that starts and ends with other characters goes, and nothing
-- else.
pub trim-padded :
    (pad back : Text) (first last : ℕ) (inner : Text)
    → Blank pad
    → Blank back
    → Solid first
    → Solid last
    → trim (pad ++ ((first ∷ inner) ++ (last ∷ []) ++ back)) ≡ (first ∷ inner) ++ (last ∷ [])
unfolding trim reverse_onto
trim-padded pad back first last inner p b f l =
    let word = (first ∷ inner) ++ (last ∷ []) in
    let front : trim_start (pad ++ (word ++ back)) ≡ word ++ back =
      trim_start-pad pad (word ++ back) p ∙ trim_start-Solid first _ f in
    let turned : reverse_onto (word ++ back) []
        ≡ reverse_onto back (last ∷ reverse_onto (first ∷ inner) []) =
      reverse_onto-append word back []
      ∙ ap (reverse_onto back) (reverse_onto-append (first ∷ inner) (last ∷ []) []) in
    let ended : trim_end (reverse_onto back (last ∷ reverse_onto (first ∷ inner) []))
        ≡ last ∷ reverse_onto (first ∷ inner) [] =
      trim_end-pad back _ b ∙ trim_end-Solid last _ l in
    rw (front, turned, ended) (reverse_twice (first ∷ inner) [] (last ∷ []))

-- A byte whose lower case is a letter.
abbrev IsLetter : ℕ → Type 0
IsLetter c = (97 ≤ c) × (c ≤ 122)

letter-Solid : (c x : ℕ) (s t : Text) → IsLetter x → to_low (c ∷ s) ≡ x ∷ t → Solid c
unfolding to_low is_space1
letter-Solid c x s t l h = ground arith

low_tail : (c x : ℕ) (s t : Text) → to_low (c ∷ s) ≡ x ∷ t → to_low s ≡ t
unfolding to_low
low_tail c x s t h = ground arith

low_last :
    (w t : Text) (x : ℕ)
    → IsLetter x
    → to_low w ≡ t ++ (x ∷ [])
    → (s : Text) × (c : ℕ) × (w ≡ s ++ (c ∷ [])) × Solid c
unfolding to_low
low_last [] [] x l h = cc
low_last [] (y ∷ t) x l h = cc
low_last (c ∷ []) [] x l h = ([], c, refl, letter-Solid c x [] [] l h)
low_last (c ∷ a ∷ s) [] x l h =
    let e : to_low (a ∷ s) ≡ [] = low_tail c x (a ∷ s) [] h in absurd (ground arith)
low_last (c ∷ s) (y ∷ t) x l h =
    let (s', d, e, k) = low_last s t x l (low_tail c y s (t ++ (x ∷ [])) h) in
    (c ∷ s', d, ap (λ r. c ∷ r) e, k)

-- A transfer-encoding field whose value is the word `chunked`, in any case of letters, with white
-- space of one byte around it.
pub record SaysChunked (name value : Text) : Type 0 where
  pub pad : Text
  pub back : Text
  pub word : Text
  pub named : to_low name ≡ codes "transfer-encoding"
  pub padded : value ≡ pad ++ (word ++ back)
  pub pad_Blank : Blank pad
  pub back_Blank : Blank back
  pub spelled : to_low word ≡ codes "chunked"

trim-word :
    (pad back word : Text)
    → Blank pad
    → Blank back
    → to_low word ≡ codes "chunked"
    → trim (pad ++ (word ++ back)) ≡ word
unfolding to_low
trim-word pad back [] p b h = absurd (ground arith)
trim-word pad back (a ∷ s) p b h =
    let tail = low_tail a 99 s (codes "hunked") h in
    let (inner, last, e, l) = low_last s (codes "hunke") 100 (omega arith, omega arith) tail in
    rw e (
      trim-padded pad back a last inner p b
        (letter-Solid a 99 s (codes "hunked") (omega arith, omega arith) h) l)

pub SaysChunked-is_chunked :
    (name value : Text) → SaysChunked name value → is_chunked name value ≡ true
unfolding is_chunked eq_ignore_ascii_case to_low
SaysChunked-is_chunked name value c =
    let trimmed : trim value ≡ c.word =
      ap trim c.padded ∙ trim-word c.pad c.back c.word c.pad_Blank c.back_Blank c.spelled in
    ground (
      arith,
      trimmed,
      c.named,
      c.spelled,
      text_beq_iff (to_low name) (codes "transfer-encoding"),
      text_beq_iff (to_low (trim value)) (codes "chunked"),
      ap to_low trimmed,
    )
