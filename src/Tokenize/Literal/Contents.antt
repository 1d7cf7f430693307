-- ===== src/Tokenize/Literal/Contents.antt =====
-- tokenize.c: what a string literal without escapes holds.
use chibicc.Common.{
  ℕ, suc, zero, ◌+◌, ◌-◌, ◌/◌, ◌^◌, ◌≤◌, ◌<◌, ◌≡◌, ◌∙◌, refl, ap, arith, Bool, true, false, not,
  ◌||◌, List, [], ◌∷◌, ◌++◌, ◌==◌, drop, length, length-append, drop-append, ◌%◌, ltb,
  if◌then◌else◌, bit_and, Bool-cases, inl, inr,
}
use mathlib.Core.List.{append_assoc}
use chibicc.Common.BitLaws.{bit_and-mask}
use chibicc.Unicode.Utf8.{encode_utf8}
use chibicc.Unicode.Utf8.RoundTrip.{
  decode_utf8-encode_utf8, continuation, lead_two, lead_three, lead_four,
}
use chibicc.Unicode.Width.Sum.{encode_all, length-encode_utf8-pos}
use chibicc.Tokenize.Result.{ok}
use chibicc.Tokenize.Chars.{first}
use chibicc.Tokenize.Lines.{backslash, newline}
use chibicc.Tokenize.Escape.{string_literal_end}
use chibicc.Tokenize.Literal.{
  UnitReader, char_unit, utf16_units, utf16_unit, utf32_unit, read_units, read_literal,
  read_string_literal, read_utf16_string_literal, read_utf32_string_literal,
}

-- Neither a quote nor a newline nor a backslash.
abbrev pub is_plain : ℕ → Bool
is_plain c = not (c == b'"' || (c == newline || c == backslash))

abbrev pub ArePlain : List ℕ → Type 0
ArePlain [] = Unit
ArePlain (c ∷ cs) = (is_plain c ≡ true) × (c < 0x110000) × ArePlain cs

abbrev PlainBytes : List ℕ → Type 0
PlainBytes [] = Unit
PlainBytes (c ∷ cs) = (is_plain c ≡ true) × PlainBytes cs

encode_utf8-PlainBytes : (c : ℕ) → is_plain c ≡ true → c < 2 ^ 21 → PlainBytes (encode_utf8 c)
unfolding encode_utf8
encode_utf8-PlainBytes c h k = ground (
  arith,
  continuation c,
  continuation (c / 2 ^ 6),
  continuation (c / 2 ^ 12),
  lead_two (c / 2 ^ 6),
  lead_three (c / 2 ^ 12),
  lead_four (c / 2 ^ 18),
)

PlainBytes-append : (xs ys : List ℕ) → PlainBytes xs → PlainBytes ys → PlainBytes (xs ++ ys)
PlainBytes-append [] ys h k = k
PlainBytes-append (x ∷ xs) ys h k = (h.0, PlainBytes-append xs ys h.1 k)

encode_all-PlainBytes : (cs : List ℕ) → ArePlain cs → PlainBytes (encode_all cs)
unfolding encode_all
encode_all-PlainBytes [] h = tt
encode_all-PlainBytes (c ∷ cs) h =
    PlainBytes-append (encode_utf8 c) (encode_all cs)
      (encode_utf8-PlainBytes c h.0 (omega (arith, h.1))) (encode_all-PlainBytes cs h.2)

pub string_literal_end-quote : (rest : List ℕ) → string_literal_end (b'"' ∷ rest) ≡ ok 0
unfolding string_literal_end
string_literal_end-quote [] = refl
string_literal_end-quote (d ∷ rest) = refl

string_literal_end-cons :
    (c d : ℕ) (p : List ℕ) (n : ℕ)
    → is_plain c ≡ true
    → string_literal_end (d ∷ p) ≡ ok n
    → string_literal_end (c ∷ d ∷ p) ≡ ok (n + 1)
unfolding string_literal_end
string_literal_end-cons c d p n h e =
    let q : (c == b'"') ≡ false = ground arith in
    let r : (c == newline) ≡ false = ground arith in
    let s : (c == backslash) ≡ false = ground arith in rw (q, r, s, e) refl

string_literal_end-PlainBytes :
    (xs rest : List ℕ) → PlainBytes xs → string_literal_end (xs ++ (b'"' ∷ rest)) ≡ ok (length xs)
string_literal_end-PlainBytes [] rest h = string_literal_end-quote rest
string_literal_end-PlainBytes (c ∷ []) rest h =
    string_literal_end-cons c b'"' rest 0 h.0 (string_literal_end-quote rest) ∙ ap ok (omega arith)
string_literal_end-PlainBytes (c ∷ d ∷ xs) rest h =
    string_literal_end-cons c d (xs ++ (b'"' ∷ rest)) (length (d ∷ xs)) h.0
      (string_literal_end-PlainBytes (d ∷ xs) rest h.1)
    ∙ ap ok (omega arith)

-- A round of the loop.
pub read_units-suc :
    (reader : UnitReader) (fuel left n : ℕ) (p q units us : List ℕ)
    → 0 < left
    → reader p ≡ ok (units, n)
    → drop n p ≡ q
    → read_units reader fuel q (left - n) ≡ ok us
    → read_units reader (suc fuel) p left ≡ ok (units ++ us)
unfolding read_units
read_units-suc reader fuel left n p q units us h e d r =
    let z : (left == 0) ≡ false = ground arith in rw (z, e, d, r) refl

pub read_units-done :
    (reader : UnitReader) (fuel : ℕ) (p : List ℕ) → read_units reader fuel p 0 ≡ ok []
unfolding read_units
read_units-done reader zero p = refl
read_units-done reader (suc fuel) p = refl

-- The units of the code points, one after another.
unfoldable pub units_of : (ℕ → List ℕ) → List ℕ → List ℕ
units_of f [] = []
units_of f (c ∷ cs) = f c ++ units_of f cs

module _ (reader : UnitReader) (f : ℕ → List ℕ)
    (one : (c : ℕ) (more : List ℕ)
      → is_plain c ≡ true
      → c < 0x110000
      → reader (encode_utf8 c ++ more) ≡ ok (f c, length (encode_utf8 c))) where
  read_units-encode_all :
      (cs more : List ℕ) (fuel : ℕ)
      → ArePlain cs
      → length (encode_all cs) ≤ fuel
      → read_units reader fuel (encode_all cs ++ more) (length (encode_all cs)) ≡ ok (units_of f cs)
  unfolding encode_all units_of
  read_units-encode_all [] more fuel h k = read_units-done reader fuel more
  read_units-encode_all (c ∷ cs) more zero h k =
      absurd
        (omega (arith, length-encode_utf8-pos c, length-append (encode_utf8 c) (encode_all cs)))
  read_units-encode_all (c ∷ cs) more (suc fuel) h k =
      let l = length-append (encode_utf8 c) (encode_all cs) in
      let pos = length-encode_utf8-pos c in
      let n = length (encode_utf8 c) in
      let left : length (encode_utf8 c ++ encode_all cs) - n ≡ length (encode_all cs) =
        omega (arith, l) in
      let a = append_assoc (encode_utf8 c) (encode_all cs) more in
      read_units-suc reader fuel (length (encode_utf8 c ++ encode_all cs)) n
        ((encode_utf8 c ++ encode_all cs) ++ more) (encode_all cs ++ more) (f c) (units_of f cs)
        (omega (arith, l, pos)) (rw a (one c (encode_all cs ++ more) h.0 h.1))
        (rw a (drop-append (encode_utf8 c) (encode_all cs ++ more)))
        (rw left (read_units-encode_all cs more fuel h.2 (omega (arith, l, pos))))

first-PlainBytes :
    (xs more : List ℕ) → PlainBytes xs → 0 < length xs → (first (xs ++ more) == backslash) ≡ false
first-PlainBytes [] more h k = absurd (omega arith)
first-PlainBytes (x ∷ xs) more h k = ground arith

utf32_unit-encode_utf8 :
    (c : ℕ) (more : List ℕ)
    → is_plain c ≡ true
    → c < 0x110000
    → utf32_unit (encode_utf8 c ++ more) ≡ ok (c ∷ [], length (encode_utf8 c))
unfolding utf32_unit
utf32_unit-encode_utf8 c more h k =
    rw
      (
        first-PlainBytes (encode_utf8 c) more (encode_utf8-PlainBytes c h (omega (arith, k)))
            (length-encode_utf8-pos c),
        decode_utf8-encode_utf8 more c (omega (arith, k)),
      )
      refl

-- UTF-16 by the Unicode standard: a code point from 0x10000 on is two surrogates, which have the upper
-- bits less 0x40 and the lower ten bits.
abbrev pub utf16_form : ℕ → List ℕ
utf16_form c = if ltb c 0x10000 then c ∷ [] else (0xd7c0 + c / 1024) ∷ (0xdc00 + c % 1024) ∷ []

utf16_units-form : (c : ℕ) → c < 0x110000 → utf16_units c ≡ utf16_form c
utf16_units-form c h =
    let a : bit_and ((c - 0x10000) / 2 ^ 10) 0x3ff ≡ (c - 0x10000) / 2 ^ 10 % 2 ^ 10 =
      bit_and-mask 10 ((c - 0x10000) / 2 ^ 10) in
    let b : bit_and (c - 0x10000) 0x3ff ≡ (c - 0x10000) % 2 ^ 10 = bit_and-mask 10 (c - 0x10000) in
    elim (Bool-cases (ltb c 0x10000)) [
      | inl z ↦ rw z refl
      | inr z ↦
          let l : 0x10000 ≤ c = ground arith in
          let u : 0xd800 + bit_and ((c - 0x10000) / 2 ^ 10) 0x3ff ≡ 0xd7c0 + c / 1024 =
            omega (arith, a) in
          let v : 0xdc00 + bit_and (c - 0x10000) 0x3ff ≡ 0xdc00 + c % 1024 = omega (arith, b) in
          rw (z, u, v) refl
    ]

utf16_unit-encode_utf8 :
    (c : ℕ) (more : List ℕ)
    → is_plain c ≡ true
    → c < 0x110000
    → utf16_unit (encode_utf8 c ++ more) ≡ ok (utf16_form c, length (encode_utf8 c))
unfolding utf16_unit
utf16_unit-encode_utf8 c more h k =
    rw
      (
        first-PlainBytes (encode_utf8 c) more (encode_utf8-PlainBytes c h (omega (arith, k)))
            (length-encode_utf8-pos c),
        decode_utf8-encode_utf8 more c (omega (arith, k)),
      )
      (ap (λ us. ok (us, length (encode_utf8 c))) (utf16_units-form c k))

read_units-char_unit :
    (xs more : List ℕ) (fuel : ℕ)
    → PlainBytes xs
    → length xs ≤ fuel
    → read_units char_unit fuel (xs ++ more) (length xs) ≡ ok xs
unfolding char_unit
read_units-char_unit [] more fuel h k = read_units-done char_unit fuel more
read_units-char_unit (x ∷ xs) more zero h k = absurd (omega arith)
read_units-char_unit (x ∷ xs) more (suc fuel) h k =
    let b : (x == backslash) ≡ false = ground arith in
    let left : length (x ∷ xs) - 1 ≡ length xs = omega arith in
    read_units-suc char_unit fuel (length (x ∷ xs)) 1 (x ∷ (xs ++ more)) (xs ++ more) (x ∷ []) xs
      (omega arith) (rw b refl) refl (rw left (read_units-char_unit xs more fuel h.1 (omega arith)))

units_of-single : (cs : List ℕ) → units_of (λ c. c ∷ []) cs ≡ cs
unfolding units_of
units_of-single [] = refl
units_of-single (c ∷ cs) = ap (◌∷◌ c) (units_of-single cs)

read_literal-ok :
    (reader : UnitReader) (xs rest us : List ℕ)
    → PlainBytes xs
    → read_units reader (length xs) (xs ++ (b'"' ∷ rest)) (length xs) ≡ ok us
    → read_literal reader (xs ++ (b'"' ∷ rest)) ≡ ok (us, length xs + 1)
unfolding read_literal
read_literal-ok reader xs rest us h e = rw (string_literal_end-PlainBytes xs rest h, e) refl

-- Where the text of a string literal is the UTF-8 encoding of code points below 0x110000, none of them a
-- quote, a newline or a backslash, the literal ends at the next quote and holds: its bytes, as a string
-- of characters; in UTF-16, each code point below 0x10000 and the two surrogates that the Unicode
-- standard gives for any other; in UTF-32, the code points.
pub read_string_literal-encode_all :
    (cs rest : List ℕ)
    → ArePlain cs
    → let text = encode_all cs ++ (b'"' ∷ rest) in
      (read_string_literal text ≡ ok (encode_all cs, length (encode_all cs) + 1))
      × (read_utf16_string_literal text ≡ ok (units_of utf16_form cs, length (encode_all cs) + 1))
      × (read_utf32_string_literal text ≡ ok (cs, length (encode_all cs) + 1))
read_string_literal-encode_all cs rest h =
    let xs = encode_all cs in
    let plain = encode_all-PlainBytes cs h in
    let more = b'"' ∷ rest in
    (
      read_literal-ok char_unit xs rest xs plain
          (read_units-char_unit xs more (length xs) plain (omega arith)),
      read_literal-ok utf16_unit xs rest (units_of utf16_form cs) plain (
          read_units-encode_all utf16_unit utf16_form utf16_unit-encode_utf8 cs more (length xs) h
            (omega arith)),
      read_literal-ok utf32_unit xs rest cs plain (
          read_units-encode_all utf32_unit (λ c. c ∷ []) utf32_unit-encode_utf8 cs more (length xs)
            h (omega arith)
          ∙ ap ok (units_of-single cs)),
    )
