-- ===== src/Tokenize/Literal/Buffer.antt =====
-- tokenize.c: a literal's buffer is large enough, and UTF-16 can be read back.
use chibicc.Common.{
  ℕ, suc, zero, ◌+◌, ◌-◌, ◌*◌, ◌/◌, ◌%◌, ◌^◌, ◌≤◌, ◌<◌, ◌≡◌, ◌∙◌, refl, sym, ap, arith, false, ◌&&◌,
  some, List, [], ◌∷◌, ◌++◌, ◌==◌, ltb, leb, if◌then◌else◌, drop, length, length-append, Bool-cases,
  Option-cases, inl, inr,
}
use chibicc.Common.BitLaws.{bit_and-mask}
use chibicc.Unicode.Utf8.{decode_utf8}
use chibicc.Tokenize.Result.{Result, ok, failed, overrun, out_of_fuel, bind-ok_inv, ok_inj}
use chibicc.Tokenize.Chars.{first}
use chibicc.Tokenize.Lines.{backslash}
use chibicc.Tokenize.Escape.{read_escaped_char, string_literal_end}
use chibicc.Tokenize.Literal.{
  UnitReader, escape_unit, char_unit, utf16_units, utf16_unit, utf32_unit, read_units, read_literal,
  read_string_literal, read_utf16_string_literal, read_utf32_string_literal,
}
use chibicc.Tokenize.Literal.Contents.{units_of}

-- A character gives at most `k` units, and at most as many as it takes bytes.
abbrev IsFrugal : ℕ → UnitReader → Type 0
IsFrugal k reader =
    (p us : List ℕ) (n : ℕ) → reader p ≡ ok (us, n) → (length us ≤ k) × (length us ≤ n)

-- UTF-16 read back: a unit from 0xd800 to 0xdbff and the next make one character.
unfoldable pub decode_utf16 : List ℕ → List ℕ
decode_utf16 [] = []
decode_utf16 (u ∷ []) = u ∷ []
decode_utf16 (u ∷ v ∷ rest) =
    let pair = (0x10000 + ((u - 0xd800) * 2 ^ 10 + (v - 0xdc00))) ∷ decode_utf16 rest in
    let one = u ∷ decode_utf16 (v ∷ rest) in if leb 0xd800 u && ltb u 0xdc00 then pair else one

-- Unicode scalar values.
abbrev pub AreScalars : List ℕ → Type 0
AreScalars [] = Unit
AreScalars (c ∷ cs) = ((leb 0xd800 c && ltb c 0xe000) ≡ false) × (c < 0x110000) × AreScalars cs

decode_utf16-cons :
    (c : ℕ) (us : List ℕ)
    → (leb 0xd800 c && ltb c 0xe000) ≡ false
    → c < 0x110000
    → decode_utf16 (utf16_units c ++ us) ≡ c ∷ decode_utf16 us
unfolding decode_utf16
decode_utf16-cons c [] h k =
    ground (arith, bit_and-mask 10 ((c - 0x10000) / 2 ^ 10), bit_and-mask 10 (c - 0x10000))
decode_utf16-cons c (u ∷ us) h k =
    ground (arith, bit_and-mask 10 ((c - 0x10000) / 2 ^ 10), bit_and-mask 10 (c - 0x10000))

-- The UTF-16 units of Unicode scalar values, read back, are these values.
decode_utf16-units_of : (cs : List ℕ) → AreScalars cs → decode_utf16 (units_of utf16_units cs) ≡ cs
unfolding units_of
decode_utf16-units_of [] h = unfold decode_utf16 in refl
decode_utf16-units_of (c ∷ cs) h =
    decode_utf16-cons c (units_of utf16_units cs) h.0 h.1
    ∙ ap (◌∷◌ c) (decode_utf16-units_of cs h.2)

out_of_fuel-ne-ok {ℓ} : {A : Type ℓ} {a : A} → out_of_fuel ≡ ok a → ⊥
out_of_fuel-ne-ok h = cc

-- What takes one byte is ASCII.
decode_utf8-wide :
    (p : List ℕ) (c n : ℕ) → decode_utf8 p ≡ some (c, n) → (0 < n) × (128 ≤ c → 2 ≤ n)
unfolding decode_utf8
decode_utf8-wide p c n e = ground arith

escape_unit-length :
    (modulus : ℕ) (p us : List ℕ) (n : ℕ)
    → escape_unit modulus p ≡ ok (us, n)
    → (length us ≡ 1) × (1 ≤ n)
escape_unit-length modulus p us n e =
    let (r, s, t) = bind-ok_inv (read_escaped_char (drop 1 p)) _ e in
    let q : (r.0 % modulus ∷ [], r.1 + 1) ≡ (us, n) = ok_inj t in
    (ap (λ (x : List ℕ × ℕ). length x.0) (sym q), omega (arith, ap (λ (x : List ℕ × ℕ). x.1) q))

utf16_unit-IsFrugal : IsFrugal 2 utf16_unit
unfolding utf16_unit
utf16_unit-IsFrugal p us n e = elim (Bool-cases (first p == backslash)) [
  | inl b ↦ omega (arith, escape_unit-length (2 ^ 16) p us n (rw b at e))
  | inr b ↦ elim (Option-cases (decode_utf8 p)) [
    | inl d ↦ let z = rw (b, d) at e in absurd cc
    | inr (r, d) ↦
        let q : (utf16_units r.0, r.1) ≡ (us, n) = ok_inj (rw (b, d) at e) in
        let l = ap (λ (x : List ℕ × ℕ). length x.0) q in
        let m = ap (λ (x : List ℕ × ℕ). x.1) q in
        let w = decode_utf8-wide p r.0 r.1 d in ground arith
  ]
]

-- The buffer of a loop over `left` bytes.
read_units-length :
    (reader : UnitReader) (k fuel left : ℕ) (p us : List ℕ)
    → IsFrugal k reader
    → 1 ≤ k
    → read_units reader fuel p left ≡ ok us
    → (left ≡ 0 → length us ≡ 0) × (length us + 1 ≤ left + k)
unfolding read_units
read_units-length reader k zero left p us f h e = elim (Bool-cases (left == 0)) [
  | inl z ↦ let q : [] ≡ us = ok_inj (rw z at e) in omega (arith, ap length q)
  | inr z ↦ absurd (out_of_fuel-ne-ok (rw z at e))
]
read_units-length reader k (suc fuel) left p us f h e = elim (Bool-cases (left == 0)) [
  | inl z ↦ let q : [] ≡ us = ok_inj (rw z at e) in omega (arith, ap length q)
  | inr z ↦
      let w = rw z at e in
      let ((vs, n), r, t) = bind-ok_inv (reader p) _ w in
      let (ws, u, v) = bind-ok_inv (read_units reader fuel (drop n p) (left - n)) _ t in
      let ih = read_units-length reader k fuel (left - n) (drop n p) ws f h u in
      let q : vs ++ ws ≡ us = ok_inj v in
      let l = ap length q in let m = length-append vs ws in let g = f p vs n r in ground arith
]

char_unit-IsFrugal : IsFrugal 1 char_unit
unfolding char_unit
char_unit-IsFrugal p us n e = elim (Bool-cases (first p == backslash)) [
  | inl b ↦ omega (arith, escape_unit-length (2 ^ 8) p us n (rw b at e))
  | inr b ↦
      let q : (first p ∷ [], 1) ≡ (us, n) = ok_inj (rw b at e) in
      omega (arith, ap (λ (x : List ℕ × ℕ). length x.0) q, ap (λ (x : List ℕ × ℕ). x.1) q)
]

utf32_unit-IsFrugal : IsFrugal 1 utf32_unit
unfolding utf32_unit
utf32_unit-IsFrugal p us n e = elim (Bool-cases (first p == backslash)) [
  | inl b ↦ omega (arith, escape_unit-length (2 ^ 32) p us n (rw b at e))
  | inr b ↦ elim (Option-cases (decode_utf8 p)) [
    | inl d ↦ let z = rw (b, d) at e in absurd cc
    | inr (r, d) ↦
        let q : (r.0 ∷ [], r.1) ≡ (us, n) = ok_inj (rw (b, d) at e) in
        omega (
          arith,
          ap (λ (x : List ℕ × ℕ). length x.0) q,
          ap (λ (x : List ℕ × ℕ). x.1) q,
          decode_utf8-wide p r.0 r.1 d,
        )
  ]
]

read_literal-length :
    (reader : UnitReader) (k : ℕ) (p us : List ℕ) (n : ℕ)
    → IsFrugal k reader
    → 1 ≤ k
    → read_literal reader p ≡ ok (us, n)
    → length us + 2 ≤ n + k
unfolding read_literal
read_literal-length reader k p us n f h e =
    let (left, s, t) = bind-ok_inv (string_literal_end p) _ e in
    let (vs, u, v) = bind-ok_inv (read_units reader left p left) _ t in
    let q : (vs, left + 1) ≡ (us, n) = ok_inj v in
    omega (
      arith,
      ap (λ (x : List ℕ × ℕ). length x.0) q,
      ap (λ (x : List ℕ × ℕ). x.1) q,
      read_units-length reader k left left p vs f h u,
    )

-- The units and a terminating zero fit into `extra` places more than the bytes behind the opening quote,
-- up to and with the closing one.
abbrev pub IsStored : ℕ → Result (List ℕ × ℕ) → Type 0
IsStored extra (ok (us, n)) = length us + 1 ≤ n + extra
IsStored extra _ = Unit

read_literal-IsStored :
    (reader : UnitReader) (k : ℕ) (p : List ℕ) (r : Result (List ℕ × ℕ))
    → IsFrugal (k + 1) reader
    → read_literal reader p ≡ r
    → IsStored k r
read_literal-IsStored reader k p (ok (us, n)) f e =
    omega (arith, read_literal-length reader (k + 1) p us n f (omega arith) e)
read_literal-IsStored reader k p failed f e = tt
read_literal-IsStored reader k p overrun f e = tt
read_literal-IsStored reader k p out_of_fuel f e = tt

-- A literal that is read is stored with its terminating zero in the buffer that its function allocates:
-- `end - quote` characters or UTF-32 units, or `end - start` UTF-16 units, where `start` stands a byte
-- at least before `quote`.
pub read_literal-IsStored_all :
    (p : List ℕ)
    → IsStored 0 (read_string_literal p)
      × IsStored 1 (read_utf16_string_literal p)
      × IsStored 0 (read_utf32_string_literal p)
read_literal-IsStored_all p = (
  read_literal-IsStored char_unit 0 p (read_string_literal p) char_unit-IsFrugal refl,
  read_literal-IsStored utf16_unit 1 p (read_utf16_string_literal p) utf16_unit-IsFrugal refl,
  read_literal-IsStored utf32_unit 0 p (read_utf32_string_literal p) utf32_unit-IsFrugal refl,
)
