-- ===== src/Tokenize/Literal/Within.antt =====
-- tokenize.c: literals end inside the text, and reading one ends.
use chibicc.Common.{
  ℕ, suc, zero, ◌+◌, ◌-◌, ◌^◌, ◌≤◌, ◌<◌, ◌≡◌, refl, ap, arith, Option, none, some, List, [], ◌∷◌,
  ◌==◌, drop, length, length-drop, Bool-cases, Option-cases, ◌∙◌, inl, inr,
}
use chibicc.Unicode.Utf8.{decode_utf8}
use chibicc.Unicode.Utf8.Bounds.{decode_utf8-pos}
use chibicc.Tokenize.Result.{Result, ok, failed, overrun, out_of_fuel, ◌>>=◌, ok_inj}
use chibicc.Tokenize.Chars.{first}
use chibicc.Tokenize.Lines.{newline, backslash}
use chibicc.Tokenize.Escape.{read_escaped_char, string_literal_end}
use chibicc.Tokenize.Reads.{
  Reads, if-Reads, Reads-bind, Reads-behind, Ends, Ends-bind, Ends-Reads, drop-all,
}
use chibicc.Tokenize.Literal.{
  UnitReader, decoded, escape_unit, char_unit, utf16_unit, utf32_unit, utf16_units, read_units,
  read_literal, char_value, find_quote, closed_value, read_char_literal,
}

string_literal_end-Reads : (p : List ℕ) → Reads suc 1 p (string_literal_end p)
unfolding string_literal_end
string_literal_end-Reads [] = tt
string_literal_end-Reads (c ∷ []) = elim (Bool-cases (c == b'"')) [
  | inl z ↦ rw z (omega arith)
  | inr z ↦ elim (Bool-cases (c == newline)) [
    | inl y ↦ rw (z, y) tt
    | inr y ↦ elim (Bool-cases (c == backslash)) [
      | inl x ↦ rw (z, y, x) (λ e. ground arith)
      | inr x ↦ rw (z, y, x) tt
    ]
  ]
]
string_literal_end-Reads (c ∷ d ∷ p) = elim (Bool-cases (c == b'"')) [
  | inl z ↦ rw z (omega arith)
  | inr z ↦ elim (Bool-cases (c == newline)) [
    | inl y ↦ rw (z, y) tt
    | inr y ↦ elim (Bool-cases (c == backslash)) [
      | inl x ↦ rw (z, y, x) (two p (string_literal_end-Reads p))
      | inr x ↦
          rw (z, y, x)
            (Reads-bind suc 1 (d ∷ p) suc 1 (c ∷ d ∷ p) (string_literal_end (d ∷ p)) _
              (string_literal_end-Reads (d ∷ p)) (λ e. e) (λ n l h. omega arith))
    ]
  ]
]
  where
    two :
        (q : List ℕ)
        → Reads suc 1 q (string_literal_end q)
        → Reads suc 1 (c ∷ d ∷ q) (string_literal_end q >>= (λ n. ok (n + 2)))
    two [] h = tt
    two (e ∷ q) h =
        Reads-bind suc 1 (e ∷ q) suc 1 (c ∷ d ∷ e ∷ q) (string_literal_end (e ∷ q)) _ h (λ e. e)
          (λ n l h. omega arith)

read_escaped_char-Ends : (p : List ℕ) → Ends (read_escaped_char p)
unfolding read_escaped_char
read_escaped_char-Ends p = ground arith

-- Reading is an error or takes a byte at least.
abbrev TakesByte {ℓ} : {A : Type ℓ} → Result (A × ℕ) → Type 0
TakesByte (ok (a, n)) = 0 < n
TakesByte failed = Unit
TakesByte overrun = ⊥
TakesByte out_of_fuel = ⊥

TakesByte-bind {ℓ κ} :
    {A : Type ℓ} {B : Type κ} (m : Result (A × ℕ)) (f : A × ℕ → Result (B × ℕ))
    → Ends m
    → ((a : A × ℕ) → m ≡ ok a → TakesByte (f a))
    → TakesByte (m >>= f)
TakesByte-bind (ok a) f h k = k a refl
TakesByte-bind failed f h k = tt
TakesByte-bind overrun f h k = h
TakesByte-bind out_of_fuel f h k = h

decoded-Ends : (r : Option (ℕ × ℕ)) → Ends (decoded r)
decoded-Ends none = tt
decoded-Ends (some r) = tt

decoded-pos : (p : List ℕ) (r : ℕ × ℕ) → decoded (decode_utf8 p) ≡ ok r → 0 < r.1
decoded-pos p r e = elim (Option-cases (decode_utf8 p)) [
  | inl d ↦ let z = rw d at e in absurd cc
  | inr (s, d) ↦
      let q : s ≡ r = ok_inj (rw d at e) in
      omega (arith, decode_utf8-pos p s.0 s.1 d, ap (λ (x : ℕ × ℕ). x.1) q)
]

escape_unit-TakesByte : (modulus : ℕ) (p : List ℕ) → TakesByte (escape_unit modulus p)
escape_unit-TakesByte modulus p =
    TakesByte-bind (read_escaped_char (drop 1 p)) _ (read_escaped_char-Ends (drop 1 p))
      (λ r e. omega arith)

wide-TakesByte :
    (f : ℕ → List ℕ) (p : List ℕ)
    → TakesByte (decoded (decode_utf8 p) >>= (λ (r : ℕ × ℕ). ok (f r.0, r.1)))
wide-TakesByte f p =
    TakesByte-bind (decoded (decode_utf8 p)) _ (decoded-Ends (decode_utf8 p))
      (λ r e. decoded-pos p r e)

abbrev pub IsReader : UnitReader → Type 0
IsReader reader = (p : List ℕ) → TakesByte (reader p)

pub char_unit-IsReader : IsReader char_unit
unfolding char_unit
char_unit-IsReader p = elim (Bool-cases (first p == backslash)) [
  | inl b ↦ rw b (escape_unit-TakesByte (2 ^ 8) p)
  | inr b ↦ rw b (omega arith)
]

pub utf16_unit-IsReader : IsReader utf16_unit
unfolding utf16_unit
utf16_unit-IsReader p = elim (Bool-cases (first p == backslash)) [
  | inl b ↦ rw b (escape_unit-TakesByte (2 ^ 16) p)
  | inr b ↦ rw b (wide-TakesByte utf16_units p)
]

pub utf32_unit-IsReader : IsReader utf32_unit
unfolding utf32_unit
utf32_unit-IsReader p = elim (Bool-cases (first p == backslash)) [
  | inl b ↦ rw b (escape_unit-TakesByte (2 ^ 32) p)
  | inr b ↦ rw b (wide-TakesByte (λ c. c ∷ []) p)
]

TakesByte-Ends {ℓ} : {A : Type ℓ} (r : Result (A × ℕ)) → TakesByte r → Ends r
TakesByte-Ends (ok a) h = tt
TakesByte-Ends failed h = tt
TakesByte-Ends overrun h = h
TakesByte-Ends out_of_fuel h = h

TakesByte-pos {ℓ} : {A : Type ℓ} (r : Result (A × ℕ)) (a : A × ℕ) → TakesByte r → r ≡ ok a → 0 < a.1
TakesByte-pos (ok b) a h e = omega (arith, ap (λ (x : _ × ℕ). x.1) (ok_inj e), h)
TakesByte-pos failed a h e = absurd cc
TakesByte-pos overrun a h e = absurd cc
TakesByte-pos out_of_fuel a h e = absurd cc

-- As many rounds as bytes are enough.
read_units-Ends :
    (reader : UnitReader) (fuel left : ℕ) (p : List ℕ)
    → IsReader reader
    → left ≤ fuel
    → Ends (read_units reader fuel p left)
unfolding read_units
read_units-Ends reader zero left p f h = ground arith
read_units-Ends reader (suc fuel) left p f h = elim (Bool-cases (left == 0)) [
  | inl z ↦ rw z tt
  | inr z ↦ rw z (
      Ends-bind (reader p) _ (TakesByte-Ends (reader p) (f p)) (λ r e.
        let n = TakesByte-pos (reader p) r (f p) e in
        Ends-bind (read_units reader fuel (drop r.1 p) (left - r.1)) _
          (read_units-Ends reader fuel (left - r.1) (drop r.1 p) f (ground arith)) (λ us e. tt)))
]

-- What a literal's function reads ends inside the text.
pub read_literal-Reads :
    (reader : UnitReader) (p : List ℕ)
    → IsReader reader
    → Reads (λ (r : List ℕ × ℕ). r.1) 1 p (read_literal reader p)
unfolding read_literal
read_literal-Reads reader p f =
    Reads-bind suc 1 p (λ (r : List ℕ × ℕ). r.1) 1 p (string_literal_end p) _
      (string_literal_end-Reads p) (λ e. e)
      (λ left l h.
        Ends-Reads (λ (r : List ℕ × ℕ). r.1) 1 p (read_units reader left p left) _
          (read_units-Ends reader left left p f (omega arith)) (λ us e. omega arith))

find_quote-Reads : (p : List ℕ) → Reads suc 1 p (find_quote p)
unfolding find_quote
find_quote-Reads [] = tt
find_quote-Reads (c ∷ []) = ground arith
find_quote-Reads (c ∷ d ∷ p) = elim (Bool-cases (c == b'\'')) [
  | inl z ↦ rw z (omega arith)
  | inr z ↦ rw z (
      Reads-bind suc 1 (d ∷ p) suc 1 (c ∷ d ∷ p) (find_quote (d ∷ p)) _ (find_quote-Reads (d ∷ p))
        (λ e. e) (λ n l h. omega arith))
]

find_quote-Ends : (p : List ℕ) → Ends (find_quote p)
unfolding find_quote
find_quote-Ends [] = tt
find_quote-Ends (c ∷ p) = elim (Bool-cases (c == b'\'')) [
  | inl z ↦ rw z tt
  | inr z ↦ rw z (Ends-bind (find_quote p) _ (find_quote-Ends p) (λ n e. tt))
]

TakesByte-intro {ℓ} :
    {A : Type ℓ} (r : Result (A × ℕ)) → Ends r → ((a : A × ℕ) → r ≡ ok a → 0 < a.1) → TakesByte r
TakesByte-intro (ok a) h f = f a refl
TakesByte-intro failed h f = tt
TakesByte-intro overrun h f = h
TakesByte-intro out_of_fuel h f = h

char_value-TakesByte : (p : List ℕ) → TakesByte (char_value p)
char_value-TakesByte p = elim (Bool-cases (first p == backslash)) [
  | inl b ↦ rw b (
      TakesByte-bind (read_escaped_char (drop 1 p)) _ (read_escaped_char-Ends (drop 1 p))
        (λ r e. omega arith))
  | inr b ↦
      rw b
        (TakesByte-intro (decoded (decode_utf8 p)) (decoded-Ends (decode_utf8 p)) (decoded-pos p))
]

closed_value-Reads : (p : List ℕ) → Reads (λ (r : ℕ × ℕ). r.1) 1 p (closed_value p)
unfolding closed_value
closed_value-Reads p =
    Ends-Reads (λ (r : ℕ × ℕ). r.1) 1 p (char_value p) _
      (TakesByte-Ends (char_value p) (char_value-TakesByte p))
      (λ r e.
        let q = drop r.1 p in
        Ends-Reads (λ (r : ℕ × ℕ). r.1) 1 p (find_quote q) _ (find_quote-Ends q)
          (λ n e.
            let h = find_quote-Reads q in let k = rw e at h in omega (arith, k, length-drop r.1 p)))

-- The value is read in any place, the closing quote behind it in the text.
pub read_char_literal-Reads : (p : List ℕ) → Reads (λ (r : ℕ × ℕ). r.1) 1 p (read_char_literal p)
unfolding read_char_literal
read_char_literal-Reads [] = tt
read_char_literal-Reads (d ∷ []) =
    if-Reads (λ (r : ℕ × ℕ). r.1) 1 (d ∷ []) (d == backslash) overrun (closed_value (d ∷ []))
      (λ z e. ground arith) (λ z. closed_value-Reads (d ∷ []))
read_char_literal-Reads (d ∷ e ∷ p) = closed_value-Reads (d ∷ e ∷ p)

read_literal-nil : (reader : UnitReader) → read_literal reader [] ≡ failed
unfolding read_literal string_literal_end
read_literal-nil reader = refl

read_char_literal-nil : read_char_literal [] ≡ failed
unfolding read_char_literal
read_char_literal-nil = refl

-- A literal's function, behind the prefix and the opening quote.
pub Reads-prefix {ℓ} :
    {A : Type ℓ} (f : List ℕ → Result (A × ℕ)) (skip : ℕ) (p : List ℕ)
    → ((q : List ℕ) → Reads (λ (r : A × ℕ). r.1) 1 q (f q))
    → f [] ≡ failed
    → skip ≤ length p
    → Reads (λ (r : A × ℕ). skip + r.1) 1 p (f (drop skip p))
Reads-prefix {A = A} f skip p h e k =
    Reads-behind (λ (r : A × ℕ). r.1) (λ (r : A × ℕ). skip + r.1) 1 1 skip p (f (drop skip p)) k
      (λ l. ap f (drop-all skip p (omega (arith, l))) ∙ e) (λ r l. omega arith) (h (drop skip p))

pub literal-Reads :
    (reader : UnitReader) (skip : ℕ) (p : List ℕ)
    → IsReader reader
    → skip ≤ length p
    → Reads (λ (r : List ℕ × ℕ). skip + r.1) 1 p (read_literal reader (drop skip p))
literal-Reads reader skip p f k =
    Reads-prefix (read_literal reader) skip p (λ q. read_literal-Reads reader q f)
      (read_literal-nil reader) k

pub char-Reads :
    (skip : ℕ) (p : List ℕ)
    → skip ≤ length p
    → Reads (λ (r : ℕ × ℕ). skip + r.1) 1 p (read_char_literal (drop skip p))
char-Reads skip p k =
    Reads-prefix read_char_literal skip p read_char_literal-Reads read_char_literal-nil k
