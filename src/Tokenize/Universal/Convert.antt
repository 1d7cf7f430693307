-- ===== src/Tokenize/Universal/Convert.antt =====
-- tokenize.c: what `convert_universal_chars` leaves.
use chibicc.Common.{
  ℕ, suc, zero, ◌+◌, ◌*◌, ◌%◌, ◌^◌, ◌≤◌, ◌≡◌, ◌≢◌, refl, arith, true, List, [], ◌∷◌, ◌++◌, ◌==◌,
  Bool-cases, inl, inr, length, drop, length-append, length-drop, bit_or,
}
use chibicc.Unicode.Utf8.{encode_utf8}
use chibicc.Tokenize.Result.{Result, ok, failed, overrun, out_of_fuel}
use chibicc.Tokenize.Chars.{from_hex}
use chibicc.Tokenize.Lines.{backslash, newline}
use chibicc.Tokenize.Universal.{
  read_hex, read_universal_char, universal_at, is_escape, prepend, convert_loop,
  convert_universal_chars,
}

-- The text ends with a newline.
abbrev pub EndsLine : List ℕ → Type 0
EndsLine [] = ⊥
EndsLine (c ∷ []) = c ≡ newline
EndsLine (c ∷ d ∷ rest) = EndsLine (d ∷ rest)

pub EndsLine-append : (xs ys : List ℕ) → EndsLine ys → EndsLine (xs ++ ys)
EndsLine-append [] ys h = h
EndsLine-append (x ∷ []) [] h = absurd h
EndsLine-append (x ∷ []) (y ∷ ys) h = h
EndsLine-append (x ∷ z ∷ xs) ys h = EndsLine-append (z ∷ xs) ys h

-- Digits do not reach the last newline.
read_hex-EndsLine :
    (len : ℕ) (p : List ℕ) (c : ℕ)
    → EndsLine p
    → read_hex len p c ≢ 0
    → EndsLine (drop len p) × (len ≤ length p)
unfolding read_hex
read_hex-EndsLine zero p c h n = (h, omega arith)
read_hex-EndsLine (suc len) [] c h n = absurd h
read_hex-EndsLine (suc len) (d ∷ []) c h n = ground arith
read_hex-EndsLine (suc len) (d ∷ e ∷ p) c h n =
    ground (arith, read_hex-EndsLine len (e ∷ p) (bit_or (c * 2 ^ 4 % 2 ^ 32) (from_hex d)))

-- An escape of a character leaves the rest of the text, with its last newline, and is longer than what
-- the character is written as.
universal_at-EndsLine :
    (p : List ℕ)
    → EndsLine p
    → is_escape p ≡ true
    → (universal_at p).1 ≢ 0
    → EndsLine (drop (universal_at p).0 p)
      × (6 ≤ (universal_at p).0)
      × ((universal_at p).0 ≤ length p)
unfolding universal_at read_universal_char
universal_at-EndsLine [] h e n = absurd h
universal_at-EndsLine (c ∷ []) h e n = ground arith
universal_at-EndsLine (c ∷ d ∷ []) h e n = ground arith
universal_at-EndsLine (c ∷ d ∷ f ∷ p) h e n =
    ground (arith, read_hex-EndsLine 4 (f ∷ p) 0, read_hex-EndsLine 8 (f ∷ p) 0)

length-encode_utf8-le : (c : ℕ) → length (encode_utf8 c) ≤ 4
unfolding encode_utf8
length-encode_utf8-le c = ground arith

-- What the loop has to deliver.
abbrev pub Fits : List ℕ → Result (List ℕ) → Type 0
Fits t (ok r) = EndsLine r × (length r ≤ length t)
Fits t _ = ⊥

pub Fits-weaken :
    (t t' : List ℕ) (r : Result (List ℕ)) → length t ≤ length t' → Fits t r → Fits t' r
Fits-weaken t t' (ok r) l h = (h.0, omega (arith, h.1))
Fits-weaken t t' failed l h = h
Fits-weaken t t' overrun l h = h
Fits-weaken t t' out_of_fuel l h = h

prepend-Fits :
    (xs t t' : List ℕ) (r : Result (List ℕ))
    → Fits t r
    → length xs + length t ≤ length t'
    → Fits t' (prepend xs r)
prepend-Fits xs t t' (ok ys) h k =
    (EndsLine-append xs ys h.0, omega (arith, length-append xs ys, h.1))
prepend-Fits xs t t' failed h k = absurd h
prepend-Fits xs t t' overrun h k = absurd h
prepend-Fits xs t t' out_of_fuel h k = absurd h

pub convert_loop-nil : (fuel : ℕ) → convert_loop fuel [] ≡ ok []
unfolding convert_loop
convert_loop-nil zero = refl
convert_loop-nil (suc fuel) = refl

copy-Fits :
    (fuel c : ℕ) (p : List ℕ)
    → EndsLine (c ∷ p)
    → (EndsLine p → Fits p (convert_loop fuel p))
    → Fits (c ∷ p) (prepend (c ∷ []) (convert_loop fuel p))
copy-Fits fuel c [] h ih = rw (convert_loop-nil fuel) (h, omega arith)
copy-Fits fuel c (d ∷ p) h ih =
    prepend-Fits (c ∷ []) (d ∷ p) (c ∷ d ∷ p) (convert_loop fuel (d ∷ p)) (ih h) (omega arith)

pair-Fits :
    (fuel c d : ℕ) (p : List ℕ)
    → EndsLine (d ∷ p)
    → (EndsLine p → Fits p (convert_loop fuel p))
    → Fits (c ∷ d ∷ p) (prepend (c ∷ d ∷ []) (convert_loop fuel p))
pair-Fits fuel c d [] h ih = rw (convert_loop-nil fuel) (h, omega arith)
pair-Fits fuel c d (e ∷ p) h ih =
    prepend-Fits (c ∷ d ∷ []) (e ∷ p) (c ∷ d ∷ e ∷ p) (convert_loop fuel (e ∷ p)) (ih h)
      (omega arith)

escape-Fits :
    (fuel c : ℕ) (p : List ℕ)
    → EndsLine (c ∷ p)
    → is_escape (c ∷ p) ≡ true
    → (universal_at (c ∷ p)).1 ≢ 0
    → (let rest = drop (universal_at (c ∷ p)).0 (c ∷ p) in
        EndsLine rest → length rest ≤ length p → Fits rest (convert_loop fuel rest))
    → Fits (c ∷ p) (
        prepend
          (encode_utf8 (universal_at (c ∷ p)).1)
          (convert_loop fuel (drop (universal_at (c ∷ p)).0 (c ∷ p))))
escape-Fits fuel c p h e z ih =
    let (n, u) = universal_at (c ∷ p) in
    let (ends, six, le) = universal_at-EndsLine (c ∷ p) h e z in
    let l = length-drop (universal_at (c ∷ p)).0 (c ∷ p) in
    let rest = drop (universal_at (c ∷ p)).0 (c ∷ p) in
    prepend-Fits (encode_utf8 (universal_at (c ∷ p)).1) rest (c ∷ p) (convert_loop fuel rest)
      (ih ends (omega (arith, l, six, le)))
      (omega (arith, l, six, le, length-encode_utf8-le (universal_at (c ∷ p)).1))

convert_loop-Fits :
    (fuel : ℕ) (t : List ℕ) → EndsLine t → length t ≤ fuel → Fits t (convert_loop fuel t)
unfolding convert_loop
convert_loop-Fits fuel [] h k = absurd h
convert_loop-Fits zero (c ∷ p) h k = absurd (omega arith)
convert_loop-Fits (suc fuel) (c ∷ []) h k =
    rw (h, convert_loop) (rw (convert_loop-nil fuel) (refl, omega arith))
convert_loop-Fits (suc fuel) (c ∷ d ∷ p) h k =
    let copy = copy-Fits fuel c (d ∷ p) h (λ q. convert_loop-Fits fuel (d ∷ p) q (omega arith)) in
    elim (Bool-cases (is_escape (c ∷ d ∷ p))) [
      | inl e ↦ elim (Bool-cases ((universal_at (c ∷ d ∷ p)).1 == 0)) [
        | inl z ↦ rw (e, z) copy
        | inr z ↦
            rw (e, z)
              (escape-Fits fuel c (d ∷ p) h e (ground arith) (λ q l.
                convert_loop-Fits fuel (drop (universal_at (c ∷ d ∷ p)).0 (c ∷ d ∷ p)) q
                  (omega (arith, l))))
      ]
      | inr e ↦ elim (Bool-cases (c == backslash)) [
        | inl b ↦ rw (e, b) (pair-Fits fuel c d p h (λ q. convert_loop-Fits fuel p q (omega arith)))
        | inr b ↦ rw (e, b) copy
      ]
    ]

-- A text that ends with a newline is converted without a read past its end, in as many rounds as it has
-- bytes; what is left ends with a newline too, and fits where the text stood.
pub convert_universal_chars-Fits : (t : List ℕ) → EndsLine t → Fits t (convert_universal_chars t)
unfolding convert_universal_chars
convert_universal_chars-Fits t h = convert_loop-Fits (length t) t h (omega arith)
