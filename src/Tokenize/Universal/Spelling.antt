-- ===== src/Tokenize/Universal/Spelling.antt =====
-- tokenize.c: universal character names, by how they are spelled.
use chibicc.Common.{
  ℕ, suc, zero, ◌+◌, ◌*◌, ◌%◌, ◌^◌, ◌≤◌, ◌<◌, ◌≡◌, ◌∙◌, refl, sym, ap, arith, Bool, true, false,
  ltb, ◌&&◌, if◌then◌else◌, ◌-◌, List, [], ◌∷◌, ◌==◌, Bool-cases, inl, inr, length, drop,
  length-drop, bit_or,
}
use chibicc.Common.BitLaws.{bit_or-shifted}
use chibicc.Unicode.Utf8.{encode_utf8}
use chibicc.Tokenize.Chars.{is_hex, from_hex}
use native.Mathlib.Nat.{pow-le-pow_right, pow-succ'}
use chibicc.Tokenize.Lines.{backslash}
use chibicc.Tokenize.Universal.{
  read_hex, read_universal_char, universal_at, is_escape, prepend, convert_loop,
  convert_universal_chars,
}
use chibicc.Tokenize.Universal.Convert.{convert_loop-nil}

-- More rounds than bytes change nothing.
universal_at-pos : (c : ℕ) (p : List ℕ) → is_escape (c ∷ p) ≡ true → 0 < (universal_at (c ∷ p)).0
unfolding universal_at
universal_at-pos c p e = ground arith

convert_loop_fuel :
    (f g : ℕ) (t : List ℕ) → length t ≤ f → length t ≤ g → convert_loop f t ≡ convert_loop g t
unfolding convert_loop
convert_loop_fuel f g [] h k = convert_loop-nil f ∙ sym (convert_loop-nil g)
convert_loop_fuel zero g (c ∷ p) h k = absurd (omega arith)
convert_loop_fuel (suc f) zero (c ∷ p) h k = absurd (omega arith)
convert_loop_fuel (suc f) (suc g) (c ∷ p) h k =
    let u = (universal_at (c ∷ p)).0 in
    let escaped = λ (z : 0 < u).
      convert_loop_fuel f g (drop u (c ∷ p)) (omega (arith, length-drop u (c ∷ p)))
        (omega (arith, length-drop u (c ∷ p))) in
    let copied = convert_loop_fuel f g p (omega arith) (omega arith) in
    let paired =
      convert_loop_fuel f g (drop 1 p) (omega (arith, length-drop 1 p))
        (omega (arith, length-drop 1 p)) in
    elim (Bool-cases (is_escape (c ∷ p))) [
      | inl e ↦ rw (e, copied, escaped (universal_at-pos c p e)) refl
      | inr e ↦ rw (e, copied, paired) refl
    ]

-- A digit below 16, which is a letter of either case from 10 on.
abbrev pub digit_of : Bool × ℕ → ℕ
digit_of (upper, d) = if ltb d 10 then b'0' + d else (if upper then b'A' else b'a') + (d - 10)

unfoldable pub written : List (Bool × ℕ) → List ℕ → List ℕ
written [] rest = rest
written (x ∷ ds) rest = digit_of x ∷ written ds rest

-- The number that the digits are, to the base 16.
unfoldable pub value_from : ℕ → List (Bool × ℕ) → ℕ
value_from acc [] = acc
value_from acc (x ∷ ds) = value_from (acc * 16 + x.1) ds

unfoldable pub all_digits : List (Bool × ℕ) → Bool
all_digits [] = true
all_digits (x ∷ ds) = ltb x.1 16 && all_digits ds

digit_of-hex :
    (upper : Bool) (d : ℕ)
    → d < 16
    → (is_hex (digit_of (upper, d)) ≡ true) × (from_hex (digit_of (upper, d)) ≡ d)
digit_of-hex true d h = ground arith
digit_of-hex false d h = ground arith

read_hex-digit_of :
    (n d acc : ℕ) (upper : Bool) (p : List ℕ)
    → d < 16
    → acc < 2 ^ 28
    → read_hex (suc n) (digit_of (upper, d) ∷ p) acc ≡ read_hex n p (acc * 16 + d)
unfolding read_hex
read_hex-digit_of n d acc upper p h k =
    let e : bit_or (acc * 2 ^ 4 % 2 ^ 32) d ≡ acc * 16 + d =
      let s : acc * 2 ^ 4 % 2 ^ 32 ≡ acc * 2 ^ 4 = omega arith in
      rw s (bit_or-shifted 4 acc d (omega arith)) in
    rw ((digit_of-hex upper d h).0, (digit_of-hex upper d h).1) (ap (read_hex n p) e)

pow16-le : (j k : ℕ) → j ≤ k → 16 ^ j ≤ 16 ^ k
pow16-le j k h = pow-le-pow_right (omega arith) h

-- Digits behind `j` others, eight at most.
read_hex-written :
    (j acc : ℕ) (ds : List (Bool × ℕ)) (rest : List ℕ)
    → acc < 16 ^ j
    → j + length ds ≤ 8
    → all_digits ds ≡ true
    → read_hex (length ds) (written ds rest) acc ≡ value_from acc ds
unfolding read_hex written value_from all_digits
read_hex-written j acc [] rest h k a = refl
read_hex-written j acc ((upper, d) ∷ ds) rest h k a =
    let l : 16 ^ j ≤ 16 ^ 7 = pow16-le j 7 (omega arith) in
    let p : 16 ^ suc j ≡ 16 * 16 ^ j = pow-succ' 16 j in
    let b : d < 16 = ground arith in
    let a' : all_digits ds ≡ true = ground arith in
    read_hex-digit_of (length ds) d acc upper (written ds rest) b (omega (arith, l))
    ∙ read_hex-written (suc j) (acc * 16 + d) ds rest (omega (arith, p)) (omega arith) a'

drop-written : (ds : List (Bool × ℕ)) (rest : List ℕ) → drop (length ds) (written ds rest) ≡ rest
unfolding written
drop-written [] rest = refl
drop-written (x ∷ ds) rest = drop-written ds rest

length-written : (ds : List (Bool × ℕ)) (rest : List ℕ) → length rest ≤ length (written ds rest)
unfolding written
length-written [] rest = omega arith
length-written (x ∷ ds) rest = omega (arith, length-written ds rest)

-- The number of digits of a name with `U`, and of one with `u`.
abbrev pub digit_count : Bool → ℕ
digit_count long = if long then 8 else 4

-- The name with these digits.
abbrev pub spelled : Bool → List (Bool × ℕ) → List ℕ → List ℕ
spelled long ds rest = b'\\' ∷ (if long then b'U' else b'u') ∷ written ds rest

universal_at-spelled :
    (long : Bool) (ds : List (Bool × ℕ)) (rest : List ℕ)
    → length ds ≡ digit_count long
    → all_digits ds ≡ true
    → universal_at (spelled long ds rest) ≡ (2 + digit_count long, value_from 0 ds)
unfolding universal_at read_universal_char
universal_at-spelled true ds rest l a =
    ap (λ (x : ℕ). (10, x)) (rw l at (read_hex-written 0 0 ds rest (omega arith) (omega arith) a))
universal_at-spelled false ds rest l a =
    ap (λ (x : ℕ). (6, x)) (rw l at (read_hex-written 0 0 ds rest (omega arith) (omega arith) a))

drop-spelled :
    (long : Bool) (ds : List (Bool × ℕ)) (rest : List ℕ)
    → length ds ≡ digit_count long
    → drop (2 + digit_count long) (spelled long ds rest) ≡ rest
drop-spelled true ds rest l = rw l at (drop-written ds rest)
drop-spelled false ds rest l = rw l at (drop-written ds rest)

is_escape-spelled :
    (long : Bool) (ds : List (Bool × ℕ)) (rest : List ℕ) → is_escape (spelled long ds rest) ≡ true
is_escape-spelled true ds rest = refl
is_escape-spelled false ds rest = refl

convert_loop-escape :
    (fuel c n u : ℕ) (p : List ℕ)
    → is_escape (c ∷ p) ≡ true
    → universal_at (c ∷ p) ≡ (n, u)
    → 0 < u
    → convert_loop (suc fuel) (c ∷ p) ≡ prepend (encode_utf8 u) (convert_loop fuel (drop n (c ∷ p)))
unfolding convert_loop
convert_loop-escape fuel c n u p e f z =
    let g : (u == 0) ≡ false = ground arith in rw (e, f, g) refl

-- A backslash with `u` and four hexadecimal digits, or with `U` and eight, in which a letter may stand in
-- either case, becomes the UTF-8 encoding of the number that the digits are, if that is not 0, and
-- what follows is converted by itself.
pub convert_universal_chars-spelled :
    (long : Bool) (ds : List (Bool × ℕ)) (rest : List ℕ)
    → length ds ≡ digit_count long
    → all_digits ds ≡ true
    → 0 < value_from 0 ds
    → convert_universal_chars (spelled long ds rest)
      ≡ prepend (encode_utf8 (value_from 0 ds)) (convert_universal_chars rest)
unfolding convert_universal_chars
convert_universal_chars-spelled long ds rest l a z =
    let fuel = suc (length (written ds rest)) in
    let u = value_from 0 ds in
    convert_loop-escape fuel backslash (2 + digit_count long) u (drop 1 (spelled long ds rest))
      (is_escape-spelled long ds rest) (universal_at-spelled long ds rest l a) z
    ∙ ap (λ p. prepend (encode_utf8 u) (convert_loop fuel p)) (drop-spelled long ds rest l)
    ∙ ap (prepend (encode_utf8 u)) (
        convert_loop_fuel fuel (length rest) rest (omega (arith, length-written ds rest))
          (omega arith))
