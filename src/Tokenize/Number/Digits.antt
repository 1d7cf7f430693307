-- ===== src/Tokenize/Number/Digits.antt =====
-- tokenize.c: integer constants by their digits.
use chibicc.Common.{
  ℕ, suc, zero, ◌+◌, ◌-◌, ◌*◌, ◌^◌, ◌≤◌, ◌<◌, ◌≡◌, ◌∙◌, refl, sym, ap, arith, min, true, false,
  ◌&&◌, some, List, [], ◌∷◌, ◌++◌, map, ◌==◌, ltb, drop, length,
}
use native.Mathlib.Nat.{zero-add, suc-add}
use chibicc.Tokenize.Chars.{first, hex_digit, is_alnum}
use chibicc.Tokenize.Number.{
  Suffix, digit_value, strtoull_loop, strtoull, base_of, read_suffix, pp_int_type, convert_pp_int,
  has_hex_prefix,
}

abbrev pub DigitsBelow : ℕ → List ℕ → Type 0
DigitsBelow base [] = Unit
DigitsBelow base (d ∷ ds) = (d < base) × DigitsBelow base ds

-- The number that the digits stand for, the first the most significant.
abbrev pub number : ℕ → ℕ → List ℕ → ℕ
number base acc [] = acc
number base acc (d ∷ ds) = number base (acc * base + d) ds

abbrev pub digits : List ℕ → List ℕ
digits ds = map hex_digit ds

abbrev pub plain_suffix : Suffix
plain_suffix = record { l = false; ll = false; u = false; size = 0 }

digit_value-hex_digit : (d : ℕ) → d < 16 → digit_value (hex_digit d) ≡ d
digit_value-hex_digit d h = ground arith

strtoull_loop-stop :
    (base acc n : ℕ) (rest : List ℕ)
    → base ≤ 16
    → is_alnum (first rest) ≡ false
    → strtoull_loop base rest acc n ≡ (acc, n)
unfolding strtoull_loop
strtoull_loop-stop base acc n [] b h = refl
strtoull_loop-stop base acc n (c ∷ rest) b h = ground arith

strtoull_loop-digits :
    (base acc n : ℕ) (ds rest : List ℕ)
    → base ≤ 16
    → DigitsBelow base ds
    → is_alnum (first rest) ≡ false
    → strtoull_loop base (digits ds ++ rest) acc n ≡ (number base acc ds, n + length ds)
unfolding strtoull_loop
strtoull_loop-digits base acc n [] rest b h s =
    strtoull_loop-stop base acc n rest b s ∙ ap (λ (k : ℕ). (acc, k)) (omega arith)
strtoull_loop-digits base acc n (d ∷ ds) rest b h s =
    let e = digit_value-hex_digit d (omega arith) in
    let t : ltb d base ≡ true = ground arith in
    rw (e, t)
      (strtoull_loop-digits base (acc * base + d) (n + 1) ds rest b h.1 s
        ∙ ap (λ (k : ℕ). (number base (acc * base + d) ds, k)) (omega arith))

length-digits : (ds : List ℕ) → length (digits ds) ≡ length ds
length-digits [] = refl
length-digits (d ∷ ds) = ap suc (length-digits ds)

drop-digits : (ds rest : List ℕ) → drop (length ds) (digits ds ++ rest) ≡ rest
drop-digits [] rest = refl
drop-digits (d ∷ ds) rest = drop-digits ds rest

drop-nil : (m : ℕ) → drop {A = ℕ} m [] ≡ []
drop-nil zero = refl
drop-nil (suc m) = refl

drop-add : (n m : ℕ) (xs : List ℕ) → drop (n + m) xs ≡ drop m (drop n xs)
drop-add zero m xs = rw zero-add refl
drop-add (suc n) m [] = rw suc-add (sym (drop-nil m))
drop-add (suc n) m (x ∷ xs) = rw suc-add (drop-add n m xs)

skip_digits :
    (skip : ℕ) (p ds rest : List ℕ)
    → drop skip p ≡ digits ds ++ rest
    → drop (skip + length ds) p ≡ rest
skip_digits skip p ds rest e =
    drop-add skip (length ds) p ∙ ap (drop (length ds)) e ∙ drop-digits ds rest

read_suffix-plain :
    (rest : List ℕ) → is_alnum (first rest) ≡ false → read_suffix rest ≡ plain_suffix
unfolding read_suffix
read_suffix-plain rest h = ground arith

base_of-decimal : (d : ℕ) (p : List ℕ) → 0 < d → d < 10 → base_of (hex_digit d ∷ p) ≡ (10, 0)
base_of-decimal d p h k = ground arith

strtoull-digits :
    (base : ℕ) (ds rest : List ℕ)
    → base ≤ 16
    → DigitsBelow base ds
    → is_alnum (first rest) ≡ false
    → (base == 16 && has_hex_prefix (digits ds ++ rest)) ≡ false
    → strtoull (digits ds ++ rest) base ≡ (min (number base 0 ds) (2 ^ 64 - 1), length ds)
unfolding strtoull
strtoull-digits base ds rest b h s f =
    rw (f, strtoull_loop-digits base 0 0 ds rest b h s)
      (ap (λ (k : ℕ). (min (number base 0 ds) (2 ^ 64 - 1), k)) (omega arith))

-- What stands behind the prefix.
convert_pp_int-digits :
    (base skip len : ℕ) (p ds rest : List ℕ)
    → base ≤ 16
    → DigitsBelow base ds
    → is_alnum (first rest) ≡ false
    → (base == 16 && has_hex_prefix (digits ds ++ rest)) ≡ false
    → base_of p ≡ (base, skip)
    → drop skip p ≡ digits ds ++ rest
    → drop (skip + length ds) p ≡ rest
    → len ≡ skip + length ds
    → let val = min (number base 0 ds) (2 ^ 64 - 1) in
      convert_pp_int p len ≡ some (val, pp_int_type base plain_suffix val)
unfolding convert_pp_int
convert_pp_int-digits base skip len p ds rest b h s f o q r l =
    let size : (skip + length ds + 0 == len) ≡ true = ground arith in
    rw (o, q, strtoull-digits base ds rest b h s f, r, read_suffix-plain rest s, size) refl

has_hex_prefix-digits :
    (d : ℕ) (ds rest : List ℕ)
    → DigitsBelow 16 (d ∷ ds)
    → is_alnum (first rest) ≡ false
    → has_hex_prefix (digits (d ∷ ds) ++ rest) ≡ false
has_hex_prefix-digits d [] [] h s = ground arith
has_hex_prefix-digits d [] (c ∷ rest) h s = ground arith
has_hex_prefix-digits d (e ∷ ds) rest h s = ground arith

-- A decimal constant without a suffix, behind which no letter and no digit stands, is the number that
-- its digits stand for, or 2 ^ 64 - 1 where that is larger, with the type of this value.
pub convert_pp_int-decimal :
    (d : ℕ) (ds rest : List ℕ)
    → 0 < d
    → DigitsBelow 10 (d ∷ ds)
    → is_alnum (first rest) ≡ false
    → let val = min (number 10 0 (d ∷ ds)) (2 ^ 64 - 1) in
      convert_pp_int (digits (d ∷ ds) ++ rest) (length (d ∷ ds))
      ≡ some (val, pp_int_type 10 plain_suffix val)
convert_pp_int-decimal d ds rest z h s =
    convert_pp_int-digits 10 0 (length (d ∷ ds)) (digits (d ∷ ds) ++ rest) (d ∷ ds) rest
      (omega arith) h s refl (base_of-decimal d (digits ds ++ rest) z h.0) refl
      (skip_digits 0 (digits (d ∷ ds) ++ rest) (d ∷ ds) rest refl) (omega arith)

-- A hexadecimal constant without a suffix likewise.
convert_pp_int-hexadecimal :
    (d : ℕ) (ds rest : List ℕ)
    → DigitsBelow 16 (d ∷ ds)
    → is_alnum (first rest) ≡ false
    → let val = min (number 16 0 (d ∷ ds)) (2 ^ 64 - 1) in
      convert_pp_int (b'0' ∷ b'x' ∷ (digits (d ∷ ds) ++ rest)) (length (d ∷ ds) + 2)
      ≡ some (val, pp_int_type 16 plain_suffix val)
convert_pp_int-hexadecimal d ds rest h s =
    let p = b'0' ∷ b'x' ∷ (digits (d ∷ ds) ++ rest) in
    convert_pp_int-digits 16 2 (length (d ∷ ds) + 2) p (d ∷ ds) rest (omega arith) h s
      (has_hex_prefix-digits d ds rest h s) (ground arith) refl (skip_digits 2 p (d ∷ ds) rest refl)
      (omega arith)
