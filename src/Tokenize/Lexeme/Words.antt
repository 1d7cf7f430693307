-- ===== src/Tokenize/Lexeme/Words.antt =====
-- tokenize.c: identifiers and punctuators end inside the text.
use chibicc.Common.{
  ℕ, suc, zero, ◌+◌, ◌≤◌, ◌<◌, ◌≡◌, refl, arith, false, Option, none, some, List, [], ◌∷◌, drop,
  length, length-drop, Bool-cases, Option-cases, inl, inr,
}
use chibicc.Unicode.Utf8.{decode_utf8}
use chibicc.Unicode.Utf8.Bounds.{decode_utf8_bounds}
use chibicc.Unicode.Ranges.{is_ident1, is_ident2, is_ident_ascii}
use chibicc.Tokenize.Result.{Result, ok, failed, overrun, out_of_fuel}
use chibicc.Tokenize.Chars.{first, startswith}
use chibicc.Tokenize.Reads.{startswith-length}
use chibicc.Tokenize.Lexeme.{ident_loop, read_ident, find_punct, punctuators, or_single, read_punct}

-- The end of an identifier, `n` bytes behind its start, when `p` is read.
abbrev pub EndsWord : ℕ → List ℕ → Result ℕ → Type 0
EndsWord n p (ok m) = (n ≤ m) × (m ≤ n + length p)
EndsWord n p failed = Unit
EndsWord n p overrun = ⊥
EndsWord n p out_of_fuel = ⊥

EndsWord-later :
    (k n : ℕ) (p : List ℕ) (r : Result ℕ)
    → k ≤ length p
    → EndsWord (n + k) (drop k p) r
    → EndsWord n p r
EndsWord-later k n p (ok m) h e = omega (arith, length-drop k p, e)
EndsWord-later k n p failed h e = tt
EndsWord-later k n p overrun h e = e
EndsWord-later k n p out_of_fuel h e = e

-- The NUL at the end of the text is no part of an identifier.
decode_utf8-nil : decode_utf8 [] ≡ some (0, 1)
unfolding decode_utf8
decode_utf8-nil = refl

is_ident2-zero : is_ident2 0 ≡ false
is_ident2-zero = let h = is_ident_ascii 0 (omega arith) in h.1

ident_loop-EndsWord :
    (fuel : ℕ) (p : List ℕ) (n : ℕ) → length p < fuel → EndsWord n p (ident_loop fuel p n)
unfolding ident_loop
ident_loop-EndsWord zero p n h = absurd (omega arith)
ident_loop-EndsWord (suc fuel) [] n h = rw (decode_utf8-nil, is_ident2-zero) (omega arith)
ident_loop-EndsWord (suc fuel) (c ∷ p) n h = elim (Option-cases (decode_utf8 (c ∷ p))) [
  | inl d ↦ rw d tt
  | inr (r, d) ↦ rw d (elim (Bool-cases (is_ident2 r.0)) [
    | inl z ↦
        let b = decode_utf8_bounds (c ∷ p) r.0 r.1 (omega arith) d in
        rw z (
          EndsWord-later r.1 n (c ∷ p) (ident_loop fuel (drop r.1 (c ∷ p)) (n + r.1))
            (omega (arith, b))
            (ident_loop-EndsWord fuel (drop r.1 (c ∷ p)) (n + r.1)
              (omega (arith, b, length-drop r.1 (c ∷ p)))))
    | inr z ↦ rw z (omega arith)
  ])
]

pub read_ident-EndsWord : (p : List ℕ) → EndsWord 0 p (read_ident p)
unfolding read_ident
read_ident-EndsWord p = elim (Option-cases (decode_utf8 p)) [
  | inl d ↦ rw d tt
  | inr (r, d) ↦ rw d (elim (Bool-cases (is_ident1 r.0)) [
    | inl z ↦ rw z (ident_loop-EndsWord (length p + 1) p 0 (omega arith))
    | inr z ↦ rw z (omega arith)
  ])
]

-- Each of a table's words has a character at least.
abbrev AreWords : List (List ℕ) → Type 0
AreWords [] = Unit
AreWords (kw ∷ kws) = (0 < length kw) × AreWords kws

abbrev IsPunct : List ℕ → Option ℕ → Type 0
IsPunct p none = Unit
IsPunct p (some n) = (0 < n) × (n ≤ length p)

find_punct-IsPunct :
    (kws : List (List ℕ)) (p : List ℕ) → AreWords kws → IsPunct p (find_punct kws p)
unfolding find_punct
find_punct-IsPunct [] p h = tt
find_punct-IsPunct (kw ∷ kws) p h = elim (Bool-cases (startswith p kw)) [
  | inl z ↦ rw z (h.0, startswith-length p kw z)
  | inr z ↦ rw z (find_punct-IsPunct kws p h.1)
]

or_single-le : (o : Option ℕ) (p : List ℕ) → IsPunct p o → or_single o (first p) ≤ length p
or_single-le (some n) p h = h.1
or_single-le none [] h = ground arith
or_single-le none (c ∷ p) h = ground arith

pub read_punct-le : (p : List ℕ) → read_punct p ≤ length p
unfolding read_punct
read_punct-le p =
    or_single-le (find_punct punctuators p) p (find_punct-IsPunct punctuators p (omega arith))
