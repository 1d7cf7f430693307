-- ===== src/Unicode/Width/Sum.antt =====
-- unicode.c: the width of a string is the sum of the widths of its characters.
use mathlib.Core.List.{append_assoc}
use chibicc.Common.{
  ℕ, zero, suc, ◌+◌, ◌^◌, ◌≤◌, ◌<◌, ◌≡◌, ◌≢◌, ◌∙◌, ap, List, [], ◌∷◌, ◌++◌, arith, length, drop,
  drop-append, length-append, inl, inr, Option-cases, some, lt→ltb,
}
use chibicc.Unicode.Utf8.{encode_utf8, decode_utf8}
use chibicc.Unicode.Utf8.RoundTrip.{decode_utf8-encode_utf8}
use chibicc.Unicode.Utf8.Bounds.{decode_utf8-pos}
use chibicc.Unicode.Width.{columns, out_of_fuel, width_loop, display_width, char_width}

-- The UTF-8 text of a list of code points.
unfoldable pub encode_all : List ℕ → List ℕ
encode_all [] = []
encode_all (c ∷ cs) = encode_utf8 c ++ encode_all cs

unfoldable pub sum_widths : List ℕ → ℕ
sum_widths [] = 0
sum_widths (c ∷ cs) = char_width c + sum_widths cs

-- Code points of at most 21 bits.
abbrev pub AreCodePoints : List ℕ → Type 0
AreCodePoints [] = Unit
AreCodePoints (c ∷ cs) = (c < 2 ^ 21) × AreCodePoints cs

pub length-encode_utf8-pos : (c : ℕ) → 0 < length (encode_utf8 c)
unfolding encode_utf8
length-encode_utf8-pos c = ground arith

-- A round that decodes a character.
width_loop-suc :
    (fuel : ℕ) (p q : List ℕ) (c n read len w : ℕ)
    → read < len
    → decode_utf8 p ≡ some (c, n)
    → drop n p ≡ q
    → width_loop (suc fuel) p read len w ≡ width_loop fuel q (read + n) len (w + char_width c)
unfolding width_loop
width_loop-suc fuel p q c n read len w h e d = rw (lt→ltb read len h, e, d)

width_loop-done :
    (fuel : ℕ) (p : List ℕ) (read len w : ℕ) → len ≤ read → width_loop fuel p read len w ≡ columns w
unfolding width_loop
width_loop-done zero p read len w h = ground arith
width_loop-done (suc fuel) p read len w h = ground arith

width_loop-encode_all :
    (cs : List ℕ) (rest : List ℕ) (fuel read len w : ℕ)
    → AreCodePoints cs
    → len ≡ read + length (encode_all cs)
    → length (encode_all cs) ≤ fuel
    → width_loop fuel (encode_all cs ++ rest) read len w ≡ columns (w + sum_widths cs)
unfolding encode_all sum_widths
width_loop-encode_all [] rest fuel read len w h e f =
    width_loop-done fuel rest read len w (omega arith) ∙ ap columns (omega arith)
width_loop-encode_all (c ∷ cs) rest zero read len w h e f =
    absurd (omega (arith, length-encode_utf8-pos c, length-append (encode_utf8 c) (encode_all cs)))
width_loop-encode_all (c ∷ cs) rest (suc fuel) read len w h e f =
    let l = length-append (encode_utf8 c) (encode_all cs) in
    let k = length-encode_utf8-pos c in
    let a = append_assoc (encode_utf8 c) (encode_all cs) rest in
    width_loop-suc fuel ((encode_utf8 c ++ encode_all cs) ++ rest) (encode_all cs ++ rest) c
      (length (encode_utf8 c)) read len w (omega (arith, l, k))
      (rw a (decode_utf8-encode_utf8 (encode_all cs ++ rest) c h.0))
      (rw a (drop-append (encode_utf8 c) (encode_all cs ++ rest)))
    ∙ width_loop-encode_all cs rest fuel (read + length (encode_utf8 c)) len (w + char_width c) h.1
        (omega (arith, l)) (omega (arith, l, k))
    ∙ ap columns (omega arith)

-- The width of the UTF-8 text of code points of at most 21 bits, whatever follows it, is the sum
-- of their widths.
pub display_width-encode_all :
    (cs rest : List ℕ)
    → AreCodePoints cs
    → display_width (encode_all cs ++ rest) (length (encode_all cs)) ≡ columns (sum_widths cs)
unfolding display_width
display_width-encode_all cs rest h =
    width_loop-encode_all cs rest (length (encode_all cs)) 0 (length (encode_all cs)) 0 h
      (omega arith) (omega arith)
    ∙ ap columns (omega arith)

width_loop-ne-out_of_fuel :
    (fuel : ℕ) (p : List ℕ) (read len w : ℕ)
    → len ≤ read + fuel
    → ((q : List ℕ) (c n : ℕ) → decode_utf8 q ≡ some (c, n) → 0 < n)
    → width_loop fuel p read len w ≢ out_of_fuel
unfolding width_loop
width_loop-ne-out_of_fuel zero p read len w h pos = ground arith
width_loop-ne-out_of_fuel (suc fuel) p read len w h pos = elim (Option-cases (decode_utf8 p)) [
  | inl e ↦ rw e (ground arith)
  | inr (r, e) ↦ rw e (
      ground (
        arith,
        pos p r.0 r.1,
        width_loop-ne-out_of_fuel fuel (drop r.1 p) (read + r.1) len (w + char_width r.0),
      ))
]

-- `len` rounds of the loop are enough for every string: it ends with a width or with a decoding error.
display_width-ne-out_of_fuel : (p : List ℕ) (len : ℕ) → display_width p len ≢ out_of_fuel
unfolding display_width
display_width-ne-out_of_fuel p len =
    width_loop-ne-out_of_fuel len p 0 len 0 (omega arith) decode_utf8-pos
