-- ===== src/Tokenize/Scan/File.antt =====
-- tokenize.c: `tokenize_file` from the bytes of a file to its tokens.
use chibicc.Common.{◌≡◌, true, ℕ, ◌+◌, ◌≤◌, arith, List, [], ◌∷◌, length}
use chibicc.Tokenize.Result.{Result, ok, failed, overrun, out_of_fuel, ◌>>=◌}
use chibicc.Tokenize.Universal.Convert.{EndsLine, Fits}
use chibicc.Tokenize.Prepare.{terminate, prepare}
use chibicc.Tokenize.Prepare.Text.{lacks_nul, prepare-Fits}
use chibicc.Tokenize.Scan.{Token, tokenize, tokenize_file}
use chibicc.Tokenize.Scan.Places.{ArePlaced, Scans, IsText, tokenize-Scans}

-- An error message, or tokens that are placed in a text of at most `bound` bytes.
abbrev pub IsTokenized : ℕ → Result (List Token) → Type 0
IsTokenized bound (ok ts) = (size : ℕ) × (size ≤ bound) × ArePlaced size 0 ts
IsTokenized bound failed = Unit
IsTokenized bound overrun = ⊥
IsTokenized bound out_of_fuel = ⊥

length-terminate : (raw : List ℕ) → length (terminate raw) ≤ length raw + 1
unfolding terminate
length-terminate [] = omega arith
length-terminate (c ∷ []) = ground arith
length-terminate (c ∷ d ∷ rest) = omega (arith, length-terminate (d ∷ rest))

EndsLine-IsText : (t : List ℕ) → EndsLine t → IsText t
EndsLine-IsText [] h = tt
EndsLine-IsText (c ∷ t) h = h

Scans-IsTokenized :
    (bound : ℕ) (t : List ℕ) (r : Result (List Token))
    → length t ≤ bound
    → EndsLine t
    → Scans (length t) 0 t r
    → IsTokenized bound r
Scans-IsTokenized bound t (ok ts) h e s = (length t, h, s)
Scans-IsTokenized bound t failed h e s = tt
Scans-IsTokenized bound t overrun h e s = s (EndsLine-IsText t e)
Scans-IsTokenized bound t out_of_fuel h e s = s

Fits-IsTokenized :
    (bound : ℕ) (t : List ℕ) (r : Result (List ℕ))
    → length t ≤ bound
    → Fits t r
    → IsTokenized bound (r >>= tokenize)
Fits-IsTokenized bound t (ok u) h f =
    Scans-IsTokenized bound u (tokenize u) (omega (arith, f.1)) f.0 (tokenize-Scans u)
Fits-IsTokenized bound t failed h f = absurd f
Fits-IsTokenized bound t overrun h f = absurd f
Fits-IsTokenized bound t out_of_fuel h f = absurd f

-- Whatever bytes a file holds, if none of them is NUL, the passes over its text and the scan of it end,
-- with an error message or with tokens, and nothing is read past the end of the text. The tokens stand in
-- a text of at most a byte more than the file, in their order and without an overlap, and the last is the
-- end of the file at the end of that text.
pub tokenize_file-IsTokenized :
    (raw : List ℕ) → lacks_nul raw ≡ true → IsTokenized (length raw + 1) (tokenize_file raw)
unfolding tokenize_file
tokenize_file-IsTokenized raw l =
    Fits-IsTokenized (length raw + 1) (terminate raw) (prepare raw) (length-terminate raw)
      (prepare-Fits raw l)
