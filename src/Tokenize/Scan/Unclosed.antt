-- ===== src/Tokenize/Scan/Unclosed.antt =====
-- tokenize.c: a string literal or a comment that is not closed is an error.
use chibicc.Common.{ℕ, ◌≡◌, false, ◌||◌, List, [], ◌∷◌, ◌==◌}
use chibicc.Tokenize.Chars.{startswith}
use chibicc.Tokenize.Lines.{newline, backslash}

-- No quote, no newline and no backslash.
abbrev pub IsOpen : List ℕ → Type 0
IsOpen [] = Unit
IsOpen (c ∷ cs) = ((c == b'"' || (c == newline || c == backslash)) ≡ false) × IsOpen cs

-- No `*/` in the text.
abbrev pub IsUnclosed : List ℕ → Type 0
IsUnclosed [] = Unit
IsUnclosed (c ∷ cs) = (startswith (c ∷ cs) (b'*' ∷ b'/' ∷ []) ≡ false) × IsUnclosed cs
