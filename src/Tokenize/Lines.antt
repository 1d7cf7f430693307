-- ===== src/Tokenize/Lines.antt =====
-- tokenize.c: `canonicalize_newline` and `remove_backslash_newline`.
-- Both overwrite the text that they read. They write behind what they have read, so that the text
-- that they leave is a function of the text before.
pub mod Canonical
pub mod Splice
use chibicc.Common.{
  ℕ, suc, zero, ◌+◌, ◌&&◌, Bool, List, [], ◌∷◌, ◌++◌, ◌==◌, if◌then◌else◌, replicate,
}

abbrev pub newline : ℕ
newline = b'\n'

abbrev pub carriage_return : ℕ
carriage_return = 13

abbrev pub backslash : ℕ
backslash = b'\\'

-- A carriage return alone.
abbrev pub to_newline : ℕ → ℕ
to_newline c = if c == carriage_return then newline else c

unfoldable pub canonicalize_newline : List ℕ → List ℕ
canonicalize_newline [] = []
canonicalize_newline (c ∷ []) = to_newline c ∷ []
canonicalize_newline (c ∷ d ∷ rest) =
    let both = newline ∷ canonicalize_newline rest in
    let one = to_newline c ∷ canonicalize_newline (d ∷ rest) in
    if c == carriage_return && d == newline then both else one

-- The loop, with `n` newlines removed and not yet put back.
unfoldable pub splice_loop : ℕ → List ℕ → List ℕ
splice_loop n [] = replicate n newline
splice_loop n (c ∷ []) = c ∷ replicate n newline
splice_loop n (c ∷ d ∷ rest) =
    let removed = splice_loop (suc n) rest in
    let ended = newline ∷ (replicate n newline ++ splice_loop 0 (d ∷ rest)) in
    let kept = c ∷ splice_loop n (d ∷ rest) in
    if c == backslash && d == newline then removed else if c == newline then ended else kept

unfoldable pub remove_backslash_newline : List ℕ → List ℕ
unfolding splice_loop
remove_backslash_newline text = splice_loop 0 text
