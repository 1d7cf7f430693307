-- ===== src/Tokenize/Prepare.antt =====
-- tokenize.c: the text that `tokenize_file` hands to `tokenize`.
-- `raw` are the bytes of the file, as `fread` delivers them. Allocation is taken to succeed.
pub mod Text
use chibicc.Common.{ℕ, Bool, List, [], ◌∷◌, ◌==◌, if◌then◌else◌, drop}
use chibicc.Tokenize.Result.{Result}
use chibicc.Tokenize.Chars.{startswith}
use chibicc.Tokenize.Lines.{newline, canonicalize_newline, remove_backslash_newline}
use chibicc.Tokenize.Universal.{convert_universal_chars}

-- The end of `read_file`: the last line gets its newline.
unfoldable pub terminate : List ℕ → List ℕ
terminate [] = newline ∷ []
terminate (c ∷ []) = if c == newline then c ∷ [] else c ∷ newline ∷ []
terminate (c ∷ d ∷ rest) = c ∷ terminate (d ∷ rest)

-- The byte order mark.
unfoldable pub skip_bom : List ℕ → List ℕ
skip_bom p = if startswith p (0xef ∷ 0xbb ∷ 0xbf ∷ []) then drop 3 p else p

-- The text of a buffer ends at its first NUL: `canonicalize_newline` copies it up to there.
unfoldable pub up_to_nul : List ℕ → List ℕ
up_to_nul [] = []
up_to_nul (c ∷ p) = let rest = up_to_nul p in if c == 0 then [] else c ∷ rest

unfoldable pub prepare : List ℕ → Result (List ℕ)
unfolding terminate skip_bom up_to_nul canonicalize_newline remove_backslash_newline
    convert_universal_chars
prepare raw =
    convert_universal_chars
      (remove_backslash_newline (canonicalize_newline (up_to_nul (skip_bom (terminate raw)))))
