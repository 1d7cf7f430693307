-- ===== src/Tokenize/Lexeme/Within.antt =====
-- tokenize.c: what stands at a place of the text ends inside the text.
use chibicc.Common.{
  ℕ, ◌+◌, ◌%◌, ◌^◌, ◌≤◌, ◌<◌, ◌≡◌, ◌≢◌, arith, true, ◌||◌, ◌&&◌, List, [], ◌∷◌, ◌==◌, if◌then◌else◌,
  drop, length, length-drop, Bool-cases, inl, inr,
}
use chibicc.Common.Words.{sign_extend}
use chibicc.Types.{CType, char_type, int_type, uint_type, ushort_type}
use chibicc.Tokenize.Result.{Result, ok, failed, overrun, out_of_fuel, ◌>>=◌}
use chibicc.Tokenize.Chars.{first, is_space, is_digit, startswith}
use chibicc.Tokenize.Lines.{newline}
use chibicc.Tokenize.Universal.Convert.{EndsLine}
use chibicc.Tokenize.Reads.{Reads, Reads-bind, if-Reads, startswith-length, distance}
use chibicc.Tokenize.Literal.Within.{
  IsReader, char_unit-IsReader, utf16_unit-IsReader, utf32_unit-IsReader, literal-Reads, char-Reads,
}
use chibicc.Tokenize.Literal.{
  UnitReader, char_unit, utf16_unit, utf32_unit, read_literal, read_char_literal,
}
use chibicc.Tokenize.Lexeme.{
  skip_line, skip_comment, pp_number_loop, read_ident, read_punct, TokenKind, Payload, Lexeme,
  blank, line_end, lexeme, string_lexeme, char_lexeme, punct_lexeme, word_lexeme, literal_lexeme,
  lexeme_at,
}
use chibicc.Tokenize.Lexeme.Words.{EndsWord, read_ident-EndsWord, read_punct-le}

skip_line-Reads : (p : List ℕ) → Reads distance 0 p (skip_line p)
unfolding skip_line
skip_line-Reads [] = λ e. e
skip_line-Reads (c ∷ []) = elim (Bool-cases (c == newline)) [
  | inl z ↦ rw z (omega arith)
  | inr z ↦ rw z (λ e. ground arith)
]
skip_line-Reads (c ∷ d ∷ p) = elim (Bool-cases (c == newline)) [
  | inl z ↦ rw z (omega arith)
  | inr z ↦ rw z (
      Reads-bind distance 0 (d ∷ p) distance 0 (c ∷ d ∷ p) (skip_line (d ∷ p)) _
        (skip_line-Reads (d ∷ p)) (λ e. e) (λ n l h. omega arith))
]

skip_comment-Reads : (p : List ℕ) → Reads distance 0 p (skip_comment p)
unfolding skip_comment
skip_comment-Reads [] = tt
skip_comment-Reads (c ∷ []) = ground arith
skip_comment-Reads (c ∷ d ∷ p) = elim (Bool-cases (startswith (c ∷ d ∷ p) (b'*' ∷ b'/' ∷ []))) [
  | inl z ↦ rw z (omega arith)
  | inr z ↦ rw z (
      Reads-bind distance 0 (d ∷ p) distance 0 (c ∷ d ∷ p) (skip_comment (d ∷ p)) _
        (skip_comment-Reads (d ∷ p)) (λ e. e) (λ n l h. omega arith))
]

pp_number_loop-le : (p : List ℕ) → pp_number_loop p ≤ length p
unfolding pp_number_loop
pp_number_loop-le [] = omega arith
pp_number_loop-le (c ∷ []) = ground arith
pp_number_loop-le (c ∷ d ∷ p) = ground (arith, pp_number_loop-le p, pp_number_loop-le (d ∷ p))

-- The number of bytes that are taken.
abbrev pub extent : Lexeme → ℕ
extent (blank n) = n
extent line_end = 1
extent (lexeme kind n payload) = n

punct_lexeme-Reads : (n : ℕ) (p : List ℕ) → n ≤ length p → Reads extent 1 p (punct_lexeme n)
punct_lexeme-Reads n p h = if-Reads extent 1 p (n == 0) _ _ (λ e. tt) (λ e. ground arith)

word_lexeme-Reads : (p : List ℕ) → Reads extent 1 p (word_lexeme p)
unfolding word_lexeme
word_lexeme-Reads p = go (read_ident p) (read_ident-EndsWord p)
  where
    go :
        (r : Result ℕ)
        → EndsWord 0 p r
        → Reads extent 1 p (
            r >>= (λ (n : ℕ).
              if n == 0
              then punct_lexeme (read_punct p)
              else ok (lexeme TokenKind.tk_ident n Payload.nothing)))
    go (ok n) h =
        if-Reads extent 1 p (n == 0) _ _
          (λ e. punct_lexeme-Reads (read_punct p) p (read_punct-le p)) (λ e. ground arith)
    go failed h = tt
    go overrun h = absurd h
    go out_of_fuel h = absurd h

string_lexeme-Reads :
    (reader : UnitReader) (ty : CType) (skip : ℕ) (p : List ℕ)
    → IsReader reader
    → skip ≤ length p
    → Reads extent 1 p (string_lexeme ty skip (read_literal reader (drop skip p)))
string_lexeme-Reads reader ty skip p f h =
    Reads-bind (λ (r : List ℕ × ℕ). skip + r.1) 1 p extent 1 p (read_literal reader (drop skip p)) _
      (literal-Reads reader skip p f h) (λ e. e) (λ r l k. (l, k))

char_lexeme-Reads :
    (ty : CType) (narrow : ℕ → ℕ) (skip : ℕ) (p : List ℕ)
    → skip ≤ length p
    → Reads extent 1 p (char_lexeme ty narrow skip (read_char_literal (drop skip p)))
char_lexeme-Reads ty narrow skip p h =
    Reads-bind (λ (r : ℕ × ℕ). skip + r.1) 1 p extent 1 p (read_char_literal (drop skip p)) _
      (char-Reads skip p h) (λ e. e) (λ r l k. (l, k))

literal_lexeme-Reads : (p : List ℕ) → 0 < length p → Reads extent 1 p (literal_lexeme p)
unfolding literal_lexeme
literal_lexeme-Reads p h =
    if-Reads extent 1 p (first p == b'"') _ _
      (λ e. string_lexeme-Reads char_unit char_type 1 p char_unit-IsReader h)
      (λ e.
        if-Reads extent 1 p (startswith p (b'u' ∷ b'8' ∷ b'"' ∷ [])) _ _
          (λ e.
            string_lexeme-Reads char_unit char_type 3 p char_unit-IsReader
              (startswith-length p (b'u' ∷ b'8' ∷ b'"' ∷ []) e))
          (λ e.
            if-Reads extent 1 p (startswith p (b'u' ∷ b'"' ∷ [])) _ _
              (λ e.
                string_lexeme-Reads utf16_unit ushort_type 2 p utf16_unit-IsReader
                  (startswith-length p (b'u' ∷ b'"' ∷ []) e))
              (λ e.
                if-Reads extent 1 p (startswith p (b'L' ∷ b'"' ∷ [])) _ _
                  (λ e.
                    string_lexeme-Reads utf32_unit int_type 2 p utf32_unit-IsReader
                      (startswith-length p (b'L' ∷ b'"' ∷ []) e))
                  (λ e.
                    if-Reads extent 1 p (startswith p (b'U' ∷ b'"' ∷ [])) _ _
                      (λ e.
                        string_lexeme-Reads utf32_unit uint_type 2 p utf32_unit-IsReader
                          (startswith-length p (b'U' ∷ b'"' ∷ []) e))
                      (λ e.
                        if-Reads extent 1 p (first p == b'\'') _ _
                          (λ e. char_lexeme-Reads int_type (sign_extend 8) 1 p h)
                          (λ e.
                            if-Reads extent 1 p (startswith p (b'u' ∷ b'\'' ∷ [])) _ _
                              (λ e.
                                char_lexeme-Reads ushort_type (λ v. v % 2 ^ 16) 2 p
                                  (startswith-length p (b'u' ∷ b'\'' ∷ []) e))
                              (λ e.
                                if-Reads extent 1 p (startswith p (b'L' ∷ b'\'' ∷ [])) _ _
                                  (λ e.
                                    char_lexeme-Reads int_type (λ v. v) 2 p
                                      (startswith-length p (b'L' ∷ b'\'' ∷ []) e))
                                  (λ e.
                                    if-Reads extent 1 p (startswith p (b'U' ∷ b'\'' ∷ [])) _ _
                                      (λ e.
                                        char_lexeme-Reads uint_type (λ v. v) 2 p
                                          (startswith-length p (b'U' ∷ b'\'' ∷ []) e))
                                      (λ e. word_lexeme-Reads p)))))))))

EndsLine-behind :
    (a b : ℕ) (p : List ℕ)
    → b ≢ newline
    → startswith p (a ∷ b ∷ []) ≡ true
    → EndsLine p
    → EndsLine (drop 2 p)
EndsLine-behind a b [] n h e = e
EndsLine-behind a b (c ∷ []) n h e = ground arith
EndsLine-behind a b (c ∷ d ∷ []) n h e = ground arith
EndsLine-behind a b (c ∷ d ∷ f ∷ p) n h e = e

comment-Reads :
    (b : ℕ) (p : List ℕ) (r : Result ℕ)
    → b ≢ newline
    → startswith p (b'/' ∷ b ∷ []) ≡ true
    → Reads distance 0 (drop 2 p) r
    → Reads extent 1 p (r >>= (λ (n : ℕ). ok (blank (2 + n))))
comment-Reads b p r n h k =
    Reads-bind distance 0 (drop 2 p) extent 1 p r _ k (EndsLine-behind b'/' b p n h)
      (λ m l g. omega (arith, length-drop 2 p, g, startswith-length p (b'/' ∷ b ∷ []) h))

-- At a place inside the text a token, a comment or white space has a byte at least and ends inside the
-- text, or there is an error message; no loop goes on for ever, and nothing is read past the end of a
-- text that ends with a newline.
pub lexeme_at-Reads : (p : List ℕ) → 0 < length p → Reads extent 1 p (lexeme_at p)
unfolding lexeme_at
lexeme_at-Reads p h =
    if-Reads extent 1 p (startswith p (b'/' ∷ b'/' ∷ [])) _ _
      (λ e.
        comment-Reads b'/' p (skip_line (drop 2 p)) (ground arith) e (skip_line-Reads (drop 2 p)))
      (λ e.
        if-Reads extent 1 p (startswith p (b'/' ∷ b'*' ∷ [])) _ _
          (λ e.
            comment-Reads b'*' p (skip_comment (drop 2 p)) (ground arith) e
              (skip_comment-Reads (drop 2 p)))
          (λ e.
            if-Reads extent 1 p (first p == newline) _ _ (λ e. omega arith)
              (λ e.
                if-Reads extent 1 p (is_space (first p)) _ _ (λ e. omega arith)
                  (λ e.
                    if-Reads extent 1 p
                      (is_digit (first p) || (first p == b'.' && is_digit (first (drop 1 p)))) _ _
                      (λ e. omega (arith, pp_number_loop-le (drop 1 p), length-drop 1 p))
                      (λ e. literal_lexeme-Reads p h)))))
