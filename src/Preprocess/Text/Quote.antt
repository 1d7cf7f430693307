-- ===== src/Preprocess/Text/Quote.antt =====
-- preprocess.c: a string that is quoted and scanned again.
use chibicc.Common.{
  ◌≡◌, ◌∙◌, refl, ap, arith, ℕ, zero, suc, ◌+◌, ◌-◌, ◌≤◌, ◌<◌, ◌==◌, true, false, List, [], ◌∷◌,
  ◌++◌, map, if◌then◌else◌, drop, take-length, length, length-append, count, Bool-cases, inl, inr,
}
use chibicc.Types.{char_type}
use chibicc.Tokenize.Result.{ok}
use chibicc.Tokenize.Lines.{newline, backslash}
use chibicc.Tokenize.Escape.{string_literal_end, read_escaped_char}
use chibicc.Tokenize.Literal.{char_unit, read_units, read_literal}
use chibicc.Tokenize.Literal.Contents.{read_units-suc, read_units-done, string_literal_end-quote}
use chibicc.Tokenize.Lexeme.{TokenKind, Payload, lexeme, lexeme_at, literal_lexeme}
use chibicc.Tokenize.Scan.{Token, new_token, tokenize_loop, add_line_numbers, tokenize}
use chibicc.Preprocess.Stream.{Tok, end, ◌◂◌}
use chibicc.Preprocess.Text.{
  to_tok, tokens_of, is_escaped, escape_quotes, quote_string, quoted_size,
}

-- The numbers of the lines are no part of the tokens.
map-add_line_numbers :
    (text p : List ℕ) (loc n : ℕ) (ts : List Token)
    → map (to_tok text) (add_line_numbers p loc n ts) ≡ map (to_tok text) ts
unfolding add_line_numbers
map-add_line_numbers text p loc n [] = refl
map-add_line_numbers text [] loc n (t ∷ ts) = elim (Bool-cases (t.loc == loc)) [
  | inl e ↦ rw e refl
  | inr e ↦ rw e refl
]
map-add_line_numbers text (c ∷ p) loc n (t ∷ ts) = elim (Bool-cases (t.loc == loc)) [
  | inl e ↦ rw e (
      ap (◌∷◌ (to_tok text t))
        (map-add_line_numbers text p (loc + 1) (if c == newline then n + 1 else n) ts))
  | inr e ↦
      rw e (map-add_line_numbers text p (loc + 1) (if c == newline then n + 1 else n) (t ∷ ts))
]

end-plain :
    (c n : ℕ) (p : List ℕ)
    → is_escaped c ≡ false
    → (c == newline) ≡ false
    → string_literal_end p ≡ ok n
    → string_literal_end (c ∷ p) ≡ ok (n + 1)
unfolding string_literal_end
end-plain c n [] h l e = absurd cc
end-plain c n (d ∷ p) h l e =
    let q : (c == b'"') ≡ false = ground arith in
    let s : (c == backslash) ≡ false = ground arith in rw (q, l, s, e) refl

end-escaped :
    (c n : ℕ) (p : List ℕ)
    → string_literal_end p ≡ ok n
    → string_literal_end (backslash ∷ c ∷ p) ≡ ok (n + 2)
unfolding string_literal_end
end-escaped c n p e = rw e refl

-- The quoted text ends where its quote is.
end-escape_quotes :
    (str rest : List ℕ)
    → count newline str ≡ 0
    → string_literal_end (escape_quotes str ++ (b'"' ∷ rest)) ≡ ok (length (escape_quotes str))
unfolding escape_quotes
end-escape_quotes [] rest h = string_literal_end-quote rest
end-escape_quotes (c ∷ str) rest h =
    let k : count newline str ≡ 0 = ground arith in
    let l : (c == newline) ≡ false = ground arith in
    let ih = end-escape_quotes str rest k in
    elim (Bool-cases (is_escaped c)) [
      | inl e ↦ rw e (
          end-escaped c (length (escape_quotes str)) (escape_quotes str ++ (b'"' ∷ rest)) ih
          ∙ ap ok (omega arith))
      | inr e ↦ rw e (
          end-plain c (length (escape_quotes str)) (escape_quotes str ++ (b'"' ∷ rest)) e l ih
          ∙ ap ok (omega arith))
    ]

char_unit-escaped :
    (c : ℕ) (p : List ℕ) → is_escaped c ≡ true → char_unit (backslash ∷ c ∷ p) ≡ ok (c ∷ [], 2)
unfolding char_unit read_escaped_char
char_unit-escaped c p e = elim (Bool-cases (c == backslash)) [
  | inl h ↦ let q : c ≡ backslash = ground arith in rw q refl
  | inr h ↦ let q : c ≡ b'"' = ground arith in rw q refl
]

char_unit-plain : (c : ℕ) (p : List ℕ) → is_escaped c ≡ false → char_unit (c ∷ p) ≡ ok (c ∷ [], 1)
unfolding char_unit
char_unit-plain c p e = let q : (c == backslash) ≡ false = ground arith in rw q refl

units-escape_quotes :
    (str rest : List ℕ) (fuel : ℕ)
    → length (escape_quotes str) ≤ fuel
    → read_units char_unit fuel (escape_quotes str ++ rest) (length (escape_quotes str)) ≡ ok str
unfolding escape_quotes
units-escape_quotes [] rest fuel h = read_units-done char_unit fuel rest
units-escape_quotes (c ∷ str) rest zero h = elim (Bool-cases (is_escaped c)) [
  | inl e ↦ let l = rw e at h in absurd (omega (arith, l))
  | inr e ↦ let l = rw e at h in absurd (omega (arith, l))
]
units-escape_quotes (c ∷ str) rest (suc fuel) h =
    let xs = escape_quotes str in
    elim (Bool-cases (is_escaped c)) [
      | inl e ↦
          let l = rw e at h in
          let left : length (backslash ∷ c ∷ xs) - 2 ≡ length xs = omega arith in
          rw e (
            read_units-suc char_unit fuel (length (backslash ∷ c ∷ xs)) 2
              (backslash ∷ c ∷ (xs ++ rest)) (xs ++ rest) (c ∷ []) str (omega arith)
              (char_unit-escaped c (xs ++ rest) e) refl
              (rw left (units-escape_quotes str rest fuel (omega (arith, l)))))
      | inr e ↦
          let l = rw e at h in
          let left : length (c ∷ xs) - 1 ≡ length xs = omega arith in
          rw e (
            read_units-suc char_unit fuel (length (c ∷ xs)) 1 (c ∷ (xs ++ rest)) (xs ++ rest)
              (c ∷ []) str (omega arith) (char_unit-plain c (xs ++ rest) e) refl
              (rw left (units-escape_quotes str rest fuel (omega (arith, l)))))
    ]

read_literal-escape_quotes :
    (str rest : List ℕ)
    → count newline str ≡ 0
    → read_literal char_unit (escape_quotes str ++ (b'"' ∷ rest))
      ≡ ok (str, length (escape_quotes str) + 1)
unfolding read_literal
read_literal-escape_quotes str rest h =
    rw (end-escape_quotes str rest h)
      (rw (units-escape_quotes str (b'"' ∷ rest) (length (escape_quotes str)) (omega arith)) refl)

lexeme_at-quote_string :
    (str : List ℕ)
    → count newline str ≡ 0
    → lexeme_at (quote_string str)
      ≡ ok (
          lexeme TokenKind.tk_str
            (1 + (length (escape_quotes str) + 1))
            (Payload.text str char_type))
unfolding lexeme_at literal_lexeme quote_string
lexeme_at-quote_string str h = rw (read_literal-escape_quotes str [] h) refl

abbrev pub quoted_tok : List ℕ → Tok
quoted_tok str = record {
  kind = TokenKind.tk_str;
  word = quote_string str;
  at_bol = true;
  has_space = false;
  hideset = [];
  payload = Payload.text str char_type;
}

abbrev pub quoted_end : Tok
quoted_end = record {
  kind = TokenKind.tk_eof;
  word = [];
  at_bol = false;
  has_space = false;
  hideset = [];
  payload = Payload.nothing;
}

length-quote_string :
    (str : List ℕ) → 1 + (length (escape_quotes str) + 1) ≡ length (quote_string str)
unfolding quote_string
length-quote_string str = omega (arith, length-append (escape_quotes str) (b'"' ∷ []))

drop-all : (xs : List ℕ) → drop (length xs) xs ≡ []
drop-all [] = refl
drop-all (x ∷ xs) = drop-all xs

-- A loop that finds one token up to the end of the text.
tokenize_loop-single :
    (text : List ℕ) (fuel : ℕ) (kind : TokenKind) (payload : Payload)
    → 0 < length text
    → length text ≤ fuel
    → lexeme_at text ≡ ok (lexeme kind (length text) payload)
    → tokenize_loop fuel text 0 true false
      ≡ ok (
          new_token kind 0 (length text) true false payload
          ∷ new_token TokenKind.tk_eof (length text) 0 false false Payload.nothing
          ∷ [])
unfolding tokenize_loop
tokenize_loop-single [] fuel kind payload h l e = absurd (omega arith)
tokenize_loop-single (c ∷ p) zero kind payload h l e = absurd (omega arith)
tokenize_loop-single (c ∷ p) (suc fuel) kind payload h l e =
    let z : 0 + length (c ∷ p) ≡ length (c ∷ p) = omega arith in rw e (rw (drop-all p) (rw z refl))

tokens_of-quote_string :
    (str : List ℕ)
    → count newline str ≡ 0
    → tokens_of (quote_string str) ≡ ok (quoted_tok str ◂ end quoted_end)
unfolding tokens_of tokenize
tokens_of-quote_string str h =
    let text = quote_string str in
    let l = length-quote_string str in
    let x = lexeme_at-quote_string str h in
    let t =
      tokenize_loop-single text (length text) TokenKind.tk_str (Payload.text str char_type)
        (omega (arith, l)) (omega arith) (rw l at x) in
    rw t (
      rw
        (map-add_line_numbers text text 0 1 (
          new_token TokenKind.tk_str 0 (length text) true false (Payload.text str char_type)
          ∷ new_token TokenKind.tk_eof (length text) 0 false false Payload.nothing
          ∷ []))
        (rw (take-length text) refl))

quoted_size-length : (str : List ℕ) (n : ℕ) → quoted_size str n ≡ n + length (escape_quotes str)
unfolding quoted_size escape_quotes
quoted_size-length [] n = omega arith
quoted_size-length (c ∷ str) n =
    ground (arith, quoted_size-length str (n + 1), quoted_size-length str (n + 1 + 1))

-- A text without newlines that is quoted and scanned again is one string literal with that text as
-- its contents, and then the end; the buffer that the quoted text is written to is as large as the
-- text and its NUL.
pub tokens_of-quoted :
    (str : List ℕ)
    → count newline str ≡ 0
    → (tokens_of (quote_string str) ≡ ok (quoted_tok str ◂ end quoted_end))
      × (quoted_size str 3 ≡ length (quote_string str) + 1)
unfolding quote_string
tokens_of-quoted str h =
    (tokens_of-quote_string str h, omega (arith, quoted_size-length str 3, length-quote_string str))
