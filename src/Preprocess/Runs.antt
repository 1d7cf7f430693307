-- ===== src/Preprocess/Runs.antt =====
-- Runs of the preprocessor on small files.
use chibicc.Common.{◌≡◌, refl, ℕ, not, List, [], ◌∷◌, map}
use chibicc.Unicode.Utf8.{decode_utf8}
use chibicc.Unicode.Ranges.{is_ident1, is_ident2}
use chibicc.HashMap.{same_key}
use chibicc.Tokenize.Result.{Result, ok, failed, ◌>>=◌}
use chibicc.Tokenize.Literal.{read_literal, char_unit}
use chibicc.Tokenize.Lexeme.{lexeme_at, read_ident, pp_number_loop}
use chibicc.Preprocess.Stream.{Tok, Stream, head, equal}
use chibicc.Preprocess.Text.{tokens_of, new_str_token, quote_string, join_tokens}
use chibicc.Preprocess.Macro.{no_macros}
use chibicc.Preprocess.State.{State}
use chibicc.Preprocess.Subst.{tokens}
use chibicc.Preprocess.Loop.{Parts, preprocess}

abbrev start_state : State
start_state = record { macros = no_macros; cond_incl = [] }

-- The other parts fail, and an expression is true when it is not `0`.
abbrev pub no_parts : Parts
no_parts = record {
  evaluator = record {
    has_embed = λ st s. failed;
    value = λ s. ok (not (equal (head s) (b'0' ∷ [])));
  };
  others = λ st s. failed;
  line_marker = λ st s. failed;
  pragma_operator = λ st s. failed;
}

abbrev words : Result (Stream × State) → Result (List (List ℕ))
words r = r >>= (λ (x : Stream × State). ok (map (λ (t : Tok). t.word) (tokens x.0)))

unfoldable run : ℕ → List ℕ → Result (List (List ℕ))
unfolding tokens_of preprocess lexeme_at read_ident decode_utf8 is_ident1 is_ident2 pp_number_loop
    same_key new_str_token quote_string read_literal join_tokens char_unit
run fuel text = words (tokens_of text >>= preprocess no_parts fuel start_state)

-- Object-like macros that name each other.
objlike_run :
    run 30 (
      b'#' ∷ b'd' ∷ b'e' ∷ b'f' ∷ b'i' ∷ b'n' ∷ b'e' ∷ b' ' ∷ b'A' ∷ b' ' ∷ b'B' ∷ b' ' ∷ b'c' ∷ 10
      ∷ b'#' ∷ b'd' ∷ b'e' ∷ b'f' ∷ b'i' ∷ b'n' ∷ b'e' ∷ b' ' ∷ b'B' ∷ b' ' ∷ b'A' ∷ b' ' ∷ b'd'
      ∷ 10 ∷ b'A' ∷ b' ' ∷ b'x' ∷ 10 ∷ [])
    ≡ ok ((b'A' ∷ []) ∷ (b'd' ∷ []) ∷ (b'c' ∷ []) ∷ (b'x' ∷ []) ∷ [])
unfolding run
objlike_run = refl

-- A call with an argument in parentheses, and the name of a function-like macro alone.
funclike_run :
    run 30 (
      b'#' ∷ b'd' ∷ b'e' ∷ b'f' ∷ b'i' ∷ b'n' ∷ b'e' ∷ b' ' ∷ b'F' ∷ b'(' ∷ b'x' ∷ b',' ∷ b'y'
      ∷ b')' ∷ b' ' ∷ b'y' ∷ b' ' ∷ b'x' ∷ 10 ∷ b'#' ∷ b'd' ∷ b'e' ∷ b'f' ∷ b'i' ∷ b'n' ∷ b'e'
      ∷ b' ' ∷ b'A' ∷ b' ' ∷ b'1' ∷ 10 ∷ b'F' ∷ b'(' ∷ b'A' ∷ b',' ∷ b'(' ∷ b'2' ∷ b',' ∷ b'3'
      ∷ b')' ∷ b')' ∷ b' ' ∷ b'F' ∷ 10 ∷ [])
    ≡ ok (
        (b'(' ∷ [])
        ∷ (b'2' ∷ [])
        ∷ (b',' ∷ [])
        ∷ (b'3' ∷ [])
        ∷ (b')' ∷ [])
        ∷ (b'1' ∷ [])
        ∷ (b'F' ∷ [])
        ∷ [])
unfolding run
funclike_run = refl

-- The operators `##` and `#`.
paste_run :
    run 30 (
      b'#' ∷ b'd' ∷ b'e' ∷ b'f' ∷ b'i' ∷ b'n' ∷ b'e' ∷ b' ' ∷ b'C' ∷ b'(' ∷ b'x' ∷ b',' ∷ b'y'
      ∷ b')' ∷ b' ' ∷ b'x' ∷ b'#' ∷ b'#' ∷ b'y' ∷ b' ' ∷ b'#' ∷ b'x' ∷ 10 ∷ b'C' ∷ b'(' ∷ b'a'
      ∷ b'b' ∷ b',' ∷ b'c' ∷ b')' ∷ 10 ∷ [])
    ≡ ok ((b'a' ∷ b'b' ∷ b'c' ∷ []) ∷ (b'"' ∷ b'a' ∷ b'b' ∷ b'"' ∷ []) ∷ [])
unfolding run
paste_run = refl

-- An argument that has been expanded is stringized as it was expanded, from its second token on.
stringize_expanded_run :
    run 30 (
      b'#' ∷ b'd' ∷ b'e' ∷ b'f' ∷ b'i' ∷ b'n' ∷ b'e' ∷ b' ' ∷ b'A' ∷ b' ' ∷ b'1' ∷ 10 ∷ b'#' ∷ b'd'
      ∷ b'e' ∷ b'f' ∷ b'i' ∷ b'n' ∷ b'e' ∷ b' ' ∷ b'S' ∷ b'(' ∷ b'x' ∷ b')' ∷ b' ' ∷ b'x' ∷ b' '
      ∷ b'#' ∷ b'x' ∷ 10 ∷ b'S' ∷ b'(' ∷ b'B' ∷ b' ' ∷ b'A' ∷ b')' ∷ 10 ∷ [])
    ≡ ok ((b'B' ∷ []) ∷ (b'1' ∷ []) ∷ (b'"' ∷ b'B' ∷ b' ' ∷ b'1' ∷ b'"' ∷ []) ∷ [])
unfolding run
stringize_expanded_run = refl

-- Nested groups.
cond_run :
    run 30 (
      b'#' ∷ b'i' ∷ b'f' ∷ b'd' ∷ b'e' ∷ b'f' ∷ b' ' ∷ b'A' ∷ 10 ∷ b'x' ∷ 10 ∷ b'#' ∷ b'i' ∷ b'f'
      ∷ b' ' ∷ b'1' ∷ 10 ∷ b'#' ∷ b'e' ∷ b'l' ∷ b's' ∷ b'e' ∷ 10 ∷ b'#' ∷ b'e' ∷ b'n' ∷ b'd' ∷ b'i'
      ∷ b'f' ∷ 10 ∷ b'#' ∷ b'e' ∷ b'l' ∷ b'i' ∷ b'f' ∷ b' ' ∷ b'1' ∷ 10 ∷ b'y' ∷ 10 ∷ b'#' ∷ b'e'
      ∷ b'l' ∷ b's' ∷ b'e' ∷ 10 ∷ b'z' ∷ 10 ∷ b'#' ∷ b'e' ∷ b'n' ∷ b'd' ∷ b'i' ∷ b'f' ∷ 10 ∷ [])
    ≡ ok ((b'y' ∷ []) ∷ [])
unfolding run
cond_run = refl

-- A macro without a body at the end of a line joins the next line to it, which is no directive
-- then.
empty_body_run :
    run 30 (
      b'#' ∷ b'd' ∷ b'e' ∷ b'f' ∷ b'i' ∷ b'n' ∷ b'e' ∷ b' ' ∷ b'E' ∷ 10 ∷ b'x' ∷ b' ' ∷ b'E' ∷ 10
      ∷ b'#' ∷ b'd' ∷ b'e' ∷ b'f' ∷ b'i' ∷ b'n' ∷ b'e' ∷ b' ' ∷ b'A' ∷ 10 ∷ b'A' ∷ 10 ∷ [])
    ≡ ok (
        (b'x' ∷ [])
        ∷ (b'#' ∷ [])
        ∷ (b'd' ∷ b'e' ∷ b'f' ∷ b'i' ∷ b'n' ∷ b'e' ∷ [])
        ∷ (b'A' ∷ [])
        ∷ (b'A' ∷ [])
        ∷ [])
unfolding run
empty_body_run = refl

-- And one at the beginning of a line makes a directive of what follows it.
empty_body_directive_run :
    run 30 (
      b'#' ∷ b'd' ∷ b'e' ∷ b'f' ∷ b'i' ∷ b'n' ∷ b'e' ∷ b' ' ∷ b'E' ∷ 10 ∷ b'E' ∷ b' ' ∷ b'#' ∷ b' '
      ∷ b'd' ∷ b'e' ∷ b'f' ∷ b'i' ∷ b'n' ∷ b'e' ∷ b' ' ∷ b'B' ∷ b' ' ∷ b'1' ∷ 10 ∷ b'B' ∷ 10 ∷ [])
    ≡ ok ((b'1' ∷ []) ∷ [])
unfolding run
empty_body_directive_run = refl

-- The parenthesis of the next line makes a function-like macro of a name without a body.
paren_line_run :
    run 30 (
      b'#' ∷ b'd' ∷ b'e' ∷ b'f' ∷ b'i' ∷ b'n' ∷ b'e' ∷ b' ' ∷ b'E' ∷ 10 ∷ b'(' ∷ b'a' ∷ b')' ∷ b' '
      ∷ b'b' ∷ 10 ∷ b'E' ∷ b'(' ∷ b'1' ∷ b')' ∷ 10 ∷ [])
    ≡ ok ((b'b' ∷ []) ∷ [])
unfolding run
paren_line_run = refl

-- `a` and `q` have the same first bucket, so that `q` is still defined after its `#undef`.
undef_run :
    run 60 (
      b'#' ∷ b'd' ∷ b'e' ∷ b'f' ∷ b'i' ∷ b'n' ∷ b'e' ∷ b' ' ∷ b'a' ∷ 10 ∷ b'#' ∷ b'd' ∷ b'e' ∷ b'f'
      ∷ b'i' ∷ b'n' ∷ b'e' ∷ b' ' ∷ b'q' ∷ 10 ∷ b'#' ∷ b'u' ∷ b'n' ∷ b'd' ∷ b'e' ∷ b'f' ∷ b' '
      ∷ b'a' ∷ 10 ∷ b'#' ∷ b'd' ∷ b'e' ∷ b'f' ∷ b'i' ∷ b'n' ∷ b'e' ∷ b' ' ∷ b'q' ∷ 10 ∷ b'#' ∷ b'u'
      ∷ b'n' ∷ b'd' ∷ b'e' ∷ b'f' ∷ b' ' ∷ b'q' ∷ 10 ∷ b'#' ∷ b'i' ∷ b'f' ∷ b'd' ∷ b'e' ∷ b'f'
      ∷ b' ' ∷ b'q' ∷ 10 ∷ b'x' ∷ 10 ∷ b'#' ∷ b'e' ∷ b'n' ∷ b'd' ∷ b'i' ∷ b'f' ∷ 10 ∷ [])
    ≡ ok ((b'x' ∷ []) ∷ [])
unfolding run
undef_run = refl
