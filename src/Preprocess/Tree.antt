-- ===== src/Preprocess/Tree.antt =====
-- A file as a tree of lines and of conditional groups, and the tokens it is written with.
pub mod Size
use chibicc.Common.{ℕ, Bool, true, false, not, ◌&&◌, List, [], ◌∷◌, map}
use chibicc.Tokenize.Lexeme.{TokenKind, Payload}
use chibicc.Preprocess.Names.{
  if_name, ifdef_name, ifndef_name, elif_name, elifdef_name, elifndef_name, else_name, endif_name,
  define_name, undef_name,
}
use chibicc.Preprocess.Stream.{Tok, Stream, ◌◂◌, equal, put_list}

-- The condition of a group: the macro's name, or the tokens of an expression.
pub data Cond : Type 0 where
  defined undefined : List ℕ → Cond
  expression : List Tok → Cond

mutual
  -- A line has a first token at least; a definition is object-like.
  pub data Text : Type 0 where
    none : Text
    line : Tok → List Tok → Text → Text
    define_line : List ℕ → List Tok → Text → Text
    undef_line : List ℕ → Text → Text
    group : Cond → Text → Branches → Text → Text

  pub data Branches : Type 0 where
    endif : Branches
    else_ : Text → Branches
    elif : Cond → Text → Branches → Branches

abbrev pub hash_token : Tok
hash_token = record {
  kind = TokenKind.tk_punct;
  word = b'#' ∷ [];
  at_bol = true;
  has_space = false;
  hideset = [];
  payload = Payload.nothing;
}

abbrev pub word_token : List ℕ → Tok
word_token w = record {
  kind = TokenKind.tk_ident;
  word = w;
  at_bol = false;
  has_space = true;
  hideset = [];
  payload = Payload.nothing;
}

-- The token stands at the beginning of a line, or it does not.
abbrev pub first_of_line : Tok → Tok
first_of_line t = record t { at_bol = true }

abbrev pub within_line : Tok → Tok
within_line t = record t { at_bol = false; has_space = true }

abbrev pub directive : List ℕ → List Tok → Stream → Stream
directive name ts s = hash_token ◂ word_token name ◂ put_list (map within_line ts) s

abbrev pub emit_if : Cond → Stream → Stream
emit_if (defined x) s = directive ifdef_name (word_token x ∷ []) s
emit_if (undefined x) s = directive ifndef_name (word_token x ∷ []) s
emit_if (expression e) s = directive if_name e s

abbrev pub emit_elif : Cond → Stream → Stream
emit_elif (defined x) s = directive elifdef_name (word_token x ∷ []) s
emit_elif (undefined x) s = directive elifndef_name (word_token x ∷ []) s
emit_elif (expression e) s = directive elif_name e s

unfoldable mutual
  -- The tokens of a text, before a stream.
  pub emit : Text → Stream → Stream
  emit none s = s
  emit (line t ts x) s = first_of_line t ◂ put_list (map within_line ts) (emit x s)
  emit (define_line m body x) s = directive define_name (word_token m ∷ body) (emit x s)
  emit (undef_line m x) s = directive undef_name (word_token m ∷ []) (emit x s)
  emit (group c x bs y) s = emit_if c (emit x (emit_branches bs (emit y s)))

  pub emit_branches : Branches → Stream → Stream
  emit_branches endif s = directive endif_name [] s
  emit_branches (else_ x) s = directive else_name [] (emit x (directive endif_name [] s))
  emit_branches (elif c x bs) s = emit_elif c (emit x (emit_branches bs s))

unfoldable mutual
  -- No ordinary line begins with `#`.
  pub ordinary : Text → Bool
  ordinary none = true
  ordinary (line t ts x) = not (equal t (b'#' ∷ [])) && ordinary x
  ordinary (define_line m body x) = ordinary x
  ordinary (undef_line m x) = ordinary x
  ordinary (group c x bs y) = ordinary x && ordinary_branches bs && ordinary y

  pub ordinary_branches : Branches → Bool
  ordinary_branches endif = true
  ordinary_branches (else_ x) = ordinary x
  ordinary_branches (elif c x bs) = ordinary x && ordinary_branches bs
