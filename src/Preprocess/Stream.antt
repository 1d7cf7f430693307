-- ===== src/Preprocess/Stream.antt =====
-- preprocess.c, tokenize.c: lists of tokens, as the preprocessor walks over them.
use chibicc.Common.{
  ◌++◌, ◌≡◌, refl, ap, ℕ, suc, Bool, true, false, ◌&&◌, List, [], ◌∷◌, if◌then◌else◌,
}
use chibicc.HashMap.{same_key}
use chibicc.Tokenize.Result.{Result, ok, failed, overrun, ◌>>=◌}
use chibicc.Tokenize.Lexeme.{TokenKind, Payload}
use chibicc.Preprocess.Hideset.{Hideset, hideset_union}

pub record Tok : Type 0 where
  pub kind : TokenKind
  pub word : List ℕ
  pub at_bol : Bool
  pub has_space : Bool
  pub hideset : Hideset
  pub payload : Payload

infixr 5 ◌◂◌
pub data Stream : Type 0 where
  end : Tok → Stream
  ◌◂◌ : Tok → Stream → Stream

abbrev pub head : Stream → Tok
head (end t) = t
head (t ◂ s) = t

-- `tok->next`.
abbrev pub next : Stream → Result Stream
next (end t) = overrun
next (t ◂ s) = ok s

-- The tokens before the end.
abbrev pub size : Stream → ℕ
size (end t) = 0
size (t ◂ s) = suc (size s)

abbrev pub equal : Tok → List ℕ → Bool
equal t op = same_key t.word op

-- `equal` at the first token; the end matches nothing.
abbrev pub starts : Stream → List ℕ → Bool
starts (end t) op = false
starts (t ◂ s) op = equal t op

-- `equal(tok->next, op)`.
abbrev pub follows : Stream → List ℕ → Bool
follows (end t) op = false
follows (t ◂ s) op = starts s op

abbrev pub skip : Stream → List ℕ → Result Stream
skip s op = if starts s op then next s else failed

abbrev is_ident_kind : TokenKind → Bool
is_ident_kind TokenKind.tk_ident = true
is_ident_kind TokenKind.tk_keyword = true
is_ident_kind _ = false

abbrev pub is_ident : Tok → Bool
is_ident t = is_ident_kind t.kind

-- `is_ident` at the first token.
abbrev pub names : Stream → Bool
names (end t) = false
names (t ◂ s) = is_ident t

abbrev pub is_hash : Tok → Bool
is_hash t = t.at_bol && equal t (b'#' ∷ [])

unfoldable pub skip_to_bol : Stream → Stream
skip_to_bol (end t) = end t
skip_to_bol (t ◂ s) = if t.at_bol then t ◂ s else skip_to_bol s

-- The warning about extra tokens is left out.
unfoldable pub skip_line : Stream → Stream
unfolding skip_to_bol
skip_line s = if (head s).at_bol then s else skip_to_bol s

abbrev pub new_eof : Tok → Stream
new_eof t = end (record t { kind = TokenKind.tk_eof; word = [] })

unfoldable pub append : Stream → Stream → Stream
append (end t) s2 = s2
append (t ◂ s1) s2 = t ◂ append s1 s2

unfoldable pub add_hideset : Stream → Hideset → Stream
unfolding hideset_union
add_hideset (end t) hs = end (record t { hideset = hideset_union t.hideset hs })
add_hideset (t ◂ s) hs = record t { hideset = hideset_union t.hideset hs } ◂ add_hideset s hs

-- The tokens up to the next line, and the next line.
unfoldable pub copy_line : Stream → Result (Stream × Stream)
copy_line (end t) = if t.at_bol then ok (new_eof t, end t) else overrun
copy_line (t ◂ s) =
    let rest = copy_line s >>= (λ (r : Stream × Stream). ok (t ◂ r.0, r.1)) in
    if t.at_bol then ok (new_eof t, t ◂ s) else rest

-- The list before a stream.
abbrev pub put_list : List Tok → Stream → Stream
put_list [] s = s
put_list (t ∷ ts) s = t ◂ put_list ts s

pub put_list-append :
    (xs ys : List Tok) (s : Stream) → put_list (xs ++ ys) s ≡ put_list xs (put_list ys s)
put_list-append [] ys s = refl
put_list-append (x ∷ xs) ys s = ap (◌◂◌ x) (put_list-append xs ys s)
