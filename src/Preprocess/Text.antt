-- ===== src/Preprocess/Text.antt =====
-- preprocess.c: tokens made from text: strings, numbers, and the operators # and ##.
pub mod Quote
use chibicc.Common.{
  ℕ, zero, suc, ◌+◌, ◌==◌, Bool, true, false, ◌||◌, List, [], ◌∷◌, ◌++◌, map, if◌then◌else◌, drop,
  take, length,
}
use chibicc.Tokenize.Result.{Result, ok, failed, overrun, out_of_fuel, ◌>>=◌}
use chibicc.Tokenize.Lines.{newline, backslash}
use chibicc.Tokenize.Scan.{Token, tokenize}
use chibicc.Preprocess.Stream.{Tok, Stream, end, ◌◂◌, head, next}

-- A token of a text, with the bytes that `loc` and `len` point to.
abbrev pub to_tok : List ℕ → Token → Tok
to_tok text t = record {
  kind = t.kind;
  word = take t.len (drop t.loc text);
  at_bol = t.at_bol;
  has_space = t.has_space;
  hideset = [];
  payload = t.payload;
}

-- The last token is the end.
unfoldable pub to_stream : List Tok → Result Stream
to_stream [] = overrun
to_stream (t ∷ []) = ok (end t)
to_stream (t ∷ u ∷ ts) = to_stream (u ∷ ts) >>= (λ s. ok (t ◂ s))

-- `tokenize(new_file(…, buf))`.
unfoldable pub tokens_of : List ℕ → Result Stream
unfolding to_stream tokenize
tokens_of buf = tokenize buf >>= (λ ts. to_stream (map (to_tok buf) ts))

abbrev pub is_escaped : ℕ → Bool
is_escaped c = c == backslash || c == b'"'

unfoldable pub escape_quotes : List ℕ → List ℕ
escape_quotes [] = []
escape_quotes (c ∷ str) =
    let rest = escape_quotes str in if is_escaped c then backslash ∷ c ∷ rest else c ∷ rest

-- The buffer up to its NUL.
unfoldable pub quote_string : List ℕ → List ℕ
unfolding escape_quotes
quote_string str = b'"' ∷ (escape_quotes str ++ (b'"' ∷ []))

-- `bufsize`, counted by the first loop from `n`.
unfoldable pub quoted_size : List ℕ → ℕ → ℕ
quoted_size [] n = n
quoted_size (c ∷ str) n = quoted_size str (if is_escaped c then n + 1 + 1 else n + 1)

unfoldable pub new_str_token : List ℕ → Result Stream
unfolding tokens_of
new_str_token str = tokens_of (quote_string str)

-- The texts of the tokens; a token with a space before it that is not the first gets a blank.
unfoldable pub join_loop : Bool → Stream → List ℕ
join_loop first (end t) = []
join_loop first (t ◂ s) =
    let rest = t.word ++ join_loop false s in
    if first then rest else if t.has_space then b' ' ∷ rest else rest

unfoldable pub join_tokens : Stream → List ℕ
unfolding join_loop
join_tokens s = join_loop true s

unfoldable pub stringize : Stream → Result Tok
unfolding tokens_of
stringize arg = new_str_token (join_tokens arg) >>= (λ s. ok (head s))

-- The second token must be the end.
abbrev pub only_one : Stream → Result Tok
only_one s = next s >>= (λ s1. elim s1 [ end t ↦ ok (head s) | t ◂ s2 ↦ failed ])

unfoldable pub paste : Tok → Tok → Result Tok
unfolding tokens_of
paste lhs rhs = tokens_of (lhs.word ++ rhs.word) >>= only_one
