-- ===== src/Preprocess/Expand.antt =====
-- preprocess.c: expand_macro.
use chibicc.Common.{ℕ, not, Option, none, some, if◌then◌else◌}
use chibicc.Tokenize.Result.{Result, ok, ◌>>=◌}
use chibicc.Preprocess.Hideset.{
  Hideset, new_hideset, hideset_contains, hideset_union, hideset_intersection,
}
use chibicc.Preprocess.Stream.{Tok, Stream, ◌◂◌, head, next, size, starts, append, add_hideset}
use chibicc.Preprocess.Macro.{Macro, open_paren, find_macro, read_macro_args}
use chibicc.Preprocess.State.{State, Preprocessor}
use chibicc.Preprocess.Subst.{set_first, subst_args}

-- What is there after a token: the stream, the tokens of it that stood behind the macro, and the
-- state.
pub record Expanded : Type 0 where
  pub rest : Stream
  pub behind : ℕ
  pub state : State

-- The body in place of the macro, before `s`.
unfoldable pub put_body : Tok → Stream → Hideset → Stream → Stream
unfolding append add_hideset
put_body tok body hs s = set_first tok (append (add_hideset body hs) s)

unfoldable pub expand_objlike : State → Macro → Tok → Stream → Expanded
unfolding put_body hideset_union
expand_objlike st m tok s = record {
  rest = put_body tok m.body (hideset_union tok.hideset (new_hideset m.name)) s;
  behind = size s;
  state = st;
}

unfoldable pub expand_funclike : Preprocessor → State → Macro → Tok → Stream → Result Expanded
unfolding put_body read_macro_args subst_args hideset_union hideset_intersection
expand_funclike preprocess2 st m tok s = do
  (args, at_paren) ← read_macro_args m.params m.va_args_name s
  rest ← next at_paren
  let hs = hideset_intersection tok.hideset (head at_paren).hideset
  (body, st') ← subst_args preprocess2 st m.body args
  ok (record {
    rest = put_body tok body (hideset_union hs (new_hideset m.name)) rest;
    behind = size rest;
    state = st';
  })

abbrev expand_with : Preprocessor → State → Macro → Tok → Stream → Result (Option Expanded)
unfolding expand_objlike expand_funclike
expand_with preprocess2 st m tok s = elim m.handler [
  | some handler ↦ ok (some (record { rest = handler tok ◂ s; behind = size s; state = st }))
  | none ↦
      if m.is_objlike
      then ok (some (expand_objlike st m tok s))
      else if not (starts s open_paren)
      then ok none
      else expand_funclike preprocess2 st m tok s >>= (λ x. ok (some x))
]

-- The token and those behind it; `none` when it is not expanded.
unfoldable pub expand_macro : Preprocessor → State → Tok → Stream → Result (Option Expanded)
unfolding hideset_contains find_macro expand_objlike expand_funclike
expand_macro preprocess2 st tok s =
    if hideset_contains tok.hideset tok.word then ok none else elim (find_macro st.macros tok) [
      | none ↦ ok none
      | some m ↦ expand_with preprocess2 st m tok s
    ]
