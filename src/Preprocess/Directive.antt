-- ===== src/Preprocess/Directive.antt =====
-- preprocess.c: the directives of macros and of conditional inclusion.
-- A handler starts at the directive's name.
use chibicc.Common.{Bool, true, false, not, ◌&&◌, ◌||◌, [], ◌∷◌, if◌then◌else◌}
use chibicc.Tokenize.Result.{Result, ok, failed, ◌>>=◌}
use chibicc.Preprocess.Names.{
  if_name, ifdef_name, ifndef_name, elif_name, elifdef_name, elifndef_name, else_name, endif_name,
  define_name, undef_name, warning_name, ident_name, sccs_name, include_name, include_next_name,
  embed_name, line_name, pragma_name,
}
use chibicc.Preprocess.Stream.{
  Tok, Stream, ◌◂◌, head, next, size, equal, names, is_ident, skip_line, skip_to_bol,
}
use chibicc.Preprocess.Skip.{skip_cond_incl}
use chibicc.Preprocess.Macro.{is_macro, read_macro_definition, undef_macro}
use chibicc.Preprocess.State.{State, CondIncl, CondContext}
use chibicc.Preprocess.Expand.{Expanded}

abbrev pub Handler : Type 0
Handler = State → Stream → Result (State × Stream)

-- `eval_const_expr`, as the handlers call it.
abbrev pub Eval : Type 0
Eval = State → Stream → Result (Bool × Stream × State)

abbrev pub push_cond_incl : Bool → State → State
push_cond_incl included st = record st {
  cond_incl = record { ctx = CondContext.in_then; included = included } ∷ st.cond_incl;
}

abbrev pub skip_unless : Bool → State → Stream → Result (State × Stream)
skip_unless b st s = if b then ok (st, s) else skip_cond_incl s >>= (λ s1. ok (st, s1))

unfoldable pub handle_define : Handler
unfolding read_macro_definition
handle_define st s = do
  s1 ← next s
  (macros, rest) ← read_macro_definition st.macros s1
  ok (record st { macros = macros }, rest)

unfoldable pub handle_undef : Handler
unfolding undef_macro skip_line
handle_undef st s = do
  s1 ← next s
  s2 ← if names s1 then next s1 else failed
  macros ← undef_macro st.macros (head s1).word
  ok (record st { macros = macros }, skip_line s2)

unfoldable pub handle_if : Eval → Handler
unfolding skip_cond_incl
handle_if eval st s = do (val, rest, st1) ← eval st s; skip_unless val (push_cond_incl val st1) rest

-- Whether the macro behind the directive's name is defined, and the next line.
unfoldable pub read_ifdef : State → Stream → Result (Bool × Stream)
unfolding is_macro skip_line
read_ifdef st s = do s1 ← next s; s2 ← next s1; ok (is_macro st.macros s1, skip_line s2)

unfoldable pub handle_ifdef : Handler
unfolding read_ifdef skip_cond_incl
handle_ifdef st s = do
  (defined, rest) ← read_ifdef st s
  skip_unless defined (push_cond_incl defined st) rest

unfoldable pub handle_ifndef : Handler
unfolding read_ifdef skip_cond_incl
handle_ifndef st s = do
  (defined, rest) ← read_ifdef st s
  skip_unless (not defined) (push_cond_incl (not defined) st) rest

-- The group that the directive is in, which has had no `#else`, is now in the given context.
abbrev pub enter : CondContext → State → Result (CondIncl × State)
enter ctx st = elim st.cond_incl [
  | [] ↦ failed
  | ci ∷ cs ↦ elim ci.ctx [
    | CondContext.in_else ↦ failed
    | _ ↦ ok (ci, record st { cond_incl = record ci { ctx = ctx } ∷ cs })
  ]
]

abbrev pub set_included : State → State
set_included st = elim st.cond_incl [
  | [] ↦ st
  | ci ∷ cs ↦ record st { cond_incl = record ci { included = true } ∷ cs }
]

abbrev pub include_if : Bool → State → Stream → Result (State × Stream)
include_if b st s = if b then ok (set_included st, s) else skip_cond_incl s >>= (λ s1. ok (st, s1))

-- The expression of a group that has been included is not evaluated, and is skipped as text.
unfoldable pub handle_elif : Eval → Handler
unfolding skip_cond_incl
handle_elif eval st s = do
  (ci, st1) ← enter CondContext.in_elif st
  (val, rest, st2) ← if ci.included then ok (false, s, st1) else eval st1 s
  include_if val st2 rest

unfoldable pub handle_elifdef : Handler
unfolding read_ifdef skip_cond_incl
handle_elifdef st s = do
  (ci, st1) ← enter CondContext.in_elif st
  (defined, rest) ← read_ifdef st1 s
  include_if (not ci.included && defined) st1 rest

unfoldable pub handle_elifndef : Handler
unfolding read_ifdef skip_cond_incl
handle_elifndef st s = do
  (ci, st1) ← enter CondContext.in_elif st
  (defined, rest) ← read_ifdef st1 s
  include_if (not ci.included && not defined) st1 rest

unfoldable pub handle_else : Handler
unfolding skip_line skip_cond_incl
handle_else st s = do
  (ci, st1) ← enter CondContext.in_else st
  s1 ← next s
  skip_unless (not ci.included) st1 (skip_line s1)

unfoldable pub handle_endif : Handler
unfolding skip_line
handle_endif st s = elim st.cond_incl [
  | [] ↦ failed
  | ci ∷ cs ↦ next s >>= (λ s1. ok (record st { cond_incl = cs }, skip_line s1))
]

-- `#warning`, whose message is left out, `#ident` and `#sccs`.
unfoldable pub handle_ident : Handler
unfolding skip_to_bol
handle_ident st s = next s >>= (λ s1. ok (st, skip_to_bol s1))

-- What the loop has next: the token is passed on, or the loop goes on elsewhere.
pub data Step : Type 0 where
  pass : Step
  again : Expanded → Step

abbrev pub moved : Result (State × Stream) → Result Step
moved r =
    r
    >>= (λ (x : State × Stream). ok (again (record { rest = x.1; behind = size x.1; state = x.0 })))

-- The directives of other parts, from the directive's name: `#include`, `#include_next`, `#embed`,
-- `#line` and `#pragma`.
abbrev pub Others : Type 0
Others = State → Stream → Result Expanded

abbrev in_other : Tok → Bool
in_other t =
    equal t include_name
    || equal t include_next_name
    || equal t embed_name
    || equal t line_name
    || equal t pragma_name

-- The handler that the table has for the name, and its call; `#error` ends the program.
unfoldable pub run_directive : Eval → Others → State → Tok → Stream → Result Step
unfolding handle_define handle_undef handle_if handle_ifdef handle_ifndef handle_elif handle_elifdef
    handle_elifndef handle_else handle_endif handle_ident
run_directive eval others st t s =
    if not (is_ident t)
    then failed
    else if in_other t
    then others st (t ◂ s) >>= (λ x. ok (again x))
    else if equal t define_name
    then moved (handle_define st (t ◂ s))
    else if equal t undef_name
    then moved (handle_undef st (t ◂ s))
    else if equal t if_name
    then moved (handle_if eval st (t ◂ s))
    else if equal t ifdef_name
    then moved (handle_ifdef st (t ◂ s))
    else if equal t ifndef_name
    then moved (handle_ifndef st (t ◂ s))
    else if equal t elif_name
    then moved (handle_elif eval st (t ◂ s))
    else if equal t elifdef_name
    then moved (handle_elifdef st (t ◂ s))
    else if equal t elifndef_name
    then moved (handle_elifndef st (t ◂ s))
    else if equal t else_name
    then moved (handle_else st (t ◂ s))
    else if equal t endif_name
    then moved (handle_endif st (t ◂ s))
    else if equal t warning_name || equal t ident_name || equal t sccs_name
    then moved (handle_ident st (t ◂ s))
    else failed
