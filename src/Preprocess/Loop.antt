-- ===== src/Preprocess/Loop.antt =====
-- preprocess.c: preprocess2 and preprocess.
-- The loop runs on fuel, since a macro's body, an argument and an included file are read again.
pub mod Cost
pub mod Macros
pub mod Select
pub mod Handlers
pub mod Openers
pub mod Elifs
pub mod Gives
pub mod Branches
pub mod Closed
pub mod Groups
pub mod Texts
use chibicc.Common.{
  ℕ, zero, suc, ◌+◌, Bool, true, false, not, ◌||◌, Option, none, some, List, [], ◌∷◌, if◌then◌else◌,
  leb, min,
}
use chibicc.Tokenize.Result.{Result, ok, failed, overrun, out_of_fuel, ◌>>=◌}
use chibicc.Tokenize.Lexeme.{TokenKind}
use chibicc.Preprocess.Stream.{Tok, Stream, end, ◌◂◌, head, size, equal, is_hash}
use chibicc.Preprocess.State.{State, Preprocessed, Preprocessor}
use chibicc.Preprocess.Expand.{Expanded, expand_macro}
use chibicc.Preprocess.Const.{Evaluator, eval_const_expr}
use chibicc.Preprocess.Directive.{Eval, Others, Step, pass, again, run_directive}

abbrev pub pragma_word : List ℕ
pragma_word = b'_' ∷ b'P' ∷ b'r' ∷ b'a' ∷ b'g' ∷ b'm' ∷ b'a' ∷ []

abbrev pub ms_pragma_word : List ℕ
ms_pragma_word = b'_' ∷ b'_' ∷ b'p' ∷ b'r' ∷ b'a' ∷ b'g' ∷ b'm' ∷ b'a' ∷ []

-- What the loop uses of other parts: the expressions, the other directives, `read_line_marker` and
-- the operators `_Pragma` and `__pragma`.
pub record Parts : Type 0 where
  pub evaluator : Evaluator
  pub others : Others
  pub line_marker : Others
  pub pragma_operator : Others

abbrev is_pp_num : Tok → Bool
is_pp_num t = elim t.kind [ TokenKind.tk_pp_num ↦ true | _ ↦ false ]

-- A line that begins with `#`, from behind it. The end of the text is no directive's name.
unfoldable pub hash_line : Eval → Parts → State → Stream → Result Step
unfolding run_directive
hash_line eval parts st s =
    if (head s).at_bol
    then ok (again (record { rest = s; behind = size s; state = st }))
    else elim s [
      | end t ↦ failed
      | t ◂ s1 ↦
          if is_pp_num t
          then parts.line_marker st (t ◂ s1) >>= (λ x. ok (again x))
          else run_directive eval parts.others st t s1
    ]

-- A round of the loop at the token `t`.
unfoldable pub step : Parts → Eval → Preprocessor → State → Tok → Stream → Result Step
unfolding expand_macro hash_line
step parts eval preprocess2 st t s = expand_macro preprocess2 st t s >>= (λ (r : Option Expanded).
    elim r [
      | some x ↦ ok (again x)
      | none ↦
          if equal t pragma_word || equal t ms_pragma_word
          then parts.pragma_operator st (t ◂ s) >>= (λ x. ok (again x))
          else if not (is_hash t)
          then ok pass
          else hash_line eval parts st s
    ])

-- A token that is passed on before the others; `n` tokens of those that stand here went in.
abbrev pub pass_on : ℕ → Tok → ℕ → Preprocessed → Preprocessed
pass_on n t len p = record p {
  out = t ◂ p.out;
  own =
      if leb len n
      then some (len, 0)
      else elim p.own [ none ↦ none | some o ↦ some (o.0, suc o.1) ];
}

-- The loop, where the last `n` tokens of the stream are those that went in.
unfoldable pub preprocess_loop : Parts → ℕ → ℕ → State → Stream → Result Preprocessed
unfolding step eval_const_expr
preprocess_loop parts fuel n st (end t) = ok (record { out = end t; own = none; state = st })
preprocess_loop parts zero n st (t ◂ s) = out_of_fuel
preprocess_loop parts (suc fuel) n st (t ◂ s) =
    let inner = λ (st1 : State) (s1 : Stream). preprocess_loop parts fuel (size s1) st1 s1 in
    step parts (eval_const_expr parts.evaluator inner fuel) inner st t s >>= (λ (r : Step). elim r [
      | again x ↦ preprocess_loop parts fuel (min n x.behind) x.state x.rest
      | pass ↦
          preprocess_loop parts fuel (min n (size s)) st s
          >>= (λ p. ok (pass_on n t (size (t ◂ s)) p))
    ])

unfoldable pub preprocess2 : Parts → ℕ → Preprocessor
unfolding preprocess_loop
preprocess2 parts fuel st s = preprocess_loop parts fuel (size s) st s

-- `preprocess` up to the conversion of the tokens. A group must not be open at the end.
unfoldable pub preprocess : Parts → ℕ → State → Stream → Result (Stream × State)
unfolding preprocess2
preprocess parts fuel st s = preprocess2 parts fuel st s >>= (λ (p : Preprocessed).
    elim p.state.cond_incl [ [] ↦ ok (p.out, p.state) | ci ∷ cs ↦ failed ])
