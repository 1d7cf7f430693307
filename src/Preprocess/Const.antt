-- ===== src/Preprocess/Const.antt =====
-- preprocess.c: the expressions of `#if` and `#elif`.
use chibicc.Common.{ℕ, zero, suc, ◌+◌, Bool, not, Option, none, some, List, [], ◌∷◌, if◌then◌else◌}
use chibicc.Tokenize.Result.{Result, ok, failed, out_of_fuel, ◌>>=◌}
use chibicc.Tokenize.Lines.{newline}
use chibicc.Preprocess.Stream.{
  Tok, Stream, end, ◌◂◌, head, next, equal, starts, skip, names, is_ident, copy_line,
}
use chibicc.Preprocess.Text.{tokens_of}
use chibicc.Preprocess.Macro.{open_paren, close_paren, is_macro}
use chibicc.Preprocess.State.{State, Preprocessor}
use chibicc.Preprocess.Subst.{is_end}
use chibicc.Preprocess.Expand.{Expanded, expand_macro}

abbrev pub defined_name : List ℕ
defined_name = b'd' ∷ b'e' ∷ b'f' ∷ b'i' ∷ b'n' ∷ b'e' ∷ b'd' ∷ []

abbrev has_embed_name : List ℕ
has_embed_name = b'_' ∷ b'_' ∷ b'h' ∷ b'a' ∷ b's' ∷ b'_' ∷ b'e' ∷ b'm' ∷ b'b' ∷ b'e' ∷ b'd' ∷ []

-- A number of one digit, which is all that is asked for here.
unfoldable pub new_num_token : ℕ → Result Tok
unfolding tokens_of
new_num_token val = tokens_of ((b'0' + val) ∷ newline ∷ []) >>= (λ s. ok (head s))

-- The operator `defined`, with `s` behind it: whether the macro is there, and the tokens behind.
unfoldable pub read_defined : State → Stream → Result (Bool × Stream)
read_defined st s =
    let has_paren = starts s open_paren in
    (if has_paren then next s else ok s) >>= (λ s1.
      if not (names s1)
      then failed
      else next s1 >>= (λ s2.
        (if has_paren then skip s2 close_paren else ok s2)
        >>= (λ s3. ok (is_macro st.macros s1, s3))))

-- What the expressions use of other parts: `has_embed` reads the operand of `__has_embed`, from
-- behind the operator, to the digit that stands for it; `value` is that of the expression, where
-- its numbers are still unconverted: `convert_pp_tokens`, and `const_expr` of the parser, which
-- must read all of it.
pub record Evaluator : Type 0 where
  pub has_embed : State → Stream → Result (ℕ × State × Stream)
  pub value : Stream → Result Bool

module _ (ev : Evaluator) (preprocess2 : Preprocessor) where
  unfoldable pub preprocess_const_expr : ℕ → State → Stream → Result (Stream × State)
  unfolding new_num_token read_defined expand_macro
  preprocess_const_expr fuel st (end t) = ok (end t, st)
  preprocess_const_expr zero st (t ◂ s) = out_of_fuel
  preprocess_const_expr (suc fuel) st (t ◂ s) =
      let defined = (do
        (b, s1) ← read_defined st s
        n ← new_num_token (if b then 1 else 0)
        (rest, st') ← preprocess_const_expr fuel st s1
        ok (n ◂ rest, st')) in
      let has_embed = (do
        (v, st1, s1) ← ev.has_embed st s
        n ← new_num_token v
        (rest, st') ← preprocess_const_expr fuel st1 s1
        ok (n ◂ rest, st')) in
      let pass = (do (rest, st') ← preprocess_const_expr fuel st s; ok (t ◂ rest, st')) in
      let other = expand_macro preprocess2 st t s >>= (λ (x : Option Expanded). elim x [
        | some e ↦ preprocess_const_expr fuel e.state e.rest
        | none ↦ pass
      ]) in
      if equal t defined_name then defined else if equal t has_embed_name then has_embed else other

  -- The names that are left become `0`.
  unfoldable pub replace_names : Stream → Result Stream
  unfolding new_num_token
  replace_names (end t) = ok (end t)
  replace_names (t ◂ s) =
      let rest = replace_names s in
      let zero_tok = new_num_token 0 >>= (λ n. rest >>= (λ r. ok (n ◂ r))) in
      let same = rest >>= (λ r. ok (t ◂ r)) in if is_ident t then zero_tok else same

  -- From the directive's name: whether the expression is not zero, the next line, and the state.
  unfoldable pub eval_const_expr : ℕ → State → Stream → Result (Bool × Stream × State)
  unfolding preprocess_const_expr replace_names copy_line
  eval_const_expr fuel st s = do
    s1 ← next s
    (line, rest) ← copy_line s1
    (expr, st') ← preprocess_const_expr fuel st line
    numbers ← if is_end expr then failed else replace_names expr
    val ← ev.value numbers
    ok (val, rest, st')
