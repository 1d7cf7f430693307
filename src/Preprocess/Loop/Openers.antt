-- ===== src/Preprocess/Loop/Openers.antt =====
-- preprocess.c: what the loop does at `#ifdef`, `#ifndef`, `#if` and `#else`.
use chibicc.Common.{◌≡◌, ◌∙◌, ap, ℕ, Bool, true, not, List, ◌∷◌, if◌then◌else◌}
use chibicc.HashMap.{same_key}
use chibicc.Tokenize.Result.{Result, ok, ◌>>=◌}
use chibicc.Preprocess.Names.{if_name, ifdef_name, ifndef_name, else_name}
use chibicc.Preprocess.Stream.{Stream, ◌◂◌, head, skip_line}
use chibicc.Preprocess.Tree.{word_token, hash_token}
use chibicc.Preprocess.Skip.{skip_cond_incl}
use chibicc.Preprocess.Macro.{Macros, find_macro}
use chibicc.Preprocess.State.{State, CondIncl, CondContext, Preprocessor}
use chibicc.Preprocess.Directive.{Eval, moved, run_directive, skip_unless, push_cond_incl}
use chibicc.Preprocess.Loop.{Parts, step}
use chibicc.Preprocess.Loop.Select.{is_defined}
use chibicc.Preprocess.Loop.Handlers.{
  state_of, goes_to, cond_of, skip_line-at_bol, skip_unless-ok, IsOpen, enter-IsOpen,
  read_ifdef-word,
}

module _ (parts : Parts) (eval : Eval) (pre : Preprocessor) (macros : Macros)
    (conds : List CondIncl) (s r : Stream) (bol : (head s).at_bol ≡ true) where
  pub step-ifdef :
      (x : List ℕ)
      → (if is_defined macros x then ok s else skip_cond_incl s) ≡ ok r
      → step parts eval pre
          (state_of macros conds)
          hash_token
          (word_token ifdef_name ◂ word_token x ◂ s)
        ≡ ok (
            goes_to (state_of macros (cond_of CondContext.in_then (is_defined macros x) ∷ conds)) r)
  unfolding run_directive same_key step find_macro
  step-ifdef x e =
      let b = is_defined macros x in
      ap
        (λ (q : Result (Bool × Stream)). moved (
          q >>= (λ (v : Bool × Stream).
            skip_unless v.0 (push_cond_incl v.0 (state_of macros conds)) v.1)))
        (read_ifdef-word parts eval pre macros conds s bol ifdef_name x)
      ∙ ap moved (skip_unless-ok b (state_of macros (cond_of CondContext.in_then b ∷ conds)) s r e)

  pub step-ifndef :
      (x : List ℕ)
      → (if not (is_defined macros x) then ok s else skip_cond_incl s) ≡ ok r
      → step parts eval pre
          (state_of macros conds)
          hash_token
          (word_token ifndef_name ◂ word_token x ◂ s)
        ≡ ok (
            goes_to
              (state_of macros (cond_of CondContext.in_then (not (is_defined macros x)) ∷ conds))
              r)
  unfolding run_directive same_key step find_macro
  step-ifndef x e =
      let b = not (is_defined macros x) in
      ap
        (λ (q : Result (Bool × Stream)). moved (
          q >>= (λ (v : Bool × Stream).
            skip_unless (not v.0) (push_cond_incl (not v.0) (state_of macros conds)) v.1)))
        (read_ifdef-word parts eval pre macros conds s bol ifndef_name x)
      ∙ ap moved (skip_unless-ok b (state_of macros (cond_of CondContext.in_then b ∷ conds)) s r e)

  -- The line of an expression that is evaluated.
  pub step-if :
      (expr : Stream) (b : Bool)
      → eval (state_of macros conds) (word_token if_name ◂ expr) ≡ ok (b, s, state_of macros conds)
      → (if b then ok s else skip_cond_incl s) ≡ ok r
      → step parts eval pre (state_of macros conds) hash_token (word_token if_name ◂ expr)
        ≡ ok (goes_to (state_of macros (cond_of CondContext.in_then b ∷ conds)) r)
  unfolding run_directive same_key step
  step-if expr b v e =
      ap
        (λ (q : Result (Bool × Stream × State)).
          moved
            (q >>= (λ (v : Bool × Stream × State). skip_unless v.0 (push_cond_incl v.0 v.2) v.1)))
        v
      ∙ ap moved (skip_unless-ok b (state_of macros (cond_of CondContext.in_then b ∷ conds)) s r e)

  pub step-else :
      (ctx : CondContext) (inc : Bool)
      → IsOpen ctx
      → (if not inc then ok s else skip_cond_incl s) ≡ ok r
      → step parts eval pre
          (state_of macros (cond_of ctx inc ∷ conds))
          hash_token
          (word_token else_name ◂ s)
        ≡ ok (goes_to (state_of macros (cond_of CondContext.in_else inc ∷ conds)) r)
  unfolding run_directive same_key step
  step-else ctx inc o e =
      ap
        (λ (q : Result (CondIncl × State)).
          moved
            (q >>= (λ (v : CondIncl × State). skip_unless (not v.0.included) v.1 (skip_line s))))
        (enter-IsOpen ctx CondContext.in_else inc macros conds o)
      ∙ ap
          (λ (q : Stream).
            moved
              (skip_unless (not inc) (state_of macros (cond_of CondContext.in_else inc ∷ conds)) q))
          (skip_line-at_bol s bol)
      ∙ ap moved (
          skip_unless-ok (not inc) (state_of macros (cond_of CondContext.in_else inc ∷ conds)) s r
            e)
