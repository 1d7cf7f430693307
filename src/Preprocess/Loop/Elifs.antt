-- ===== src/Preprocess/Loop/Elifs.antt =====
-- preprocess.c: what the loop does at `#elif`, `#elifdef` and `#elifndef`.
use chibicc.Common.{◌≡◌, ◌∙◌, ap, ℕ, Bool, true, false, not, ◌&&◌, ◌||◌, List, ◌∷◌, if◌then◌else◌}
use chibicc.HashMap.{same_key}
use chibicc.Tokenize.Result.{Result, ok, ◌>>=◌}
use chibicc.Preprocess.Names.{elif_name, elifdef_name, elifndef_name}
use chibicc.Preprocess.Stream.{Stream, ◌◂◌, head}
use chibicc.Preprocess.Tree.{word_token, hash_token}
use chibicc.Preprocess.Skip.{skip_cond_incl}
use chibicc.Preprocess.Macro.{Macros, find_macro}
use chibicc.Preprocess.State.{State, CondIncl, CondContext, Preprocessor}
use chibicc.Preprocess.Directive.{Eval, moved, run_directive, read_ifdef, include_if}
use chibicc.Preprocess.Loop.{Parts, step}
use chibicc.Preprocess.Loop.Select.{is_defined}
use chibicc.Preprocess.Loop.Handlers.{
  state_of, goes_to, cond_of, IsOpen, enter-IsOpen, include_if-ok, read_ifdef-word,
}

module _ (parts : Parts) (eval : Eval) (pre : Preprocessor) (macros : Macros)
    (conds : List CondIncl) (s r : Stream) (bol : (head s).at_bol ≡ true) where
  pub step-elifdef :
      (x : List ℕ) (ctx : CondContext) (inc : Bool)
      → IsOpen ctx
      → (if not inc && is_defined macros x then ok s else skip_cond_incl s) ≡ ok r
      → step parts eval pre
          (state_of macros (cond_of ctx inc ∷ conds))
          hash_token
          (word_token elifdef_name ◂ word_token x ◂ s)
        ≡ ok (
            goes_to
              (state_of macros (cond_of CondContext.in_elif (inc || is_defined macros x) ∷ conds))
              r)
  unfolding run_directive same_key step find_macro
  step-elifdef x ctx inc o e =
      ap
        (λ (q : Result (CondIncl × State)). moved (
          q >>= (λ (v : CondIncl × State).
            read_ifdef v.1 (word_token elifdef_name ◂ word_token x ◂ s)
            >>= (λ (w : Bool × Stream). include_if (not v.0.included && w.0) v.1 w.1))))
        (enter-IsOpen ctx CondContext.in_elif inc macros conds o)
      ∙ ap
          (λ (q : Result (Bool × Stream)). moved (
            q >>= (λ (w : Bool × Stream).
              include_if (not inc && w.0)
                (state_of macros (cond_of CondContext.in_elif inc ∷ conds)) w.1)))
          (read_ifdef-word parts eval pre macros (cond_of CondContext.in_elif inc ∷ conds) s bol
            elifdef_name x)
      ∙ ap moved (include_if-ok inc (is_defined macros x) macros conds s r e)

  pub step-elifndef :
      (x : List ℕ) (ctx : CondContext) (inc : Bool)
      → IsOpen ctx
      → (if not inc && not (is_defined macros x) then ok s else skip_cond_incl s) ≡ ok r
      → step parts eval pre
          (state_of macros (cond_of ctx inc ∷ conds))
          hash_token
          (word_token elifndef_name ◂ word_token x ◂ s)
        ≡ ok (
            goes_to
              (state_of macros
                (cond_of CondContext.in_elif (inc || not (is_defined macros x)) ∷ conds))
              r)
  unfolding run_directive same_key step find_macro
  step-elifndef x ctx inc o e =
      ap
        (λ (q : Result (CondIncl × State)). moved (
          q >>= (λ (v : CondIncl × State).
            read_ifdef v.1 (word_token elifndef_name ◂ word_token x ◂ s)
            >>= (λ (w : Bool × Stream). include_if (not v.0.included && not w.0) v.1 w.1))))
        (enter-IsOpen ctx CondContext.in_elif inc macros conds o)
      ∙ ap
          (λ (q : Result (Bool × Stream)). moved (
            q >>= (λ (w : Bool × Stream).
              include_if (not inc && not w.0)
                (state_of macros (cond_of CondContext.in_elif inc ∷ conds)) w.1)))
          (read_ifdef-word parts eval pre macros (cond_of CondContext.in_elif inc ∷ conds) s bol
            elifndef_name x)
      ∙ ap moved (include_if-ok inc (not (is_defined macros x)) macros conds s r e)

  -- The expression is evaluated when no part of the group has been included.
  pub step-elif :
      (expr : Stream) (b : Bool) (ctx : CondContext)
      → IsOpen ctx
      → eval
          (state_of macros (cond_of CondContext.in_elif false ∷ conds))
          (word_token elif_name ◂ expr)
        ≡ ok (b, s, state_of macros (cond_of CondContext.in_elif false ∷ conds))
      → (if b then ok s else skip_cond_incl s) ≡ ok r
      → step parts eval pre
          (state_of macros (cond_of ctx false ∷ conds))
          hash_token
          (word_token elif_name ◂ expr)
        ≡ ok (goes_to (state_of macros (cond_of CondContext.in_elif b ∷ conds)) r)
  unfolding run_directive same_key step
  step-elif expr b ctx o v e =
      ap
        (λ (q : Result (CondIncl × State)). moved (
          q >>= (λ (v : CondIncl × State).
            (if v.0.included
              then ok (false, word_token elif_name ◂ expr, v.1)
              else eval v.1 (word_token elif_name ◂ expr))
            >>= (λ (w : Bool × Stream × State). include_if w.0 w.2 w.1))))
        (enter-IsOpen ctx CondContext.in_elif false macros conds o)
      ∙ ap
          (λ (q : Result (Bool × Stream × State)).
            moved (q >>= (λ (w : Bool × Stream × State). include_if w.0 w.2 w.1)))
          v
      ∙ ap moved (include_if-ok false b macros conds s r e)

  pub step-elif_skipped :
      (expr : Stream) (ctx : CondContext)
      → IsOpen ctx
      → skip_cond_incl (word_token elif_name ◂ expr) ≡ ok r
      → step parts eval pre
          (state_of macros (cond_of ctx true ∷ conds))
          hash_token
          (word_token elif_name ◂ expr)
        ≡ ok (goes_to (state_of macros (cond_of CondContext.in_elif true ∷ conds)) r)
  unfolding run_directive same_key step
  step-elif_skipped expr ctx o e =
      ap
        (λ (q : Result (CondIncl × State)). moved (
          q >>= (λ (v : CondIncl × State).
            (if v.0.included
              then ok (false, word_token elif_name ◂ expr, v.1)
              else eval v.1 (word_token elif_name ◂ expr))
            >>= (λ (w : Bool × Stream × State). include_if w.0 w.2 w.1))))
        (enter-IsOpen ctx CondContext.in_elif true macros conds o)
      ∙ ap moved (include_if-ok true true macros conds (word_token elif_name ◂ expr) r e)
