-- ===== src/Preprocess/Loop/Handlers.antt =====
-- preprocess.c: what the loop does at a line with a directive of conditional inclusion, a
-- definition or `#undef`.
use chibicc.Common.{
  ◌≡◌, ◌∙◌, refl, ap, arith, ℕ, Bool, true, false, not, ◌&&◌, ◌||◌, none, List, [], ◌∷◌, map,
  if◌then◌else◌,
}
use chibicc.HashMap.{same_key}
use chibicc.Tokenize.Result.{Result, ok, ◌>>=◌}
use chibicc.Preprocess.Names.{endif_name, define_name, undef_name}
use chibicc.Preprocess.Stream.{
  Tok, Stream, end, ◌◂◌, head, size, starts, skip_line, copy_line, new_eof, put_list,
}
use chibicc.Preprocess.Tree.{word_token, hash_token, within_line}
use chibicc.Preprocess.Skip.{skip_cond_incl}
use chibicc.Preprocess.Macro.{
  Macros, open_paren, find_macro, add_macro, undef_macro, read_macro_definition,
}
use chibicc.Preprocess.State.{State, CondIncl, CondContext, Preprocessor}
use chibicc.Preprocess.Directive.{
  Eval, Step, again, moved, run_directive, read_ifdef, skip_unless, include_if, enter,
}
use chibicc.Preprocess.Loop.{Parts, step}
use chibicc.Preprocess.Loop.Select.{objlike, is_defined, ends_name}

abbrev pub state_of : Macros → List CondIncl → State
state_of macros conds = record { macros = macros; cond_incl = conds }

-- The loop goes on at the stream, in the state.
abbrev pub goes_to : State → Stream → Step
goes_to st s = again (record { rest = s; behind = size s; state = st })

pub step-directive :
    (parts : Parts) (eval : Eval) (pre : Preprocessor) (st : State) (name : List ℕ) (s : Stream)
    → step parts eval pre st hash_token (word_token name ◂ s)
      ≡ run_directive eval parts.others st (word_token name) s
unfolding step same_key
step-directive parts eval pre st name s = refl

pub skip_line-at_bol : (s : Stream) → (head s).at_bol ≡ true → skip_line s ≡ s
unfolding skip_line
skip_line-at_bol s e = rw e refl

abbrev pub cond_of : CondContext → Bool → CondIncl
cond_of ctx included = record { ctx = ctx; included = included }

copy_line-put_list :
    (ts : List Tok) (s : Stream)
    → (head s).at_bol ≡ true
    → copy_line (put_list (map within_line ts) s)
      ≡ ok (put_list (map within_line ts) (new_eof (head s)), s)
unfolding copy_line
copy_line-put_list [] (end t) e = rw e refl
copy_line-put_list [] (t ◂ s) e = rw e refl
copy_line-put_list (t ∷ ts) s e = rw (copy_line-put_list ts s e) refl

abbrev defined_objlike : Macros → List ℕ → Stream × Stream → Result (Macros × Stream)
defined_objlike macros m r =
    add_macro macros (record {
      name = m;
      is_objlike = true;
      params = [];
      va_args_name = none;
      body = r.0;
      handler = none;
    })
    >>= (λ (added : Macros). ok (added, r.1))

read_macro_definition-word :
    (macros : Macros) (m : List ℕ) (s : Stream)
    → ((head s).has_space || not (starts s open_paren)) ≡ true
    → read_macro_definition macros (word_token m ◂ s) ≡ copy_line s >>= defined_objlike macros m
unfolding read_macro_definition
read_macro_definition-word macros m s e =
    let q : (not (head s).has_space && starts s open_paren) ≡ false = ground arith in rw q refl

spaced_name :
    (body : List Tok) (s : Stream)
    → ends_name body s ≡ true
    → (let r = put_list (map within_line body) s in (head r).has_space || not (starts r open_paren))
      ≡ true
spaced_name [] s e = e
spaced_name (t ∷ body) s e = refl

module _ (parts : Parts) (eval : Eval) (pre : Preprocessor) (macros : Macros)
    (conds : List CondIncl) (s : Stream) (bol : (head s).at_bol ≡ true) where
  pub step-endif :
      (ci : CondIncl)
      → step parts eval pre (state_of macros (ci ∷ conds)) hash_token (word_token endif_name ◂ s)
        ≡ ok (goes_to (state_of macros conds) s)
  unfolding run_directive same_key
  step-endif ci =
      step-directive parts eval pre (state_of macros (ci ∷ conds)) endif_name s
      ∙ rw (skip_line-at_bol s bol) refl

  pub step-undef :
      (m : List ℕ) (left : Macros)
      → undef_macro macros m ≡ ok left
      → step parts eval pre
          (state_of macros conds)
          hash_token
          (word_token undef_name ◂ word_token m ◂ s)
        ≡ ok (goes_to (state_of left conds) s)
  unfolding run_directive same_key
  step-undef m left e =
      step-directive parts eval pre (state_of macros conds) undef_name (word_token m ◂ s)
      ∙ rw (e, skip_line-at_bol s bol) refl

  -- A definition of an object-like macro.
  pub step-define :
      (m : List ℕ) (body : List Tok) (added : Macros)
      → ends_name body s ≡ true
      → add_macro macros (objlike m body s) ≡ ok added
      → step parts eval pre
          (state_of macros conds)
          hash_token
          (word_token define_name ◂ word_token m ◂ put_list (map within_line body) s)
        ≡ ok (goes_to (state_of added conds) s)
  unfolding run_directive same_key step
  step-define m body added e h =
      ap
        (λ (r : Result (Macros × Stream)).
          moved (r >>= (λ (x : Macros × Stream). ok (state_of x.0 conds, x.1))))
        (read_macro_definition-word macros m (put_list (map within_line body) s)
            (spaced_name body s e)
          ∙ ap (λ (r : Result (Stream × Stream)). r >>= defined_objlike macros m)
              (copy_line-put_list body s bol)
          ∙ ap (λ (r : Result Macros). r >>= (λ (x : Macros). ok (x, s))) h)

  pub read_ifdef-word :
      (name x : List ℕ)
      → read_ifdef (state_of macros conds) (word_token name ◂ word_token x ◂ s)
        ≡ ok (is_defined macros x, s)
  unfolding read_ifdef find_macro
  read_ifdef-word name x = ap (λ r. ok (is_defined macros x, r)) (skip_line-at_bol s bol)

pub skip_unless-ok :
    (b : Bool) (st : State) (s r : Stream)
    → (if b then ok s else skip_cond_incl s) ≡ ok r
    → skip_unless b st s ≡ ok (st, r)
skip_unless-ok true st s r e = ap (λ q. q >>= (λ s1. ok (st, s1))) e
skip_unless-ok false st s r e = ap (λ q. q >>= (λ s1. ok (st, s1))) e

-- A group that has had no `#else`.
abbrev pub IsOpen : CondContext → Type 0
IsOpen CondContext.in_else = ⊥
IsOpen _ = Unit

pub enter-IsOpen :
    (ctx ctx' : CondContext) (inc : Bool) (macros : Macros) (conds : List CondIncl)
    → IsOpen ctx
    → enter ctx' (state_of macros (cond_of ctx inc ∷ conds))
      ≡ ok (cond_of ctx inc, state_of macros (cond_of ctx' inc ∷ conds))
enter-IsOpen CondContext.in_then ctx' inc macros conds o = refl
enter-IsOpen CondContext.in_elif ctx' inc macros conds o = refl
enter-IsOpen CondContext.in_else ctx' inc macros conds o = absurd o

pub include_if-ok :
    (inc b : Bool) (macros : Macros) (conds : List CondIncl) (s r : Stream)
    → (if not inc && b then ok s else skip_cond_incl s) ≡ ok r
    → include_if (not inc && b) (state_of macros (cond_of CondContext.in_elif inc ∷ conds)) s
      ≡ ok (state_of macros (cond_of CondContext.in_elif (inc || b) ∷ conds), r)
include_if-ok true b macros conds s r e =
    ap (λ q. q >>= (λ s1. ok (state_of macros (cond_of CondContext.in_elif true ∷ conds), s1))) e
include_if-ok false true macros conds s r e =
    ap (λ q. q >>= (λ s1. ok (state_of macros (cond_of CondContext.in_elif true ∷ conds), s1))) e
include_if-ok false false macros conds s r e =
    ap (λ q. q >>= (λ s1. ok (state_of macros (cond_of CondContext.in_elif false ∷ conds), s1))) e
