-- ===== src/Preprocess/Loop/Branches.antt =====
-- preprocess.c: the lines that open a conditional group or a branch of one.
use chibicc.Common.{
  ◌≡◌, refl, arith, ℕ, ◌≤◌, Bool, true, false, not, none, List, [], ◌∷◌, map, if◌then◌else◌,
}
use chibicc.HashMap.{same_key}
use chibicc.Tokenize.Result.{ok, ok_inj}
use chibicc.Preprocess.Names.{
  if_name, ifdef_name, ifndef_name, elif_name, elifdef_name, elifndef_name, endif_name, else_name,
}
use chibicc.Preprocess.Stream.{Tok, Stream, ◌◂◌, head, size, put_list}
use chibicc.Preprocess.Tree.{
  Text, none, line, define_line, undef_line, group, Branches, endif, else_, elif, Cond, defined,
  undefined, expression, within_line, word_token, hash_token, directive, emit_if, emit_elif, emit,
  emit_branches, ordinary,
}
use chibicc.Preprocess.Skip.{skip_loop, skip_cond_incl}
use chibicc.Preprocess.Skip.Nested.{Leads, skip-Passes, line-Passes}
use chibicc.Preprocess.Tree.Size.{size-put_list}
use chibicc.Preprocess.Skip.Branch.{skip-emit, skip-branch}
use chibicc.Preprocess.Macro.{Macros}
use chibicc.Preprocess.State.{State, CondIncl, CondContext}
use chibicc.Preprocess.Loop.{Parts}
use chibicc.Preprocess.Loop.Select.{Value, holds, is_defined}
use chibicc.Preprocess.Loop.Handlers.{state_of, cond_of, IsOpen}
use chibicc.Preprocess.Loop.Openers.{step-ifdef, step-ifndef, step-if}
use chibicc.Preprocess.Loop.Elifs.{step-elifdef, step-elifndef, step-elif}
use chibicc.Preprocess.Loop.Gives.{inner_of, eval_of, Agrees, Gives, again-Gives}

-- A text, and what follows it, begins a line.
pub emit-bol : (x : Text) (s : Stream) → (head s).at_bol ≡ true → (head (emit x s)).at_bol ≡ true
unfolding emit
emit-bol none s h = h
emit-bol (line t ts x) s h = refl
emit-bol (define_line m body x) s h = refl
emit-bol (undef_line m x) s h = refl
emit-bol (group (defined x) y bs z) s h = refl
emit-bol (group (undefined x) y bs z) s h = refl
emit-bol (group (expression e) y bs z) s h = refl

pub if-bol : (c : Cond) (s : Stream) → (head (emit_if c s)).at_bol ≡ true
if-bol (defined x) s = refl
if-bol (undefined x) s = refl
if-bol (expression e) s = refl

pub branches-bol : (bs : Branches) (s : Stream) → (head (emit_branches bs s)).at_bol ≡ true
unfolding emit
branches-bol endif s = refl
branches-bol (else_ x) s = refl
branches-bol (elif (defined x) y bs) s = refl
branches-bol (elif (undefined x) y bs) s = refl
branches-bol (elif (expression e) y bs) s = refl

pub branches-Leads :
    (bs : Branches) (s : Stream) → Leads skip_loop (emit_branches bs s) (emit_branches bs s)
unfolding emit same_key
branches-Leads endif s = skip-branch (word_token endif_name ◂ s) refl
branches-Leads (else_ x) s =
    skip-branch (word_token else_name ◂ emit x (directive endif_name [] s)) refl
branches-Leads (elif (defined x) y bs) s =
    skip-branch (word_token elifdef_name ◂ word_token x ◂ emit y (emit_branches bs s)) refl
branches-Leads (elif (undefined x) y bs) s =
    skip-branch (word_token elifndef_name ◂ word_token x ◂ emit y (emit_branches bs s)) refl
branches-Leads (elif (expression e) y bs) s =
    skip-branch (word_token elif_name ◂ put_list (map within_line e) (emit y (emit_branches bs s)))
      refl

Leads-skip : (s r : Stream) → Leads skip_loop s r → skip_cond_incl s ≡ ok r
unfolding skip_cond_incl
Leads-skip s r h = h (size s) (omega arith)

pub skip-part :
    (x : Text) (bs : Branches) (s : Stream)
    → ordinary x ≡ true
    → skip_cond_incl (emit x (emit_branches bs s)) ≡ ok (emit_branches bs s)
skip-part x bs s o =
    Leads-skip (emit x (emit_branches bs s)) (emit_branches bs s)
      (skip-emit x (emit_branches bs s) (emit_branches bs s) o (branches-Leads bs s))

pub skip-elif :
    (e : List Tok) (s r : Stream)
    → Leads skip_loop s r
    → skip_cond_incl (word_token elif_name ◂ put_list (map within_line e) s) ≡ ok r
skip-elif e s r h = Leads-skip (word_token elif_name ◂ put_list (map within_line e) s) r (
    skip-Passes (word_token elif_name) (put_list (map within_line e) s) r refl
      (line-Passes skip_loop skip-Passes e s r h))

module _ (parts : Parts) (value : Value) (rounds : ℕ) (agrees : Agrees parts value rounds) where
  -- The line that opens a group, before `s`, which goes on at `r`.
  pub if-Gives :
      (c : Cond) (b : Bool) (macros : Macros) (conds : List CondIncl) (s r o : Stream) (st' : State)
      → holds value macros c ≡ ok b
      → (head s).at_bol ≡ true
      → size r ≤ size s
      → (if b then ok s else skip_cond_incl s) ≡ ok r
      → Gives parts rounds (state_of macros (cond_of CondContext.in_then b ∷ conds)) r o st'
      → Gives parts rounds (state_of macros conds) (emit_if c s) o st'
  if-Gives (defined x) b macros conds s r o st' e bol l k g =
      let q : is_defined macros x ≡ b = ok_inj e in
      again-Gives parts rounds hash_token (word_token ifdef_name ◂ word_token x ◂ s) r o
        (state_of macros conds)
        (state_of macros (cond_of CondContext.in_then (is_defined macros x) ∷ conds)) st'
        (omega arith)
        (λ fuel h.
          step-ifdef parts (eval_of parts fuel) (inner_of parts fuel) macros conds s r bol x
            (rw q k))
        (rw q g)
  if-Gives (undefined x) b macros conds s r o st' e bol l k g =
      let q : not (is_defined macros x) ≡ b = ok_inj e in
      again-Gives parts rounds hash_token (word_token ifndef_name ◂ word_token x ◂ s) r o
        (state_of macros conds)
        (state_of macros (cond_of CondContext.in_then (not (is_defined macros x)) ∷ conds)) st'
        (omega arith)
        (λ fuel h.
          step-ifndef parts (eval_of parts fuel) (inner_of parts fuel) macros conds s r bol x
            (rw q k))
        (rw q g)
  if-Gives (expression e') b macros conds s r o st' e bol l k g =
      again-Gives parts rounds hash_token (word_token if_name ◂ put_list (map within_line e') s) r o
        (state_of macros conds) (state_of macros (cond_of CondContext.in_then b ∷ conds)) st'
        (omega (arith, size-put_list e' s))
        (λ fuel h.
          step-if parts (eval_of parts fuel) (inner_of parts fuel) macros conds s r bol
            (put_list (map within_line e') s) b (agrees fuel macros conds if_name e' b s h bol e) k)
        g

  -- The line of a branch, when no part has been included.
  pub elif-Gives :
      (c : Cond) (b : Bool) (ctx : CondContext) (macros : Macros) (conds : List CondIncl)
      (s r o : Stream) (st' : State)
      → holds value macros c ≡ ok b
      → IsOpen ctx
      → (head s).at_bol ≡ true
      → size r ≤ size s
      → (if b then ok s else skip_cond_incl s) ≡ ok r
      → Gives parts rounds (state_of macros (cond_of CondContext.in_elif b ∷ conds)) r o st'
      → Gives parts rounds (state_of macros (cond_of ctx false ∷ conds)) (emit_elif c s) o st'
  elif-Gives (defined x) b ctx macros conds s r o st' e p bol l k g =
      let q : is_defined macros x ≡ b = ok_inj e in
      again-Gives parts rounds hash_token (word_token elifdef_name ◂ word_token x ◂ s) r o
        (state_of macros (cond_of ctx false ∷ conds))
        (state_of macros (cond_of CondContext.in_elif (is_defined macros x) ∷ conds)) st'
        (omega arith)
        (λ fuel h.
          step-elifdef parts (eval_of parts fuel) (inner_of parts fuel) macros conds s r bol x ctx
            false p (rw q k))
        (rw q g)
  elif-Gives (undefined x) b ctx macros conds s r o st' e p bol l k g =
      let q : not (is_defined macros x) ≡ b = ok_inj e in
      again-Gives parts rounds hash_token (word_token elifndef_name ◂ word_token x ◂ s) r o
        (state_of macros (cond_of ctx false ∷ conds))
        (state_of macros (cond_of CondContext.in_elif (not (is_defined macros x)) ∷ conds)) st'
        (omega arith)
        (λ fuel h.
          step-elifndef parts (eval_of parts fuel) (inner_of parts fuel) macros conds s r bol x ctx
            false p (rw q k))
        (rw q g)
  elif-Gives (expression e') b ctx macros conds s r o st' e p bol l k g =
      again-Gives parts rounds hash_token (word_token elif_name ◂ put_list (map within_line e') s) r
        o (state_of macros (cond_of ctx false ∷ conds))
        (state_of macros (cond_of CondContext.in_elif b ∷ conds)) st'
        (omega (arith, size-put_list e' s))
        (λ fuel h.
          step-elif parts (eval_of parts fuel) (inner_of parts fuel) macros conds s r bol
            (put_list (map within_line e') s) b ctx p
            (agrees fuel macros (cond_of CondContext.in_elif false ∷ conds) elif_name e' b s h bol
              e)
            k)
        g
