-- ===== src/Preprocess/Loop/Groups.antt =====
-- preprocess.c: preprocess2 on texts with conditional groups.
use chibicc.Common.{
  ◌≡◌, refl, sym, ap, arith, ℕ, Bool, true, false, none, List, [], ◌∷◌, ◌++◌, map, if◌then◌else◌,
}
use chibicc.Tokenize.Result.{Result, ok, failed, overrun, out_of_fuel, ◌>>=◌, ok_inj, bind-ok_inv}
use chibicc.Preprocess.Names.{endif_name, else_name, define_name, undef_name}
use chibicc.Preprocess.Stream.{Tok, Stream, ◌◂◌, head, put_list, put_list-append}
use chibicc.Preprocess.Tree.{
  Text, none, line, define_line, undef_line, group, Branches, endif, else_, elif, Cond,
  first_of_line, within_line, word_token, hash_token, directive, emit_if, emit_elif, emit,
  emit_branches, ordinary, ordinary_branches,
}
use chibicc.Preprocess.Skip.Nested.{first-hash, group-ordinary, both}
use chibicc.Preprocess.Tree.Size.{size-put_list, size-emit}
use chibicc.Preprocess.Macro.{Macros, add_macro, undef_macro}
use chibicc.Preprocess.State.{State, CondIncl, CondContext}
use chibicc.Preprocess.Loop.{Parts}
use chibicc.Preprocess.Loop.Select.{
  Value, Selected, is_quiet, all_quiet, holds, ends_name, objlike, select, select_branches,
}
use chibicc.Preprocess.Loop.Handlers.{
  state_of, cond_of, IsOpen, step-endif, step-undef, step-define,
}
use chibicc.Preprocess.Loop.Openers.{step-else}
use chibicc.Preprocess.Loop.Gives.{
  inner_of, eval_of, Agrees, Gives, again-Gives, pass-Gives, line-Gives,
}
use chibicc.Preprocess.Loop.Branches.{emit-bol, branches-bol, skip-part, if-Gives, elif-Gives}
use chibicc.Preprocess.Loop.Closed.{closed-Gives}

if-ok_inv {ℓ} :
    {X : Type ℓ} (b : Bool) (r : Result X) {v : X}
    → (if b then r else failed) ≡ ok v
    → (b ≡ true) × (r ≡ ok v)
if-ok_inv true r e = (refl, e)
if-ok_inv false r e = absurd cc

abbrev put_before : List Tok → Macros × List Tok → Selected
put_before ws v = ok (v.0, ws ++ v.1)

line-ok_inv :
    (r : Selected) (ws : List Tok) (macros : Macros) (ts : List Tok)
    → r >>= put_before ws ≡ ok (macros, ts)
    → (us : List Tok) × (r ≡ ok (macros, us)) × (ts ≡ ws ++ us)
line-ok_inv failed ws macros ts e = absurd cc
line-ok_inv overrun ws macros ts e = absurd cc
line-ok_inv out_of_fuel ws macros ts e = absurd cc
line-ok_inv (ok (m, us)) ws macros ts e =
    let p : (m, ws ++ us) ≡ (macros, ts) = ok_inj e in
    (us, ap (λ (v : Macros × List Tok). ok (v.0, us)) p, sym (ap (λ v. v.1) p))

module _ (parts : Parts) (value : Value) (rounds : ℕ) (agrees : Agrees parts value rounds) where
  -- A group whose condition is `b`, with what its parts give.
  group-part :
      (c : Cond) (b : Bool) (x : Text) (bs : Branches) (macros macros' : Macros) (ts : List Tok)
      (conds : List CondIncl) (s o : Stream) (st' : State)
      → ordinary x ≡ true
      → holds value macros c ≡ ok b
      → (if b
          then select value macros x (emit_branches bs s)
          else select_branches value macros bs s)
        ≡ ok (macros', ts)
      → (select value macros x (emit_branches bs s) ≡ ok (macros', ts)
          → Gives parts rounds
              (state_of macros (cond_of CondContext.in_then true ∷ conds))
              (emit x (emit_branches bs s))
              o
              st')
      → (select_branches value macros bs s ≡ ok (macros', ts)
          → Gives parts rounds
              (state_of macros (cond_of CondContext.in_then false ∷ conds))
              (emit_branches bs s)
              o
              st')
      → Gives parts rounds (state_of macros conds) (emit_if c (emit x (emit_branches bs s))) o st'
  group-part c true x bs macros macros' ts conds s o st' q h e taken missed =
      let rest = emit x (emit_branches bs s) in
      if-Gives parts value rounds agrees c true macros conds rest rest o st' h
        (emit-bol x (emit_branches bs s) (branches-bol bs s)) (omega arith) refl (taken e)
  group-part c false x bs macros macros' ts conds s o st' q h e taken missed =
      if-Gives parts value rounds agrees c false macros conds (emit x (emit_branches bs s))
        (emit_branches bs s) o st' h (emit-bol x (emit_branches bs s) (branches-bol bs s))
        (size-emit x (emit_branches bs s)) (skip-part x bs s q) (missed e)

  elif-part :
      (c : Cond) (b : Bool) (x : Text) (bs : Branches) (ctx : CondContext) (macros macros' : Macros)
      (ts : List Tok) (conds : List CondIncl) (s o : Stream) (st' : State)
      → IsOpen ctx
      → ordinary x ≡ true
      → holds value macros c ≡ ok b
      → (if b
          then select value macros x (emit_branches bs s)
          else select_branches value macros bs s)
        ≡ ok (macros', ts)
      → (select value macros x (emit_branches bs s) ≡ ok (macros', ts)
          → Gives parts rounds
              (state_of macros (cond_of CondContext.in_elif true ∷ conds))
              (emit x (emit_branches bs s))
              o
              st')
      → (select_branches value macros bs s ≡ ok (macros', ts)
          → Gives parts rounds
              (state_of macros (cond_of CondContext.in_elif false ∷ conds))
              (emit_branches bs s)
              o
              st')
      → Gives parts rounds
          (state_of macros (cond_of ctx false ∷ conds))
          (emit_elif c (emit x (emit_branches bs s)))
          o
          st'
  elif-part c true x bs ctx macros macros' ts conds s o st' p q h e taken missed =
      let rest = emit x (emit_branches bs s) in
      elif-Gives parts value rounds agrees c true ctx macros conds rest rest o st' h p
        (emit-bol x (emit_branches bs s) (branches-bol bs s)) (omega arith) refl (taken e)
  elif-part c false x bs ctx macros macros' ts conds s o st' p q h e taken missed =
      elif-Gives parts value rounds agrees c false ctx macros conds (emit x (emit_branches bs s))
        (emit_branches bs s) o st' h p (emit-bol x (emit_branches bs s) (branches-bol bs s))
        (size-emit x (emit_branches bs s)) (skip-part x bs s q) (missed e)

  mutual
    unfolding emit ordinary select

    -- The lines of a text that are selected are given, and then what the rest gives with the macros
    -- that there are.
    pub emit-Gives :
        (x : Text) (macros macros' : Macros) (ts : List Tok) (conds : List CondIncl) (s o : Stream)
        (st' : State)
        → ordinary x ≡ true
        → (head s).at_bol ≡ true
        → select value macros x s ≡ ok (macros', ts)
        → Gives parts rounds (state_of macros' conds) s o st'
        → Gives parts rounds (state_of macros conds) (emit x s) (put_list ts o) st'
    emit-Gives none macros macros' ts conds s o st' q bol e g =
        let p : (macros, []) ≡ (macros', ts) = ok_inj e in
        let a : macros ≡ macros' = ap (λ v. v.0) p in
        let b : [] ≡ ts = ap (λ v. v.1) p in rw (a, sym b) g
    emit-Gives (line t us x) macros macros' ts conds s o st' q bol e g =
        let h = first-hash t (ordinary x) q in
        let ws = first_of_line t ∷ map within_line us in
        let (quiet, e1) = if-ok_inv (all_quiet macros ws) _ e in
        let (ts1, e2, b) = line-ok_inv (select value macros x s) ws macros' ts e1 in
        let w =
          both (is_quiet macros (first_of_line t)) (all_quiet macros (map within_line us)) quiet in
        rw b (
          rw (put_list-append ws ts1 o) (
            pass-Gives parts rounds (first_of_line t) (put_list (map within_line us) (emit x s))
              (put_list (map within_line us) (put_list ts1 o)) (state_of macros conds) st' w.0 h.0
              (line-Gives parts rounds us (emit x s) (put_list ts1 o) (state_of macros conds) st'
                w.1 (emit-Gives x macros macros' ts1 conds s o st' h.1 bol e2 g))))
    emit-Gives (define_line m body x) macros macros' ts conds s o st' q bol e g =
        let (n, e1) = if-ok_inv (ends_name body (emit x s)) _ e in
        let (macros1, e2, e3) = bind-ok_inv (add_macro macros (objlike m body (emit x s))) _ e1 in
        again-Gives parts rounds hash_token
          (word_token define_name ◂ word_token m ◂ put_list (map within_line body) (emit x s))
          (emit x s) (put_list ts o) (state_of macros conds) (state_of macros1 conds) st'
          (omega (arith, size-put_list body (emit x s)))
          (λ fuel h.
            step-define parts (eval_of parts fuel) (inner_of parts fuel) macros conds (emit x s)
              (emit-bol x s bol) m body macros1 n e2)
          (emit-Gives x macros1 macros' ts conds s o st' q bol e3 g)
    emit-Gives (undef_line m x) macros macros' ts conds s o st' q bol e g =
        let (left, e1, e2) = bind-ok_inv (undef_macro macros m) _ e in
        again-Gives parts rounds hash_token (word_token undef_name ◂ word_token m ◂ emit x s)
          (emit x s) (put_list ts o) (state_of macros conds) (state_of left conds) st' (omega arith)
          (λ fuel h.
            step-undef parts (eval_of parts fuel) (inner_of parts fuel) macros conds (emit x s)
              (emit-bol x s bol) m left e1)
          (emit-Gives x left macros' ts conds s o st' q bol e2 g)
    emit-Gives (group c x bs y) macros macros' ts conds s o st' q bol e g =
        let w = group-ordinary (ordinary x) (ordinary_branches bs) (ordinary y) q in
        let (b, e1, e2) = bind-ok_inv (holds value macros c) _ e in
        let behind = emit_branches bs (emit y s) in
        let ((m1, ts1), e3, e4) =
          bind-ok_inv
            (if b then select value macros x behind else select_branches value macros bs (emit y s))
            _ e2 in
        let (ts2, e5, t) = line-ok_inv (select value m1 y s) ts1 macros' ts e4 in
        let last = emit-Gives y m1 macros' ts2 conds s o st' w.2 bol e5 g in
        rw t (
          rw (put_list-append ts1 ts2 o) (
            group-part c b x bs macros m1 ts1 conds (emit y s) (put_list ts1 (put_list ts2 o)) st'
              w.0 e1 e3
              (λ k.
                emit-Gives x macros m1 ts1 (cond_of CondContext.in_then true ∷ conds) behind
                  (put_list ts2 o) st' w.0 (branches-bol bs (emit y s)) k
                  (closed-Gives parts rounds bs CondContext.in_then m1 conds (emit y s)
                    (put_list ts2 o) st' tt w.1 (emit-bol y s bol) last))
              (λ k.
                branches-Gives bs CondContext.in_then macros m1 ts1 conds (emit y s)
                  (put_list ts2 o) st' tt w.1 (emit-bol y s bol) k last)))

    -- The branches of a group, of which no part has been included.
    branches-Gives :
        (bs : Branches) (ctx : CondContext) (macros macros' : Macros) (ts : List Tok)
        (conds : List CondIncl) (s o : Stream) (st' : State)
        → IsOpen ctx
        → ordinary_branches bs ≡ true
        → (head s).at_bol ≡ true
        → select_branches value macros bs s ≡ ok (macros', ts)
        → Gives parts rounds (state_of macros' conds) s o st'
        → Gives parts rounds
            (state_of macros (cond_of ctx false ∷ conds))
            (emit_branches bs s)
            (put_list ts o)
            st'
    branches-Gives endif ctx macros macros' ts conds s o st' p q bol e g =
        let v : (macros, []) ≡ (macros', ts) = ok_inj e in
        let a : macros ≡ macros' = ap (λ v. v.0) v in
        let b : [] ≡ ts = ap (λ v. v.1) v in
        rw (sym b) (
          again-Gives parts rounds hash_token (word_token endif_name ◂ s) s o
            (state_of macros (cond_of ctx false ∷ conds)) (state_of macros conds) st' (omega arith)
            (λ fuel h.
              step-endif parts (eval_of parts fuel) (inner_of parts fuel) macros conds s bol
                (cond_of ctx false))
            (rw a g))
    branches-Gives (else_ x) ctx macros macros' ts conds s o st' p q bol e g =
        let last = directive endif_name [] s in
        let rest = emit x last in
        again-Gives parts rounds hash_token (word_token else_name ◂ rest) rest (put_list ts o)
          (state_of macros (cond_of ctx false ∷ conds))
          (state_of macros (cond_of CondContext.in_else false ∷ conds)) st' (omega arith)
          (λ fuel h.
            step-else parts (eval_of parts fuel) (inner_of parts fuel) macros conds rest rest
              (emit-bol x last refl) ctx false p refl)
          (emit-Gives x macros macros' ts (cond_of CondContext.in_else false ∷ conds) last o st' q
            refl e
            (again-Gives parts rounds hash_token (word_token endif_name ◂ s) s o
              (state_of macros' (cond_of CondContext.in_else false ∷ conds))
              (state_of macros' conds) st' (omega arith)
              (λ fuel h.
                step-endif parts (eval_of parts fuel) (inner_of parts fuel) macros' conds s bol
                  (cond_of CondContext.in_else false))
              g))
    branches-Gives (elif c x bs) ctx macros macros' ts conds s o st' p q bol e g =
        let w = both (ordinary x) (ordinary_branches bs) q in
        let (b, e1, e2) = bind-ok_inv (holds value macros c) _ e in
        elif-part c b x bs ctx macros macros' ts conds s (put_list ts o) st' p w.0 e1 e2
          (λ k.
            emit-Gives x macros macros' ts (cond_of CondContext.in_elif true ∷ conds)
              (emit_branches bs s) o st' w.0 (branches-bol bs s) k
              (closed-Gives parts rounds bs CondContext.in_elif macros' conds s o st' tt w.1 bol g))
          (λ k.
            branches-Gives bs CondContext.in_elif macros macros' ts conds s o st' tt w.1 bol k g)
