-- ===== src/Preprocess/Loop/Closed.antt =====
-- preprocess.c: the rest of a group, a part of which has been included.
use chibicc.Common.{◌≡◌, refl, arith, ℕ, true, List, [], ◌∷◌, map}
use chibicc.Preprocess.Names.{elif_name, elifdef_name, elifndef_name, endif_name, else_name}
use chibicc.Preprocess.Stream.{Stream, ◌◂◌, head, put_list}
use chibicc.Preprocess.Tree.{
  Branches, endif, else_, elif, defined, undefined, expression, within_line, word_token, hash_token,
  directive, emit, emit_branches, ordinary, ordinary_branches,
}
use chibicc.Preprocess.Skip.Nested.{both}
use chibicc.Preprocess.Tree.Size.{size-put_list, size-emit}
use chibicc.Preprocess.Skip.Branch.{skip-emit}
use chibicc.Preprocess.Macro.{Macros}
use chibicc.Preprocess.State.{State, CondIncl, CondContext}
use chibicc.Preprocess.Loop.{Parts}
use chibicc.Preprocess.Loop.Handlers.{state_of, cond_of, IsOpen, step-endif}
use chibicc.Preprocess.Loop.Openers.{step-else}
use chibicc.Preprocess.Loop.Elifs.{step-elifdef, step-elifndef, step-elif_skipped}
use chibicc.Preprocess.Loop.Gives.{inner_of, eval_of, Gives, again-Gives}
use chibicc.Preprocess.Loop.Branches.{emit-bol, branches-bol, branches-Leads, skip-part, skip-elif}

-- The rest of a group, a part of which has been included, is skipped to what follows the group.
pub closed-Gives :
    (parts : Parts) (rounds : ℕ) (bs : Branches) (ctx : CondContext) (macros : Macros)
    (conds : List CondIncl) (s o : Stream) (st' : State)
    → IsOpen ctx
    → ordinary_branches bs ≡ true
    → (head s).at_bol ≡ true
    → Gives parts rounds (state_of macros conds) s o st'
    → Gives parts rounds (state_of macros (cond_of ctx true ∷ conds)) (emit_branches bs s) o st'
unfolding emit ordinary
closed-Gives parts rounds endif ctx macros conds s o st' p q bol g =
    again-Gives parts rounds hash_token (word_token endif_name ◂ s) s o
      (state_of macros (cond_of ctx true ∷ conds)) (state_of macros conds) st' (omega arith)
      (λ fuel h.
        step-endif parts (eval_of parts fuel) (inner_of parts fuel) macros conds s bol
          (cond_of ctx true))
      g
closed-Gives parts rounds (else_ x) ctx macros conds s o st' p q bol g =
    let rest = emit x (directive endif_name [] s) in
    again-Gives parts rounds hash_token (word_token else_name ◂ rest) (directive endif_name [] s) o
      (state_of macros (cond_of ctx true ∷ conds))
      (state_of macros (cond_of CondContext.in_else true ∷ conds)) st'
      (omega (arith, size-emit x (directive endif_name [] s)))
      (λ fuel h.
        step-else parts (eval_of parts fuel) (inner_of parts fuel) macros conds rest
          (directive endif_name [] s) (emit-bol x (directive endif_name [] s) refl) ctx true p
          (skip-part x endif s q))
      (again-Gives parts rounds hash_token (word_token endif_name ◂ s) s o
        (state_of macros (cond_of CondContext.in_else true ∷ conds)) (state_of macros conds) st'
        (omega arith)
        (λ fuel h.
          step-endif parts (eval_of parts fuel) (inner_of parts fuel) macros conds s bol
            (cond_of CondContext.in_else true))
        g)
closed-Gives parts rounds (elif (defined x) y bs) ctx macros conds s o st' p q bol g =
    let q' = both (ordinary y) (ordinary_branches bs) q in
    let rest = emit y (emit_branches bs s) in
    again-Gives parts rounds hash_token (word_token elifdef_name ◂ word_token x ◂ rest)
      (emit_branches bs s) o (state_of macros (cond_of ctx true ∷ conds))
      (state_of macros (cond_of CondContext.in_elif true ∷ conds)) st'
      (omega (arith, size-emit y (emit_branches bs s)))
      (λ fuel h.
        step-elifdef parts (eval_of parts fuel) (inner_of parts fuel) macros conds rest
          (emit_branches bs s) (emit-bol y (emit_branches bs s) (branches-bol bs s)) x ctx true p
          (skip-part y bs s q'.0))
      (closed-Gives parts rounds bs CondContext.in_elif macros conds s o st' tt q'.1 bol g)
closed-Gives parts rounds (elif (undefined x) y bs) ctx macros conds s o st' p q bol g =
    let q' = both (ordinary y) (ordinary_branches bs) q in
    let rest = emit y (emit_branches bs s) in
    again-Gives parts rounds hash_token (word_token elifndef_name ◂ word_token x ◂ rest)
      (emit_branches bs s) o (state_of macros (cond_of ctx true ∷ conds))
      (state_of macros (cond_of CondContext.in_elif true ∷ conds)) st'
      (omega (arith, size-emit y (emit_branches bs s)))
      (λ fuel h.
        step-elifndef parts (eval_of parts fuel) (inner_of parts fuel) macros conds rest
          (emit_branches bs s) (emit-bol y (emit_branches bs s) (branches-bol bs s)) x ctx true p
          (skip-part y bs s q'.0))
      (closed-Gives parts rounds bs CondContext.in_elif macros conds s o st' tt q'.1 bol g)
closed-Gives parts rounds (elif (expression e) y bs) ctx macros conds s o st' p q bol g =
    let q' = both (ordinary y) (ordinary_branches bs) q in
    let rest = emit y (emit_branches bs s) in
    again-Gives parts rounds hash_token (word_token elif_name ◂ put_list (map within_line e) rest)
      (emit_branches bs s) o (state_of macros (cond_of ctx true ∷ conds))
      (state_of macros (cond_of CondContext.in_elif true ∷ conds)) st'
      (omega (arith, size-put_list e rest, size-emit y (emit_branches bs s)))
      (λ fuel h.
        step-elif_skipped parts (eval_of parts fuel) (inner_of parts fuel) macros conds rest
          (emit_branches bs s) (emit-bol y (emit_branches bs s) (branches-bol bs s))
          (put_list (map within_line e) rest) ctx p
          (skip-elif e rest (emit_branches bs s)
            (skip-emit y (emit_branches bs s) (emit_branches bs s) q'.0 (branches-Leads bs s))))
      (closed-Gives parts rounds bs CondContext.in_elif macros conds s o st' tt q'.1 bol g)
