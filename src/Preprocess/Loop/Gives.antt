-- ===== src/Preprocess/Loop/Gives.antt =====
-- preprocess.c: rounds of preprocess2, with the fuel that they need.
use chibicc.Common.{
  ◌≡◌, refl, arith, ℕ, zero, suc, ◌+◌, ◌≤◌, Bool, true, false, ◌||◌, Option, List, [], ◌∷◌, map,
  min,
}
use chibicc.Tokenize.Result.{ok}
use chibicc.Preprocess.Stream.{Tok, Stream, ◌◂◌, head, size, equal, is_hash, put_list}
use chibicc.Preprocess.Tree.{within_line, word_token}
use chibicc.Preprocess.Skip.Nested.{both}
use chibicc.Preprocess.Macro.{Macros}
use chibicc.Preprocess.State.{State, CondIncl, Preprocessor}
use chibicc.Preprocess.Const.{eval_const_expr}
use chibicc.Preprocess.Directive.{Eval, pass}
use chibicc.Preprocess.Loop.{Parts, pass_on, pragma_word, ms_pragma_word, step, preprocess_loop}
use chibicc.Preprocess.Loop.Macros.{is_left, expand_left}
use chibicc.Preprocess.Loop.Select.{Value, is_quiet, all_quiet}
use chibicc.Preprocess.Loop.Handlers.{state_of, goes_to}

-- `preprocess2` and `eval_const_expr`, as a round with the fuel calls them.
abbrev pub inner_of : Parts → ℕ → Preprocessor
inner_of parts fuel st s = preprocess_loop parts fuel (size s) st s

abbrev pub eval_of : Parts → ℕ → Eval
eval_of parts fuel = eval_const_expr parts.evaluator (inner_of parts fuel) fuel

-- `value` is what the evaluation of an expression's line gives, with `rounds` of fuel or more.
abbrev pub Agrees : Parts → Value → ℕ → Type 0
Agrees parts value rounds =
    (fuel : ℕ) (macros : Macros) (conds : List CondIncl) (name : List ℕ) (e : List Tok) (b : Bool)
    (s : Stream)
    → rounds ≤ fuel
    → (head s).at_bol ≡ true
    → value macros e ≡ ok b
    → eval_of parts fuel (state_of macros conds) (word_token name ◂ put_list (map within_line e) s)
      ≡ ok (b, s, state_of macros conds)

-- The loop gives the tokens, when it has a round for every token and those for an expression.
abbrev pub Gives : Parts → ℕ → State → Stream → Stream → State → Type 0
Gives parts rounds st s o st' =
    (fuel n : ℕ)
    → rounds + size s ≤ fuel
    → (own : Option (ℕ × ℕ)) × (preprocess_loop parts fuel n st s
        ≡ ok (record { out = o; own = own; state = st' }))

pub again-Gives :
    (parts : Parts) (rounds : ℕ) (t : Tok) (s r o : Stream) (st st1 st' : State)
    → size r ≤ size s
    → ((fuel : ℕ)
        → rounds ≤ fuel
        → step parts (eval_of parts fuel) (inner_of parts fuel) st t s ≡ ok (goes_to st1 r))
    → Gives parts rounds st1 r o st'
    → Gives parts rounds st (t ◂ s) o st'
unfolding preprocess_loop
again-Gives parts rounds t s r o st st1 st' l h g zero n f = absurd (omega arith)
again-Gives parts rounds t s r o st st1 st' l h g (suc fuel) n f =
    rw (h fuel (omega arith)) (g fuel (min n (size r)) (omega arith))

step-quiet :
    (parts : Parts) (eval : Eval) (pre : Preprocessor) (st : State) (t : Tok) (s : Stream)
    → is_quiet st.macros t ≡ true
    → is_hash t ≡ false
    → step parts eval pre st t s ≡ ok pass
unfolding step
step-quiet parts eval pre st t s q h =
    let l : is_left st.macros t ≡ true = ground arith in
    let b : (equal t pragma_word || equal t ms_pragma_word) ≡ false = ground arith in
    rw (expand_left pre st t s l) (rw b (rw h refl))

pub pass-Gives :
    (parts : Parts) (rounds : ℕ) (t : Tok) (s o : Stream) (st st' : State)
    → is_quiet st.macros t ≡ true
    → is_hash t ≡ false
    → Gives parts rounds st s o st'
    → Gives parts rounds st (t ◂ s) (t ◂ o) st'
unfolding preprocess_loop
pass-Gives parts rounds t s o st st' q h g zero n f = absurd (omega arith)
pass-Gives parts rounds t s o st st' q h g (suc fuel) n f =
    let (own, e) = g fuel (min n (size s)) (omega arith) in
    let p = pass_on n t (size (t ◂ s)) (record { out = o; own = own; state = st' }) in
    (p.own, rw (step-quiet parts (eval_of parts fuel) (inner_of parts fuel) st t s q h) (rw e refl))

pub line-Gives :
    (parts : Parts) (rounds : ℕ) (ts : List Tok) (s o : Stream) (st st' : State)
    → all_quiet st.macros (map within_line ts) ≡ true
    → Gives parts rounds st s o st'
    → Gives parts rounds st (put_list (map within_line ts) s) (put_list (map within_line ts) o) st'
unfolding all_quiet
line-Gives parts rounds [] s o st st' q g = g
line-Gives parts rounds (t ∷ ts) s o st st' q g =
    let h =
      both (is_quiet st.macros (within_line t)) (all_quiet st.macros (map within_line ts)) q in
    pass-Gives parts rounds (within_line t) (put_list (map within_line ts) s)
      (put_list (map within_line ts) o) st st' h.0 refl
      (line-Gives parts rounds ts s o st st' h.1 g)
