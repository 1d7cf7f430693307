-- ===== src/Preprocess/Loop/Texts.antt =====
-- preprocess.c: preprocess on a whole text with conditional groups.
use chibicc.Common.{◌≡◌, refl, ap, arith, ℕ, ◌+◌, ◌≤◌, Bool, true, false, none, List, [], ◌∷◌}
use chibicc.Tokenize.Result.{Result, ok, failed, ◌>>=◌}
use chibicc.Preprocess.Stream.{Tok, Stream, end, size, put_list}
use chibicc.Preprocess.Tree.{Text, Cond, emit_if, emit, ordinary}
use chibicc.Preprocess.Skip.{skip_loop, skip_cond_incl}
use chibicc.Preprocess.Skip.Nested.{Leads}
use chibicc.Preprocess.Tree.Size.{size-emit}
use chibicc.Preprocess.Skip.Branch.{skip-emit}
use chibicc.Preprocess.Macro.{Macros}
use chibicc.Preprocess.State.{State, CondContext, Preprocessed}
use chibicc.Preprocess.Loop.{Parts, preprocess_loop, preprocess}
use chibicc.Preprocess.Loop.Select.{Value, holds, select}
use chibicc.Preprocess.Loop.Handlers.{state_of, cond_of}
use chibicc.Preprocess.Loop.Gives.{Agrees, Gives}
use chibicc.Preprocess.Loop.Branches.{emit-bol, if-bol, if-Gives}
use chibicc.Preprocess.Loop.Groups.{emit-Gives}

end-Gives :
    (parts : Parts) (rounds : ℕ) (st : State) (t : Tok) → Gives parts rounds st (end t) (end t) st
unfolding preprocess_loop
end-Gives parts rounds st t fuel n h = (none, refl)

-- What is left to do when the loop has ended.
abbrev finish : Preprocessed → Result (Stream × State)
finish p = elim p.state.cond_incl [ [] ↦ ok (p.out, p.state) | ci ∷ cs ↦ failed ]

preprocess-Gives :
    (parts : Parts) (rounds fuel : ℕ) (st : State) (s o : Stream) (st' : State)
    → Gives parts rounds st s o st'
    → rounds + size s ≤ fuel
    → preprocess parts fuel st s ≡ finish (record { out = o; own = none; state = st' })
unfolding preprocess
preprocess-Gives parts rounds fuel st s o st' g h =
    let (own, e) = g fuel (size s) h in ap (λ r. r >>= finish) e

-- A text of lines, object-like definitions, `#undef`s and conditional groups, nested to any depth,
-- with `#elif`s and `#else`, is preprocessed to the lines that its conditions select, one part of a
-- group at most, with the table that the insertions and deletions of the hash map leave for the
-- selected definitions and `#undef`s, none of which fails, and no group is open at the end. The fuel
-- that is enough is a round for every token, and what an expression needs. The selected lines have no
-- token that is to be expanded and no pragma operator, the lines of the text begin no directive, and
-- no line that begins with a parenthesis follows a name without a body. `value` is what the
-- evaluation of an expression gives.
pub preprocess-select :
    (parts : Parts) (value : Value) (rounds : ℕ)
    → Agrees parts value rounds
    → (x : Text) (macros macros' : Macros) (ts : List Tok) (t : Tok) (fuel : ℕ) → ordinary x ≡ true
    → t.at_bol ≡ true
    → select value macros x (end t) ≡ ok (macros', ts)
    → rounds + size (emit x (end t)) ≤ fuel
    → preprocess parts fuel (state_of macros []) (emit x (end t))
      ≡ ok (put_list ts (end t), state_of macros' [])
preprocess-select parts value rounds agrees x macros macros' ts t fuel q bol e h =
    preprocess-Gives parts rounds fuel (state_of macros []) (emit x (end t)) (put_list ts (end t))
      (state_of macros' [])
      (emit-Gives parts value rounds agrees x macros macros' ts [] (end t) (end t)
        (state_of macros' []) q bol e (end-Gives parts rounds (state_of macros' []) t))
      h

end-Leads : (t : Tok) → Leads skip_loop (end t) (end t)
unfolding skip_loop
end-Leads t n h = refl

-- A group that has no `#endif`: what stands behind it, and its condition is `b`.
open-Gives :
    (parts : Parts) (value : Value) (rounds : ℕ) (agrees : Agrees parts value rounds) (c : Cond)
    (b : Bool) (y : Text) (macros macros' : Macros) (ts : List Tok) (t : Tok)
    → ordinary y ≡ true
    → t.at_bol ≡ true
    → holds value macros c ≡ ok b
    → select value macros y (end t) ≡ ok (macros', ts)
    → (o : Stream) × (ms : Macros) × Gives parts rounds
        (state_of macros [])
        (emit_if c (emit y (end t)))
        o
        (state_of ms (cond_of CondContext.in_then b ∷ []))
unfolding skip_cond_incl
open-Gives parts value rounds agrees c true y macros macros' ts t q bol h e =
    let conds = cond_of CondContext.in_then true ∷ [] in
    (
      put_list ts (end t),
      macros',
      if-Gives parts value rounds agrees c true macros [] (emit y (end t)) (emit y (end t))
          (put_list ts (end t)) (state_of macros' conds) h (emit-bol y (end t) bol) (omega arith)
          refl
          (emit-Gives parts value rounds agrees y macros macros' ts conds (end t) (end t)
            (state_of macros' conds) q bol e (end-Gives parts rounds (state_of macros' conds) t)),
    )
open-Gives parts value rounds agrees c false y macros macros' ts t q bol h e =
    let conds = cond_of CondContext.in_then false ∷ [] in
    (
      end t,
      macros,
      if-Gives parts value rounds agrees c false macros [] (emit y (end t)) (end t) (end t)
          (state_of macros conds) h (emit-bol y (end t) bol) (size-emit y (end t))
          (skip-emit y (end t) (end t) q (end-Leads t) (size (emit y (end t))) (omega arith))
          (end-Gives parts rounds (state_of macros conds) t),
    )

-- A text that ends in a group without `#endif`, whether the group's condition holds or not, is an
-- error.
pub preprocess-unterminated :
    (parts : Parts) (value : Value) (rounds : ℕ)
    → Agrees parts value rounds
    → (x : Text) (c : Cond) (b : Bool) (y : Text) (macros macros1 macros2 : Macros)
      (ts us : List Tok) (t : Tok) (fuel : ℕ)
    → (ordinary x ≡ true) × (ordinary y ≡ true)
    → t.at_bol ≡ true
    → select value macros x (emit_if c (emit y (end t))) ≡ ok (macros1, ts)
    → holds value macros1 c ≡ ok b
    → select value macros1 y (end t) ≡ ok (macros2, us)
    → rounds + size (emit x (emit_if c (emit y (end t)))) ≤ fuel
    → preprocess parts fuel (state_of macros []) (emit x (emit_if c (emit y (end t)))) ≡ failed
preprocess-unterminated parts value rounds agrees x c b y macros macros1 macros2 ts us t fuel q bol
      e h e' k =
    let s = emit_if c (emit y (end t)) in
    let (o, ms, g) = open-Gives parts value rounds agrees c b y macros1 macros2 us t q.1 bol h e' in
    preprocess-Gives parts rounds fuel (state_of macros []) (emit x s) (put_list ts o)
      (state_of ms (cond_of CondContext.in_then b ∷ []))
      (emit-Gives parts value rounds agrees x macros macros1 ts [] s o
        (state_of ms (cond_of CondContext.in_then b ∷ [])) q.0 (if-bol c (emit y (end t))) e g)
      k
