-- ===== src/Preprocess/Subst/Params.antt =====
-- preprocess.c: subst on bodies without operators, against the replacement of parameters that C
-- describes.
use chibicc.Common.{
  ◌≡◌, ◌∙◌, refl, sym, ap, arith, ℕ, zero, suc, ◌≤◌, Bool, true, false, not, ◌&&◌, ◌||◌, Option,
  none, some, List, [], ◌∷◌, ◌++◌, if◌then◌else◌, Bool-cases, inl, inr, ◌⊎◌,
}
use chibicc.HashMap.{same_key}
use chibicc.HashMap.Search.{same_key_sound}
use chibicc.Tokenize.Result.{Result, ok, ◌>>=◌, bind_assoc, bind_ext}
use chibicc.Preprocess.Stream.{
  Tok, Stream, end, ◌◂◌, size, equal, starts, put_list, put_list-append,
}
use chibicc.Preprocess.Macro.{MacroArg, comma, find_arg}
use chibicc.Preprocess.State.{State, Preprocessed, Preprocessor}
use chibicc.Preprocess.Subst.{
  hash_hash, va_opt, tokens, set_first, linked, set_arg, Sub, add_tok, add_all, subst_param,
  subst_tok, subst_step, unwind, subst_loop, subst_args,
}

abbrev is_operand : Tok → Bool
is_operand t = not (equal t (b'#' ∷ []) || equal t hash_hash || equal t va_opt)

-- The body has no operator.
unfoldable pub lacks_operators : Stream → Bool
lacks_operators (end t) = true
lacks_operators (t ◂ s) = is_operand t && lacks_operators s

unfoldable pub lacks_word : List ℕ → Stream → Bool
lacks_word w (end t) = true
lacks_word w (t ◂ s) = not (same_key t.word w) && lacks_word w s

abbrev is_param : List MacroArg → Tok → Bool
is_param args t = elim (find_arg args t) [ none ↦ false | some a ↦ true ]

-- No parameter stands in the body twice.
unfoldable pub names_once : List MacroArg → Stream → Bool
unfolding lacks_word find_arg
names_once args (end t) = true
names_once args (t ◂ s) = (not (is_param args t) || lacks_word t.word s) && names_once args s

-- A token of the body, `rest` being what the others give.
abbrev replaced_tok :
    Preprocessor
    → State
    → Tok
    → Option MacroArg
    → (State → Result (List Tok × State))
    → Result (List Tok × State)
replaced_tok preprocess2 st t none rest = rest st >>= (λ (r : List Tok × State). ok (t ∷ r.0, r.1))
replaced_tok preprocess2 st t (some a) rest = preprocess2 st a.tok >>= (λ (p : Preprocessed).
    rest p.state >>= (λ (r : List Tok × State). ok (tokens (set_first t p.out) ++ r.0, r.1)))

-- The tokens of the body, each parameter replaced by its argument, preprocessed, and the state.
unfoldable pub replaced : Preprocessor → State → List MacroArg → Stream → Result (List Tok × State)
replaced preprocess2 st args (end t) = ok ([], st)
replaced preprocess2 st args (t ◂ s) =
    replaced_tok preprocess2 st t (find_arg args t) (λ st1. replaced preprocess2 st1 args s)

abbrev pub end_of : Stream → Stream
end_of (end t) = end t
end_of (t ◂ s) = end_of s

-- Both lists have the same arguments for the tokens of the stream.
abbrev Agree : List MacroArg → List MacroArg → Stream → Type 0
Agree args args' (end t) = Unit
Agree args args' (t ◂ s) = (find_arg args' t ≡ find_arg args t) × Agree args args' s

Agree-refl : (args : List MacroArg) (s : Stream) → Agree args args s
Agree-refl args (end t) = tt
Agree-refl args (t ◂ s) = (refl, Agree-refl args s)

find_arg-set_arg :
    (args : List MacroArg) (name : List ℕ) (z : Stream) (u : Tok)
    → same_key u.word name ≡ false
    → find_arg (set_arg args name z) u ≡ find_arg args u
unfolding find_arg
find_arg-set_arg [] name z u h = refl
find_arg-set_arg (a ∷ args) name z u h = elim (Bool-cases (same_key a.name name)) [
  | inl e ↦
      let q : same_key u.word a.name ≡ false = rw (same_key_sound a.name name e) h in
      rw e (rw q refl)
  | inr e ↦
      rw e
        (ap (λ r. if same_key u.word a.name then some a else r) (find_arg-set_arg args name z u h))
]

set_arg-Agree :
    (args args' : List MacroArg) (name : List ℕ) (z s : Stream)
    → lacks_word name s ≡ true
    → Agree args args' s
    → Agree args (set_arg args' name z) s
unfolding lacks_word
set_arg-Agree args args' name z (end t) l h = tt
set_arg-Agree args args' name z (t ◂ s) l h =
    let e : same_key t.word name ≡ false = ground arith in
    let l' : lacks_word name s ≡ true = ground arith in
    (find_arg-set_arg args' name z t e ∙ h.0, set_arg-Agree args args' name z s l' h.1)

find_arg-name :
    (args : List MacroArg) (t : Tok) (a : MacroArg) → find_arg args t ≡ some a → t.word ≡ a.name
unfolding find_arg
find_arg-name [] t a e = absurd cc
find_arg-name (b ∷ args) t a e = elim (Bool-cases (same_key t.word b.name)) [
  | inl z ↦ let e' = rw z at e in let q : b ≡ a = cc in rw (sym q) (same_key_sound t.word b.name z)
  | inr z ↦ find_arg-name args t a (rw z at e)
]

unwind-add_all :
    (made ts : List Tok) (s : Stream) → unwind (add_all made ts) s ≡ unwind made (put_list ts s)
unwind-add_all made [] s = refl
unwind-add_all made (t ∷ ts) s = unwind-add_all (t ∷ made) ts s

lacks-starts : (s : Stream) → lacks_operators s ≡ true → starts s hash_hash ≡ false
unfolding lacks_operators
lacks-starts (end t) h = refl
lacks-starts (t ◂ s) h = ground arith

-- What a round does with a token that is no operator.
abbrev plain_step : Preprocessor → Sub → Tok → Stream → Option MacroArg → Result (Sub × Stream)
plain_step preprocess2 x t s none = ok (add_tok x t, s)
plain_step preprocess2 x t s (some a) = subst_param preprocess2 x a t s

subst_tok-plain :
    (preprocess2 : Preprocessor) (x : Sub) (t : Tok) (s : Stream) (o : Option MacroArg)
    → equal t va_opt ≡ false
    → starts s hash_hash ≡ false
    → find_arg x.args t ≡ o
    → subst_tok preprocess2 x t s ≡ plain_step preprocess2 x t s o
unfolding subst_tok
subst_tok-plain preprocess2 x t s none v h e = rw (e, subst_tok) (rw v refl)
subst_tok-plain preprocess2 x t s (some arg) v h e = rw (e, subst_tok) (rw h (rw v refl))

subst_step-plain :
    (preprocess2 : Preprocessor) (x : Sub) (t : Tok) (s : Stream) (o : Option MacroArg)
    → is_operand t ≡ true
    → lacks_operators s ≡ true
    → find_arg x.args t ≡ o
    → subst_step preprocess2 x t s ≡ plain_step preprocess2 x t s o
unfolding subst_step
subst_step-plain preprocess2 x t s o i l e =
    let a : equal t (b'#' ∷ []) ≡ false = ground arith in
    let b : equal t hash_hash ≡ false = ground arith in
    let v : equal t va_opt ≡ false = ground arith in
    let h = lacks-starts s l in
    let last = subst_tok-plain preprocess2 x t s o v h e in
    elim (Bool-cases (equal t comma)) [
      | inl c ↦ rw a (rw h (rw c (rw b last)))
      | inr c ↦ rw a (rw h (rw c (rw b last)))
    ]

-- What the loop has, from what the replacement gives.
abbrev finished : Sub → Stream → List Tok × State → Result (Stream × State)
finished x s r = ok (unwind x.made (put_list r.0 (end_of s)), r.1)

names-split :
    (args : List MacroArg) (t : Tok) (s : Stream)
    → names_once args (t ◂ s) ≡ true
    → ((not (is_param args t) || lacks_word t.word s) ≡ true) × (names_once args s ≡ true)
unfolding names_once
names-split args t s h = (ground arith, ground arith)

found-cases : (o : Option MacroArg) → (o ≡ none) ⊎ ((a : MacroArg) × (o ≡ some a))
found-cases none = inl refl
found-cases (some a) = inr (a, refl)

param-lacks :
    (args : List MacroArg) (t : Tok) (a : MacroArg) (s : Stream)
    → find_arg args t ≡ some a
    → (not (is_param args t) || lacks_word t.word s) ≡ true
    → lacks_word a.name s ≡ true
param-lacks args t a s e h =
    let p : is_param args t ≡ true = rw (e, is_param) refl in
    let q : lacks_word t.word s ≡ true = ground arith in rw (sym (find_arg-name args t a e)) q

-- The loop after a parameter whose argument is `p`.
abbrev with_arg : Sub → MacroArg → Tok → Preprocessed → Sub
with_arg x a t p = record {
  made = add_all x.made (tokens (set_first t p.out));
  args = set_arg x.args a.name (linked a.tok p.own (set_first t p.out));
  state = p.state;
}

abbrev put_arg : Tok → Preprocessed → List Tok × State → Result (List Tok × State)
put_arg t p r = ok (tokens (set_first t p.out) ++ r.0, r.1)

finished-with_arg :
    (x : Sub) (a : MacroArg) (t : Tok) (p : Preprocessed) (s : Stream)
    (q : Result (List Tok × State))
    → q >>= finished (with_arg x a t p) s ≡ (q >>= put_arg t p) >>= finished x (t ◂ s)
finished-with_arg x a t p s q =
    let ts = tokens (set_first t p.out) in
    bind_ext q (finished (with_arg x a t p) s) (λ r. put_arg t p r >>= finished x (t ◂ s))
      (λ r.
        ap (λ (z : Stream). ok (z, r.1))
          (unwind-add_all x.made ts (put_list r.0 (end_of s))
            ∙ ap (unwind x.made) (sym (put_list-append ts r.0 (end_of s)))))
    ∙ sym (bind_assoc q (put_arg t p) (finished x (t ◂ s)))

subst_loop-replaced :
    (preprocess2 : Preprocessor) (args : List MacroArg) (fuel : ℕ) (x : Sub) (s : Stream)
    → size s ≤ fuel
    → lacks_operators s ≡ true
    → names_once args s ≡ true
    → Agree args x.args s
    → subst_loop fuel preprocess2 x s ≡ replaced preprocess2 x.state args s >>= finished x s
unfolding subst_loop replaced lacks_operators subst_param
subst_loop-replaced preprocess2 args fuel x (end t) f l n g = refl
subst_loop-replaced preprocess2 args zero x (t ◂ s) f l n g = absurd (omega arith)
subst_loop-replaced preprocess2 args (suc fuel) x (t ◂ s) f l n g =
    let i : is_operand t ≡ true = ground arith in
    let l' : lacks_operators s ≡ true = ground arith in
    let n' = names-split args t s n in
    elim (found-cases (find_arg args t)) [
      | inl e ↦ rw (subst_step-plain preprocess2 x t s none i l' (g.0 ∙ e)) (
          rw e (
            subst_loop-replaced preprocess2 args fuel (add_tok x t) s (omega arith) l' n'.1 g.1
            ∙ sym (
                bind_assoc (replaced preprocess2 x.state args s)
                  (λ (r : List Tok × State). ok (t ∷ r.0, r.1)) (finished x (t ◂ s)))))
      | inr (a, e) ↦ rw (subst_step-plain preprocess2 x t s (some a) i l' (g.0 ∙ e)) (
          rw e (
            bind_assoc (preprocess2 x.state a.tok) (λ p. ok (with_arg x a t p, s))
              (λ (r : Sub × Stream). subst_loop fuel preprocess2 r.0 r.1)
            ∙ bind_ext (preprocess2 x.state a.tok)
                (λ p. subst_loop fuel preprocess2 (with_arg x a t p) s)
                (λ p. (replaced preprocess2 p.state args s >>= put_arg t p) >>= finished x (t ◂ s))
                (λ p.
                  subst_loop-replaced preprocess2 args fuel (with_arg x a t p) s (omega arith) l'
                    n'.1
                    (set_arg-Agree args x.args a.name (linked a.tok p.own (set_first t p.out)) s
                      (param-lacks args t a s e n'.0) g.1)
                  ∙ finished-with_arg x a t p s (replaced preprocess2 p.state args s))
            ∙ sym (
                bind_assoc (preprocess2 x.state a.tok)
                  (λ p. replaced preprocess2 p.state args s >>= put_arg t p) (finished x (t ◂ s)))))
    ]

abbrev pub before_end : Stream → List Tok × State → Result (Stream × State)
before_end s r = ok (put_list r.0 (end_of s), r.1)

-- In a body without `#`, `##` and `__VA_OPT__` in which no parameter stands twice, the substitution
-- gives the body with every parameter replaced by its argument, which has been preprocessed on its
-- own and whose first token has the space and the place in the line of the parameter; the arguments
-- are preprocessed from left to right, and an error in one is the result.
pub subst_args-replaced :
    (preprocess2 : Preprocessor) (st : State) (body : Stream) (args : List MacroArg)
    → lacks_operators body ≡ true
    → names_once args body ≡ true
    → subst_args preprocess2 st body args ≡ replaced preprocess2 st args body >>= before_end body
unfolding subst_args
subst_args-replaced preprocess2 st body args l n =
    subst_loop-replaced preprocess2 args (size body) (record { made = []; args = args; state = st })
      body (omega arith) l n (Agree-refl args body)
