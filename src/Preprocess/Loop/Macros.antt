-- ===== src/Preprocess/Loop/Macros.antt =====
-- preprocess.c: preprocess2 on texts without directives, with object-like macros.
use chibicc.Common.{
  ◌≡◌, ◌∙◌, refl, sym, ap, arith, ℕ, zero, suc, ◌≤◌, Bool, true, false, not, ◌&&◌, ◌||◌, Option,
  none, some, List, [], ◌∷◌, Bool-cases, inl, inr, ◌⊎◌, min,
}
use chibicc.HashMap.{same_key, Bucket, vacant, tombstone, entry, bucket_at}
use chibicc.HashMap.Search.{same_key_sound}
use chibicc.Tokenize.Result.{Result, ok}
use chibicc.Preprocess.Hideset.{Hideset, new_hideset, hideset_contains, hideset_union}
use chibicc.Preprocess.Stream.{
  Tok, Stream, end, ◌◂◌, size, equal, is_ident, is_hash, append, add_hideset,
}
use chibicc.Preprocess.Macro.{Macros, Macro, macro_named, find_macro}
use chibicc.Preprocess.State.{State, Preprocessed, Preprocessor}
use chibicc.Preprocess.Subst.{set_first}
use chibicc.Preprocess.Expand.{Expanded, put_body, expand_objlike, expand_macro}
use chibicc.Preprocess.Const.{eval_const_expr}
use chibicc.Preprocess.Directive.{Eval, pass, again}
use chibicc.Preprocess.Loop.{
  Parts, pass_on, pragma_word, ms_pragma_word, step, preprocess_loop, preprocess2,
}
use chibicc.Preprocess.Loop.Cost.{macro_named-entry, cost, cost-put_body, weight-pos}

-- No token can begin a directive or is a pragma operator.
abbrev pub is_plain : Tok → Bool
is_plain t = not (equal t (b'#' ∷ []) || equal t pragma_word || equal t ms_pragma_word)

unfoldable pub all_plain : Stream → Bool
all_plain (end t) = true
all_plain (t ◂ s) = is_plain t && all_plain s

abbrev has_handler : Macro → Bool
has_handler m = elim m.handler [ none ↦ false | some h ↦ true ]

-- A macro that stands under its name, object-like and with a plain body.
abbrev pub is_plain_entry : List ℕ → Macro → Bool
unfolding all_plain
is_plain_entry k m =
    same_key m.name k && (m.is_objlike && (not (has_handler m) && all_plain m.body))

unfoldable pub plain_entries : List (Bucket Macro) → Bool
unfolding all_plain
plain_entries [] = true
plain_entries (entry k m ∷ bs) = is_plain_entry k m && plain_entries bs
plain_entries (vacant ∷ bs) = plain_entries bs
plain_entries (tombstone ∷ bs) = plain_entries bs

unfoldable pub all_objlike : Macros → Bool
unfolding plain_entries
all_objlike macros = plain_entries macros.buckets

-- A token that is left as it is: no macro's name, or one that its hideset has.
abbrev pub is_left : Macros → Tok → Bool
is_left macros t =
    hideset_contains t.hideset t.word || elim (find_macro macros t) [ none ↦ true | some m ↦ false ]

unfoldable pub all_left : Macros → Stream → Bool
unfolding hideset_contains find_macro
all_left macros (end t) = true
all_left macros (t ◂ s) = is_left macros t && all_left macros s

abbrev IsObjlike : Macro → Type 0
IsObjlike m = (m.is_objlike ≡ true) × (m.handler ≡ none) × (all_plain m.body ≡ true)

no_handler : (m : Macro) → not (has_handler m) ≡ true → m.handler ≡ none
no_handler m e = ground arith

plain_entries-at :
    (bs : List (Bucket Macro)) (t : ℕ) (k : List ℕ) (m : Macro)
    → plain_entries bs ≡ true
    → bucket_at t bs ≡ entry k m
    → is_plain_entry k m ≡ true
unfolding plain_entries
plain_entries-at [] t k m o e = absurd cc
plain_entries-at (entry k' x ∷ bs) zero k m o e =
    let p : k' ≡ k = cc in
    let q : x ≡ m = cc in let z : is_plain_entry k' x ≡ true = ground arith in rw (sym p, sym q) z
plain_entries-at (vacant ∷ bs) zero k m o e = absurd cc
plain_entries-at (tombstone ∷ bs) zero k m o e = absurd cc
plain_entries-at (entry k' x ∷ bs) (suc t) k m o e =
    let o' : plain_entries bs ≡ true = ground arith in plain_entries-at bs t k m o' e
plain_entries-at (vacant ∷ bs) (suc t) k m o e = plain_entries-at bs t k m o e
plain_entries-at (tombstone ∷ bs) (suc t) k m o e = plain_entries-at bs t k m o e

-- A macro that is found has the name that was asked for.
macro_named-IsObjlike :
    (macros : Macros) (name : List ℕ) (m : Macro)
    → all_objlike macros ≡ true
    → macro_named macros name ≡ some m
    → IsObjlike m × (m.name ≡ name)
unfolding all_objlike
macro_named-IsObjlike macros name m o e =
    let (t, q) = macro_named-entry macros name m e in
    let z = plain_entries-at macros.buckets t name m o q in
    let h : (m.is_objlike ≡ true) × (not (has_handler m) ≡ true) × (all_plain m.body ≡ true) =
      (ground arith, ground arith, ground arith) in
    let n : same_key m.name name ≡ true = ground arith in
    ((h.0, no_handler m h.1, h.2), same_key_sound m.name name n)

-- Either the token is left, or an object-like macro is put in its place.
abbrev Expands : State → Tok → Stream → Result (Option Expanded) → Type 0
Expands st t s r =
    ((r ≡ ok none) × (is_left st.macros t ≡ true))
    ⊎ ((m : Macro) × (macro_named st.macros t.word ≡ some m)
        × (hideset_contains t.hideset t.word ≡ false)
        × (r ≡ ok (some (expand_objlike st m t s))))

expand_found :
    (pre : Preprocessor) (st : State) (t : Tok) (s : Stream) (m : Macro)
    → hideset_contains t.hideset t.word ≡ false
    → find_macro st.macros t ≡ some m
    → IsObjlike m
    → expand_macro pre st t s ≡ ok (some (expand_objlike st m t s))
unfolding expand_macro
expand_found pre st t s m h f o = rw h (rw f (rw (o.1) (rw (o.0) refl)))

pub expand_left :
    (pre : Preprocessor) (st : State) (t : Tok) (s : Stream)
    → is_left st.macros t ≡ true
    → expand_macro pre st t s ≡ ok none
unfolding expand_macro
expand_left pre st t s e = ground arith

found-cases : (o : Option Macro) → (o ≡ none) ⊎ ((m : Macro) × (o ≡ some m))
found-cases none = inl refl
found-cases (some m) = inr (m, refl)

found-named :
    (macros : Macros) (t : Tok) (m : Macro)
    → find_macro macros t ≡ some m
    → macro_named macros t.word ≡ some m
unfolding find_macro
found-named macros t m e = elim (Bool-cases (is_ident t)) [
  | inl z ↦ (rw z at e)
  | inr z ↦ let w = rw z at e in absurd cc
]

expand_macro-Expands :
    (pre : Preprocessor) (st : State) (t : Tok) (s : Stream)
    → all_objlike st.macros ≡ true
    → Expands st t s (expand_macro pre st t s)
expand_macro-Expands pre st t s o = elim (Bool-cases (hideset_contains t.hideset t.word)) [
  | inl h ↦ let l : is_left st.macros t ≡ true = rw h refl in inl (expand_left pre st t s l, l)
  | inr h ↦ elim (found-cases (find_macro st.macros t)) [
    | inl f ↦
        let l : is_left st.macros t ≡ true = rw h (rw f refl) in inl (expand_left pre st t s l, l)
    | inr (m, f) ↦
        let n = found-named st.macros t m f in
        let q = macro_named-IsObjlike st.macros t.word m o n in
        inr (m, n, h, expand_found pre st t s m h f q.0)
  ]
]

step-pass :
    (parts : Parts) (eval : Eval) (pre : Preprocessor) (st : State) (t : Tok) (s : Stream)
    → is_plain t ≡ true
    → expand_macro pre st t s ≡ ok none
    → step parts eval pre st t s ≡ ok pass
unfolding step
step-pass parts eval pre st t s p e =
    let a : equal t (b'#' ∷ []) ≡ false = ground arith in
    let b : (equal t pragma_word || equal t ms_pragma_word) ≡ false = ground arith in
    let c : is_hash t ≡ false = ground arith in rw e (rw b (rw c refl))

pub step-again :
    (parts : Parts) (eval : Eval) (pre : Preprocessor) (st : State) (t : Tok) (s : Stream)
    (x : Expanded)
    → expand_macro pre st t s ≡ ok (some x)
    → step parts eval pre st t s ≡ ok (again x)
unfolding step
step-again parts eval pre st t s x e = rw e refl

all_plain-append :
    (a b : Stream) → all_plain a ≡ true → all_plain b ≡ true → all_plain (append a b) ≡ true
unfolding all_plain append
all_plain-append (end t) b h k = k
all_plain-append (t ◂ a) b h k = ground (arith, all_plain-append a b)

all_plain-add_hideset : (a : Stream) (hs : Hideset) → all_plain (add_hideset a hs) ≡ all_plain a
unfolding all_plain add_hideset
all_plain-add_hideset (end t) hs = refl
all_plain-add_hideset (t ◂ a) hs = ap (λ b. is_plain t && b) (all_plain-add_hideset a hs)

all_plain-set_first : (t : Tok) (s : Stream) → all_plain (set_first t s) ≡ all_plain s
unfolding all_plain
all_plain-set_first t (end u) = refl
all_plain-set_first t (u ◂ s) = refl

all_plain-put_body :
    (t : Tok) (b : Stream) (hs : Hideset) (s : Stream)
    → all_plain b ≡ true
    → all_plain s ≡ true
    → all_plain (put_body t b hs s) ≡ true
unfolding put_body
all_plain-put_body t b hs s h k =
    all_plain-set_first t (append (add_hideset b hs) s)
    ∙ all_plain-append (add_hideset b hs) s (all_plain-add_hideset b hs ∙ h) k

-- The loop ends with the state unchanged and no macro left.
abbrev pub Finishes : State → Result Preprocessed → Type 0
Finishes st r = (p : Preprocessed) × (r ≡ ok p) × (p.state ≡ st) × (all_left st.macros p.out ≡ true)

loop-Finishes :
    (parts : Parts) (fuel n : ℕ) (st : State) (s : Stream)
    → all_objlike st.macros ≡ true
    → all_plain s ≡ true
    → cost st.macros s ≤ fuel
    → Finishes st (preprocess_loop parts fuel n st s)
unfolding preprocess_loop all_plain all_left cost
loop-Finishes parts fuel n st (end t) o p c =
    (record { out = end t; own = none; state = st }, refl, refl, refl)
loop-Finishes parts zero n st (t ◂ s) o p c = absurd (omega (arith, weight-pos st.macros t))
loop-Finishes parts (suc fuel) n st (t ◂ s) o p c =
    let inner = λ (st1 : State) (s1 : Stream). preprocess_loop parts fuel (size s1) st1 s1 in
    let eval = eval_const_expr parts.evaluator inner fuel in
    let q : (is_plain t ≡ true) × (all_plain s ≡ true) = (ground arith, ground arith) in
    elim (expand_macro-Expands inner st t s o) [
      | inl (e, l) ↦
          let (r, h, k, a) =
            loop-Finishes parts fuel (min n (size s)) st s o q.1
              (omega (arith, weight-pos st.macros t)) in
          (
            pass_on n t (size (t ◂ s)) r,
            rw (step-pass parts eval inner st t s q.0 e) (rw h refl),
            k,
            rw l a,
          )
      | inr (m, f, h, e) ↦
          let i = macro_named-IsObjlike st.macros t.word m o f in
          let x = expand_objlike st m t s in
          let go =
            loop-Finishes parts fuel (min n x.behind) st x.rest o
              (all_plain-put_body t m.body (hideset_union t.hideset (new_hideset m.name)) s i.0.2
                q.1)
              (omega (arith, cost-put_body st.macros t m s f i.1 h)) in
          rw (step-again parts eval inner st t s x e) go
    ]

-- With object-like macros only, which stand in the table under their names, and whose bodies and whose
-- text have no `#` and no pragma operator, the preprocessor ends within `cost` rounds, also when the
-- macros name one another or themselves, and the text that it gives has no token that is still to be
-- expanded: each is no macro's name, or its hideset has the name. The state is unchanged.
pub preprocess2-Finishes :
    (parts : Parts) (fuel : ℕ) (st : State) (s : Stream)
    → all_objlike st.macros ≡ true
    → all_plain s ≡ true
    → cost st.macros s ≤ fuel
    → Finishes st (preprocess2 parts fuel st s)
unfolding preprocess2
preprocess2-Finishes parts fuel st s o p c = loop-Finishes parts fuel (size s) st s o p c
