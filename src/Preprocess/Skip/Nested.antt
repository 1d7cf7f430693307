-- ===== src/Preprocess/Skip/Nested.antt =====
-- preprocess.c: skip_cond_incl on texts with nested groups.
use chibicc.Common.{
  ◌≡◌, ℕ, refl, arith, zero, suc, ◌≤◌, Bool, true, false, not, ◌&&◌, List, [], ◌∷◌, map,
}
use chibicc.HashMap.{same_key}
use chibicc.Tokenize.Result.{Result, ok}
use chibicc.Preprocess.Names.{
  if_name, ifdef_name, ifndef_name, elif_name, elifdef_name, elifndef_name, else_name, endif_name,
  define_name, undef_name,
}
use chibicc.Preprocess.Stream.{Tok, Stream, ◌◂◌, size, equal, starts, is_hash, put_list}
use chibicc.Preprocess.Tree.{
  Text, none, line, define_line, undef_line, group, Branches, endif, else_, elif, Cond, defined,
  undefined, expression, within_line, word_token, hash_token, directive, first_of_line, emit_if,
  emit_elif, emit, emit_branches, ordinary, ordinary_branches,
}
use chibicc.Preprocess.Skip.{is_cond_begin, is_cond_branch, skip_cond_incl2, skip_loop}
use chibicc.Preprocess.Tree.Size.{size-put_list, size-emit, size-emit_branches}

-- What a loop on fuel leads to at a stream, whatever fuel it has from the stream's size on.
abbrev pub Leads : (ℕ → Stream → Result Stream) → Stream → Stream → Type 0
Leads loop s r = (n : ℕ) → size s ≤ n → loop n s ≡ ok r

-- Tokens that begin no directive are passed over.
abbrev pub Passes : (ℕ → Stream → Result Stream) → Type 0
Passes loop = (t : Tok) (s r : Stream) → is_hash t ≡ false → Leads loop s r → Leads loop (t ◂ s) r

skip2-Passes : Passes skip_cond_incl2
unfolding skip_cond_incl2
skip2-Passes t s r e h zero le = absurd (omega arith)
skip2-Passes t s r e h (suc n) le = rw e (h n (omega arith))

pub skip-Passes : Passes skip_loop
unfolding skip_loop
skip-Passes t s r e h zero le = absurd (omega arith)
skip-Passes t s r e h (suc n) le = rw e (h n (omega arith))

pub line-Passes :
    (loop : ℕ → Stream → Result Stream) (p : Passes loop) (ts : List Tok) (s r : Stream)
    → Leads loop s r
    → Leads loop (put_list (map within_line ts) s) r
line-Passes loop p [] s r h = h
line-Passes loop p (t ∷ ts) s r h =
    p (within_line t) (put_list (map within_line ts) s) r refl (line-Passes loop p ts s r h)

-- A directive that neither opens nor closes a group is passed over.
skip2-directive :
    (name : List ℕ) (ts : List Tok) (s r : Stream)
    → (is_cond_begin (word_token name ◂ s) ≡ false)
      × (starts (word_token name ◂ s) endif_name ≡ false)
    → Leads skip_cond_incl2 s r
    → Leads skip_cond_incl2 (directive name ts s) r
unfolding skip_cond_incl2 same_key
skip2-directive name ts s r e h zero le = absurd (omega arith)
skip2-directive name ts s r (e, f) h (suc n) le = rw e (
    rw f (
      skip2-Passes (word_token name) (put_list (map within_line ts) s) r refl
        (line-Passes skip_cond_incl2 skip2-Passes ts s r h) n (omega arith)))

pub skip-directive :
    (name : List ℕ) (ts : List Tok) (s r : Stream)
    → (is_cond_begin (word_token name ◂ s) ≡ false) × (is_cond_branch (word_token name ◂ s) ≡ false)
    → Leads skip_loop s r
    → Leads skip_loop (directive name ts s) r
unfolding skip_loop same_key
skip-directive name ts s r e h zero le = absurd (omega arith)
skip-directive name ts s r (e, f) h (suc n) le = rw e (
    rw f (
      skip-Passes (word_token name) (put_list (map within_line ts) s) r refl
        (line-Passes skip_loop skip-Passes ts s r h) n (omega arith)))

-- A nested group is left to the inner loop.
skip2-nested :
    (name : List ℕ) (s m r : Stream)
    → is_cond_begin (word_token name ◂ s) ≡ true
    → size m ≤ size s
    → Leads skip_cond_incl2 s m
    → Leads skip_cond_incl2 m r
    → Leads skip_cond_incl2 (hash_token ◂ word_token name ◂ s) r
unfolding skip_cond_incl2 same_key
skip2-nested name s m r e l h k zero le = absurd (omega arith)
skip2-nested name s m r e l h k (suc n) le = rw e (rw (h n (omega arith)) (k n (omega arith)))

skip-nested :
    (name : List ℕ) (s m r : Stream)
    → is_cond_begin (word_token name ◂ s) ≡ true
    → size m ≤ size s
    → Leads skip_cond_incl2 s m
    → Leads skip_loop m r
    → Leads skip_loop (hash_token ◂ word_token name ◂ s) r
unfolding skip_loop same_key
skip-nested name s m r e l h k zero le = absurd (omega arith)
skip-nested name s m r e l h k (suc n) le = rw e (rw (h n (omega arith)) (k n (omega arith)))

skip2-endif : (s : Stream) → Leads skip_cond_incl2 (directive endif_name [] s) s
unfolding skip_cond_incl2 same_key
skip2-endif s zero le = absurd (omega arith)
skip2-endif s (suc n) le = refl

-- The line that opens a group, for the inner loop that reads the group.
skip2-if :
    (c : Cond) (s m r : Stream)
    → size m ≤ size s
    → Leads skip_cond_incl2 s m
    → Leads skip_cond_incl2 m r
    → Leads skip_cond_incl2 (emit_if c s) r
unfolding same_key
skip2-if (defined x) s m r l h k =
    skip2-nested ifdef_name (word_token x ◂ s) m r refl (omega arith)
      (skip2-Passes (word_token x) s m refl h) k
skip2-if (undefined x) s m r l h k =
    skip2-nested ifndef_name (word_token x ◂ s) m r refl (omega arith)
      (skip2-Passes (word_token x) s m refl h) k
skip2-if (expression e) s m r l h k =
    skip2-nested if_name (put_list (map within_line e) s) m r refl
      (omega (arith, size-put_list e s)) (line-Passes skip_cond_incl2 skip2-Passes e s m h) k

pub skip-if :
    (c : Cond) (s m r : Stream)
    → size m ≤ size s
    → Leads skip_cond_incl2 s m
    → Leads skip_loop m r
    → Leads skip_loop (emit_if c s) r
unfolding same_key
skip-if (defined x) s m r l h k =
    skip-nested ifdef_name (word_token x ◂ s) m r refl (omega arith)
      (skip2-Passes (word_token x) s m refl h) k
skip-if (undefined x) s m r l h k =
    skip-nested ifndef_name (word_token x ◂ s) m r refl (omega arith)
      (skip2-Passes (word_token x) s m refl h) k
skip-if (expression e) s m r l h k =
    skip-nested if_name (put_list (map within_line e) s) m r refl (omega (arith, size-put_list e s))
      (line-Passes skip_cond_incl2 skip2-Passes e s m h) k

skip2-elif :
    (c : Cond) (s r : Stream) → Leads skip_cond_incl2 s r → Leads skip_cond_incl2 (emit_elif c s) r
unfolding same_key
skip2-elif (defined x) s r h = skip2-directive elifdef_name (word_token x ∷ []) s r (refl, refl) h
skip2-elif (undefined x) s r h =
    skip2-directive elifndef_name (word_token x ∷ []) s r (refl, refl) h
skip2-elif (expression e) s r h = skip2-directive elif_name e s r (refl, refl) h

pub first-hash :
    (t : Tok) (b : Bool)
    → (not (equal t (b'#' ∷ [])) && b) ≡ true
    → (equal t (b'#' ∷ []) ≡ false) × (b ≡ true)
first-hash t b e = ground arith

pub both : (a b : Bool) → (a && b) ≡ true → (a ≡ true) × (b ≡ true)
both a b e = ground arith

pub group-ordinary : (a b c : Bool) → (a && b && c) ≡ true → (a ≡ true) × (b ≡ true) × (c ≡ true)
group-ordinary a b c e = ground arith

mutual
  unfolding emit ordinary same_key

  -- The inner loop passes over a text and its groups.
  pub skip2-emit :
      (x : Text) (s r : Stream)
      → ordinary x ≡ true
      → Leads skip_cond_incl2 s r
      → Leads skip_cond_incl2 (emit x s) r
  skip2-emit none s r o h = h
  skip2-emit (line t ts x) s r o h =
      let q = first-hash t (ordinary x) o in
      skip2-Passes (first_of_line t) (put_list (map within_line ts) (emit x s)) r q.0
        (line-Passes skip_cond_incl2 skip2-Passes ts (emit x s) r (skip2-emit x s r q.1 h))
  skip2-emit (define_line m body x) s r o h =
      skip2-directive define_name (word_token m ∷ body) (emit x s) r (refl, refl)
        (skip2-emit x s r o h)
  skip2-emit (undef_line m x) s r o h =
      skip2-directive undef_name (word_token m ∷ []) (emit x s) r (refl, refl)
        (skip2-emit x s r o h)
  skip2-emit (group c x bs y) s r o h =
      let q = group-ordinary (ordinary x) (ordinary_branches bs) (ordinary y) o in
      skip2-if c (emit x (emit_branches bs (emit y s))) (emit y s) r
        (omega (arith, size-emit x (emit_branches bs (emit y s)), size-emit_branches bs (emit y s)))
        (skip2-emit x (emit_branches bs (emit y s)) (emit y s) q.0
          (skip2-emit_branches bs (emit y s) q.1))
        (skip2-emit y s r q.2 h)

  -- And it ends behind the group it is in.
  pub skip2-emit_branches :
      (bs : Branches) (s : Stream)
      → ordinary_branches bs ≡ true
      → Leads skip_cond_incl2 (emit_branches bs s) s
  skip2-emit_branches endif s o = skip2-endif s
  skip2-emit_branches (else_ x) s o =
      skip2-directive else_name [] (emit x (directive endif_name [] s)) s (refl, refl)
        (skip2-emit x (directive endif_name [] s) s o (skip2-endif s))
  skip2-emit_branches (elif c x bs) s o =
      let q = both (ordinary x) (ordinary_branches bs) o in
      skip2-elif c (emit x (emit_branches bs s)) s
        (skip2-emit x (emit_branches bs s) s q.0 (skip2-emit_branches bs s q.1))
