-- ===== src/Preprocess/Skip/Branch.antt =====
-- preprocess.c: what skip_cond_incl stops at.
use chibicc.Common.{◌≡◌, ℕ, refl, arith, zero, suc, Bool, true, false, ◌||◌, List, [], ◌∷◌, map}
use chibicc.HashMap.{same_key}
use chibicc.Tokenize.Result.{ok}
use chibicc.Preprocess.Names.{
  if_name, ifdef_name, ifndef_name, elif_name, elifdef_name, elifndef_name, else_name, endif_name,
  define_name, undef_name,
}
use chibicc.Preprocess.Stream.{Stream, end, ◌◂◌, size, put_list}
use chibicc.Preprocess.Tree.{
  Text, none, line, define_line, undef_line, group, within_line, word_token, hash_token,
  first_of_line, emit, emit_branches, ordinary, ordinary_branches,
}
use chibicc.Preprocess.Skip.{is_cond_begin, is_cond_branch, skip_loop, skip_cond_incl}
use chibicc.Preprocess.Skip.Nested.{
  Leads, skip-Passes, line-Passes, skip-directive, skip-if, first-hash, group-ordinary, skip2-emit,
  skip2-emit_branches,
}
use chibicc.Preprocess.Tree.Size.{size-emit, size-emit_branches}
use chibicc.HashMap.Search.{same_key_sound}

mutual
  unfolding emit ordinary same_key

  -- The outer loop passes over a text and its groups.
  pub skip-emit :
      (x : Text) (s r : Stream)
      → ordinary x ≡ true
      → Leads skip_loop s r
      → Leads skip_loop (emit x s) r
  skip-emit none s r o h = h
  skip-emit (line t ts x) s r o h =
      let q = first-hash t (ordinary x) o in
      skip-Passes (first_of_line t) (put_list (map within_line ts) (emit x s)) r q.0
        (line-Passes skip_loop skip-Passes ts (emit x s) r (skip-emit x s r q.1 h))
  skip-emit (define_line m body x) s r o h =
      skip-directive define_name (word_token m ∷ body) (emit x s) r (refl, refl)
        (skip-emit x s r o h)
  skip-emit (undef_line m x) s r o h =
      skip-directive undef_name (word_token m ∷ []) (emit x s) r (refl, refl) (skip-emit x s r o h)
  skip-emit (group c x bs y) s r o h =
      let q = group-ordinary (ordinary x) (ordinary_branches bs) (ordinary y) o in
      skip-if c (emit x (emit_branches bs (emit y s))) (emit y s) r
        (omega (arith, size-emit x (emit_branches bs (emit y s)), size-emit_branches bs (emit y s)))
        (skip2-emit x (emit_branches bs (emit y s)) (emit y s) q.0
          (skip2-emit_branches bs (emit y s) q.1))
        (skip-emit y s r q.2 h)

abbrev begin_word : List ℕ → Bool
begin_word w = same_key w if_name || same_key w ifdef_name || same_key w ifndef_name

abbrev branch_word : List ℕ → Bool
branch_word w =
    same_key w elif_name
    || same_key w elifdef_name
    || same_key w elifndef_name
    || same_key w else_name
    || same_key w endif_name

known-word :
    (w name : List ℕ) → begin_word name ≡ false → same_key w name ≡ true → begin_word w ≡ false
known-word w name b h = rw (same_key_sound w name h) b

-- No word both opens a group and ends a part of one.
branch-begin_word : (w : List ℕ) → branch_word w ≡ true → begin_word w ≡ false
unfolding same_key
branch-begin_word w e = ground (
  arith,
  known-word w elif_name refl,
  known-word w elifdef_name refl,
  known-word w elifndef_name refl,
  known-word w else_name refl,
  known-word w endif_name refl,
)

branch-begin : (s : Stream) → is_cond_branch s ≡ true → is_cond_begin s ≡ false
branch-begin (end t) e = refl
branch-begin (t ◂ s) e = branch-begin_word t.word e

-- The loop stops at the directive that ends a part of the group.
pub skip-branch :
    (s : Stream) → is_cond_branch s ≡ true → Leads skip_loop (hash_token ◂ s) (hash_token ◂ s)
unfolding skip_loop same_key
skip-branch s e zero le = absurd (omega arith)
skip-branch s e (suc n) le = rw (branch-begin s e, e) refl

-- The part of a group that is not included, with any lines, definitions and nested groups in it, is
-- skipped up to the `#elif`, `#elifdef`, `#elifndef`, `#else` or `#endif` that ends this part;
-- those of the nested groups do not end it.
pub skip_cond_incl-emit :
    (x : Text) (s : Stream)
    → ordinary x ≡ true
    → is_cond_branch s ≡ true
    → skip_cond_incl (emit x (hash_token ◂ s)) ≡ ok (hash_token ◂ s)
unfolding skip_cond_incl
skip_cond_incl-emit x s o e =
    skip-emit x (hash_token ◂ s) (hash_token ◂ s) o (skip-branch s e)
      (size (emit x (hash_token ◂ s))) (omega arith)
