-- ===== src/Preprocess/Tree/Size.antt =====
-- The number of tokens that a text is written with.
use chibicc.Common.{arith, ◌≤◌, List, [], ◌∷◌, map}
use chibicc.Preprocess.Names.{endif_name}
use chibicc.Preprocess.Stream.{Tok, Stream, size, put_list}
use chibicc.Preprocess.Tree.{
  Text, none, line, define_line, undef_line, group, Branches, endif, else_, elif, Cond, defined,
  undefined, expression, within_line, directive, emit_if, emit_elif, emit, emit_branches,
}

pub size-put_list : (ts : List Tok) (s : Stream) → size s ≤ size (put_list (map within_line ts) s)
size-put_list [] s = omega arith
size-put_list (t ∷ ts) s = omega (arith, size-put_list ts s)

pub size-emit_if : (c : Cond) (s : Stream) → size s ≤ size (emit_if c s)
size-emit_if (defined x) s = omega arith
size-emit_if (undefined x) s = omega arith
size-emit_if (expression e) s = omega (arith, size-put_list e s)

pub size-emit_elif : (c : Cond) (s : Stream) → size s ≤ size (emit_elif c s)
size-emit_elif (defined x) s = omega arith
size-emit_elif (undefined x) s = omega arith
size-emit_elif (expression e) s = omega (arith, size-put_list e s)

mutual
  unfolding emit

  pub size-emit : (x : Text) (s : Stream) → size s ≤ size (emit x s)
  size-emit none s = omega arith
  size-emit (line t ts x) s = omega (arith, size-put_list ts (emit x s), size-emit x s)
  size-emit (define_line m body x) s = omega (arith, size-put_list body (emit x s), size-emit x s)
  size-emit (undef_line m x) s = omega (arith, size-emit x s)
  size-emit (group c x bs y) s = omega (
    arith,
    size-emit_if c (emit x (emit_branches bs (emit y s))),
    size-emit x (emit_branches bs (emit y s)),
    size-emit_branches bs (emit y s),
    size-emit y s,
  )

  pub size-emit_branches : (bs : Branches) (s : Stream) → size s ≤ size (emit_branches bs s)
  size-emit_branches endif s = omega arith
  size-emit_branches (else_ x) s = omega (arith, size-emit x (directive endif_name [] s))
  size-emit_branches (elif c x bs) s = omega (
    arith,
    size-emit_elif c (emit x (emit_branches bs s)),
    size-emit x (emit_branches bs s),
    size-emit_branches bs s,
  )
