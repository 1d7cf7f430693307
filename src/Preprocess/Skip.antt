-- ===== src/Preprocess/Skip.antt =====
-- preprocess.c: skip_cond_incl, the groups that are not included.
-- Both loops run on fuel: a round reads a token at least, so the number of tokens is enough.
pub mod Nested
pub mod Branch
use chibicc.Common.{
  ◌≡◌, ℕ, refl, arith, zero, suc, ◌≤◌, Bool, true, false, ◌&&◌, ◌||◌, List, [], ◌∷◌, if◌then◌else◌,
  Bool-cases, inl, inr, ap, ◌⊎◌,
}
use chibicc.Tokenize.Result.{Result, ok, failed, overrun, out_of_fuel, ◌>>=◌}
use chibicc.Preprocess.Names.{
  if_name, ifdef_name, ifndef_name, elif_name, elifdef_name, elifndef_name, else_name, endif_name,
}
use chibicc.Preprocess.Stream.{Tok, Stream, end, ◌◂◌, head, next, size, equal, starts, is_hash}

-- `tok->next->next` from the token before the stream.
abbrev pub after : Stream → Stream
after (end t) = end t
after (t ◂ s) = s

abbrev pub is_cond_begin : Stream → Bool
is_cond_begin s = starts s if_name || starts s ifdef_name || starts s ifndef_name

abbrev pub is_cond_branch : Stream → Bool
is_cond_branch s =
    starts s elif_name
    || starts s elifdef_name
    || starts s elifndef_name
    || starts s else_name
    || starts s endif_name

unfoldable pub skip_cond_incl2 : ℕ → Stream → Result Stream
skip_cond_incl2 fuel (end t) = ok (end t)
skip_cond_incl2 zero (t ◂ s) = out_of_fuel
skip_cond_incl2 (suc fuel) (t ◂ s) =
    let nested = skip_cond_incl2 fuel (after s) >>= skip_cond_incl2 fuel in
    let rest = skip_cond_incl2 fuel s in
    if is_hash t && is_cond_begin s
    then nested
    else if is_hash t && starts s endif_name
    then next s
    else rest

unfoldable pub skip_loop : ℕ → Stream → Result Stream
unfolding skip_cond_incl2
skip_loop fuel (end t) = ok (end t)
skip_loop zero (t ◂ s) = out_of_fuel
skip_loop (suc fuel) (t ◂ s) =
    let nested = skip_cond_incl2 fuel (after s) >>= skip_loop fuel in
    let rest = skip_loop fuel s in
    if is_hash t && is_cond_begin s
    then nested
    else if is_hash t && is_cond_branch s
    then ok (t ◂ s)
    else rest

unfoldable pub skip_cond_incl : Stream → Result Stream
unfolding skip_loop
skip_cond_incl s = skip_loop (size s) s
