-- ===== src/Preprocess/Macro/Args.antt =====
-- preprocess.c: read_macro_args on the arguments of a call, as they are written.
use chibicc.Common.{
  ◌≡◌, ℕ, refl, arith, ◌+◌, ◌-◌, ◌==◌, Bool, true, false, ◌&&◌, ◌||◌, none, List, [], ◌∷◌,
  if◌then◌else◌, ap,
}
use mathlib.Core.List.{append-nil}
use chibicc.Tokenize.Result.{ok}
use chibicc.Preprocess.Stream.{Tok, Stream, ◌◂◌, equal, new_eof, put_list}
use chibicc.Preprocess.Macro.{
  MacroArg, open_paren, close_paren, comma, arg_loop, read_macro_arg_one, args_loop, read_va_args,
  read_macro_args,
}

-- The parentheses of an argument match, and its commas are inside them.
unfoldable pub closed : ℕ → List Tok → Bool
closed level [] = level == 0
closed level (t ∷ ts) =
    let inner = closed (level + 1) ts in
    let outer = closed (level - 1) ts in
    let rest = closed level ts in
    if level == 0 && (equal t close_paren || equal t comma)
    then false
    else if equal t open_paren
    then inner
    else if equal t close_paren
    then outer
    else rest

-- What ends an argument.
abbrev Ends : Tok → Type 0
Ends stop = (equal stop close_paren || equal stop comma) ≡ true

arg-done :
    (stop : Tok) (s : Stream)
    → Ends stop
    → arg_loop 0 false (stop ◂ s) ≡ ok (new_eof stop, stop ◂ s)
unfolding arg_loop
arg-done stop s e = ground arith

arg-put_list :
    (level : ℕ) (ts : List Tok) (stop : Tok) (s : Stream)
    → Ends stop
    → closed level ts ≡ true
    → arg_loop level false (put_list ts (stop ◂ s)) ≡ ok (put_list ts (new_eof stop), stop ◂ s)
unfolding arg_loop closed
arg-put_list level [] stop s e c = ground (arith, arg-done stop s e)
arg-put_list level (t ∷ ts) stop s e c = ground (
  arith,
  arg-put_list (level + 1) ts stop s e,
  arg-put_list (level - 1) ts stop s e,
  arg-put_list level ts stop s e,
)

-- An argument: the parameter it is for, and its tokens.
abbrev pub Given : Type 0
Given = List ℕ × List Tok

abbrev pub all_closed : List Given → Bool
all_closed [] = true
all_closed (a ∷ given) = closed 0 a.1 && all_closed given

abbrev pub param_names : List Given → List (List ℕ)
param_names [] = []
param_names (a ∷ given) = a.0 ∷ param_names given

-- The token behind an argument, with `given` to follow.
abbrev stop_at : Tok → Tok → List Given → Tok
stop_at sep stop [] = stop
stop_at sep stop (a ∷ given) = sep

abbrev emit_more : Tok → Tok → List Given → Stream → Stream
emit_more sep stop [] s = stop ◂ s
emit_more sep stop (a ∷ given) s = sep ◂ put_list a.1 (emit_more sep stop given s)

-- The arguments with `sep` between them and `stop` behind.
abbrev pub emit_args : Tok → Tok → List Given → Stream → Stream
emit_args sep stop [] s = stop ◂ s
emit_args sep stop (a ∷ given) s = put_list a.1 (emit_more sep stop given s)

abbrev pub arg_values : Tok → Tok → List Given → List MacroArg
arg_values sep stop [] = []
arg_values sep stop (a ∷ given) =
    record { name = a.0; is_va_args = false; tok = put_list a.1 (new_eof (stop_at sep stop given)) }
    ∷ arg_values sep stop given

one-arg :
    (sep stop : Tok) (a : Given) (given : List Given) (s : Stream)
    → equal sep comma ≡ true
    → equal stop close_paren ≡ true
    → closed 0 a.1 ≡ true
    → read_macro_arg_one false (put_list a.1 (emit_more sep stop given s))
      ≡ ok (put_list a.1 (new_eof (stop_at sep stop given)), emit_more sep stop given s)
unfolding read_macro_arg_one
one-arg sep stop a [] s e f c = arg-put_list 0 a.1 stop s (ground arith) c
one-arg sep stop a (b ∷ given) s e f c =
    arg-put_list 0 a.1 sep (put_list b.1 (emit_more sep stop given s)) (ground arith) c

more-args :
    (sep stop : Tok) (given : List Given) (s : Stream)
    → equal sep comma ≡ true
    → equal stop close_paren ≡ true
    → all_closed given ≡ true
    → args_loop false (param_names given) (emit_more sep stop given s)
      ≡ ok (arg_values sep stop given, stop ◂ s)
unfolding args_loop
more-args sep stop [] s e f c = refl
more-args sep stop (a ∷ given) s e f c =
    let q : (closed 0 a.1 ≡ true) × (all_closed given ≡ true) = (ground arith, ground arith) in
    rw e (rw (one-arg sep stop a given s e f q.0) (rw (more-args sep stop given s e f q.1) refl))

args-loop :
    (sep stop : Tok) (given : List Given) (s : Stream)
    → equal sep comma ≡ true
    → equal stop close_paren ≡ true
    → all_closed given ≡ true
    → args_loop true (param_names given) (emit_args sep stop given s)
      ≡ ok (arg_values sep stop given, stop ◂ s)
unfolding args_loop
args-loop sep stop [] s e f c = refl
args-loop sep stop (a ∷ given) s e f c =
    let q : (closed 0 a.1 ≡ true) × (all_closed given ≡ true) = (ground arith, ground arith) in
    rw (one-arg sep stop a given s e f q.0) (rw (more-args sep stop given s e f q.1) refl)

-- The arguments of a call, written with commas between them and a parenthesis behind, are read as
-- they were, each with its parameter's name and an end made of the token behind it, when their
-- parentheses match and no comma is outside parentheses; what is left begins with the closing
-- parenthesis.
pub read_macro_args-emit_args :
    (paren sep stop : Tok) (given : List Given) (s : Stream)
    → equal sep comma ≡ true
    → equal stop close_paren ≡ true
    → all_closed given ≡ true
    → read_macro_args (param_names given) none (paren ◂ emit_args sep stop given s)
      ≡ ok (arg_values sep stop given, stop ◂ s)
unfolding read_macro_args read_va_args
read_macro_args-emit_args paren sep stop given s e f c =
    rw (args-loop sep stop given s e f c)
      (rw f (ap (λ v. ok (v, stop ◂ s)) (append-nil (arg_values sep stop given))))
