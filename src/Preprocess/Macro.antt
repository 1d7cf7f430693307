-- ===== src/Preprocess/Macro.antt =====
-- preprocess.c: the table of macros, their definitions, and the arguments of a call.
-- The table is the hash map of HashMap.antt, with all that it does after a deletion.
pub mod Args
mod Table
use chibicc.Common.{
  ◌≡◌, ℕ, refl, arith, zero, suc, ◌+◌, ◌-◌, ◌==◌, Bool, true, false, not, ◌&&◌, ◌||◌, Option, none,
  some, List, [], ◌∷◌, ◌++◌, if◌then◌else◌,
}
use chibicc.HashMap.{
  same_key, HashMap, hashmap_get2, hashmap_put, hashmap_put2, hashmap_delete, hashmap_delete2,
}
use chibicc.Tokenize.Result.{Result, ok, failed, overrun, out_of_fuel, ◌>>=◌}
use chibicc.Preprocess.Stream.{
  Tok, Stream, end, ◌◂◌, head, next, size, equal, starts, follows, skip, names, is_ident, new_eof,
  copy_line, skip_line,
}
use chibicc.Preprocess.Skip.{after}

pub record Macro : Type 0 where
  pub name : List ℕ
  pub is_objlike : Bool
  pub params : List (List ℕ)
  pub va_args_name : Option (List ℕ)
  pub body : Stream
  pub handler : Option (Tok → Tok)

-- The table: the keys are the names.
abbrev pub Macros : Type 0
Macros = HashMap Macro

abbrev pub no_macros : Macros
no_macros = record { buckets = []; used = 0 }

-- The operations of the table do not come back from a failed assertion or from `unreachable()`.
abbrev checked : Option Macros → Result Macros
checked none = failed
checked (some macros) = ok macros

abbrev answered : Option (Option Macro) → Option Macro
answered none = none
answered (some o) = o

-- A search that would end in `unreachable()`, for want of a vacant bucket, finds nothing here; Table
-- is about the tables whose searches end.
unfoldable pub macro_named : Macros → List ℕ → Option Macro
unfolding hashmap_get2
macro_named macros s = answered (hashmap_get2 macros s)

unfoldable pub find_macro : Macros → Tok → Option Macro
unfolding macro_named
find_macro macros tok = if is_ident tok then macro_named macros tok.word else none

-- `find_macro(tok->next)` and the like, at the first token.
abbrev pub is_macro : Macros → Stream → Bool
is_macro macros (end t) = false
is_macro macros (t ◂ s) = elim (find_macro macros t) [ some m ↦ true | none ↦ false ]

unfoldable pub undef_macro : Macros → List ℕ → Result Macros
unfolding hashmap_delete2
undef_macro macros s = checked (hashmap_delete macros s)

unfoldable pub add_macro : Macros → Macro → Result Macros
unfolding hashmap_put2
add_macro macros m = checked (hashmap_put macros m.name m)

abbrev pub open_paren : List ℕ
open_paren = b'(' ∷ []

abbrev pub close_paren : List ℕ
close_paren = b')' ∷ []

abbrev pub comma : List ℕ
comma = b',' ∷ []

abbrev ellipsis : List ℕ
ellipsis = b'.' ∷ b'.' ∷ b'.' ∷ []

abbrev va_args : List ℕ
va_args = b'_' ∷ b'_' ∷ b'V' ∷ b'A' ∷ b'_' ∷ b'A' ∷ b'R' ∷ b'G' ∷ b'S' ∷ b'_' ∷ b'_' ∷ []

-- The parameters' names, the name of the rest, and the tokens behind.
abbrev pub Params : Type 0
Params = List (List ℕ) × Option (List ℕ) × Stream

-- One parameter; `loop` reads those that follow it.
abbrev read_param : (Stream → Result Params) → Stream → Result Params
read_param loop s =
    if starts s ellipsis
    then next s >>= (λ s1. skip s1 close_paren >>= (λ s2. ok ([], some va_args, s2)))
    else if not (names s)
    then failed
    else if follows s ellipsis
    then next s >>= (λ s1.
      next s1 >>= (λ s2. skip s2 close_paren >>= (λ s3. ok ([], some (head s).word, s3))))
    else next s >>= (λ s1. loop s1 >>= (λ (r : Params). ok ((head s).word ∷ r.0, r.1, r.2)))

unfoldable pub params_loop : ℕ → Bool → Stream → Result Params
params_loop zero first s = out_of_fuel
params_loop (suc fuel) first s =
    let param = read_param (λ s1. params_loop fuel false s1) in
    if starts s close_paren
    then next s >>= (λ s1. ok ([], none, s1))
    else if first
    then param s
    else skip s comma >>= param

unfoldable pub read_macro_params : Stream → Result Params
unfolding params_loop
read_macro_params s = params_loop (suc (size s)) true s

unfoldable pub read_macro_definition : Macros → Stream → Result (Macros × Stream)
unfolding read_macro_params copy_line add_macro
read_macro_definition macros s =
    if not (names s)
    then failed
    else next s >>= (λ s1.
      if not (head s1).has_space && starts s1 open_paren
      then next s1 >>= (λ s2. read_macro_params s2 >>= (λ (p : Params).
        copy_line p.2 >>= (λ (r : Stream × Stream).
          add_macro macros (record {
            name = (head s).word;
            is_objlike = false;
            params = p.0;
            va_args_name = p.1;
            body = r.0;
            handler = none;
          })
          >>= (λ (added : Macros). ok (added, r.1)))))
      else copy_line s1 >>= (λ (r : Stream × Stream).
        add_macro macros (record {
          name = (head s).word;
          is_objlike = true;
          params = [];
          va_args_name = none;
          body = r.0;
          handler = none;
        })
        >>= (λ (added : Macros). ok (added, r.1))))

pub record MacroArg : Type 0 where
  pub name : List ℕ
  pub is_va_args : Bool
  pub tok : Stream

-- The loop of `read_macro_arg_one`: the argument's tokens and those behind.
unfoldable pub arg_loop : ℕ → Bool → Stream → Result (Stream × Stream)
arg_loop level read_rest (end t) = failed
arg_loop level read_rest (t ◂ s) =
    let add = λ (r : Stream × Stream). ok (t ◂ r.0, r.1) in
    let inner = arg_loop (level + 1) read_rest s >>= add in
    let outer = arg_loop (level - 1) read_rest s >>= add in
    let rest = arg_loop level read_rest s >>= add in
    if level == 0 && equal t close_paren
    then ok (new_eof t, t ◂ s)
    else if level == 0 && not read_rest && equal t comma
    then ok (new_eof t, t ◂ s)
    else if equal t open_paren
    then inner
    else if equal t close_paren
    then outer
    else rest

unfoldable pub read_macro_arg_one : Bool → Stream → Result (Stream × Stream)
unfolding arg_loop
read_macro_arg_one read_rest s = arg_loop 0 read_rest s

-- The arguments of the named parameters.
unfoldable pub args_loop : Bool → List (List ℕ) → Stream → Result (List MacroArg × Stream)
unfolding read_macro_arg_one
args_loop first [] s = ok ([], s)
args_loop first (param ∷ params) s = (if first then ok s else skip s comma) >>= (λ s1.
    read_macro_arg_one false s1 >>= (λ (a : Stream × Stream).
      args_loop false params a.1 >>= (λ (r : List MacroArg × Stream).
        ok (record { name = param; is_va_args = false; tok = a.0 } ∷ r.0, r.1))))

abbrev no_params : List (List ℕ) → Bool
no_params [] = true
no_params (param ∷ params) = false

-- The rest of the arguments. The error "too many arguments" is not reached: the loop over the
-- parameters has ended, and the check of the parenthesis below fails instead.
unfoldable pub read_va_args :
    List (List ℕ) → Option (List ℕ) → Stream → Result (List MacroArg × Stream)
unfolding read_macro_arg_one
read_va_args params none s = ok ([], s)
read_va_args params (some name) s =
    if starts s close_paren
    then ok (record { name = name; is_va_args = true; tok = new_eof (head s) } ∷ [], s)
    else (if no_params params then ok s else skip s comma) >>= (λ s1.
        read_macro_arg_one true s1 >>= (λ (a : Stream × Stream).
          ok (record { name = name; is_va_args = true; tok = a.0 } ∷ [], a.1)))

-- The stream begins with the parenthesis; the one returned begins with the closing one.
unfoldable pub read_macro_args :
    List (List ℕ) → Option (List ℕ) → Stream → Result (List MacroArg × Stream)
unfolding args_loop read_va_args
read_macro_args params va_args_name s =
    args_loop true params (after s) >>= (λ (r : List MacroArg × Stream).
      read_va_args params va_args_name r.1
      >>= (λ (v : List MacroArg × Stream). skip v.1 close_paren >>= (λ s1. ok (r.0 ++ v.0, v.1))))

unfoldable pub find_arg : List MacroArg → Tok → Option MacroArg
find_arg [] tok = none
find_arg (a ∷ args) tok =
    let rest = find_arg args tok in if same_key tok.word a.name then some a else rest

unfoldable pub has_varargs : List MacroArg → Bool
has_varargs [] = false
has_varargs (a ∷ args) =
    let rest = has_varargs args in
    if same_key a.name va_args then elim a.tok [ end t ↦ false | t ◂ s ↦ true ] else rest
