-- ===== src/Preprocess/Subst.antt =====
-- preprocess.c: subst, the body of a function-like macro with its arguments.
-- An argument that is macro-expanded keeps the links that the expansion wrote into its tokens, so
-- that the arguments are part of what the loop changes.
pub mod Params
use chibicc.Common.{
  ℕ, zero, suc, ◌-◌, Bool, true, false, ◌&&◌, Option, none, some, List, [], ◌∷◌, if◌then◌else◌,
}
use chibicc.HashMap.{same_key}
use chibicc.Tokenize.Result.{Result, ok, failed, out_of_fuel, ◌>>=◌}
use chibicc.Preprocess.Stream.{Tok, Stream, end, ◌◂◌, head, next, size, equal, starts, skip}
use chibicc.Preprocess.Skip.{after}
use chibicc.Preprocess.Text.{stringize, paste}
use chibicc.Preprocess.Macro.{
  MacroArg, comma, open_paren, close_paren, read_macro_arg_one, find_arg, has_varargs,
}
use chibicc.Preprocess.State.{State, Preprocessed, Preprocessor}

abbrev pub hash_hash : List ℕ
hash_hash = b'#' ∷ b'#' ∷ []

abbrev pub va_opt : List ℕ
va_opt = b'_' ∷ b'_' ∷ b'V' ∷ b'A' ∷ b'_' ∷ b'O' ∷ b'P' ∷ b'T' ∷ b'_' ∷ b'_' ∷ []

abbrev pub is_end : Stream → Bool
is_end (end t) = true
is_end (t ◂ s) = false

abbrev pub tokens : Stream → List Tok
tokens (end t) = []
tokens (t ◂ s) = t ∷ tokens s

-- `at_bol` and `has_space` of the first token, written with those of `tmpl`.
abbrev pub set_first : Tok → Stream → Stream
set_first tmpl (end t) = end (record t { at_bol = tmpl.at_bol; has_space = tmpl.has_space })
set_first tmpl (t ◂ s) = record t { at_bol = tmpl.at_bol; has_space = tmpl.has_space } ◂ s

-- The first `n` tokens, and then the other stream.
abbrev pub keep : ℕ → Stream → Stream → Stream
keep zero s rest = rest
keep (suc n) (end t) rest = rest
keep (suc n) (t ◂ s) rest = t ◂ keep n s rest

abbrev drop_tokens : ℕ → Stream → Stream
drop_tokens zero s = s
drop_tokens (suc n) (end t) = end t
drop_tokens (suc n) (t ◂ s) = drop_tokens n s

-- The argument's tokens after it was preprocessed to `out`.
abbrev pub linked : Stream → Option (ℕ × ℕ) → Stream → Stream
linked arg none out = arg
linked arg (some own) out = keep (size arg - own.0) arg (drop_tokens own.1 out)

abbrev pub set_arg : List MacroArg → List ℕ → Stream → List MacroArg
set_arg [] name s = []
set_arg (a ∷ args) name s =
    if same_key a.name name then record a { tok = s } ∷ args else a ∷ set_arg args name s

-- What the loop has made, the latest token first, the arguments and the state.
pub record Sub : Type 0 where
  pub made : List Tok
  pub args : List MacroArg
  pub state : State

abbrev pub add_tok : Sub → Tok → Sub
add_tok x t = record x { made = t ∷ x.made }

abbrev pub add_all : List Tok → List Tok → List Tok
add_all made [] = made
add_all made (t ∷ ts) = add_all (t ∷ made) ts

abbrev add_tokens : Sub → Stream → Sub
add_tokens x s = record x { made = add_all x.made (tokens s) }

-- `*cur = *paste(cur, rhs)`.
unfoldable pub paste_last : Sub → Tok → Result Sub
unfolding paste
paste_last x rhs = elim x.made [
  | [] ↦ failed
  | lhs ∷ made ↦ paste lhs rhs >>= (λ t. ok (record x { made = t ∷ made }))
]

-- `#` and a parameter.
unfoldable pub subst_hash : Sub → Stream → Result (Sub × Stream)
unfolding stringize find_arg
subst_hash x s = elim (find_arg x.args (head s)) [
  | none ↦ failed
  | some arg ↦ stringize arg.tok >>= (λ t. ok (add_tok x t, after s))
]

abbrev is_start : Sub → Bool
is_start x = elim x.made [ [] ↦ true | t ∷ ts ↦ false ]

-- `##`, with `s` behind it.
unfoldable pub subst_paste : Sub → Stream → Result (Sub × Stream)
unfolding paste_last find_arg
subst_paste x (end t) = failed
subst_paste x (t ◂ s) = elim (find_arg x.args t) [
  | none ↦ paste_last x t >>= (λ y. ok (y, s))
  | some arg ↦ elim arg.tok [
    | end u ↦ ok (x, s)
    | u ◂ us ↦ paste_last x u >>= (λ y. ok (add_tokens y us, s))
  ]
]

-- A parameter before `##`, with `s` at that token.
unfoldable pub subst_before_paste : Sub → MacroArg → Stream → Result (Sub × Stream)
unfolding find_arg
subst_before_paste x arg s = elim arg.tok [
  | u ◂ us ↦ ok (add_tokens x arg.tok, s)
  | end u ↦ next (after s) >>= (λ s1. elim (find_arg x.args (head (after s))) [
    | some arg2 ↦ ok (add_tokens x arg2.tok, s1)
    | none ↦ ok (add_tok x (head (after s)), s1)
  ])
]

-- `__VA_OPT__`, with `s` at the parenthesis.
unfoldable pub subst_va_opt : Sub → Stream → Result (Sub × Stream)
unfolding read_macro_arg_one has_varargs
subst_va_opt x s = read_macro_arg_one true (after s) >>= (λ (r : Stream × Stream).
    skip r.1 close_paren >>= (λ s1. ok (if has_varargs x.args then add_tokens x r.0 else x, s1)))

-- A parameter that the token `t` names.
unfoldable pub subst_param : Preprocessor → Sub → MacroArg → Tok → Stream → Result (Sub × Stream)
subst_param preprocess2 x arg t s = preprocess2 x.state arg.tok >>= (λ (p : Preprocessed).
    let out = set_first t p.out in
    let args = set_arg x.args arg.name (linked arg.tok p.own out) in
    ok (record { made = add_all x.made (tokens out); args = args; state = p.state }, s))

abbrev is_va_args_at : Sub → Stream → Bool
is_va_args_at x s = elim (find_arg x.args (head s)) [ none ↦ false | some arg ↦ arg.is_va_args ]

-- `,` and `##` before the rest of the arguments, with `s` at `##`.
unfoldable pub subst_comma : Sub → Tok → Stream → Result (Sub × Stream)
unfolding find_arg
subst_comma x t s = elim (find_arg x.args (head (after s))) [
  | none ↦ failed
  | some arg ↦
      if is_end arg.tok then next (after s) >>= (λ s1. ok (x, s1)) else ok (add_tok x t, after s)
]

abbrev pub is_va_opt : Tok → Stream → Bool
is_va_opt t s = equal t va_opt && starts s open_paren

unfoldable pub subst_tok : Preprocessor → Sub → Tok → Stream → Result (Sub × Stream)
unfolding find_arg subst_before_paste subst_va_opt subst_param
subst_tok preprocess2 x t s = elim (find_arg x.args t) [
  | none ↦ if is_va_opt t s then subst_va_opt x s else ok (add_tok x t, s)
  | some arg ↦
      if starts s hash_hash
      then subst_before_paste x arg s
      else if is_va_opt t s
      then subst_va_opt x s
      else subst_param preprocess2 x arg t s
]

-- A round of the loop, at the token `t`.
unfoldable pub subst_step : Preprocessor → Sub → Tok → Stream → Result (Sub × Stream)
unfolding subst_hash subst_comma subst_paste subst_tok
subst_step preprocess2 x t s =
    if equal t (b'#' ∷ [])
    then subst_hash x s
    else if equal t comma && starts s hash_hash && is_va_args_at x (after s)
    then subst_comma x t s
    else if equal t hash_hash
    then if is_start x then failed else subst_paste x s
    else subst_tok preprocess2 x t s

abbrev pub unwind : List Tok → Stream → Stream
unwind [] s = s
unwind (t ∷ ts) s = unwind ts (t ◂ s)

-- Every round takes a token of the body at least.
unfoldable pub subst_loop : ℕ → Preprocessor → Sub → Stream → Result (Stream × State)
unfolding subst_step
subst_loop fuel preprocess2 x (end t) = ok (unwind x.made (end t), x.state)
subst_loop zero preprocess2 x (t ◂ s) = out_of_fuel
subst_loop (suc fuel) preprocess2 x (t ◂ s) =
    subst_step preprocess2 x t s >>= (λ (r : Sub × Stream). subst_loop fuel preprocess2 r.0 r.1)

unfoldable pub subst_args : Preprocessor → State → Stream → List MacroArg → Result (Stream × State)
unfolding subst_loop
subst_args preprocess2 st tok args =
    subst_loop (size tok) preprocess2 (record { made = []; args = args; state = st }) tok
