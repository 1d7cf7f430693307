-- ===== src/Preprocess/Loop/Select.antt =====
-- The lines of a text that its conditions select: what conditional inclusion means.
use chibicc.Common.{
  ℕ, Bool, true, false, not, ◌&&◌, ◌||◌, none, some, List, [], ◌∷◌, ◌++◌, map, if◌then◌else◌,
}
use chibicc.Tokenize.Result.{Result, ok, failed, ◌>>=◌}
use chibicc.Preprocess.Names.{endif_name}
use chibicc.Preprocess.Stream.{Tok, Stream, head, equal, starts, new_eof, put_list}
use chibicc.Preprocess.Tree.{
  Text, none, line, define_line, undef_line, group, Branches, endif, else_, elif, Cond, defined,
  undefined, expression, first_of_line, within_line, directive, emit, emit_branches,
}
use chibicc.Preprocess.Macro.{Macros, Macro, open_paren, macro_named, add_macro, undef_macro}
use chibicc.Preprocess.Loop.{pragma_word, ms_pragma_word}
use chibicc.Preprocess.Loop.Macros.{is_left}

-- The value of an expression, with the macros that are defined.
abbrev pub Value : Type 0
Value = Macros → List Tok → Result Bool

-- The token is printed as it is.
abbrev pub is_quiet : Macros → Tok → Bool
is_quiet macros t = is_left macros t && not (equal t pragma_word || equal t ms_pragma_word)

unfoldable pub all_quiet : Macros → List Tok → Bool
unfolding macro_named
all_quiet macros [] = true
all_quiet macros (t ∷ ts) = is_quiet macros t && all_quiet macros ts

-- The object-like macro of a line before `s`.
abbrev pub objlike : List ℕ → List Tok → Stream → Macro
objlike m body s = record {
  name = m;
  is_objlike = true;
  params = [];
  va_args_name = none;
  body = put_list (map within_line body) (new_eof (head s));
  handler = none;
}

-- The name is not read as that of a function-like macro: its line ends in a token, or no
-- parenthesis follows it in the next line.
abbrev pub ends_name : List Tok → Stream → Bool
ends_name (t ∷ body) s = true
ends_name [] s = (head s).has_space || not (starts s open_paren)

abbrev pub is_defined : Macros → List ℕ → Bool
is_defined macros x = elim (macro_named macros x) [ some m ↦ true | none ↦ false ]

abbrev pub holds : Value → Macros → Cond → Result Bool
holds value macros (defined x) = ok (is_defined macros x)
holds value macros (undefined x) = ok (not (is_defined macros x))
holds value macros (expression e) = value macros e

abbrev pub Selected : Type 0
Selected = Result (Macros × List Tok)

unfoldable mutual
  unfolding all_quiet macro_named add_macro undef_macro emit

  -- The macros after the text, and its lines. It stands before the stream. A line with a macro in
  -- it, or with a pragma operator, is not described, and is a failure here; so is a name without a
  -- body before a line that begins with `(`.
  pub select : Value → Macros → Text → Stream → Selected
  select value macros none s = ok (macros, [])
  select value macros (line t ts x) s =
      let ws = first_of_line t ∷ map within_line ts in
      let rest = select value macros x s >>= (λ (r : Macros × List Tok). ok (r.0, ws ++ r.1)) in
      if all_quiet macros ws then rest else failed
  select value macros (define_line m body x) s =
      let rest =
        add_macro macros (objlike m body (emit x s))
        >>= (λ (added : Macros). select value added x s) in
      if ends_name body (emit x s) then rest else failed
  select value macros (undef_line m x) s =
      undef_macro macros m >>= (λ (left : Macros). select value left x s)
  select value macros (group c x bs y) s = holds value macros c >>= (λ b.
      let behind = emit_branches bs (emit y s) in
      let then_part = select value macros x behind in
      let else_part = select_branches value macros bs (emit y s) in
      (if b then then_part else else_part) >>= (λ (r : Macros × List Tok).
        select value r.0 y s >>= (λ (r' : Macros × List Tok). ok (r'.0, r.1 ++ r'.1))))

  -- The first branch whose condition holds.
  pub select_branches : Value → Macros → Branches → Stream → Selected
  select_branches value macros endif s = ok (macros, [])
  select_branches value macros (else_ x) s = select value macros x (directive endif_name [] s)
  select_branches value macros (elif c x bs) s = holds value macros c >>= (λ b.
      let then_part = select value macros x (emit_branches bs s) in
      let else_part = select_branches value macros bs s in if b then then_part else else_part)
