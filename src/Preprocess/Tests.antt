-- ===== src/Preprocess/Tests.antt =====
-- Examples of what is shown of the preprocessor.
use chibicc.Common.{
  ◌≡◌, refl, sym, arith, ℕ, zero, suc, ◌≤◌, Bool, true, false, ◌&&◌, none, List, [], ◌∷◌, ◌+◌,
  length, map, set, replicate, if◌then◌else◌, Bool-cases, inl, inr,
}
use chibicc.HashMap.{same_key, vacant, tombstone, entry}
use chibicc.HashMap.Search.{same_key_sound}
use chibicc.Tokenize.Result.{◌>>=◌, Result, ok, failed, ok_inj}
use chibicc.Tokenize.Lines.{backslash}
use chibicc.Tokenize.Lexeme.{TokenKind, Payload}
use chibicc.Preprocess.Hideset.{hideset_contains}
use chibicc.Preprocess.Names.{elif_name}
use chibicc.Preprocess.Stream.{Tok, Stream, end, ◌◂◌, head, equal, put_list}
use chibicc.Preprocess.Tree.{
  Text, none, line, define_line, undef_line, group, endif, else_, elif, defined, undefined,
  expression, within_line, word_token, hash_token, emit, emit_if, ordinary,
}
use chibicc.Preprocess.Text.{tokens_of, quote_string, quoted_size}
use chibicc.Preprocess.Text.Quote.{quoted_tok, quoted_end, tokens_of-quoted}
use chibicc.Preprocess.Skip.{skip_cond_incl}
use chibicc.Preprocess.Skip.Branch.{skip_cond_incl-emit}
use chibicc.Preprocess.Macro.{
  Macros, MacroArg, Macro, no_macros, macro_named, add_macro, undef_macro, find_macro,
  read_macro_args, comma, open_paren, close_paren,
}
use chibicc.Preprocess.Macro.Args.{
  closed, emit_args, arg_values, param_names, read_macro_args-emit_args,
}
use chibicc.Preprocess.State.{State, CondIncl}
use chibicc.Preprocess.Const.{eval_const_expr}
use chibicc.Preprocess.Subst.{subst_args}
use chibicc.Preprocess.Subst.Params.{
  lacks_operators, names_once, replaced, before_end, subst_args-replaced,
}
use chibicc.Preprocess.Loop.{preprocess2, preprocess}
use chibicc.Preprocess.Loop.Cost.{cost}
use chibicc.Preprocess.Loop.Macros.{all_plain, all_objlike, Finishes, preprocess2-Finishes}
use chibicc.Preprocess.Loop.Select.{select}
use chibicc.Preprocess.Loop.Handlers.{state_of}
use chibicc.Preprocess.Loop.Gives.{eval_of, Agrees}
use chibicc.Preprocess.Loop.Texts.{preprocess-select, preprocess-unterminated}
use chibicc.Preprocess.Runs.{no_parts}

abbrev one_word : List ℕ
one_word = b'1' ∷ []

abbrev zero_word : List ℕ
zero_word = b'0' ∷ []

abbrev is_pp_num : Tok → Bool
is_pp_num t = elim t.kind [ TokenKind.tk_pp_num ↦ true | _ ↦ false ]

-- The expressions `0` and `1`.
unfoldable expr_value : Macros → List Tok → Result Bool
unfolding same_key
expr_value macros (t ∷ []) =
    if is_pp_num t && equal t one_word
    then ok true
    else if is_pp_num t && equal t zero_word
    then ok false
    else failed
expr_value macros _ = failed

pp_num_kind : (t : Tok) → is_pp_num t ≡ true → t.kind ≡ TokenKind.tk_pp_num
pp_num_kind t e = ground arith

digit-eval :
    (fuel : ℕ) (macros : Macros) (conds : List CondIncl) (name : List ℕ) (t : Tok) (b : Bool)
    (s : Stream)
    → 1 ≤ fuel
    → (head s).at_bol ≡ true
    → t.kind ≡ TokenKind.tk_pp_num
    → t.word ≡ (if b then one_word else zero_word)
    → eval_of no_parts fuel
        (state_of macros conds)
        (word_token name ◂ put_list (map within_line (t ∷ [])) s)
      ≡ ok (b, s, state_of macros conds)
unfolding eval_const_expr same_key
digit-eval zero macros conds name t b s h bol k w = absurd (omega arith)
digit-eval (suc fuel) macros conds name t true (end u) h bol k w =
    elim (Bool-cases (hideset_contains t.hideset one_word)) [
      | inl z ↦ rw bol (rw w (rw k (rw z (rw (k, w) refl))))
      | inr z ↦ rw bol (rw w (rw k (rw z (rw (k, w) refl))))
    ]
digit-eval (suc fuel) macros conds name t true (u ◂ s) h bol k w =
    elim (Bool-cases (hideset_contains t.hideset one_word)) [
      | inl z ↦ rw bol (rw w (rw k (rw z (rw (k, w) refl))))
      | inr z ↦ rw bol (rw w (rw k (rw z (rw (k, w) refl))))
    ]
digit-eval (suc fuel) macros conds name t false (end u) h bol k w =
    elim (Bool-cases (hideset_contains t.hideset zero_word)) [
      | inl z ↦ rw bol (rw w (rw k (rw z (rw (k, w) refl))))
      | inr z ↦ rw bol (rw w (rw k (rw z (rw (k, w) refl))))
    ]
digit-eval (suc fuel) macros conds name t false (u ◂ s) h bol k w =
    elim (Bool-cases (hideset_contains t.hideset zero_word)) [
      | inl z ↦ rw bol (rw w (rw k (rw z (rw (k, w) refl))))
      | inr z ↦ rw bol (rw w (rw k (rw z (rw (k, w) refl))))
    ]

digit-Agrees : Agrees no_parts expr_value 1
unfolding expr_value
digit-Agrees fuel macros conds name [] b s h bol e = absurd cc
digit-Agrees fuel macros conds name (t ∷ u ∷ ts) b s h bol e = absurd cc
digit-Agrees fuel macros conds name (t ∷ []) b s h bol e =
    elim (Bool-cases (is_pp_num t && equal t one_word)) [
      | inl z ↦
          let q : true ≡ b = ok_inj (rw z at e) in
          let w : equal t one_word ≡ true = ground arith in
          let k : is_pp_num t ≡ true = ground arith in
          rw (sym q) (
            digit-eval fuel macros conds name t true s h bol (pp_num_kind t k)
              (same_key_sound t.word one_word w))
      | inr z ↦ elim (Bool-cases (is_pp_num t && equal t zero_word)) [
        | inl y ↦
            let q : false ≡ b = ok_inj (rw (z, y) at e) in
            let w : equal t zero_word ≡ true = ground arith in
            let k : is_pp_num t ≡ true = ground arith in
            rw (sym q) (
              digit-eval fuel macros conds name t false s h bol (pp_num_kind t k)
                (same_key_sound t.word zero_word w))
        | inr y ↦ let v = rw (z, y) at e in absurd cc
      ]
    ]

abbrev number_token : List ℕ → Tok
number_token w = record {
  kind = TokenKind.tk_pp_num;
  word = w;
  at_bol = false;
  has_space = true;
  hideset = [];
  payload = Payload.nothing;
}

abbrev end_token : Tok
end_token = record {
  kind = TokenKind.tk_eof;
  word = [];
  at_bol = true;
  has_space = false;
  hideset = [];
  payload = Payload.nothing;
}

abbrev a_name : List ℕ
a_name = b'A' ∷ []

abbrev b_name : List ℕ
b_name = b'B' ∷ []

abbrev x_name : List ℕ
x_name = b'x' ∷ []

abbrev x_line : Text
x_line = line (word_token x_name) (word_token a_name ∷ []) none

abbrev y_line : Text
y_line = line (number_token one_word) [] none

-- `#ifdef A`, `#elif 1` with a nested group in the part that it includes, `#else`.
abbrev nested_groups : Text
nested_groups =
    group (defined a_name) (group (undefined b_name) x_line endif none)
      (elif (expression (number_token one_word ∷ []))
        (define_line b_name (word_token x_name ∷ [])
          (group (defined b_name) y_line (else_ x_line) y_line))
        (else_ x_line))
      (undef_line b_name x_line)

-- The table in which `B` was defined and then deleted.
abbrev without_b : Macros
without_b = record { buckets = set (replicate 16 vacant) 13 tombstone; used = 1 }

preprocess-select_example :
    preprocess no_parts 60 (state_of no_macros []) (emit nested_groups (end end_token))
    ≡ ok (
      put_list
          (record (number_token one_word) { at_bol = true }
            ∷ record (number_token one_word) { at_bol = true }
            ∷ record (word_token x_name) { at_bol = true }
            ∷ word_token a_name
            ∷ [])
          (end end_token),
      state_of without_b [],
    )
unfolding select emit ordinary hideset_contains macro_named undef_macro add_macro find_macro
    same_key expr_value
preprocess-select_example =
    preprocess-select no_parts expr_value 1 digit-Agrees nested_groups no_macros without_b
      (record (number_token one_word) { at_bol = true }
        ∷ record (number_token one_word) { at_bol = true }
        ∷ record (word_token x_name) { at_bol = true }
        ∷ word_token a_name
        ∷ [])
      end_token 60 refl refl refl (omega arith)

preprocess-unterminated_example :
    preprocess no_parts 40
      (state_of no_macros [])
      (emit y_line (emit_if (defined a_name) (emit x_line (end end_token))))
    ≡ failed
unfolding select emit ordinary hideset_contains macro_named undef_macro add_macro find_macro
    same_key expr_value
preprocess-unterminated_example =
    preprocess-unterminated no_parts expr_value 1 digit-Agrees y_line (defined a_name) false x_line
      no_macros no_macros no_macros (record (number_token one_word) { at_bol = true } ∷ [])
      (record (word_token x_name) { at_bol = true } ∷ word_token a_name ∷ []) end_token 40
      (refl, refl) refl refl refl refl (omega arith)

abbrev macro_of : List ℕ → List Tok → Macro
macro_of name body = record {
  name = name;
  is_objlike = true;
  params = [];
  va_args_name = none;
  body = put_list body (end end_token);
  handler = none;
}

-- `A` is `B x`, and `B` is `A A`.
abbrev each_other : State
each_other =
    state_of
      (record {
        buckets =
            set
              (set (replicate 16 vacant) 13
                (entry b_name (macro_of b_name (word_token a_name ∷ word_token a_name ∷ []))))
              14 (entry a_name (macro_of a_name (word_token b_name ∷ word_token x_name ∷ [])));
        used = 2;
      })
      []

abbrev a_text : Stream
a_text = word_token a_name ◂ number_token one_word ◂ end end_token

preprocess2-Finishes_example : Finishes each_other (preprocess2 no_parts 18 each_other a_text)
unfolding all_plain all_objlike cost same_key hideset_contains
preprocess2-Finishes_example =
    preprocess2-Finishes no_parts 18 each_other a_text refl refl (omega arith)

abbrev punct_token : List ℕ → Tok
punct_token w = record {
  kind = TokenKind.tk_punct;
  word = w;
  at_bol = false;
  has_space = false;
  hideset = [];
  payload = Payload.nothing;
}

-- The arguments `x` and `(A,A)`.
abbrev two_args : List (List ℕ × List Tok)
two_args =
    (a_name, word_token x_name ∷ [])
    ∷ (
      b_name,
      punct_token open_paren
          ∷ word_token a_name
          ∷ punct_token comma
          ∷ word_token a_name
          ∷ punct_token close_paren
          ∷ [],
    )
    ∷ []

read_macro_args-emit_args_example :
    read_macro_args (param_names two_args) none (
      punct_token open_paren
      ◂ emit_args (punct_token comma) (punct_token close_paren) two_args (end end_token))
    ≡ ok (
      arg_values (punct_token comma) (punct_token close_paren) two_args,
      punct_token close_paren ◂ end end_token,
    )
unfolding closed same_key
read_macro_args-emit_args_example =
    read_macro_args-emit_args (punct_token open_paren) (punct_token comma) (punct_token close_paren)
      two_args (end end_token) refl refl refl

-- A text with a backslash and a quote.
abbrev escaped_text : List ℕ
escaped_text = b'a' ∷ backslash ∷ b'"' ∷ b'b' ∷ []

tokens_of-quoted_example :
    (tokens_of (quote_string escaped_text) ≡ ok (quoted_tok escaped_text ◂ end quoted_end))
    × (quoted_size escaped_text 3 ≡ length (quote_string escaped_text) + 1)
tokens_of-quoted_example = tokens_of-quoted escaped_text refl

skip_cond_incl-emit_example :
    skip_cond_incl (emit nested_groups (hash_token ◂ word_token elif_name ◂ end end_token))
    ≡ ok (hash_token ◂ word_token elif_name ◂ end end_token)
unfolding ordinary same_key
skip_cond_incl-emit_example =
    skip_cond_incl-emit nested_groups (word_token elif_name ◂ end end_token) refl refl

-- The body `A (B)` with the argument `1 x` for `B`.
abbrev one_param : List MacroArg
one_param =
    record {
      name = b_name;
      is_va_args = false;
      tok = number_token one_word ◂ word_token x_name ◂ end end_token;
    }
    ∷ []

abbrev param_body : Stream
param_body =
    word_token a_name
    ◂ punct_token open_paren
    ◂ word_token b_name
    ◂ punct_token close_paren
    ◂ end end_token

subst_args-replaced_example :
    subst_args (preprocess2 no_parts 9) each_other param_body one_param
    ≡ replaced (preprocess2 no_parts 9) each_other one_param param_body >>= before_end param_body
unfolding lacks_operators names_once same_key
subst_args-replaced_example =
    subst_args-replaced (preprocess2 no_parts 9) each_other param_body one_param refl refl
