-- ===== src/Tokenize/Scan.antt =====
-- tokenize.c: `tokenize` and `add_line_numbers`.
-- `loc` is the distance from the start of the text. The file that a token names is left out.
pub mod Places
pub mod LineNumbers
pub mod File
pub mod Unclosed
use chibicc.Common.{
  ℕ, suc, zero, ◌+◌, Bool, true, false, Option, none, some, List, [], ◌∷◌, ◌==◌, if◌then◌else◌,
  drop, length,
}
use chibicc.Tokenize.Result.{Result, ok, failed, overrun, out_of_fuel, ◌>>=◌}
use chibicc.Tokenize.Lines.{newline}
use chibicc.Tokenize.Prepare.{prepare}
use chibicc.Tokenize.Lexeme.{TokenKind, Payload, Lexeme, blank, line_end, lexeme, lexeme_at}

pub record Token : Type 0 where
  pub kind : TokenKind
  pub loc : ℕ
  pub len : ℕ
  pub at_bol : Bool
  pub has_space : Bool
  pub line_no : ℕ
  pub payload : Payload

-- `at_bol` and `has_space` go with the first token that follows.
abbrev pub new_token : TokenKind → ℕ → ℕ → Bool → Bool → Payload → Token
new_token kind loc len bol space payload = record {
  kind = kind;
  loc = loc;
  len = len;
  at_bol = bol;
  has_space = space;
  line_no = 0;
  payload = payload;
}

-- The loop at `loc`, where `p` stands. Every round takes a byte at least.
unfoldable pub tokenize_loop : ℕ → List ℕ → ℕ → Bool → Bool → Result (List Token)
tokenize_loop fuel [] loc bol space =
    ok (new_token TokenKind.tk_eof loc 0 bol space Payload.nothing ∷ [])
tokenize_loop zero (c ∷ p) loc bol space = out_of_fuel
tokenize_loop (suc fuel) (c ∷ p) loc bol space = lexeme_at (c ∷ p) >>= (λ (x : Lexeme). elim x [
  | blank n ↦ tokenize_loop fuel (drop n (c ∷ p)) (loc + n) bol true
  | line_end ↦ tokenize_loop fuel p (loc + 1) true false
  | lexeme kind n payload ↦
      tokenize_loop fuel (drop n (c ∷ p)) (loc + n) false false
      >>= (λ ts. ok (new_token kind loc n bol space payload ∷ ts))
])

-- `p` is at `loc`, in line `n`, up to and with the terminating NUL.
unfoldable pub add_line_numbers : List ℕ → ℕ → ℕ → List Token → List Token
add_line_numbers p loc n [] = []
add_line_numbers [] loc n (t ∷ ts) = (if t.loc == loc then record t { line_no = n } else t) ∷ ts
add_line_numbers (c ∷ p) loc n (t ∷ ts) =
    let next = (if c == newline then n + 1 else n) in
    let hit = record t { line_no = n } ∷ add_line_numbers p (loc + 1) next ts in
    let miss = add_line_numbers p (loc + 1) next (t ∷ ts) in if t.loc == loc then hit else miss

unfoldable pub tokenize : List ℕ → Result (List Token)
unfolding tokenize_loop add_line_numbers
tokenize text =
    tokenize_loop (length text) text 0 true false >>= (λ ts. ok (add_line_numbers text 0 1 ts))

-- The tokens of a file with the bytes `raw`.
unfoldable pub tokenize_file : List ℕ → Result (List Token)
unfolding prepare tokenize
tokenize_file raw = prepare raw >>= tokenize
