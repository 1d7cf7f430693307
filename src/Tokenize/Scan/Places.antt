-- ===== src/Tokenize/Scan/Places.antt =====
-- tokenize.c: where the tokens stand.
use chibicc.Common.{
  ℕ, suc, zero, ◌+◌, ◌≤◌, ◌<◌, ◌≡◌, ◌≢◌, arith, refl, Bool, true, false, List, [], ◌∷◌, ◌==◌,
  if◌then◌else◌, drop, length, length-drop, Bool-cases, inl, inr,
}
use chibicc.Tokenize.Lines.{newline}
use chibicc.Tokenize.Result.{Result, ok, failed, overrun, out_of_fuel, ◌>>=◌}
use chibicc.Tokenize.Universal.Convert.{EndsLine}
use chibicc.Tokenize.Reads.{Reads}
use chibicc.Tokenize.Lexeme.{TokenKind, Lexeme, blank, line_end, lexeme, lexeme_at}
use chibicc.Tokenize.Lexeme.Within.{lexeme_at-Reads, extent}
use chibicc.Tokenize.Scan.{Token, new_token, tokenize_loop, add_line_numbers, tokenize}

-- From `from` on the tokens follow each other without an overlap, each but the last of a byte at least,
-- and the last, of no byte, stands at `size`.
abbrev pub ArePlaced : ℕ → ℕ → List Token → Type 0
ArePlaced size from [] = ⊥
ArePlaced size from (t ∷ []) =
    (from ≤ size) × (t.loc ≡ size) × (t.len ≡ 0) × (t.kind ≡ TokenKind.tk_eof)
ArePlaced size from (t ∷ u ∷ ts) =
    (from ≤ t.loc) × (0 < t.len) × ArePlaced size (t.loc + t.len) (u ∷ ts)

-- Every line has its newline.
abbrev pub IsText : List ℕ → Type 0
IsText [] = Unit
IsText (c ∷ p) = EndsLine (c ∷ p)

IsText-drop : (n : ℕ) (p : List ℕ) → n ≤ length p → IsText p → IsText (drop n p)
IsText-drop zero p h e = e
IsText-drop (suc n) [] h e = absurd (omega arith)
IsText-drop (suc n) (c ∷ []) h e = IsText-drop n [] (omega arith) tt
IsText-drop (suc n) (c ∷ d ∷ p) h e = IsText-drop n (d ∷ p) (omega arith) e

-- What scanning the text of `size` bytes delivers, where `rest` of it is left from `from` on.
abbrev pub Scans : ℕ → ℕ → List ℕ → Result (List Token) → Type 0
Scans size from rest (ok ts) = ArePlaced size from ts
Scans size from rest failed = Unit
Scans size from rest overrun = ¬ IsText rest
Scans size from rest out_of_fuel = ⊥

ArePlaced-earlier :
    (size from from' : ℕ) (ts : List Token)
    → from' ≤ from
    → ArePlaced size from ts
    → ArePlaced size from' ts
ArePlaced-earlier size from from' [] h k = k
ArePlaced-earlier size from from' (t ∷ []) h k = (omega (arith, k.0), k.1, k.2, k.3)
ArePlaced-earlier size from from' (t ∷ u ∷ ts) h k = (omega (arith, k.0), k.1, k.2)

ArePlaced-cons :
    (size from : ℕ) (t : Token) (ts : List Token)
    → from ≤ t.loc
    → 0 < t.len
    → ArePlaced size (t.loc + t.len) ts
    → ArePlaced size from (t ∷ ts)
ArePlaced-cons size from t [] h k p = absurd p
ArePlaced-cons size from t (u ∷ ts) h k p = (h, k, p)

-- The rest of the text after `n` bytes.
Scans-later :
    (size from n : ℕ) (p : List ℕ) (r : Result (List Token))
    → n ≤ length p
    → Scans size (from + n) (drop n p) r
    → Scans size from p r
Scans-later size from n p (ok ts) h k = ArePlaced-earlier size (from + n) from ts (omega arith) k
Scans-later size from n p failed h k = tt
Scans-later size from n p overrun h k = λ e. k (IsText-drop n p h e)
Scans-later size from n p out_of_fuel h k = k

-- A token of `n` bytes before the others.
Scans-token :
    (size from n : ℕ) (p : List ℕ) (t : Token) (r : Result (List Token))
    → 0 < n
    → n ≤ length p
    → t.loc ≡ from
    → t.len ≡ n
    → Scans size (from + n) (drop n p) r
    → Scans size from p (r >>= (λ ts. ok (t ∷ ts)))
Scans-token size from n p t (ok ts) z h l k s =
    ArePlaced-cons size from t ts (omega (arith, l)) (omega (arith, k)) (rw (l, k) s)
Scans-token size from n p t failed z h l k s = tt
Scans-token size from n p t overrun z h l k s = λ e. s (IsText-drop n p h e)
Scans-token size from n p t out_of_fuel z h l k s = s

-- A round, when the rounds that follow deliver what they should.
round-Scans :
    (size fuel from : ℕ) (p : List ℕ) (bol space : Bool) (r : Result Lexeme)
    → Reads extent 1 p r
    → (r ≡ overrun → p ≢ [])
    → ((n : ℕ) (bol space : Bool)
        → 1 ≤ n
        → n ≤ length p
        → Scans size (from + n) (drop n p) (tokenize_loop fuel (drop n p) (from + n) bol space))
    → Scans size from p (
        r >>= (λ (x : Lexeme). elim x [
          | blank n ↦ tokenize_loop fuel (drop n p) (from + n) bol true
          | line_end ↦ tokenize_loop fuel (drop 1 p) (from + 1) true false
          | lexeme kind n payload ↦
              tokenize_loop fuel (drop n p) (from + n) false false
              >>= (λ ts. ok (new_token kind from n bol space payload ∷ ts))
        ]))
round-Scans size fuel from p bol space (ok (blank n)) h z ih =
    Scans-later size from n p (tokenize_loop fuel (drop n p) (from + n) bol true) h.1
      (ih n bol true h.0 h.1)
round-Scans size fuel from p bol space (ok line_end) h z ih =
    Scans-later size from 1 p (tokenize_loop fuel (drop 1 p) (from + 1) true false) h.1
      (ih 1 true false h.0 h.1)
round-Scans size fuel from p bol space (ok (lexeme kind n payload)) h z ih =
    Scans-token size from n p (new_token kind from n bol space payload)
      (tokenize_loop fuel (drop n p) (from + n) false false) h.0 h.1 refl refl
      (ih n false false h.0 h.1)
round-Scans size fuel from p bol space failed h z ih = tt
round-Scans size fuel from [] bol space overrun h z ih = λ e. z refl refl
round-Scans size fuel from (c ∷ p) bol space overrun h z ih = h
round-Scans size fuel from p bol space out_of_fuel h z ih = h

pub tokenize_loop-Scans :
    (size fuel from : ℕ) (p : List ℕ) (bol space : Bool)
    → length p ≤ fuel
    → from + length p ≡ size
    → Scans size from p (tokenize_loop fuel p from bol space)
unfolding tokenize_loop
tokenize_loop-Scans size fuel from [] bol space h k = (omega arith, omega arith, refl, refl)
tokenize_loop-Scans size zero from (c ∷ p) bol space h k = absurd (omega arith)
tokenize_loop-Scans size (suc fuel) from (c ∷ p) bol space h k =
    round-Scans size fuel from (c ∷ p) bol space (lexeme_at (c ∷ p))
      (lexeme_at-Reads (c ∷ p) (omega arith)) (λ e q. cc)
      (λ n bol space l m.
        tokenize_loop-Scans size fuel (from + n) (drop n (c ∷ p)) bol space
          (omega (arith, length-drop n (c ∷ p))) (omega (arith, length-drop n (c ∷ p))))

pub ArePlaced-le : (size from : ℕ) (ts : List Token) → ArePlaced size from ts → from ≤ size
ArePlaced-le size from [] h = absurd h
ArePlaced-le size from (t ∷ []) h = h.0
ArePlaced-le size from (t ∷ u ∷ ts) h =
    omega (arith, h.0, h.1, ArePlaced-le size (t.loc + t.len) (u ∷ ts) h.2)

-- The line numbers move no token.
add_line_numbers-ArePlaced :
    (p : List ℕ) (loc n size from : ℕ) (ts : List Token)
    → ArePlaced size from ts
    → ArePlaced size from (add_line_numbers p loc n ts)
unfolding add_line_numbers
add_line_numbers-ArePlaced p loc n size from [] h = h
add_line_numbers-ArePlaced [] loc n size from (t ∷ ts) h = renumber (t.loc == loc) ts h
  where
    renumber :
        (b : Bool) (us : List Token)
        → ArePlaced size from (t ∷ us)
        → ArePlaced size from ((if b then record t { line_no = n } else t) ∷ us)
    renumber true [] h = h
    renumber true (u ∷ us) h = h
    renumber false us h = h
add_line_numbers-ArePlaced (c ∷ p) loc n size from (t ∷ []) h = elim (Bool-cases (t.loc == loc)) [
  | inl z ↦ rw z h
  | inr z ↦ rw z (
      add_line_numbers-ArePlaced p (loc + 1) (if c == newline then n + 1 else n) size from (t ∷ [])
        h)
]
add_line_numbers-ArePlaced (c ∷ p) loc n size from (t ∷ u ∷ ts) h =
    let next = (if c == newline then n + 1 else n) in
    elim (Bool-cases (t.loc == loc)) [
      | inl z ↦ rw z (
          ArePlaced-cons size from (record t { line_no = n })
            (add_line_numbers p (loc + 1) next (u ∷ ts)) h.0 h.1
            (add_line_numbers-ArePlaced p (loc + 1) next size (t.loc + t.len) (u ∷ ts) h.2))
      | inr z ↦ rw z (add_line_numbers-ArePlaced p (loc + 1) next size from (t ∷ u ∷ ts) h)
    ]

Scans-numbered :
    (size from : ℕ) (p text : List ℕ) (r : Result (List Token))
    → Scans size from p r
    → Scans size from p (r >>= (λ ts. ok (add_line_numbers text 0 1 ts)))
Scans-numbered size from p text (ok ts) h = add_line_numbers-ArePlaced text 0 1 size from ts h
Scans-numbered size from p text failed h = h
Scans-numbered size from p text overrun h = h
Scans-numbered size from p text out_of_fuel h = h

-- Whatever the text is, scanning ends, with an error message or with tokens: these stand in their order
-- without an overlap, each takes a byte at least, and the last is the end of the file at the end of the
-- text. Nothing is read past the end of the text unless its last line lacks its newline.
pub tokenize-Scans : (text : List ℕ) → Scans (length text) 0 text (tokenize text)
unfolding tokenize
tokenize-Scans text =
    Scans-numbered (length text) 0 text text (tokenize_loop (length text) text 0 true false) (
      tokenize_loop-Scans (length text) (length text) 0 text true false (omega arith) (omega arith))
