-- ===== src/Tokenize/Scan/LineNumbers.antt =====
-- tokenize.c: the line that a token is in.
use chibicc.Common.{
  ℕ, suc, zero, ◌+◌, ◌-◌, ◌≤◌, ◌≡◌, arith, sym, true, false, List, [], ◌∷◌, ◌==◌, if◌then◌else◌,
  length, Bool-cases, inl, inr, ◌∙◌, ==_iff,
}
use chibicc.Tokenize.Result.{ok, bind-ok_inv, ok_inj}
use chibicc.Tokenize.Lines.{newline}
use chibicc.Tokenize.Scan.{Token, tokenize_loop, add_line_numbers, tokenize}
use chibicc.Tokenize.Scan.Places.{ArePlaced, ArePlaced-le, tokenize_loop-Scans}

-- The number of newlines among the first `n` bytes.
unfoldable pub newlines : ℕ → List ℕ → ℕ
newlines zero p = 0
newlines (suc n) [] = 0
newlines (suc n) (c ∷ p) = (if c == newline then 1 else 0) + newlines n p

-- Every token has the number of its line, where `p` stands at `loc` in line `n`.
abbrev AreFrom : List ℕ → ℕ → ℕ → List Token → Type 0
AreFrom p loc n [] = Unit
AreFrom p loc n (t ∷ ts) =
    (loc ≤ t.loc) × (t.line_no ≡ n + newlines (t.loc - loc) p) × AreFrom p loc n ts

newlines_next :
    (c n k loc : ℕ) (p : List ℕ)
    → loc + 1 ≤ k
    → (if c == newline then n + 1 else n) + newlines (k - (loc + 1)) p
      ≡ n + newlines (k - loc) (c ∷ p)
newlines_next c n k loc p h = step (k - (loc + 1)) (k - loc) (omega arith)
  where
    step :
        (a b : ℕ)
        → b ≡ suc a
        → (if c == newline then n + 1 else n) + newlines a p ≡ n + newlines b (c ∷ p)
    step a zero e = absurd (omega arith)
    step a (suc b) e = let q : a ≡ b = omega arith in rw q (unfold newlines in ground arith)

AreFrom-cons :
    (c : ℕ) (p : List ℕ) (loc n : ℕ) (ts : List Token)
    → AreFrom p (loc + 1) (if c == newline then n + 1 else n) ts
    → AreFrom (c ∷ p) loc n ts
AreFrom-cons c p loc n [] h = tt
AreFrom-cons c p loc n (t ∷ ts) h =
    (omega (arith, h.0), h.1 ∙ newlines_next c n t.loc loc p h.0, AreFrom-cons c p loc n ts h.2)

hit_line : (n loc k : ℕ) (p : List ℕ) → k ≡ loc → n ≡ n + newlines (k - loc) p
hit_line n loc k p e = let q : k - loc ≡ 0 = omega arith in rw q (unfold newlines in omega arith)

add_line_numbers-AreFrom :
    (p : List ℕ) (loc n size from : ℕ) (ts : List Token)
    → loc ≤ from
    → loc + length p ≡ size
    → ArePlaced size from ts
    → AreFrom p loc n (add_line_numbers p loc n ts)
unfolding add_line_numbers
add_line_numbers-AreFrom p loc n size from [] l e h = absurd h
add_line_numbers-AreFrom [] loc n size from (t ∷ []) l e h =
    rw ((==_iff t.loc loc).1 (omega (arith, h)))
      (omega (arith, h.1), hit_line n loc t.loc [] (omega (arith, h.1)), tt)
add_line_numbers-AreFrom [] loc n size from (t ∷ u ∷ ts) l e h =
    absurd (omega (arith, h.0, h.1, ArePlaced-le size (t.loc + t.len) (u ∷ ts) h.2))
add_line_numbers-AreFrom (c ∷ p) loc n size from (t ∷ []) l e h =
    let next = (if c == newline then n + 1 else n) in
    elim (Bool-cases (t.loc == loc)) [
      | inl z ↦ absurd (ground (arith, h))
      | inr z ↦ rw z (
          AreFrom-cons c p loc n (add_line_numbers p (loc + 1) next (t ∷ [])) (
            add_line_numbers-AreFrom p (loc + 1) next size (loc + 1) (t ∷ []) (omega arith)
              (omega arith) (omega arith, h.1, h.2, h.3)))
    ]
add_line_numbers-AreFrom (c ∷ p) loc n size from (t ∷ u ∷ ts) l e h =
    let next = (if c == newline then n + 1 else n) in
    elim (Bool-cases (t.loc == loc)) [
      | inl z ↦ rw z (
        ground (arith, h.0),
        hit_line n loc t.loc (c ∷ p) (ground arith),
        AreFrom-cons c p loc n (add_line_numbers p (loc + 1) next (u ∷ ts)) (
            add_line_numbers-AreFrom p (loc + 1) next size (t.loc + t.len) (u ∷ ts)
              (omega (arith, h.0, h.1)) (omega arith) h.2),
      )
      | inr z ↦ rw z (
          AreFrom-cons c p loc n (add_line_numbers p (loc + 1) next (t ∷ u ∷ ts)) (
            add_line_numbers-AreFrom p (loc + 1) next size (loc + 1) (t ∷ u ∷ ts) (omega arith)
              (omega arith) (ground (arith, h.0), h.1, h.2)))
    ]

abbrev pub AreNumbered : List ℕ → List Token → Type 0
AreNumbered text [] = Unit
AreNumbered text (t ∷ ts) = (t.line_no ≡ 1 + newlines t.loc text) × AreNumbered text ts

AreFrom-AreNumbered : (text : List ℕ) (ts : List Token) → AreFrom text 0 1 ts → AreNumbered text ts
AreFrom-AreNumbered text [] h = tt
AreFrom-AreNumbered text (t ∷ ts) h =
    let q : t.loc - 0 ≡ t.loc = omega arith in
    let l = h.1 in (rw q at l, AreFrom-AreNumbered text ts h.2)

-- Every token that is scanned has the number of the line that it starts in: one more than there are
-- newlines before it.
pub tokenize-AreNumbered :
    (text : List ℕ) (ts : List Token) → tokenize text ≡ ok ts → AreNumbered text ts
unfolding tokenize
tokenize-AreNumbered text ts e =
    let (us, h, k) = bind-ok_inv (tokenize_loop (length text) text 0 true false) _ e in
    let s =
      tokenize_loop-Scans (length text) (length text) 0 text true false (omega arith)
        (omega arith) in
    let q : add_line_numbers text 0 1 us ≡ ts = ok_inj k in
    rw (sym q) (
      AreFrom-AreNumbered text (add_line_numbers text 0 1 us) (
        add_line_numbers-AreFrom text 0 1 (length text) 0 us (omega arith) (omega arith)
          (rw h at s)))
