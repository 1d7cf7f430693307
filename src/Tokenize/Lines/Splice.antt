-- ===== src/Tokenize/Lines/Splice.antt =====
-- tokenize.c: what `remove_backslash_newline` leaves of the lines.
use chibicc.Common.{
  Bool, true, false, not, ◌&&◌, ◌==◌, ◌∙◌, ℕ, suc, ◌+◌, ◌≤◌, ◌≡◌, ◌≢◌, refl, sym, ap, arith, List,
  [], ◌∷◌, ◌++◌, length, replicate, count, count-append, count-replicate_self, length-append,
  length-replicate,
}
use mathlib.Core.List.{append-nil}
use chibicc.Tokenize.Lines.{newline, backslash, splice_loop, remove_backslash_newline}

count-splice_loop : (n : ℕ) (t : List ℕ) → count newline (splice_loop n t) ≡ n + count newline t
unfolding splice_loop
count-splice_loop n [] = omega (arith, count-replicate_self newline n)
count-splice_loop n (c ∷ []) = omega (arith, count-replicate_self newline n)
count-splice_loop n (c ∷ d ∷ rest) = ground (
  arith,
  count-splice_loop (suc n) rest,
  count-splice_loop 0 (d ∷ rest),
  count-splice_loop n (d ∷ rest),
  count-append newline (replicate n newline) (splice_loop 0 (d ∷ rest)),
  count-replicate_self newline n,
)

length-splice_loop : (n : ℕ) (t : List ℕ) → length (splice_loop n t) ≤ n + length t
unfolding splice_loop
length-splice_loop n [] = omega (arith, length-replicate {A = ℕ} n newline)
length-splice_loop n (c ∷ []) = omega (arith, length-replicate {A = ℕ} n newline)
length-splice_loop n (c ∷ d ∷ rest) = ground (
  arith,
  length-splice_loop (suc n) rest,
  length-splice_loop 0 (d ∷ rest),
  length-splice_loop n (d ∷ rest),
  length-append (replicate n newline) (splice_loop 0 (d ∷ rest)),
  length-replicate {A = ℕ} n newline,
)

-- The last byte is no backslash.
abbrev pub EndsPlain : List ℕ → Type 0
EndsPlain [] = Unit
EndsPlain (c ∷ []) = c ≢ backslash
EndsPlain (c ∷ d ∷ rest) = EndsPlain (d ∷ rest)

splice_loop-newline :
    (n : ℕ) (post : List ℕ)
    → splice_loop n (newline ∷ post) ≡ newline ∷ (replicate n newline ++ splice_loop 0 post)
unfolding splice_loop
splice_loop-newline n [] = ap (◌∷◌ newline) (sym (append-nil (replicate n newline)))
splice_loop-newline n (d ∷ rest) = refl

unfoldable pub lacks_newline : List ℕ → Bool
lacks_newline [] = true
lacks_newline (c ∷ p) = not (c == newline) && lacks_newline p

-- A part of a line up to a backslash and a newline.
splice_loop-part :
    (n : ℕ) (part rest : List ℕ)
    → lacks_newline part ≡ true
    → splice_loop n (part ++ (backslash ∷ newline ∷ rest)) ≡ part ++ splice_loop (suc n) rest
unfolding splice_loop lacks_newline
splice_loop-part n [] rest h = refl
splice_loop-part n (c ∷ []) rest h =
    let z : (c == newline) ≡ false = ground arith in
    let b : (c == backslash && backslash == newline) ≡ false = ground arith in rw (b, z) refl
splice_loop-part n (c ∷ d ∷ part) rest h =
    let z : (c == newline) ≡ false = ground arith in
    let b : (c == backslash && d == newline) ≡ false = ground arith in
    let l : lacks_newline (d ∷ part) ≡ true = ground arith in
    rw (b, z) (ap (◌∷◌ c) (splice_loop-part n (d ∷ part) rest l))

-- The last part, with the newlines that were removed before it.
splice_loop-last :
    (n : ℕ) (part post : List ℕ)
    → lacks_newline part ≡ true
    → EndsPlain part
    → splice_loop n (part ++ (newline ∷ post))
      ≡ part ++ (newline ∷ (replicate n newline ++ splice_loop 0 post))
unfolding splice_loop lacks_newline
splice_loop-last n [] post h e = splice_loop-newline n post
splice_loop-last n (c ∷ []) post h e =
    let z : (c == newline) ≡ false = ground arith in
    let b : (c == backslash && newline == newline) ≡ false = ground arith in
    rw (b, z) (ap (◌∷◌ c) (splice_loop-newline n post))
splice_loop-last n (c ∷ d ∷ part) post h e =
    let z : (c == newline) ≡ false = ground arith in
    let b : (c == backslash && d == newline) ≡ false = ground arith in
    let l : lacks_newline (d ∷ part) ≡ true = ground arith in
    rw (b, z) (ap (◌∷◌ c) (splice_loop-last n (d ∷ part) post l e))

-- Parts of a line, each of which a backslash and a newline end, before `rest`.
unfoldable pub continued : List (List ℕ) → List ℕ → List ℕ
continued [] rest = rest
continued (part ∷ parts) rest = part ++ (backslash ∷ newline ∷ continued parts rest)

unfoldable pub joined : List (List ℕ) → List ℕ → List ℕ
joined [] rest = rest
joined (part ∷ parts) rest = part ++ joined parts rest

unfoldable pub all_lack_newline : List (List ℕ) → Bool
unfolding lacks_newline
all_lack_newline [] = true
all_lack_newline (part ∷ parts) = lacks_newline part && all_lack_newline parts

splice_loop-continued :
    (n m : ℕ) (parts : List (List ℕ)) (part post : List ℕ)
    → all_lack_newline parts ≡ true
    → lacks_newline part ≡ true
    → EndsPlain part
    → n + length parts ≡ m
    → splice_loop n (continued parts (part ++ (newline ∷ post)))
      ≡ joined parts (part ++ (newline ∷ (replicate m newline ++ splice_loop 0 post)))
unfolding all_lack_newline continued joined
splice_loop-continued n m [] part post a h e k =
    let q : n ≡ m = omega arith in rw (sym q) (splice_loop-last n part post h e)
splice_loop-continued n m (p ∷ parts) part post a h e k =
    let l : lacks_newline p ≡ true = ground arith in
    let a' : all_lack_newline parts ≡ true = ground arith in
    splice_loop-part n p (continued parts (part ++ (newline ∷ post))) l
    ∙ ap (λ r. p ++ r) (splice_loop-continued (suc n) m parts part post a' h e (omega arith))

-- A line that is continued with a backslash at the end of each of its lines but the last becomes one
-- line, without these backslashes; behind it stand the newlines that were removed, so that what
-- follows keeps its line number, and is treated by itself. The parts have no newline, and the last
-- does not end in a backslash.
pub remove_backslash_newline-lines :
    (parts : List (List ℕ)) (part post : List ℕ)
    → all_lack_newline parts ≡ true
    → lacks_newline part ≡ true
    → EndsPlain part
    → remove_backslash_newline (continued parts (part ++ (newline ∷ post)))
      ≡ joined parts
          (part ++ (newline ∷ (replicate (length parts) newline ++ remove_backslash_newline post)))
unfolding remove_backslash_newline
remove_backslash_newline-lines parts part post a h e =
    splice_loop-continued 0 (length parts) parts part post a h e (omega arith)

-- The text keeps its newlines, and fits where it stood.
pub remove_backslash_newline-count :
    (t : List ℕ)
    → (count newline (remove_backslash_newline t) ≡ count newline t)
      × (length (remove_backslash_newline t) ≤ length t)
unfolding remove_backslash_newline
remove_backslash_newline-count t = omega (arith, count-splice_loop 0 t, length-splice_loop 0 t)
