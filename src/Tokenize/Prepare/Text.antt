-- ===== src/Tokenize/Prepare/Text.antt =====
-- tokenize.c: the prepared text of a file without NUL bytes ends with a newline.
use chibicc.Common.{
  ℕ, suc, zero, Bool, true, false, not, ◌≤◌, ◌≡◌, ◌≢◌, refl, arith, List, [], ◌∷◌, ◌==◌, Bool-cases,
  inl, inr, ◌⊎◌, length, replicate, ◌&&◌,
}
use chibicc.Tokenize.Lines.{
  newline, backslash, canonicalize_newline, splice_loop, remove_backslash_newline,
}
use chibicc.Tokenize.Lines.Canonical.{length-canonicalize_newline}
use chibicc.Tokenize.Lines.Splice.{remove_backslash_newline-count}
use chibicc.Tokenize.Universal.{convert_universal_chars}
use chibicc.Tokenize.Universal.Convert.{
  EndsLine, EndsLine-append, Fits, Fits-weaken, convert_universal_chars-Fits,
}
use chibicc.Tokenize.Prepare.{terminate, skip_bom, up_to_nul, prepare}

terminate-EndsLine : (raw : List ℕ) → EndsLine (terminate raw)
unfolding terminate
terminate-EndsLine [] = refl
terminate-EndsLine (c ∷ []) = ground arith
terminate-EndsLine (c ∷ d ∷ []) = ground arith
terminate-EndsLine (c ∷ d ∷ e ∷ rest) = terminate-EndsLine (d ∷ e ∷ rest)

skip_bom-EndsLine : (t : List ℕ) → EndsLine t → EndsLine (skip_bom t)
unfolding skip_bom
skip_bom-EndsLine [] h = h
skip_bom-EndsLine (a ∷ []) h = ground arith
skip_bom-EndsLine (a ∷ b ∷ []) h = ground arith
skip_bom-EndsLine (a ∷ b ∷ c ∷ []) h = ground arith
skip_bom-EndsLine (a ∷ b ∷ c ∷ d ∷ rest) h = ground arith

length-skip_bom : (t : List ℕ) → length (skip_bom t) ≤ length t
unfolding skip_bom
length-skip_bom [] = omega arith
length-skip_bom (a ∷ []) = ground arith
length-skip_bom (a ∷ b ∷ []) = ground arith
length-skip_bom (a ∷ b ∷ c ∷ rest) = ground arith

canonicalize_newline-EndsLine : (t : List ℕ) → EndsLine t → EndsLine (canonicalize_newline t)
unfolding canonicalize_newline
canonicalize_newline-EndsLine [] h = h
canonicalize_newline-EndsLine (c ∷ []) h = ground arith
canonicalize_newline-EndsLine (c ∷ d ∷ []) h = ground arith
canonicalize_newline-EndsLine (c ∷ d ∷ e ∷ rest) h = ground (
  arith,
  canonicalize_newline-EndsLine (e ∷ rest) h,
  canonicalize_newline-EndsLine (d ∷ e ∷ rest) h,
  EndsLine-append (newline ∷ []) (canonicalize_newline (e ∷ rest)),
  EndsLine-append (newline ∷ []) (canonicalize_newline (d ∷ e ∷ rest)),
  EndsLine-append (c ∷ []) (canonicalize_newline (d ∷ e ∷ rest)),
)

replicate-EndsLine : (n : ℕ) → EndsLine (replicate (suc n) newline)
replicate-EndsLine zero = refl
replicate-EndsLine (suc n) = replicate-EndsLine n

cases : (t : List ℕ) → (t ≡ []) ⊎ (t ≢ [])
cases [] = inl refl
cases (c ∷ cs) = inr (λ e. cc)

EndsLine-tail : (d : ℕ) (rest : List ℕ) → rest ≢ [] → EndsLine (d ∷ rest) → EndsLine rest
EndsLine-tail d [] n h = absurd (n refl)
EndsLine-tail d (e ∷ rest) n h = h

splice_loop-EndsLine : (n : ℕ) (t : List ℕ) → EndsLine t → EndsLine (splice_loop n t)
unfolding splice_loop
splice_loop-EndsLine n [] h = absurd h
splice_loop-EndsLine zero (c ∷ []) h = h
splice_loop-EndsLine (suc n) (c ∷ []) h = replicate-EndsLine n
splice_loop-EndsLine n (c ∷ d ∷ rest) h = elim (Bool-cases (c == backslash && d == newline)) [
  | inl e ↦ rw e (elim (cases rest) [
    | inl z ↦ rw z (replicate-EndsLine n)
    | inr z ↦ splice_loop-EndsLine (suc n) rest (EndsLine-tail d rest z h)
  ])
  | inr e ↦ rw e (elim (Bool-cases (c == newline)) [
    | inl f ↦ rw f (
        EndsLine-append (newline ∷ replicate n newline) (splice_loop 0 (d ∷ rest))
          (splice_loop-EndsLine 0 (d ∷ rest) h))
    | inr f ↦
        rw f (
          EndsLine-append (c ∷ []) (splice_loop n (d ∷ rest)) (splice_loop-EndsLine n (d ∷ rest) h))
  ])
]

remove_backslash_newline-EndsLine :
    (t : List ℕ) → EndsLine t → EndsLine (remove_backslash_newline t)
unfolding remove_backslash_newline
remove_backslash_newline-EndsLine t h = splice_loop-EndsLine 0 t h

-- None of the bytes is NUL.
unfoldable pub lacks_nul : List ℕ → Bool
lacks_nul [] = true
lacks_nul (c ∷ p) = not (c == 0) && lacks_nul p

terminate-lacks_nul : (raw : List ℕ) → lacks_nul raw ≡ true → lacks_nul (terminate raw) ≡ true
unfolding terminate lacks_nul
terminate-lacks_nul [] h = refl
terminate-lacks_nul (c ∷ []) h = ground arith
terminate-lacks_nul (c ∷ d ∷ rest) h = ground (arith, terminate-lacks_nul (d ∷ rest))

skip_bom-lacks_nul : (t : List ℕ) → lacks_nul t ≡ true → lacks_nul (skip_bom t) ≡ true
unfolding skip_bom lacks_nul
skip_bom-lacks_nul [] h = h
skip_bom-lacks_nul (a ∷ []) h = ground arith
skip_bom-lacks_nul (a ∷ b ∷ []) h = ground arith
skip_bom-lacks_nul (a ∷ b ∷ c ∷ rest) h = ground arith

up_to_nul-all : (t : List ℕ) → lacks_nul t ≡ true → up_to_nul t ≡ t
unfolding up_to_nul lacks_nul
up_to_nul-all [] h = refl
up_to_nul-all (c ∷ t) h =
    let z : (c == 0) ≡ false = ground arith in
    let l : lacks_nul t ≡ true = ground arith in rw (z, up_to_nul-all t l) refl

-- Whatever bytes a file holds, if none of them is NUL, its text is prepared without a read past its
-- end; it ends with a newline, and has at most a byte more than the file.
pub prepare-Fits : (raw : List ℕ) → lacks_nul raw ≡ true → Fits (terminate raw) (prepare raw)
unfolding prepare
prepare-Fits raw l =
    let t = terminate raw in
    let b = skip_bom t in
    let c = canonicalize_newline b in
    let s = remove_backslash_newline c in
    let e = skip_bom-EndsLine t (terminate-EndsLine raw) in
    rw (up_to_nul-all b (skip_bom-lacks_nul t (terminate-lacks_nul raw l))) (
      Fits-weaken s t (convert_universal_chars s)
        (omega (
          arith,
          length-skip_bom t,
          length-canonicalize_newline b,
          (remove_backslash_newline-count c).1,
        ))
        (convert_universal_chars-Fits s
          (remove_backslash_newline-EndsLine c (canonicalize_newline-EndsLine b e))))
